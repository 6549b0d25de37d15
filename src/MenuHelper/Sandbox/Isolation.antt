-- ===== src/MenuHelper/Sandbox/Isolation.antt =====
-- What the game does in a sandbox stays in it.
use xenomods.Base.{
  ℕ, true, false, not, ◌||◌, ◌==◌, List, [], ◌∷◌, if◌then◌else◌, ◌≡◌, refl, arith, if-elim,
}
use xenomods.MenuHelper.{StorePointer, game_store, sandbox_store, SandboxState}
use xenomods.MenuHelper.Sandbox.{
  is_null, is_sandbox, begin_sandbox_data, discard_sandbox_data, freeze_sandbox_data,
}

-- What happens while a menu is open: the game writes its save data through the singleton, or the
-- update of the helper freezes the copy.
pub data SandboxStep : Type 0 where
  game_writes : List ℕ → SandboxStep
  frozen : SandboxStep

unfoldable pub write_store : StorePointer → List ℕ → SandboxState → SandboxState
write_store (game_store a) v s = record s {
  game_stores = λ b. if b == a then v else s.game_stores b;
}
write_store sandbox_store v s = record s { sandbox_data_store = v }

unfoldable pub sandbox_step : SandboxStep → SandboxState → SandboxState
unfolding write_store
sandbox_step (game_writes v) s = write_store s.singleton v s
sandbox_step frozen s = freeze_sandbox_data s

unfoldable pub sandbox_run : List SandboxStep → SandboxState → SandboxState
sandbox_run [] s = s
sandbox_run (e ∷ es) s = sandbox_run es (sandbox_step e s)

-- The state within a sandbox that was entered from another state.
record Within (s t : SandboxState) : Type 0 where
  found : t.singleton_found ≡ true
  inside : t.singleton ≡ sandbox_store
  stores : t.game_stores ≡ s.game_stores
  real : t.real_data_store ≡ s.singleton
  active : t.sandbox_data_active ≡ true

write-Within :
    (p : StorePointer) (s t : SandboxState) (v : List ℕ)
    → p ≡ sandbox_store
    → Within s t
    → Within s (write_store p v t)
unfolding write_store
write-Within (game_store a) s t v e w = cc
write-Within sandbox_store s t v e w = record {
  found = w.found;
  inside = w.inside;
  stores = w.stores;
  real = w.real;
  active = w.active;
}

freeze-Within : (s t : SandboxState) → Within s t → Within s (freeze_sandbox_data t)
unfolding freeze_sandbox_data
freeze-Within s t w =
    if-elim (Within s)
      (not t.sandbox_data_active
        || not t.singleton_found
        || is_null t.real_data_store
        || not (is_sandbox t.singleton))
      w
      (record {
        found = w.found;
        inside = w.inside;
        stores = w.stores;
        real = w.real;
        active = w.active;
      })

run-Within : (es : List SandboxStep) (s t : SandboxState) → Within s t → Within s (sandbox_run es t)
unfolding sandbox_run sandbox_step
run-Within [] s t w = w
run-Within (game_writes v ∷ es) s t w =
    run-Within es s _ (write-Within t.singleton s t v w.inside w)
run-Within (frozen ∷ es) s t w = run-Within es s _ (freeze-Within s t w)

begin-Within :
    (s : SandboxState)
    → s.sandbox_data_active ≡ false
    → (begin_sandbox_data s).1 ≡ true
    → Within s (begin_sandbox_data s).0
unfolding begin_sandbox_data
begin-Within s off begun = record {
  found = ground (arith, off, begun);
  inside = ground (arith, off, begun);
  stores = ground (arith, off, begun);
  real = ground (arith, off, begun);
  active = ground (arith, off, begun);
}

discard-Within :
    (s t : SandboxState)
    → Within s t
    → ((discard_sandbox_data t).game_stores ≡ s.game_stores)
      × ((discard_sandbox_data t).singleton ≡ s.singleton)
      × ((discard_sandbox_data t).sandbox_data_active ≡ false)
unfolding discard_sandbox_data
discard-Within s t w = (
  rw (discard_sandbox_data, w.active) w.stores,
  rw (discard_sandbox_data, w.active, w.found, w.inside) w.real,
  rw (discard_sandbox_data, w.active) refl,
)

-- Once a sandbox has begun, whatever the game writes and however often the copy is frozen, its own
-- stores stay as they were; the discard then points the game at its own store again.
pub sandbox-restores :
    (s : SandboxState) (es : List SandboxStep)
    → s.sandbox_data_active ≡ false
    → (begin_sandbox_data s).1 ≡ true
    → let t = discard_sandbox_data (sandbox_run es (begin_sandbox_data s).0) in
      (t.game_stores ≡ s.game_stores)
      × (t.singleton ≡ s.singleton)
      × (t.sandbox_data_active ≡ false)
sandbox-restores s es off begun = discard-Within s _ (run-Within es s _ (begin-Within s off begun))
