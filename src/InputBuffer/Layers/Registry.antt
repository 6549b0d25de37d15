-- ===== src/InputBuffer/Layers/Registry.antt =====
-- The registration table as a map from layers to handles.
use xenomods.Base.{ℕ, Bool, false, true, ◌||◌, ◌==◌, List, [], ◌∷◌, ◌≡◌, ◌≢◌, refl, arith, length}
use xenomods.InputBuffer.State.{LayerRegistration}
use xenomods.InputBuffer.Layers.{
  overwrite_match, has_match, fill_free, register_in, release_in, handle_in,
}

-- A slot without a layer has no handle.
abbrev pub IsTidy : List LayerRegistration → Type 0
IsTidy [] = Unit {0}
IsTidy (r ∷ rs) = (r.layer ≡ 0 → r.handle ≡ 0) × IsTidy rs

-- Whether some slot has no layer.
unfoldable pub has_free : List LayerRegistration → Bool
has_free [] = false
has_free (r ∷ rs) = r.layer == 0 || has_free rs

overwrite_match-IsTidy :
    (l h : ℕ) (rs : List LayerRegistration) → l ≢ 0 → IsTidy rs → IsTidy (overwrite_match l h rs)
unfolding overwrite_match
overwrite_match-IsTidy l h [] p t = tt
overwrite_match-IsTidy l h (r ∷ rs) p t = ground (arith, overwrite_match-IsTidy l h rs p t.1)

fill_free-IsTidy :
    (l h : ℕ) (rs : List LayerRegistration) → l ≢ 0 → IsTidy rs → IsTidy (fill_free l h rs)
unfolding fill_free
fill_free-IsTidy l h [] p t = tt
fill_free-IsTidy l h (r ∷ rs) p t = ground (arith, fill_free-IsTidy l h rs p t.1)

register_in-IsTidy :
    (l h : ℕ) (rs : List LayerRegistration) → IsTidy rs → IsTidy (register_in l h rs)
unfolding register_in
register_in-IsTidy l h rs t = ground (arith, overwrite_match-IsTidy l h rs, fill_free-IsTidy l h rs)

release_in-IsTidy : (h : ℕ) (rs : List LayerRegistration) → IsTidy rs → IsTidy (release_in h rs)
unfolding release_in
release_in-IsTidy h [] t = tt
release_in-IsTidy h (r ∷ rs) t = ground (arith, release_in-IsTidy h rs t.1)

handle-overwrite :
    (l h : ℕ) (rs : List LayerRegistration)
    → has_match l h rs ≡ true
    → handle_in l (overwrite_match l h rs) ≡ h
unfolding has_match overwrite_match handle_in
handle-overwrite l h [] m = cc
handle-overwrite l h (r ∷ rs) m = ground (arith, handle-overwrite l h rs)

handle-fill :
    (l h : ℕ) (rs : List LayerRegistration)
    → has_match l h rs ≡ false
    → has_free rs ≡ true
    → handle_in l (fill_free l h rs) ≡ h
unfolding has_match fill_free handle_in has_free
handle-fill l h [] m f = cc
handle-fill l h (r ∷ rs) m f = ground (arith, handle-fill l h rs)

-- Registering a layer makes its handle the one that is looked up, as long as the table has a slot
-- for it: one of the layer, one of the handle, or a free one.
handle_in-register_in :
    (l h : ℕ) (rs : List LayerRegistration)
    → l ≢ 0
    → h ≢ 0
    → (has_match l h rs || has_free rs) ≡ true
    → handle_in l (register_in l h rs) ≡ h
unfolding register_in
handle_in-register_in l h rs p q room = ground (arith, handle-overwrite l h rs, handle-fill l h rs)

-- After a release the handle is nobody's: no layer, and not the null pointer, has it.
handle_in-release_in :
    (l h : ℕ) (rs : List LayerRegistration) → h ≢ 0 → handle_in l (release_in h rs) ≢ h
unfolding release_in handle_in
handle_in-release_in l h [] p = λ e. p (ground arith)
handle_in-release_in l h (r ∷ rs) p = ground (arith, handle_in-release_in l h rs p)

overwrite-other :
    (l l' h : ℕ) (rs : List LayerRegistration)
    → l' ≢ l
    → handle_in l' rs ≢ h
    → handle_in l' (overwrite_match l h rs) ≡ handle_in l' rs
unfolding overwrite_match handle_in
overwrite-other l l' h [] p q = refl
overwrite-other l l' h (r ∷ rs) p q = ground (arith, overwrite-other l l' h rs)

fill-other :
    (l l' h : ℕ) (rs : List LayerRegistration)
    → l' ≢ l
    → l' ≢ 0
    → handle_in l' (fill_free l h rs) ≡ handle_in l' rs
unfolding fill_free handle_in
fill-other l l' h [] p q = refl
fill-other l l' h (r ∷ rs) p q = ground (arith, fill-other l l' h rs)

-- Registering one layer leaves the handle of another, unless that other layer had the very handle
-- that is registered.
handle_in-register_other :
    (l l' h : ℕ) (rs : List LayerRegistration)
    → l' ≢ l
    → l' ≢ 0
    → handle_in l' rs ≢ h
    → handle_in l' (register_in l h rs) ≡ handle_in l' rs
unfolding register_in
handle_in-register_other l l' h rs p z q =
    ground (arith, overwrite-other l l' h rs, fill-other l l' h rs)

-- When there is room for it, a layer has the handle that is registered for it, another layer keeps
-- its own unless that is the same handle, and after the release of the handle the layer has it no
-- longer.
pub handle_in-registry :
    (l l' h : ℕ) (rs : List LayerRegistration)
    → l ≢ 0
    → h ≢ 0
    → (has_match l h rs || has_free rs) ≡ true
    → l' ≢ l
    → l' ≢ 0
    → handle_in l' rs ≢ h
    → (handle_in l (register_in l h rs) ≡ h)
      × (handle_in l' (register_in l h rs) ≡ handle_in l' rs)
      × (handle_in l (release_in h (register_in l h rs)) ≢ h)
handle_in-registry l l' h rs p q room other z kept = (
  handle_in-register_in l h rs p q room,
  handle_in-register_other l l' h rs other z kept,
  handle_in-release_in l h (register_in l h rs) q,
)

handle_in-null : (rs : List LayerRegistration) → IsTidy rs → handle_in 0 rs ≡ 0
unfolding handle_in
handle_in-null [] t = refl
handle_in-null (r ∷ rs) t = ground (arith, handle_in-null rs t.1)

-- What the game does to the table.
pub data RegistryEvent : Type 0 where
  registers : (layer handle : ℕ) → RegistryEvent
  releases : (handle : ℕ) → RegistryEvent

pub registry_step : RegistryEvent → List LayerRegistration → List LayerRegistration
registry_step (registers layer handle) rs = register_in layer handle rs
registry_step (releases handle) rs = release_in handle rs

pub registry_run : List RegistryEvent → List LayerRegistration → List LayerRegistration
registry_run [] rs = rs
registry_run (e ∷ es) rs = registry_run es (registry_step e rs)

length-overwrite :
    (l h : ℕ) (rs : List LayerRegistration) → length (overwrite_match l h rs) ≡ length rs
unfolding overwrite_match
length-overwrite l h [] = refl
length-overwrite l h (r ∷ rs) = ground (arith, length-overwrite l h rs)

length-fill : (l h : ℕ) (rs : List LayerRegistration) → length (fill_free l h rs) ≡ length rs
unfolding fill_free
length-fill l h [] = refl
length-fill l h (r ∷ rs) = ground (arith, length-fill l h rs)

length-release : (h : ℕ) (rs : List LayerRegistration) → length (release_in h rs) ≡ length rs
unfolding release_in
length-release h [] = refl
length-release h (r ∷ rs) = ground (arith, length-release h rs)

length-step :
    (e : RegistryEvent) (rs : List LayerRegistration) → length (registry_step e rs) ≡ length rs
unfolding registry_step register_in
length-step (registers l h) rs = ground (arith, length-overwrite l h rs, length-fill l h rs)
length-step (releases h) rs = length-release h rs

step-IsTidy :
    (e : RegistryEvent) (rs : List LayerRegistration) → IsTidy rs → IsTidy (registry_step e rs)
unfolding registry_step
step-IsTidy (registers l h) rs t = register_in-IsTidy l h rs t
step-IsTidy (releases h) rs t = release_in-IsTidy h rs t

-- Whatever layers are registered and released, the table keeps its size and the null pointer has
-- no handle.
pub registry_run-null :
    (es : List RegistryEvent) (rs : List LayerRegistration)
    → IsTidy rs
    → (length (registry_run es rs) ≡ length rs) × (handle_in 0 (registry_run es rs) ≡ 0)
unfolding registry_run
registry_run-null [] rs t = (refl, handle_in-null rs t)
registry_run-null (e ∷ es) rs t =
    rw (← length-step e rs) (registry_run-null es (registry_step e rs) (step-IsTidy e rs t))
