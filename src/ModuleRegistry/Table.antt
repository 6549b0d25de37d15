-- ===== src/ModuleRegistry/Table.antt =====
-- The table that the registrars of src/xenomods/modules/UpdatableModule.hpp fill.
use xenomods.Base.{
  ℕ, zero, suc, ◌-◌, ◌≤◌, ◌<◌, ◌==◌, leb, ◌≡◌, refl, sym, ◌∙◌, ap, List, [], ◌∷◌, ◌++◌, length,
  take, Text, if◌then◌else◌, arith, suc_less, Bool-cases, inl, inr,
}
use mathlib.Core.List.{append-nil, append_assoc}
use xenomods.ModuleRegistry.{
  RegisteredModule, max_modules, local_name, register_module, registrar, run_registrars,
}

-- The modules that are there, with their names in the namespace.
abbrev pub present : List (Text × ℕ) → List RegisteredModule
present [] = []
present ((name, updatable) ∷ rest) =
    if updatable == 0
    then present rest
    else record { name = local_name name; module_ptr = updatable } ∷ present rest

take_nil {ℓ} : {A : Type ℓ} (n : ℕ) → take {A = A} n [] ≡ []
take_nil zero = refl
take_nil (suc n) = refl

length-append_one {ℓ} : {A : Type ℓ} (a : List A) (x : A) → length (a ++ x ∷ []) ≡ suc (length a)
length-append_one [] x = refl
length-append_one (y ∷ a) x = ap suc (length-append_one a x)

take-suc {ℓ} :
    {A : Type ℓ} (n : ℕ) (x : A) (a : List A) → 0 < n → take n (x ∷ a) ≡ x ∷ take (n - 1) a
take-suc zero x a h = absurd (omega (arith, h))
take-suc (suc n) x a h = rw (suc_less n) refl

take-full {ℓ} : {A : Type ℓ} (n : ℕ) (a : List A) → n ≡ 0 → take n a ≡ []
take-full n a e = rw e refl

-- One registration of a module that is there, before others.
register-take :
    (r : RegisteredModule) (table more : List RegisteredModule)
    → length table < max_modules
    → (table ++ r ∷ []) ++ take (max_modules - length (table ++ r ∷ [])) more
      ≡ table ++ take (max_modules - length table) (r ∷ more)
register-take r table more h =
    append_assoc table (r ∷ []) (take (max_modules - length (table ++ r ∷ [])) more)
    ∙ ap (λ n. table ++ r ∷ take n more) (rw length-append_one (omega arith))
    ∙ ap (◌++◌ table) (sym (take-suc (max_modules - length table) r more (omega (arith, h))))

-- The table after the registrars, from a table on.
run_registrars-append :
    (registered : List (Text × ℕ)) (table : List RegisteredModule)
    → length table ≤ max_modules
    → run_registrars registered table
      ≡ table ++ take (max_modules - length table) (present registered)
unfolding run_registrars registrar register_module
run_registrars-append [] table h =
    sym (append-nil table) ∙ ap (◌++◌ table) (sym (take_nil (max_modules - length table)))
run_registrars-append ((name, updatable) ∷ rest) table h = elim (Bool-cases (updatable == 0)) [
  | inl e ↦ rw e (run_registrars-append rest table h)
  | inr e ↦ rw e (elim (Bool-cases (leb max_modules (length table))) [
    | inl full ↦ rw full (
        run_registrars-append rest table h
        ∙ ap (◌++◌ table) (
            take-full (max_modules - length table) (present rest) (ground arith)
            ∙ sym (
                take-full (max_modules - length table)
                  (record { name = local_name name; module_ptr = updatable } ∷ present rest)
                  (ground arith))))
    | inr room ↦
        let r : RegisteredModule = record { name = local_name name; module_ptr = updatable } in
        rw room (
          run_registrars-append rest (table ++ r ∷ []) (rw length-append_one (ground arith))
          ∙ register-take r table (present rest) (ground arith))
  ])
]

-- Whatever modules are registered, the table holds the first 32 of those that are there, in the
-- order in which they were registered and under their names in the namespace; the others are
-- left out.
pub run_registrars-present :
    (registered : List (Text × ℕ))
    → run_registrars registered [] ≡ take max_modules (present registered)
run_registrars-present registered = run_registrars-append registered [] (omega arith)
