-- ===== src/ModuleRegistry/Examples.antt =====
-- Two registrars, one of a module that is not there.
use xenomods.Base.{ℕ, ◌≡◌, List, [], ◌∷◌, Text, take}
use xenomods.ModuleRegistry.{run_registrars, namespace_text, max_modules}
use xenomods.ModuleRegistry.Table.{present, run_registrars-present}

abbrev registrations : List (Text × ℕ)
registrations = (120 ∷ 101 ∷ 65 ∷ [], 4096) ∷ (namespace_text, 0) ∷ (66 ∷ [], 8192) ∷ []

run_registrars-present_example :
    run_registrars registrations [] ≡ take max_modules (present registrations)
run_registrars-present_example = run_registrars-present registrations
