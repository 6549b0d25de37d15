-- ===== src/ModuleRegistry.antt =====
-- The modules of the program: src/xenomods/modules/UpdatableModule.cpp and UpdatableModule.hpp. A module is
-- the number of its address, and the table is the list of its first moduleIndex entries.
pub mod Table
mod Examples
use xenomods.Base.{
  ℕ, zero, suc, ◌+◌, Bool, true, false, not, ◌&&◌, ◌||◌, ◌==◌, leb, List, [], ◌∷◌, ◌++◌, length,
  drop, Text, same_text, starts_with, if◌then◌else◌,
}

-- RegisteredModule
pub record RegisteredModule : Type 0 where
  pub name : Text
  pub module_ptr : ℕ

-- MAX_MODULES
abbrev pub max_modules : ℕ
max_modules = 32

-- "xenomods::"
abbrev pub namespace_text : Text
namespace_text = 120 ∷ 101 ∷ 110 ∷ 111 ∷ 109 ∷ 111 ∷ 100 ∷ 115 ∷ 58 ∷ 58 ∷ []

-- A name without its namespace.
unfoldable pub local_name : Text → Text
local_name name = if starts_with namespace_text name then drop 10 name else name

unfoldable pub register_module :
    (name : Text) → (module_ptr : ℕ) → List RegisteredModule → List RegisteredModule
register_module name module_ptr table =
    if module_ptr == 0 || leb max_modules (length table)
    then table
    else table ++ record { name = name; module_ptr = module_ptr } ∷ []

-- ModuleRegistrar
unfoldable pub registrar :
    (name : Text) → (updatable : ℕ) → List RegisteredModule → List RegisteredModule
unfolding local_name register_module
registrar name updatable table = register_module (local_name name) updatable table

-- The static registrars of the program, in the order in which they run.
unfoldable pub run_registrars : List (Text × ℕ) → List RegisteredModule → List RegisteredModule
unfolding registrar
run_registrars [] table = table
run_registrars ((name, updatable) ∷ rest) table =
    run_registrars rest (registrar name updatable table)

-- The loop of IsModuleRegistered.
unfoldable pub has_module : Text → List RegisteredModule → Bool
has_module name [] = false
has_module name (r ∷ rest) = same_text r.name name || has_module name rest

unfoldable pub is_module_registered : Text → List RegisteredModule → Bool
unfolding local_name has_module
is_module_registered name table = has_module (local_name name) table

-- The virtual functions of the modules, on the state that they work on.
pub record ModuleFunctions {ℓ} (S : Type ℓ) : Type ℓ where
  pub initialize : ℕ → S → S
  pub needs_update : ℕ → S → Bool
  pub updates_during_scene_transition : ℕ → S → Bool
  pub update : ℕ → S → S
  pub has_initialized : ℕ → S → Bool
  pub on_config_update : ℕ → S → S
  pub on_scene_transition : ℕ → S → S
  pub on_map_change : ℕ → S → S

module _ {ℓ} {S : Type ℓ} (f : ModuleFunctions S) where
  -- InitializeAllRegisteredModules
  unfoldable pub initialize_all : List RegisteredModule → S → S
  initialize_all [] s = s
  initialize_all (r ∷ rest) s = initialize_all rest (f.initialize r.module_ptr s)

  -- One module of UpdateAllRegisteredModules; whether a transition is active is asked once.
  unfoldable pub update_module : (transition : Bool) → RegisteredModule → S → S
  update_module transition r s =
      if f.needs_update r.module_ptr s
        && (not transition || f.updates_during_scene_transition r.module_ptr s)
      then f.update r.module_ptr s
      else s

  unfoldable pub update_all : (transition : Bool) → List RegisteredModule → S → S
  unfolding update_module
  update_all transition [] s = s
  update_all transition (r ∷ rest) s = update_all transition rest (update_module transition r s)

  -- The loop of the last three functions, which leave out what has not been initialized.
  unfoldable pub notify_initialized : (ℕ → S → S) → List RegisteredModule → S → S
  notify_initialized notify [] s = s
  notify_initialized notify (r ∷ rest) s =
      notify_initialized notify rest
        (if f.has_initialized r.module_ptr s then notify r.module_ptr s else s)

  unfoldable pub config_update_all : List RegisteredModule → S → S
  unfolding notify_initialized
  config_update_all table s = notify_initialized f.on_config_update table s

  unfoldable pub scene_transition_all : List RegisteredModule → S → S
  unfolding notify_initialized
  scene_transition_all table s = notify_initialized f.on_scene_transition table s

  unfoldable pub map_change_all : List RegisteredModule → S → S
  unfolding notify_initialized
  map_change_all table s = notify_initialized f.on_map_change table s
