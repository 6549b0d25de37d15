-- ===== src/Targeting/Names.antt =====
-- NormalizeTargetNames and RouteNumber: the names of the position targets of a route.
pub mod Numbering
use xenomods.Base.{
  ℕ, zero, suc, Bool, true, false, not, ◌&&◌, ◌||◌, ◌==◌, List, [], ◌∷◌, if◌then◌else◌, ◌≡◌, refl,
  Option, some, none, ap, arith, Bool-cases, inl, inr, ◌+◌, ◌∙◌, sym, ◌↔◌, ==_iff, Text, same_text,
}
use xenomods.Targeting.{TargetData, is_position}

-- "Unknown"
abbrev pub unknown_map : Text
unknown_map = 85 ∷ 110 ∷ 107 ∷ 110 ∷ 111 ∷ 119 ∷ 110 ∷ []

-- The map name that a target is named after.
unfoldable pub naming_map : TargetData → Text
naming_map t = elim t.map_name [ [] ↦ unknown_map | (c ∷ cs) ↦ c ∷ cs ]

-- mapOrdinals, and the increment of one of its entries.
abbrev pub Ordinals : Type 0
Ordinals = ℕ → ℕ

unfoldable pub count_one : ℕ → Ordinals → Ordinals
count_one m ords k = if k == m then suc (ords k) else ords k

-- fmt::format("{} Target {}", mapName, ordinal) is the argument `format`.
module _ (format : Text → ℕ → Text) where
  -- The loop of NormalizeTargetNames over the entries that are left, and whether it changed one.
  unfoldable pub normalize_from : Ordinals → List TargetData → List TargetData × Bool
  normalize_from ords [] = ([], false)
  normalize_from ords (t ∷ ts) =
      let ords' = count_one t.map_id ords in
      let canonical = format (naming_map t) (ords' t.map_id) in
      let rest = normalize_from (if is_position t.type then ords' else ords) ts in
      if not (is_position t.type)
      then (t ∷ rest.0, rest.1)
      else if same_text t.name canonical
      then (t ∷ rest.0, rest.1)
      else (record t { name = canonical } ∷ rest.0, true)

  -- NormalizeTargetNames
  unfoldable pub normalize_target_names : List TargetData → List TargetData × Bool
  normalize_target_names ts = normalize_from (λ _. 0) ts
