-- ===== src/Targeting/Splits/Naming.antt =====
-- A number of a target that naming it anew does not change.
use xenomods.Base.{
  ℕ, zero, suc, Bool, not, List, [], ◌∷◌, if◌then◌else◌, ◌≡◌, refl, none, some, get_elem?, Text,
  if-elim, same_text,
}
use xenomods.Targeting.{TargetData, is_position}
use xenomods.Targeting.Names.{Ordinals, count_one, naming_map, normalize_from}

-- A number of the target at an index; 0 when there is none.
unfoldable pub value_at : (TargetData → ℕ) → List TargetData → ℕ → ℕ
value_at value ts i = elim (get_elem? ts i) [ none ↦ 0 | some t ↦ value t ]

same_head :
    (value : TargetData → ℕ) (t u : TargetData) (ts us : List TargetData) (i : ℕ)
    → value u ≡ value t
    → ((j : ℕ) → value_at value us j ≡ value_at value ts j)
    → value_at value (u ∷ us) i ≡ value_at value (t ∷ ts) i
unfolding value_at
same_head value t u ts us zero e f = e
same_head value t u ts us (suc i) e f = f i

pub value_at-normalize_from :
    (value : TargetData → ℕ)
    → ((t : TargetData) (name : Text) → value (record t { name = name }) ≡ value t)
    → (format : Text → ℕ → Text) (ords : Ordinals) (ts : List TargetData) (i : ℕ)
    → value_at value (normalize_from format ords ts).0 i ≡ value_at value ts i
unfolding value_at normalize_from
value_at-normalize_from value unnamed format ords [] i = refl
value_at-normalize_from value unnamed format ords (t ∷ ts) i =
    let P : List TargetData × Bool → Type 0 =
      λ r. value_at value r.0 i ≡ value_at value (t ∷ ts) i in
    let ords' : Ordinals = if is_position t.type then count_one t.map_id ords else ords in
    let rest = (normalize_from format ords' ts).0 in
    let f = value_at-normalize_from value unnamed format ords' ts in
    let renamed : TargetData = record t {
      name = format (naming_map t) (count_one t.map_id ords t.map_id);
    } in
    if-elim P (not (is_position t.type)) (same_head value t t ts rest i refl f) (
      if-elim P (same_text t.name (format (naming_map t) (count_one t.map_id ords t.map_id)))
        (same_head value t t ts rest i refl f)
        (same_head value t renamed ts rest i (unnamed t renamed.name) f))
