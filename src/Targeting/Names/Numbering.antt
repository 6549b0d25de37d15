-- ===== src/Targeting/Names/Numbering.antt =====
-- What the names of NormalizeTargetNames are.
use xenomods.Base.{
  Text, same_text, same_text-eq, same_text_self, ℕ, zero, suc, Bool, true, false, ◌&&◌, List, [],
  ◌∷◌, if◌then◌else◌, ◌≡◌, refl, some, ap, arith, Bool-cases, inl, inr, ◌+◌, ◌∙◌, sym, get_elem?,
  take,
}
use mathlib.Core.Option.{some_inj, none-ne-some}
use xenomods.Targeting.{TargetData, is_position}
use xenomods.Targeting.Names.{
  naming_map, Ordinals, count_one, normalize_from, normalize_target_names,
}
use xenomods.Targeting.Entries.{count_positions, route_number, on_map}

-- A position target with the name that the format gives its number; any other entry as it is.
unfoldable pub numbered : (Text → ℕ → Text) → ℕ → TargetData → TargetData
numbered format n t = if is_position t.type then record t { name = format (naming_map t) n } else t

module _ (format : Text → ℕ → Text) where
  same-name : (t : TargetData) (c : Text) → same_text t.name c ≡ true → record t { name = c } ≡ t
  same-name t c h = ap (λ (n : Text). record t { name = n }) (sym (same_text-eq t.name c h))

  -- What one step of the loop does to the first entry.
  normalize-tail :
      (ords : Ordinals) (u : TargetData) (us : List TargetData)
      → (normalize_from format ords (u ∷ us)).0
        ≡ numbered format (count_one u.map_id ords u.map_id) u
          ∷ (normalize_from format
              (if is_position u.type then count_one u.map_id ords else ords)
              us).0
  unfolding normalize_from numbered
  normalize-tail ords u us = elim (Bool-cases (is_position u.type)) [
    | inr other ↦ rw other refl
    | inl position ↦
        elim (Bool-cases
          (same_text u.name (format (naming_map u) (count_one u.map_id ords u.map_id)))) [
            | inl same ↦
                rw (position, same)
                  (ap
                    (λ (v : TargetData). v ∷ (normalize_from format (count_one u.map_id ords) us).0)
                    (sym (same-name u _ same)))
            | inr new ↦ rw (position, new) refl
          ]
  ]

  count-step :
      (ords : Ordinals) (u : TargetData) (m n : ℕ)
      → (if is_position u.type then count_one u.map_id ords else ords) m + n
        ≡ ords m + (if on_map m u && is_position u.type then suc n else n)
  unfolding count_one on_map
  count-step ords u m n = ground arith

  count-here :
      (ords : Ordinals) (u : TargetData)
      → numbered format (count_one u.map_id ords u.map_id) u
        ≡ numbered format (ords u.map_id + count_positions u.map_id (u ∷ [])) u
  unfolding numbered count_one count_positions on_map
  count-here ords u = elim (Bool-cases (is_position u.type)) [
    | inr other ↦ rw other refl
    | inl position ↦
        rw position (ap (λ (n : ℕ). record u { name = format (naming_map u) n }) (ground arith))
  ]

  get-normalize_from :
      (ords : Ordinals) (ts : List TargetData) (i : ℕ) (t : TargetData)
      → get_elem? ts i ≡ some t
      → get_elem? (normalize_from format ords ts).0 i
        ≡ some (numbered format (ords t.map_id + count_positions t.map_id (take (suc i) ts)) t)
  unfolding count_positions
  get-normalize_from ords [] i t h = absurd (none-ne-some t h)
  get-normalize_from ords (u ∷ us) zero t h =
      rw (normalize-tail ords u us, sym (some_inj.0 h)) (ap some (count-here ords u))
  get-normalize_from ords (u ∷ us) (suc i) t h = rw (normalize-tail ords u us) (
      get-normalize_from (if is_position u.type then count_one u.map_id ords else ords) us i t h
      ∙ ap (λ (n : ℕ). some (numbered format n t))
          (count-step ords u t.map_id (count_positions t.map_id (take (suc i) us))))

  -- A second pass over a numbered entry leaves it alone.
  normalize-numbered :
      (ords : Ordinals) (u : TargetData) (vs : List TargetData)
      → normalize_from format ords (numbered format (count_one u.map_id ords u.map_id) u ∷ vs) ≡ (
        numbered format (count_one u.map_id ords u.map_id) u
            ∷ (normalize_from format
                (if is_position u.type then count_one u.map_id ords else ords)
                vs).0,
        (normalize_from format (if is_position u.type then count_one u.map_id ords else ords) vs).1,
      )
  unfolding normalize_from numbered same_text naming_map count_one
  normalize-numbered ords u vs = elim (Bool-cases (is_position u.type)) [
    | inr other ↦ rw (other, other) refl
    | inl position ↦ rw (position, position, same_text_self _) refl
  ]

  -- The loop changes nothing in its own result, counted from the same ordinals.
  normalize_from-again :
      (ords : Ordinals) (ts : List TargetData)
      → normalize_from format ords (normalize_from format ords ts).0
        ≡ ((normalize_from format ords ts).0, false)
  unfolding normalize_from
  normalize_from-again ords [] = refl
  normalize_from-again ords (u ∷ us) =
      rw (normalize-tail ords u us, normalize-numbered ords u)
        (ap
          (λ (r : List TargetData × Bool).
            (numbered format (count_one u.map_id ords u.map_id) u ∷ r.0, r.1))
          (normalize_from-again (if is_position u.type then count_one u.map_id ords else ords) us))

  -- NormalizeTargetNames names the position target at an index by its map's name, or "Unknown",
  -- and by the number that RouteNumber gives that index; every other entry keeps its place and
  -- its fields. A second call reports that it changed nothing, and changes nothing.
  pub normalize-route_number :
      (ts : List TargetData) (i : ℕ) (t : TargetData)
      → get_elem? ts i ≡ some t
      → (get_elem? (normalize_target_names format ts).0 i
          ≡ some (numbered format (route_number (some i) ts) t))
        × (normalize_target_names format (normalize_target_names format ts).0
            ≡ ((normalize_target_names format ts).0, false))
  unfolding normalize_target_names route_number
  normalize-route_number ts i t h = (
    get-normalize_from (λ _. 0) ts i t h
        ∙ ap (λ (n : ℕ). some (numbered format n t)) (rw (h, route_number) (omega arith)),
    normalize_from-again (λ _. 0) ts,
  )
