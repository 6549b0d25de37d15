-- ===== src/Targeting/Entries/Search.antt =====
-- What the searching loops of a route find, and the order in which they visit a map's entries.
use xenomods.Base.{
  ℕ, zero, suc, List, [], ◌∷◌, if◌then◌else◌, ◌≡◌, refl, Option, some, none, ap, arith, Bool-cases,
  inl, inr, ◌∙◌, get_elem?, drop, ◌≤◌, length, map,
}
use xenomods.Targeting.{TargetData}
use xenomods.Targeting.Entries.{
  find_from, on_map, indices_from, map_entry_indices, after, find_first_target_for_map,
  find_next_target_for_map,
}

-- The entries that a route visits: from an index on, FindNextTargetForMap after FindNextTargetForMap.
-- The number of steps is bounded by the first argument.
unfoldable pub visit : ℕ → ℕ → List TargetData → Option ℕ → List ℕ
visit zero m ts current = []
visit (suc fuel) m ts none = []
visit (suc fuel) m ts (some i) = i ∷ visit fuel m ts (find_next_target_for_map (some i) m ts)

-- A loop from an index on finds the first entry of the map indices from there on.
abbrev head : List ℕ → Option ℕ
head [] = none
head (i ∷ is) = some i

find_from-indices :
    (m k : ℕ) (ts : List TargetData) → find_from (on_map m) k ts ≡ head (indices_from m k ts)
unfolding find_from indices_from
find_from-indices m k [] = refl
find_from-indices m k (t ∷ ts) = elim (Bool-cases (on_map m t)) [
  | inl on ↦ rw on refl
  | inr off ↦ rw off (find_from-indices m (suc k) ts)
]

pub drop-suc {ℓ} : {A : Type ℓ} (k : ℕ) (ts : List A) → drop (suc k) ts ≡ drop 1 (drop k ts)
drop-suc zero ts = refl
drop-suc (suc k) [] = refl
drop-suc (suc k) (t ∷ ts) = drop-suc k ts

visit-indices :
    (fuel m k : ℕ) (ts us : List TargetData)
    → drop k ts ≡ us
    → length us ≤ fuel
    → visit fuel m ts (head (indices_from m k us)) ≡ indices_from m k us
unfolding visit indices_from find_next_target_for_map after find_from
visit-indices zero m k ts [] d h = refl
visit-indices (suc fuel) m k ts [] d h = refl
visit-indices zero m k ts (u ∷ us) d h = absurd (omega arith)
visit-indices (suc fuel) m k ts (u ∷ us) d h =
    let next : drop (suc k) ts ≡ us = drop-suc k ts ∙ ap (drop 1) d in
    elim (Bool-cases (on_map m u)) [
      | inl on ↦
          rw (on, after, next, find_from-indices m (suc k) us)
            (ap (λ (is : List ℕ). k ∷ is) (visit-indices fuel m (suc k) ts us next (omega arith)))
      | inr off ↦ rw off (visit-indices (suc fuel) m (suc k) ts us next (omega arith))
    ]

-- From FindFirstTargetForMap on, FindNextTargetForMap visits exactly the indices of
-- MapEntryIndices, in their order and each once, however many steps it is allowed beyond the number
-- of entries.
pub visit-map_entry_indices :
    (m fuel : ℕ) (ts : List TargetData)
    → length ts ≤ fuel
    → visit fuel m ts (find_first_target_for_map m ts) ≡ map_entry_indices m ts
unfolding map_entry_indices find_first_target_for_map
visit-map_entry_indices m fuel ts enough =
    rw (find_from-indices m 0 ts) (visit-indices fuel m 0 ts ts refl enough)

get-drop {ℓ} : {A : Type ℓ} (k : ℕ) (ts : List A) → get_elem? ts k ≡ get_elem? (drop k ts) 0
get-drop zero ts = refl
get-drop (suc k) [] = refl
get-drop (suc k) (t ∷ ts) = get-drop k ts

-- The entries of one map.
unfoldable pub entries_of : ℕ → List TargetData → List TargetData
unfolding on_map
entries_of m [] = []
entries_of m (t ∷ ts) = if on_map m t then t ∷ entries_of m ts else entries_of m ts

read-indices :
    (m k : ℕ) (ts us : List TargetData)
    → drop k ts ≡ us
    → map (λ i. get_elem? ts i) (indices_from m k us) ≡ map some (entries_of m us)
unfolding indices_from entries_of
read-indices m k ts [] d = refl
read-indices m k ts (u ∷ us) d =
    let next : drop (suc k) ts ≡ us = drop-suc k ts ∙ ap (drop 1) d in
    let here : get_elem? ts k ≡ some u =
      get-drop k ts ∙ ap (λ (vs : List TargetData). get_elem? vs 0) d in
    elim (Bool-cases (on_map m u)) [
      | inl on ↦
          rw (on, here)
            (ap (λ (es : List (Option TargetData)). some u ∷ es)
              (read-indices m (suc k) ts us next))
      | inr off ↦ rw off (read-indices m (suc k) ts us next)
    ]

-- Read at the indices of MapEntryIndices, the route gives the entries of that map, all of them and
-- in their order.
pub read-map_entry_indices :
    (m : ℕ) (ts : List TargetData)
    → map (λ i. get_elem? ts i) (map_entry_indices m ts) ≡ map some (entries_of m ts)
unfolding map_entry_indices
read-map_entry_indices m ts = read-indices m 0 ts ts refl
