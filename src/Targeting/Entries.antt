-- ===== src/Targeting/Entries.antt =====
-- The entries of one map: MapEntryIndices, FindFirstTargetForMap, FindNextTargetForMap,
-- FindNextMovementTargetForMap and RouteNumber.
pub mod Search
use xenomods.Base.{
  ℕ, zero, suc, Bool, true, false, not, ◌&&◌, ◌||◌, ◌==◌, List, [], ◌∷◌, if◌then◌else◌, ◌≡◌, refl,
  Option, some, none, ltb, length, ◌+◌, drop, take, get_elem?,
}
use xenomods.Targeting.{TargetData, is_position, is_movement_target}

-- Targets[index].mapId == mapId
unfoldable pub on_map : ℕ → TargetData → Bool
on_map m t = t.map_id == m

-- The loop of MapEntryIndices from an index on.
unfoldable pub indices_from : ℕ → ℕ → List TargetData → List ℕ
indices_from m index [] = []
indices_from m index (t ∷ ts) =
    let rest = indices_from m (suc index) ts in if on_map m t then index ∷ rest else rest

-- MapEntryIndices
unfoldable pub map_entry_indices : ℕ → List TargetData → List ℕ
map_entry_indices m ts = indices_from m 0 ts

-- The searching loops from an index on: the first entry that passes the test.
unfoldable pub find_from : (TargetData → Bool) → ℕ → List TargetData → Option ℕ
find_from p index [] = none
find_from p index (t ∷ ts) =
    let rest = find_from p (suc index) ts in if p t then some index else rest

-- current + 1
unfoldable pub after : Option ℕ → ℕ
after none = 0
after (some i) = suc i

-- FindFirstTargetForMap
unfoldable pub find_first_target_for_map : ℕ → List TargetData → Option ℕ
find_first_target_for_map m ts = find_from (on_map m) 0 ts

-- FindNextTargetForMap
unfoldable pub find_next_target_for_map : Option ℕ → ℕ → List TargetData → Option ℕ
find_next_target_for_map current m ts =
    find_from (on_map m) (after current) (drop (after current) ts)

-- FindNextMovementTargetForMap
unfoldable pub find_next_movement_target_for_map : Option ℕ → ℕ → List TargetData → Option ℕ
find_next_movement_target_for_map current m ts =
    find_from (λ t. on_map m t && is_movement_target t) (after current) (drop (after current) ts)

-- The loop of RouteNumber over the entries up to the target.
unfoldable pub count_positions : ℕ → List TargetData → ℕ
count_positions m [] = 0
count_positions m (t ∷ ts) =
    let rest = count_positions m ts in if on_map m t && is_position t.type then suc rest else rest

-- RouteNumber; 0 for an index out of range.
unfoldable pub route_number : Option ℕ → List TargetData → ℕ
route_number none ts = 0
route_number (some i) ts = elim (get_elem? ts i) [
  | none ↦ 0
  | some t ↦ count_positions t.map_id (take (suc i) ts)
]
