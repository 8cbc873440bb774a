-- ===== src/Storage/Layout.antt =====
-- src/types/node.rs and chest.rs: where nodes and chests stand, how they are made, and
-- `Storage::add_node`. A node's identifier is never negative here.
pub mod Spiral
pub mod Fresh
use cj_store.Prelude.{
  ℕ, zero, suc, ◌+◌, ◌-◌, ◌*◌, ◌/◌, Bool, true, false, List, [], ◌∷◌, ◌++◌, if◌then◌else◌, ltb,
  ◌==◌, length, any, replicate,
}
use cj_store.Prelude.Int.{ℤ, pos, ◌+ℤ◌, ◌-ℤ◌, ◌*ℤ◌, eq_ℤ}
use cj_store.Types.{
  Position, ItemId, Chest, Node, Storage, double_chest_slots, chests_per_node, node_spacing,
  base_currency_item, overflow_chest_item,
}

-- `ItemId::EMPTY`
abbrev pub unassigned : ItemId
unassigned = ""

-- The loop over the rings, from a ring on; `id` tries are enough.
unfoldable pub ring_from : ℕ → ℕ → ℕ → ℕ
ring_from zero ring id = ring
ring_from (suc tries) ring id =
    let rest = ring_from tries (ring + 1) id in
    if ltb (ring * (ring + 1) * 4) id then rest else ring

unfoldable pub ring_of : ℕ → ℕ
unfolding ring_from
ring_of id = ring_from id 1 id

unfoldable pub pos_in_ring : ℕ → ℕ → ℕ
pos_in_ring ring id = id - (ring - 1) * ring * 4

-- The steps to the east and to the south, by the side of the ring and the place in it. The arm
-- `unreachable!` of the source is not there.
unfoldable pub side_step : ℕ → ℕ → ℕ → ℤ × ℤ
side_step zero ring p = (pos ring, pos p -ℤ pos ring)
side_step (suc zero) ring p = (pos ring -ℤ (pos p -ℤ pos (2 * ring)), pos ring)
side_step (suc (suc zero)) ring p = (pos 0 -ℤ pos ring, pos ring -ℤ (pos p -ℤ pos (2 * (2 * ring))))
side_step _ ring p = ((pos p -ℤ pos (3 * (2 * ring))) -ℤ pos ring, pos 0 -ℤ pos ring)

unfoldable pub ring_step : ℕ → ℕ → ℤ × ℤ
unfolding side_step
ring_step ring p = side_step (p / (2 * ring)) ring p

unfoldable pub node_position : ℕ → Position → Position
unfolding ring_of pos_in_ring ring_step
node_position zero origin = origin
node_position (suc n) origin =
    let ring = ring_of (suc n) in
    let (dx, dz) = ring_step ring (pos_in_ring ring (suc n)) in
    record {
      x = origin.x +ℤ dx *ℤ pos node_spacing;
      y = origin.y;
      z = origin.z +ℤ dz *ℤ pos node_spacing;
    }

-- `Chest::calc_position`; an index is below 4.
unfoldable pub chest_position : Position → ℕ → Position
chest_position p zero = record { x = p.x -ℤ pos 2; y = p.y +ℤ pos 1; z = p.z -ℤ pos 1 }
chest_position p (suc zero) = record { x = p.x -ℤ pos 1; y = p.y +ℤ pos 1; z = p.z -ℤ pos 1 }
chest_position p (suc (suc zero)) = record { x = p.x -ℤ pos 2; y = p.y; z = p.z -ℤ pos 1 }
chest_position p _ = record { x = p.x -ℤ pos 1; y = p.y; z = p.z -ℤ pos 1 }

-- `Chest::new`
unfoldable pub new_chest : ℕ → Position → ItemId → ℕ → Chest
unfolding chest_position
new_chest node_id at item index = record {
  id = pos (node_id * chests_per_node + index);
  node_id = pos node_id;
  index = pos index;
  position = chest_position at index;
  item = item;
  amounts = replicate double_chest_slots (pos 0);
}

-- The first two chests of node 0 are reserved.
unfoldable pub reserved_item : ℕ → ℕ → ItemId
reserved_item zero zero = base_currency_item
reserved_item zero (suc zero) = overflow_chest_item
reserved_item _ _ = unassigned

-- `Node::new`
unfoldable pub new_node : ℕ → Position → Node
unfolding node_position new_chest reserved_item
new_node node_id origin =
    let at = node_position node_id origin in
    record {
      id = pos node_id;
      position = at;
      chests =
          new_chest node_id at (reserved_item node_id 0) 0
          ∷ new_chest node_id at (reserved_item node_id 1) 1
          ∷ new_chest node_id at (reserved_item node_id 2) 2
          ∷ new_chest node_id at (reserved_item node_id 3) 3
          ∷ [];
    }

-- `while self.nodes.iter().any(|n| n.id == node_id) { node_id += 1 }`; as many tries as there are
-- nodes are enough.
abbrev pub has_id : ℕ → Node → Bool
has_id i n = eq_ℤ n.id (pos i)

unfoldable pub free_id_from : ℕ → ℕ → List Node → ℕ
free_id_from zero i ns = i
free_id_from (suc tries) i ns =
    let rest = free_id_from tries (i + 1) ns in if any (has_id i) ns then rest else i

unfoldable pub free_id : List Node → ℕ
unfolding free_id_from
free_id ns = free_id_from (length ns) 0 ns

unfoldable pub add_node : Storage → Storage
unfolding free_id new_node
add_node s = record s { nodes = s.nodes ++ new_node (free_id s.nodes) s.position ∷ [] }
