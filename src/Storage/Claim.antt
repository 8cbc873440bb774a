-- ===== src/Storage/Claim.antt =====
-- src/types/storage.rs: the second phase of `deposit_plan`, which claims unassigned chests one after
-- another and adds a node when there is none, and the plan as a whole.
pub mod Places
pub mod Ready
pub mod Total
use cj_store.Prelude.{
  ℕ, zero, suc, ◌+◌, Bool, true, false, not, ◌&&◌, ◌||◌, Option, none, some, List, [], ◌∷◌, ◌++◌,
  if◌then◌else◌, str_eq, get_elem?, set, drop,
}
use cj_store.Prelude.Int.{ℤ, pos, leb_ℤ, pos_part}
use cj_store.Types.{
  ItemId, is_empty, Chest, Node, Storage, ChestTransfer, base_currency_item, overflow_chest_item,
}
use cj_store.Storage.{transfers}
use cj_store.Storage.Deposit.{deposit_into_chest, top_up_nodes}
use cj_store.Storage.Layout.{add_node}

-- `is_some_and(|c| c.item.is_empty())`
abbrev pub unassigned_at : List Chest → ℕ → Bool
unassigned_at cs ci = elim (get_elem? cs ci) [ none ↦ false | some c ↦ is_empty c.item ]

-- The first unassigned chest from an index on.
unfoldable pub first_unassigned : ℕ → List Chest → Option ℕ
first_unassigned ci [] = none
first_unassigned ci (c ∷ cs) =
    let rest = first_unassigned (ci + 1) cs in if is_empty c.item then some ci else rest

-- The chests of node 0: the reserved ones for their items, then those from index 2 on.
unfoldable pub find_in_first : ItemId → List Chest → Option ℕ
unfolding first_unassigned
find_in_first item cs =
    if str_eq item base_currency_item && unassigned_at cs 0
    then some 0
    else if str_eq item overflow_chest_item && unassigned_at cs 1
    then some 1
    else first_unassigned 2 (drop 2 cs)

-- The other nodes.
unfoldable pub find_in_rest : ℕ → List Node → Option (ℕ × ℕ)
unfolding first_unassigned
find_in_rest ni [] = none
find_in_rest ni (n ∷ ns) = elim (first_unassigned 0 n.chests) [
  | some ci ↦ some (ni, ci)
  | none ↦ find_in_rest (ni + 1) ns
]

unfoldable pub find_empty_chest_index : ItemId → List Node → Option (ℕ × ℕ)
unfolding find_in_first find_in_rest
find_empty_chest_index item [] = none
find_empty_chest_index item (n ∷ ns) = elim (find_in_first item n.chests) [
  | some ci ↦ some (0, ci)
  | none ↦ find_in_rest 1 ns
]

-- `nodes[ni].chests[ci]`, and the write to it.
unfoldable pub chest_at : List Node → ℕ → ℕ → Option Chest
chest_at [] ni ci = none
chest_at (n ∷ ns) zero ci = get_elem? n.chests ci
chest_at (n ∷ ns) (suc ni) ci = chest_at ns ni ci

unfoldable pub put_chest : List Node → ℕ → ℕ → Chest → List Node
put_chest [] ni ci c = []
put_chest (n ∷ ns) zero ci c = record n { chests = set n.chests ci c } ∷ ns
put_chest (n ∷ ns) (suc ni) ci c = n ∷ put_chest ns ni ci c

-- How the second phase ends.
pub data Claimed : Type 0 where
  planned_all : Storage → List ChestTransfer → Claimed
  panicked out_of_tries : Claimed

abbrev pub preceded : List ChestTransfer → Claimed → Claimed
preceded t (planned_all s plan) = planned_all s (t ++ plan)
preceded t panicked = panicked
preceded t out_of_tries = out_of_tries

-- The place of an unassigned chest, after a node was added if there was none. The source expects
-- that a new node has one.
abbrev pub found_or_grown : ItemId → Storage → Storage × Option (ℕ × ℕ)
found_or_grown item s =
    let grown : Storage = add_node s in
    elim (find_empty_chest_index item s.nodes) [
      | some at ↦ (s, some at)
      | none ↦ (grown, find_empty_chest_index item grown.nodes)
    ]

-- The assignment of the chest at a place, and the deposit into it.
abbrev pub assigned : ItemId → Chest → Chest
assigned item c = record c { item = item }

unfoldable pub claim : ItemId → ℤ → ℤ → Storage → ℕ × ℕ → Option (Storage × ℤ × List ChestTransfer)
unfolding chest_at put_chest
claim item stack_size qty s (ni, ci) = elim (chest_at s.nodes ni ci) [
  | none ↦ none
  | some c ↦
      (let (c', left, deposited) = deposit_into_chest stack_size qty (assigned item c) in
        some (record s { nodes = put_chest s.nodes ni ci c' }, left, transfers c' item deposited))
]

abbrev pub claim_found :
    ItemId → ℤ → ℤ → Storage × Option (ℕ × ℕ) → Option (Storage × ℤ × List ChestTransfer)
claim_found item stack_size qty (s, none) = none
claim_found item stack_size qty (s, some at) = claim item stack_size qty s at

-- The loop `while qty > 0`.
unfoldable pub claim_loop : ℕ → ItemId → ℤ → ℤ → Storage → Claimed
unfolding claim
claim_loop zero item stack_size qty s = if leb_ℤ qty (pos 0) then planned_all s [] else out_of_tries
claim_loop (suc tries) item stack_size qty s = elim (leb_ℤ qty (pos 0)) [
  | true ↦ planned_all s []
  | false ↦ elim (claim_found item stack_size qty (found_or_grown item s)) [
    | none ↦ panicked
    | some (s', left, t) ↦ preceded t (claim_loop tries item stack_size left s')
  ]
]

-- The plan as a whole; as many tries as items are enough, as each claim takes in one at least.
unfoldable pub deposit_plan : ItemId → ℤ → ℤ → Storage → Claimed
unfolding claim_loop
deposit_plan item qty stack_size s =
    if leb_ℤ qty (pos 0) || is_empty item
    then planned_all s []
    else let (ns, left, plan) = top_up_nodes item stack_size 0 qty s.nodes in
      preceded plan (claim_loop (pos_part qty) item stack_size left (record s { nodes = ns }))
