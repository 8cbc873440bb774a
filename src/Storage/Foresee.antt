-- ===== src/Storage/Foresee.antt =====
-- src/types/storage.rs: `simulate_deposit_plan`, the dry run of a deposit into the chests that are
-- there. The state of a loop is the plan and the rest of the quantity, in the second phase also the
-- claimed chests; a quantity that is met changes nothing more, as a `break` does.
pub mod Planned
use cj_store.Prelude.{
  ℕ, ◌+◌, Bool, true, false, not, ◌&&◌, ◌||◌, Option, none, some, List, [], ◌∷◌, if◌then◌else◌,
  str_eq, ◌==◌, any, get_elem?, drop,
}
use cj_store.Prelude.Int.{ℤ, pos, ◌+ℤ◌, ◌-ℤ◌, ◌*ℤ◌, leb_ℤ, ltb_ℤ, eq_ℤ, min_ℤ}
use cj_store.Types.{
  ItemId, is_empty, Chest, Node, Storage, ChestTransfer, double_chest_slots, base_currency_item,
  overflow_chest_item,
}
use cj_store.Storage.{transfer}
use cj_store.Storage.Deposit.{shulker_capacity_for_stack_size, is_reserved_chest_blocked_for}

abbrev pub Rest : Type 0
Rest = List ChestTransfer × ℤ

abbrev pub Claims : Type 0
Claims = Rest × List ℤ

-- `plan.last_mut()` is at hand when one entry is left.
unfoldable pub merged : Chest → ItemId → ℤ → List ChestTransfer → List ChestTransfer
merged c item amt [] = transfer c item amt ∷ []
merged c item amt (t ∷ []) =
    if eq_ℤ t.chest_id c.id
    then record t { amount = t.amount +ℤ amt } ∷ []
    else t ∷ transfer c item amt ∷ []
merged c item amt (t ∷ (u ∷ ts)) = t ∷ merged c item amt (u ∷ ts)

unfoldable pub record_transfer : Chest → ItemId → ℤ → List ChestTransfer → List ChestTransfer
unfolding merged
record_transfer c item amt plan = if leb_ℤ amt (pos 0) then plan else merged c item amt plan

-- The first phase: the chests that hold the item.
unfoldable pub fill_slot : ℤ → ItemId → Chest → ℤ → Rest → Rest
unfolding record_transfer
fill_slot capacity item c current (plan, remaining) =
    let add = min_ℤ (capacity -ℤ current) remaining in
    if leb_ℤ remaining (pos 0) || ltb_ℤ current (pos 0) || leb_ℤ capacity current
    then (plan, remaining)
    else (record_transfer c item add plan, remaining -ℤ add)

unfoldable pub fill_slots : ℤ → ItemId → Chest → List ℤ → Rest → Rest
unfolding fill_slot
fill_slots capacity item c [] s = s
fill_slots capacity item c (x ∷ xs) s =
    fill_slots capacity item c xs (fill_slot capacity item c x s)

unfoldable pub fill_chest : ℤ → ItemId → ℕ → ℕ → Chest → Rest → Rest
unfolding fill_slots
fill_chest capacity item node_idx chest_idx c s =
    if is_reserved_chest_blocked_for item node_idx chest_idx || not (str_eq c.item item)
    then s
    else fill_slots capacity item c c.amounts s

unfoldable pub fill_chests : ℤ → ItemId → ℕ → ℕ → List Chest → Rest → Rest
unfolding fill_chest
fill_chests capacity item node_idx chest_idx [] s = s
fill_chests capacity item node_idx chest_idx (c ∷ cs) s =
    fill_chests capacity item node_idx (chest_idx + 1) cs
      (fill_chest capacity item node_idx chest_idx c s)

unfoldable pub fill_nodes : ℤ → ItemId → ℕ → List Node → Rest → Rest
unfolding fill_chests
fill_nodes capacity item node_idx [] s = s
fill_nodes capacity item node_idx (n ∷ ns) s =
    fill_nodes capacity item (node_idx + 1) ns (fill_chests capacity item node_idx 0 n.chests s)

-- The second phase: the unassigned chests, of which none is claimed twice.
unfoldable pub try_claim : ℤ → ItemId → Chest → Claims → Claims
unfolding record_transfer
try_claim capacity item c ((plan, remaining), claimed) =
    let add = min_ℤ capacity remaining in
    if leb_ℤ remaining (pos 0) || not (is_empty c.item) || any (λ i. eq_ℤ i c.id) claimed
    then ((plan, remaining), claimed)
    else ((record_transfer c item add plan, remaining -ℤ add), c.id ∷ claimed)

unfoldable pub try_claims : ℤ → ItemId → List Chest → Claims → Claims
unfolding try_claim
try_claims capacity item [] s = s
try_claims capacity item (c ∷ cs) s = try_claims capacity item cs (try_claim capacity item c s)

-- A reserved chest of node 0, for the item that it is reserved for.
unfoldable pub claim_reserved : ℤ → ItemId → ItemId → Option Chest → Claims → Claims
unfolding try_claim
claim_reserved capacity item reserved none s = s
claim_reserved capacity item reserved (some c) s =
    if str_eq item reserved then try_claim capacity item c s else s

unfoldable pub claim_first : ℤ → ItemId → List Chest → Claims → Claims
unfolding try_claims claim_reserved
claim_first capacity item cs s = try_claims capacity item (drop 2 cs) (
    claim_reserved capacity item overflow_chest_item (get_elem? cs 1)
      (claim_reserved capacity item base_currency_item (get_elem? cs 0) s))

unfoldable pub claim_rest : ℤ → ItemId → List Node → Claims → Claims
unfolding try_claims
claim_rest capacity item [] s = s
claim_rest capacity item (n ∷ ns) s =
    claim_rest capacity item ns (try_claims capacity item n.chests s)

unfoldable pub claim_nodes : ℤ → ItemId → List Node → Claims → Claims
unfolding claim_first claim_rest
claim_nodes capacity item [] s = s
claim_nodes capacity item (n ∷ ns) s =
    claim_rest capacity item ns (claim_first capacity item n.chests s)

-- The plan, and how much of the quantity it covers.
unfoldable pub simulate_deposit_plan : ItemId → ℤ → ℤ → Storage → List ChestTransfer × ℤ
unfolding fill_nodes claim_nodes
simulate_deposit_plan item qty stack_size s =
    let capacity = shulker_capacity_for_stack_size stack_size in
    let topped_up = fill_nodes capacity item 0 s.nodes ([], qty) in
    let ((plan, remaining), _) =
      claim_nodes (pos double_chest_slots *ℤ capacity) item s.nodes (topped_up, []) in
    if leb_ℤ qty (pos 0) || is_empty item then ([], pos 0) else (plan, qty -ℤ remaining)
