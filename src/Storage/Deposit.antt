-- ===== src/Storage/Deposit.antt =====
-- src/types/storage.rs: deposits. The first phase of `deposit_plan` tops up the chests that are
-- assigned to the item; the index of a node or a chest is counted along the list.
pub mod Fills
pub mod Phase
use cj_store.Prelude.{
  ℕ, zero, suc, ◌+◌, Bool, true, false, not, ◌&&◌, ◌||◌, Option, none, some, List, [], ◌∷◌, ◌++◌,
  if◌then◌else◌, ◌==◌, str_eq,
}
use cj_store.Prelude.Int.{ℤ, pos, ◌+ℤ◌, ◌-ℤ◌, ◌*ℤ◌, leb_ℤ, ltb_ℤ, min_ℤ}
use cj_store.Types.{
  ItemId, Chest, Node, ChestTransfer, shulker_box_slots, base_currency_item, overflow_chest_item,
}
use cj_store.Storage.{transfers, normalize_amounts_len}

-- `Pair::shulker_capacity_for_stack_size`
unfoldable pub shulker_capacity_for_stack_size : ℤ → ℤ
shulker_capacity_for_stack_size stack_size = pos shulker_box_slots *ℤ stack_size

-- `is_reserved_chest_blocked_for`, with the identifiers 0 and 1 of the two reserved chests.
unfoldable pub is_reserved_chest_blocked_for : ItemId → ℕ → ℕ → Bool
is_reserved_chest_blocked_for item node_idx chest_idx =
    if not (node_idx == 0)
    then false
    else if chest_idx == 0
    then not (str_eq item base_currency_item)
    else if chest_idx == 1
    then not (str_eq item overflow_chest_item)
    else false

-- The slots after the loop, what is left of the quantity, and what this chest took in.
unfoldable pub deposit_slots : ℤ → ℤ → List ℤ → List ℤ × ℤ × ℤ
deposit_slots capacity qty [] = ([], qty, pos 0)
deposit_slots capacity qty (current ∷ xs) =
    let add = min_ℤ (capacity -ℤ current) qty in
    let skipped : List ℤ × ℤ × ℤ =
      (let (xs', left, deposited) = deposit_slots capacity qty xs in
        (current ∷ xs', left, deposited)) in
    let filled : List ℤ × ℤ × ℤ =
      (let (xs', left, deposited) = deposit_slots capacity (qty -ℤ add) xs in
        ((current +ℤ add) ∷ xs', left, add +ℤ deposited)) in
    if leb_ℤ qty (pos 0)
    then (current ∷ xs, qty, pos 0)
    else if ltb_ℤ current (pos 0)
    then skipped
    else if leb_ℤ capacity current
    then skipped
    else filled

-- The chest, what is left, and what it took in.
unfoldable pub deposit_into_chest : ℤ → ℤ → Chest → Chest × ℤ × ℤ
deposit_into_chest stack_size qty c =
    let c' = normalize_amounts_len c in
    let (xs, left, deposited) =
      deposit_slots (shulker_capacity_for_stack_size stack_size) qty c'.amounts in
    if leb_ℤ qty (pos 0) then (c, qty, pos 0) else (record c' { amounts = xs }, left, deposited)

-- One chest of the first phase.
unfoldable pub top_up_chest : ItemId → ℤ → ℕ → ℕ → ℤ → Chest → Chest × ℤ × List ChestTransfer
unfolding deposit_into_chest is_reserved_chest_blocked_for
top_up_chest item stack_size node_idx chest_idx qty c =
    let (c', left, deposited) = deposit_into_chest stack_size qty c in
    if is_reserved_chest_blocked_for item node_idx chest_idx || not (str_eq c.item item)
    then (c, qty, [])
    else (c', left, transfers c' item deposited)

unfoldable pub top_up_chests :
    ItemId → ℤ → ℕ → ℕ → ℤ → List Chest → List Chest × ℤ × List ChestTransfer
unfolding top_up_chest
top_up_chests item stack_size node_idx chest_idx qty [] = ([], qty, [])
top_up_chests item stack_size node_idx chest_idx qty (c ∷ cs) =
    let go : List Chest × ℤ × List ChestTransfer =
      (let (c', left, t) = top_up_chest item stack_size node_idx chest_idx qty c in
        let (cs', left', plan) = top_up_chests item stack_size node_idx (chest_idx + 1) left cs in
        (c' ∷ cs', left', t ++ plan)) in
    if leb_ℤ qty (pos 0) then (c ∷ cs, qty, []) else go

-- The first phase from a node on. A quantity that is met changes nothing more.
unfoldable pub top_up_nodes : ItemId → ℤ → ℕ → ℤ → List Node → List Node × ℤ × List ChestTransfer
unfolding top_up_chests
top_up_nodes item stack_size node_idx qty [] = ([], qty, [])
top_up_nodes item stack_size node_idx qty (n ∷ ns) =
    let (cs, left, t) = top_up_chests item stack_size node_idx 0 qty n.chests in
    let (ns', left', plan) = top_up_nodes item stack_size (node_idx + 1) left ns in
    (record n { chests = cs } ∷ ns', left', t ++ plan)
