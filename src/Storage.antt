-- ===== src/Storage.antt =====
-- src/types/storage.rs: the warehouse, its withdrawals and their dry run. A loop over slots, chests
-- or nodes is a recursion on the list that gives back the list as the loop leaves it.
pub mod Withdraw
pub mod Simulate
pub mod Deposit
pub mod Layout
pub mod Claim
pub mod Foresee
use cj_store.Prelude.{
  ℕ, ◌+◌, ◌-◌, ◌*◌, ◌%◌, ◌^◌, Bool, true, false, not, ◌&&◌, ◌||◌, Option, none, some, List, [], ◌∷◌,
  ◌++◌, if◌then◌else◌, ltb, leb, ◌==◌, str_eq, length, replicate, take,
}
use cj_store.Prelude.Int.{ℤ, pos, negsuc, ◌+ℤ◌, ◌-ℤ◌, leb_ℤ, ltb_ℤ, min_ℤ, pos_part}
use cj_store.Types.{
  Position, ItemId, is_empty, Chest, Node, Storage, ChestTransfer, double_chest_slots,
}

-- The transfer of an amount from or to a chest.
abbrev pub transfer : Chest → ItemId → ℤ → ChestTransfer
transfer c item amount = record {
  chest_id = c.id;
  position = c.position;
  item = item;
  amount = amount;
}

-- `if amount > 0 { plan.push(..) }`
abbrev pub transfers : Chest → ItemId → ℤ → List ChestTransfer
transfers c item amount = if ltb_ℤ (pos 0) amount then transfer c item amount ∷ [] else []

-- `resize(54, 0)`, which is no change at 54.
abbrev pub resize : List ℤ → List ℤ
resize xs = take double_chest_slots xs ++ replicate (double_chest_slots - length xs) (pos 0)

unfoldable pub normalize_amounts_len : Chest → Chest
normalize_amounts_len c =
    if length c.amounts == double_chest_slots then c else record c { amounts = resize c.amounts }

-- The slots after the loop, what is left of the quantity, and what was taken from this chest.
unfoldable pub withdraw_slots : ℤ → List ℤ → List ℤ × ℤ × ℤ
withdraw_slots qty [] = ([], qty, pos 0)
withdraw_slots qty (available ∷ xs) =
    let amount = min_ℤ available qty in
    let skipped : List ℤ × ℤ × ℤ =
      (let (xs', left, taken) = withdraw_slots qty xs in (available ∷ xs', left, taken)) in
    let drawn : List ℤ × ℤ × ℤ =
      (let (xs', left, taken) = withdraw_slots (qty -ℤ amount) xs in
        ((available -ℤ amount) ∷ xs', left, amount +ℤ taken)) in
    if leb_ℤ qty (pos 0)
    then (available ∷ xs, qty, pos 0)
    else if leb_ℤ available (pos 0)
    then skipped
    else drawn

-- One chest: the chest, what is left, and the plan's entry.
unfoldable pub withdraw_chest : ItemId → ℤ → Chest → Chest × ℤ × List ChestTransfer
withdraw_chest item qty c =
    if not (str_eq c.item item)
    then (c, qty, [])
    else let c' = normalize_amounts_len c in
      let (xs, left, taken) = withdraw_slots qty c'.amounts in
      (record c' { amounts = xs }, left, transfers c' item taken)

-- The chests of a node; a quantity that is met ends the loop.
unfoldable pub withdraw_chests : ItemId → ℤ → List Chest → List Chest × ℤ × List ChestTransfer
withdraw_chests item qty [] = ([], qty, [])
withdraw_chests item qty (c ∷ cs) =
    let go : List Chest × ℤ × List ChestTransfer =
      (let (c', left, t) = withdraw_chest item qty c in
        let (cs', left', plan) = withdraw_chests item left cs in (c' ∷ cs', left', t ++ plan)) in
    if leb_ℤ qty (pos 0) then (c ∷ cs, qty, []) else go

unfoldable pub withdraw_nodes : ItemId → ℤ → List Node → List Node × ℤ × List ChestTransfer
withdraw_nodes item qty [] = ([], qty, [])
withdraw_nodes item qty (n ∷ ns) =
    let (cs, left, t) = withdraw_chests item qty n.chests in
    let (ns', left', plan) = withdraw_nodes item left ns in
    (record n { chests = cs } ∷ ns', left', t ++ plan)

unfoldable pub withdraw_plan : ItemId → ℤ → Storage → Storage × List ChestTransfer
withdraw_plan item qty s =
    if leb_ℤ qty (pos 0) || is_empty item
    then (s, [])
    else let (ns, _, plan) = withdraw_nodes item qty s.nodes in (record s { nodes = ns }, plan)

-- The dry run, which writes nothing: what is left and what would be taken from a chest.
unfoldable pub simulate_slots : ℤ → List ℤ → ℤ × ℤ
simulate_slots qty [] = (qty, pos 0)
simulate_slots qty (available ∷ xs) =
    let amount = min_ℤ available qty in
    let skipped : ℤ × ℤ = simulate_slots qty xs in
    let drawn : ℤ × ℤ =
      (let (left, taken) = simulate_slots (qty -ℤ amount) xs in (left, amount +ℤ taken)) in
    if leb_ℤ qty (pos 0) then (qty, pos 0) else if leb_ℤ available (pos 0) then skipped else drawn

unfoldable pub simulate_chests : ItemId → ℤ → List Chest → ℤ × List ChestTransfer
simulate_chests item qty [] = (qty, [])
simulate_chests item qty (c ∷ cs) =
    let skipped : ℤ × List ChestTransfer = simulate_chests item qty cs in
    let drawn : ℤ × List ChestTransfer =
      (let (left, taken) = simulate_slots qty c.amounts in
        let (left', plan) = simulate_chests item left cs in
        (left', transfers c item taken ++ plan)) in
    if leb_ℤ qty (pos 0) then (qty, []) else if not (str_eq c.item item) then skipped else drawn

unfoldable pub simulate_nodes : ItemId → ℤ → List Node → ℤ × List ChestTransfer
simulate_nodes item qty [] = (qty, [])
simulate_nodes item qty (n ∷ ns) =
    let go : ℤ × List ChestTransfer =
      (let (left, t) = simulate_chests item qty n.chests in
        let (left', plan) = simulate_nodes item left ns in (left', t ++ plan)) in
    if leb_ℤ qty (pos 0) then (qty, []) else go

-- The plan, and how much of the quantity it covers.
unfoldable pub simulate_withdraw_plan : ItemId → ℤ → Storage → List ChestTransfer × ℤ
simulate_withdraw_plan item qty s =
    if leb_ℤ qty (pos 0) || is_empty item
    then ([], pos 0)
    else let (left, plan) = simulate_nodes item qty s.nodes in (plan, qty -ℤ left)

-- The positive amounts of the chests that hold the item; an `i32` sum, which wraps in a release.
abbrev pub wrap_i32 : ℕ → ℤ
wrap_i32 n = let r = n % 2 ^ 32 in if ltb r (2 ^ 31) then pos r else pos r -ℤ pos (2 ^ 32)

-- The sum of the positive amounts, before it wraps.
unfoldable pub stock : List ℤ → ℕ
stock [] = 0
stock (x ∷ xs) = pos_part x + stock xs

-- What a chest holds of an item.
unfoldable pub held : ItemId → Chest → ℕ
unfolding stock
held item c = if str_eq c.item item then stock c.amounts else 0

unfoldable pub stock_chests : ItemId → List Chest → ℕ
unfolding held
stock_chests item [] = 0
stock_chests item (c ∷ cs) = held item c + stock_chests item cs

unfoldable pub stock_nodes : ItemId → List Node → ℕ
unfolding stock_chests
stock_nodes item [] = 0
stock_nodes item (n ∷ ns) = stock_chests item n.chests + stock_nodes item ns

unfoldable pub total_item_amount : ItemId → Storage → ℤ
unfolding stock_nodes
total_item_amount item s = wrap_i32 (stock_nodes item s.nodes)
