-- ===== src/Storage/Withdraw.antt =====
-- Withdrawals: what is planned, and what is left in the warehouse.
use cj_store.Prelude.{
  ℕ, zero, suc, ◌+◌, ◌-◌, ◌≡◌, ◌≢◌, eq_iff, refl, inl, inr, true, false, List, [], ◌∷◌, ◌++◌, min,
  All, arith, length, str_eq, Bool-cases,
}
use cj_store.Prelude.Int.{ℤ, pos, negsuc, pos_part, min_ℤ-pos, -ℤ-pos, +ℤ-pos, leb_ℤ-suc}
use cj_store.Types.{ItemId, is_empty, Chest, Node, Storage, ChestTransfer, double_chest_slots}
use cj_store.Storage.{
  transfers, normalize_amounts_len, held, withdraw_slots, withdraw_chest, withdraw_chests,
  withdraw_nodes, withdraw_plan, stock, stock_chests, stock_nodes,
}

-- What a loop over slots leaves of a quantity `q`, and what it took.
abbrev Draws : ℕ → ℕ → List ℤ → List ℤ × ℤ × ℤ → Type 0
Draws q have xs (xs', left, taken) =
    (left ≡ pos (q - have))
    × (taken ≡ pos (min q have))
    × (stock xs' ≡ have - q)
    × (length xs' ≡ length xs)

withdraw_slots_zero : (xs : List ℤ) → withdraw_slots (pos 0) xs ≡ (xs, pos 0, pos 0)
unfolding withdraw_slots
withdraw_slots_zero [] = refl
withdraw_slots_zero (x ∷ xs) = refl

withdraw_slots-Draws : (q : ℕ) (xs : List ℤ) → Draws q (stock xs) xs (withdraw_slots (pos q) xs)
unfolding withdraw_slots stock
withdraw_slots-Draws q [] = ground arith
withdraw_slots-Draws zero (x ∷ xs) = ground arith
withdraw_slots-Draws (suc q) (negsuc n ∷ xs) = ground (arith, withdraw_slots-Draws (suc q) xs)
withdraw_slots-Draws (suc q) (pos zero ∷ xs) = ground (arith, withdraw_slots-Draws (suc q) xs)
withdraw_slots-Draws (suc q) (pos (suc n) ∷ xs) = ground (
  arith,
  min_ℤ-pos (suc n) (suc q),
  -ℤ-pos (suc q) (min (suc n) (suc q)),
  -ℤ-pos (suc n) (min (suc n) (suc q)),
  withdraw_slots-Draws (suc q - min (suc n) (suc q)) xs,
  +ℤ-pos (min (suc n) (suc q)) (min (suc q - min (suc n) (suc q)) (stock xs)),
)

-- What a plan moves.
abbrev pub planned : List ChestTransfer → ℕ
planned [] = 0
planned (t ∷ ts) = pos_part t.amount + planned ts

pub planned-append : (xs ys : List ChestTransfer) → planned (xs ++ ys) ≡ planned xs + planned ys
planned-append [] ys = omega arith
planned-append (x ∷ xs) ys = omega (arith, planned-append xs ys)

-- Every chest has its 54 slots.
abbrev pub IsSized : Chest → Type 0
IsSized c = length c.amounts ≡ double_chest_slots

pub normalized : (c : Chest) → IsSized c → normalize_amounts_len c ≡ c
unfolding normalize_amounts_len
normalized c h = ground arith

-- What the withdrawal from a part of the warehouse does: `q` is asked for, `have` is there. The
-- other items' amounts are given by a function on the part.
abbrev pub Withdraws :
    {A : Type 0} → (ItemId → A → ℕ) → ItemId → ℕ → A → A × ℤ × List ChestTransfer → Type 0
Withdraws amount item q x (x', left, plan) =
    (left ≡ pos (q - amount item x))
    × (planned plan ≡ min q (amount item x))
    × (amount item x' ≡ amount item x - q)
    × ((j : ItemId) → j ≢ item → amount j x' ≡ amount j x)

pub planned-transfers : (c : Chest) (item : ItemId) (n : ℕ) → planned (transfers c item (pos n)) ≡ n
planned-transfers c item n = ground arith

-- What becomes of a chest that holds the item.
abbrev pub drawn : ItemId → Chest → List ℤ × ℤ × ℤ → Chest × ℤ × List ChestTransfer
drawn item c (xs, left, taken) = (record c { amounts = xs }, left, transfers c item taken)

pub withdraw_chest_same :
    (item : ItemId) (qty : ℤ) (c : Chest)
    → IsSized c
    → str_eq c.item item ≡ true
    → withdraw_chest item qty c ≡ drawn item c (withdraw_slots qty c.amounts)
unfolding withdraw_chest
withdraw_chest_same item qty c sized same = simp (same, normalized c sized, withdraw_chest)

pub withdraw_chest_other :
    (item : ItemId) (qty : ℤ) (c : Chest)
    → str_eq c.item item ≡ false
    → withdraw_chest item qty c ≡ (c, qty, [])
unfolding withdraw_chest
withdraw_chest_other item qty c other = simp (other, withdraw_chest)

drawn-Withdraws :
    (item : ItemId) (q : ℕ) (c : Chest) (x : List ℤ × ℤ × ℤ)
    → str_eq c.item item ≡ true
    → Draws q (stock c.amounts) c.amounts x
    → Withdraws held item q c (drawn item c x)
unfolding held
drawn-Withdraws item q c (xs, left, taken) same (l, t, s, n) = (
  ground arith,
  ground (arith, planned-transfers c item (min q (stock c.amounts))),
  ground arith,
  λ j ne. ground (arith, eq_iff c.item item, eq_iff c.item j),
)

withdraw_chest-Withdraws :
    (item : ItemId) (q : ℕ) (c : Chest)
    → IsSized c
    → Withdraws held item q c (withdraw_chest item (pos q) c)
unfolding held
withdraw_chest-Withdraws item q c sized = elim (Bool-cases (str_eq c.item item)) [
  | inl same ↦ rw (withdraw_chest_same item (pos q) c sized same) (
      drawn-Withdraws item q c (withdraw_slots (pos q) c.amounts) same
        (withdraw_slots-Draws q c.amounts))
  | inr other ↦
      rw (withdraw_chest_other item (pos q) c other)
        (ground arith, ground arith, ground arith, λ j ne. refl)
]

-- Every chest of every node has its slots.
abbrev pub AreSized : List Node → Type 0
AreSized = All (λ n. All IsSized n.chests)

-- The loop over the chests, by what the first one and the rest come to.
chests_after :
    Chest × ℤ × List ChestTransfer
    → List Chest × ℤ × List ChestTransfer
    → List Chest × ℤ × List ChestTransfer
chests_after (c, _, t) (cs, left, plan) = (c ∷ cs, left, t ++ plan)

withdraw_chests_step :
    (item : ItemId) (q : ℕ) (c : Chest) (cs : List Chest)
    → withdraw_chests item (pos (suc q)) (c ∷ cs) ≡ (
        let x = withdraw_chest item (pos (suc q)) c in chests_after x (withdraw_chests item x.1 cs))
unfolding withdraw_chests chests_after
withdraw_chests_step item q c cs = rw (leb_ℤ-suc q, withdraw_chests)

chests_after-Withdraws :
    (item : ItemId) (q : ℕ) (c : Chest) (cs : List Chest) (x : Chest × ℤ × List ChestTransfer)
    (y : List Chest × ℤ × List ChestTransfer)
    → Withdraws held item q c x
    → Withdraws stock_chests item (q - held item c) cs y
    → Withdraws stock_chests item q (c ∷ cs) (chests_after x y)
unfolding chests_after stock_chests
chests_after-Withdraws item q c cs (c', l, t) (cs', l', t') (e, p, a, o) (e', p', a', o') = (
  ground arith,
  omega (arith, planned-append t t'),
  omega arith,
  λ j ne. omega (arith, o j ne, o' j ne),
)

withdraw_chests-Withdraws :
    (item : ItemId) (q : ℕ) (cs : List Chest)
    → All IsSized cs
    → Withdraws stock_chests item q cs (withdraw_chests item (pos q) cs)
unfolding withdraw_chests stock_chests
withdraw_chests-Withdraws item q [] sized = (ground arith, ground arith, ground arith, λ j ne. refl)
withdraw_chests-Withdraws item zero (c ∷ cs) sized =
    (ground arith, ground arith, ground arith, λ j ne. refl)
withdraw_chests-Withdraws item (suc q) (c ∷ cs) sized =
    let x = withdraw_chest item (pos (suc q)) c in
    let w = withdraw_chest-Withdraws item (suc q) c sized.0 in
    rw (withdraw_chests_step item q c cs) (
      chests_after-Withdraws item (suc q) c cs x (withdraw_chests item x.1 cs) w
        (rw w.0 (withdraw_chests-Withdraws item (suc q - held item c) cs sized.1)))

nodes_after :
    Node
    → List Chest × ℤ × List ChestTransfer
    → List Node × ℤ × List ChestTransfer
    → List Node × ℤ × List ChestTransfer
nodes_after n (cs, _, t) (ns, left, plan) = (record n { chests = cs } ∷ ns, left, t ++ plan)

nodes_after-Withdraws :
    (item : ItemId) (q : ℕ) (n : Node) (ns : List Node) (x : List Chest × ℤ × List ChestTransfer)
    (y : List Node × ℤ × List ChestTransfer)
    → Withdraws stock_chests item q n.chests x
    → Withdraws stock_nodes item (q - stock_chests item n.chests) ns y
    → Withdraws stock_nodes item q (n ∷ ns) (nodes_after n x y)
unfolding nodes_after stock_nodes
nodes_after-Withdraws item q n ns (cs, l, t) (ns', l', t') (e, p, a, o) (e', p', a', o') = (
  ground arith,
  omega (arith, planned-append t t'),
  omega arith,
  λ j ne. omega (arith, o j ne, o' j ne),
)

pub withdraw_nodes-Withdraws :
    (item : ItemId) (q : ℕ) (ns : List Node)
    → AreSized ns
    → Withdraws stock_nodes item q ns (withdraw_nodes item (pos q) ns)
unfolding withdraw_nodes stock_nodes nodes_after
withdraw_nodes-Withdraws item q [] sized = (ground arith, ground arith, ground arith, λ j ne. refl)
withdraw_nodes-Withdraws item q (n ∷ ns) sized =
    let x = withdraw_chests item (pos q) n.chests in
    let w = withdraw_chests-Withdraws item q n.chests sized.0 in
    nodes_after-Withdraws item q n ns x (withdraw_nodes item x.1 ns) w
      (rw w.0 (withdraw_nodes-Withdraws item (q - stock_chests item n.chests) ns sized.1))

pub named_item : (item : ItemId) → item ≢ "" → is_empty item ≡ false
named_item item named = ground (arith, eq_iff item "")

-- In a warehouse whose chests have 54 slots each, a withdrawal of a named item plans all of the
-- quantity if the warehouse holds so much, and all there is otherwise; exactly what it plans leaves
-- the warehouse, and no other item's amount changes.
pub withdraw_plan-Withdraws :
    (item : ItemId) (q : ℕ) (s : Storage)
    → item ≢ ""
    → AreSized s.nodes
    → let (s', plan) = withdraw_plan item (pos q) s in
      (planned plan ≡ min q (stock_nodes item s.nodes))
      × (stock_nodes item s'.nodes ≡ stock_nodes item s.nodes - planned plan)
      × ((j : ItemId) → j ≢ item → stock_nodes j s'.nodes ≡ stock_nodes j s.nodes)
unfolding withdraw_plan
withdraw_plan-Withdraws item zero s named sized = (ground arith, ground arith, λ j ne. refl)
withdraw_plan-Withdraws item (suc q) s named sized =
    let (_, p, a, o) = withdraw_nodes-Withdraws item (suc q) s.nodes sized in
    rw (leb_ℤ-suc q, named_item item named, withdraw_plan) (p, ground arith, o)
