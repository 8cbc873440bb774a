-- ===== src/Storage/Deposit/Phase.antt =====
-- The first phase of a deposit over the chests of the whole warehouse.
use cj_store.Prelude.{
  ℕ, zero, suc, ◌+◌, ◌-◌, ◌*◌, ◌≡◌, ◌≢◌, ◌∷◌, [], ◌++◌, List, Bool, true, false, not, ◌||◌, min,
  refl, ap, ◌∙◌, inl, inr, All, arith, str_eq, eq_iff, if◌then◌else◌, Bool-cases,
}
use cj_store.Prelude.Int.{ℤ, pos, ◌*ℤ◌, leb_ℤ-suc}
use cj_store.Types.{ItemId, Chest, Node, ChestTransfer}
use cj_store.Storage.{transfers, held, stock_chests, stock_nodes}
use cj_store.Storage.Withdraw.{
  planned, planned-append, planned-transfers, normalized, IsSized, AreSized,
}
use cj_store.Storage.Deposit.{
  deposit_slots, deposit_into_chest, top_up_chest, top_up_chests, top_up_nodes,
  is_reserved_chest_blocked_for, shulker_capacity_for_stack_size,
}
use cj_store.Storage.Deposit.Fills.{room, Stores, deposit_slots-Stores}

-- A shulker of stacks of `stack` items.
abbrev pub capacity : ℕ → ℕ
capacity stack = 27 * stack

pub capacity_lem : (stack : ℕ) → shulker_capacity_for_stack_size (pos stack) ≡ pos (capacity stack)
unfolding shulker_capacity_for_stack_size ◌*ℤ◌
capacity_lem stack = ground arith

-- Whether the first phase passes a chest over.
abbrev pub is_passed : ItemId → ℕ → ℕ → Chest → Bool
is_passed item node_idx chest_idx c =
    is_reserved_chest_blocked_for item node_idx chest_idx || not (str_eq c.item item)

-- The room that the first phase may use.
unfoldable pub room_chests : ItemId → ℕ → ℕ → ℕ → List Chest → ℕ
room_chests item stack node_idx chest_idx [] = 0
room_chests item stack node_idx chest_idx (c ∷ cs) =
    (if is_passed item node_idx chest_idx c then 0 else room (capacity stack) c.amounts)
    + room_chests item stack node_idx (chest_idx + 1) cs

unfoldable pub room_nodes : ItemId → ℕ → ℕ → List Node → ℕ
unfolding room_chests
room_nodes item stack node_idx [] = 0
room_nodes item stack node_idx (n ∷ ns) =
    room_chests item stack node_idx 0 n.chests + room_nodes item stack (node_idx + 1) ns

-- What the deposit into a part of the warehouse does: `q` is given, `free` fits.
abbrev pub Fills :
    {A : Type 0} → (ItemId → A → ℕ) → ItemId → ℕ → ℕ → A → A × ℤ × List ChestTransfer → Type 0
Fills amount item q free x (x', left, plan) =
    (left ≡ pos (q - free))
    × (planned plan ≡ min q free)
    × (amount item x' ≡ amount item x + min q free)
    × ((j : ItemId) → j ≢ item → amount j x' ≡ amount j x)

Fills-none :
    {A : Type 0} (amount : ItemId → A → ℕ) (item : ItemId) (q : ℕ) (x : A)
    → Fills amount item q 0 x (x, pos q, [])
Fills-none amount item q x = (ap pos (omega arith), omega arith, omega arith, λ j ne. refl)

Fills-zero :
    {A : Type 0} (amount : ItemId → A → ℕ) (item : ItemId) (free : ℕ) (x : A)
    → Fills amount item 0 free x (x, pos 0, [])
Fills-zero amount item free x = (ap pos (omega arith), omega arith, omega arith, λ j ne. refl)

-- What becomes of a chest that takes something in.
abbrev pub taken_by : ItemId → Chest → List ℤ × ℤ × ℤ → Chest × ℤ × List ChestTransfer
taken_by item c (xs, left, deposited) =
    (record c { amounts = xs }, left, transfers c item deposited)

taken_by-Fills :
    (item : ItemId) (q k : ℕ) (c : Chest) (x : List ℤ × ℤ × ℤ)
    → str_eq c.item item ≡ true
    → Stores k q c.amounts x
    → Fills held item q (room k c.amounts) c (taken_by item c x)
unfolding held
taken_by-Fills item q k c (xs, left, deposited) same (l, t, s, n) = (
  l,
  ground (arith, t, planned-transfers c item (min q (room k c.amounts))),
  ground (arith, same, s),
  λ j ne. ground (arith, same, eq_iff c.item item, eq_iff c.item j),
)

pub top_up_taken :
    (item : ItemId) (stack q node_idx chest_idx : ℕ) (c : Chest)
    → IsSized c
    → is_passed item node_idx chest_idx c ≡ false
    → top_up_chest item (pos stack) node_idx chest_idx (pos (suc q)) c
      ≡ taken_by item c (deposit_slots (pos (capacity stack)) (pos (suc q)) c.amounts)
unfolding top_up_chest deposit_into_chest
top_up_taken item stack q node_idx chest_idx c sized used =
    simp
      (used, normalized c sized, leb_ℤ-suc q, capacity_lem stack, top_up_chest, deposit_into_chest)

pub top_up_passed :
    (item : ItemId) (stack node_idx chest_idx : ℕ) (qty : ℤ) (c : Chest)
    → is_passed item node_idx chest_idx c ≡ true
    → top_up_chest item (pos stack) node_idx chest_idx qty c ≡ (c, qty, [])
unfolding top_up_chest
top_up_passed item stack node_idx chest_idx qty c passed = simp (passed, top_up_chest)

-- The loop over the chests, by what the first one and the rest come to.
abbrev chests_after :
    Chest × ℤ × List ChestTransfer
    → List Chest × ℤ × List ChestTransfer
    → List Chest × ℤ × List ChestTransfer
chests_after (c, _, t) (cs, left, plan) = (c ∷ cs, left, t ++ plan)

pub top_up_chests_step :
    (item : ItemId) (stack q node_idx chest_idx : ℕ) (c : Chest) (cs : List Chest)
    → top_up_chests item (pos stack) node_idx chest_idx (pos (suc q)) (c ∷ cs) ≡ (
        let x = top_up_chest item (pos stack) node_idx chest_idx (pos (suc q)) c in
        chests_after x (top_up_chests item (pos stack) node_idx (chest_idx + 1) x.1 cs))
unfolding top_up_chests
top_up_chests_step item stack q node_idx chest_idx c cs = rw (leb_ℤ-suc q, top_up_chests)

chests_after-Fills :
    (item : ItemId) (q a b : ℕ) (c : Chest) (cs : List Chest) (x : Chest × ℤ × List ChestTransfer)
    (y : List Chest × ℤ × List ChestTransfer)
    → Fills held item q a c x
    → Fills stock_chests item (q - a) b cs y
    → Fills stock_chests item q (a + b) (c ∷ cs) (chests_after x y)
unfolding stock_chests
chests_after-Fills item q a b c cs (c', l, t) (cs', l', t') (e, p, s, o) (e', p', s', o') = (
  e' ∙ ap pos (omega arith),
  omega (arith, planned-append t t'),
  omega arith,
  λ j ne. omega (arith, o j ne, o' j ne),
)

-- One chest, whose use of its room depends on whether it is passed over.
pub top_up_chest-Fills :
    (item : ItemId) (stack q node_idx chest_idx : ℕ) (c : Chest)
    → IsSized c
    → let free =
        if is_passed item node_idx chest_idx c then 0 else room (capacity stack) c.amounts in
      Fills held item
        (suc q)
        free
        c
        (top_up_chest item (pos stack) node_idx chest_idx (pos (suc q)) c)
top_up_chest-Fills item stack q node_idx chest_idx c sized =
    elim (Bool-cases (is_passed item node_idx chest_idx c)) [
      | inl passed ↦
          rw (passed, top_up_passed item stack node_idx chest_idx (pos (suc q)) c passed)
            (Fills-none held item (suc q) c)
      | inr used ↦
          rw (used, top_up_taken item stack q node_idx chest_idx c sized used)
            (taken_by-Fills item (suc q) (capacity stack) c
              (deposit_slots (pos (capacity stack)) (pos (suc q)) c.amounts) (named-by used)
              (deposit_slots-Stores (capacity stack) (suc q) c.amounts))
    ]
  where
    named-by : is_passed item node_idx chest_idx c ≡ false → str_eq c.item item ≡ true
    named-by h = ground (arith, h)

pub top_up_chests-Fills :
    (item : ItemId) (stack q node_idx chest_idx : ℕ) (cs : List Chest)
    → All IsSized cs
    → Fills stock_chests item q
        (room_chests item stack node_idx chest_idx cs)
        cs
        (top_up_chests item (pos stack) node_idx chest_idx (pos q) cs)
unfolding top_up_chests room_chests
top_up_chests-Fills item stack q node_idx chest_idx [] sized = Fills-none stock_chests item q []
top_up_chests-Fills item stack zero node_idx chest_idx (c ∷ cs) sized =
    Fills-zero stock_chests item (room_chests item stack node_idx chest_idx (c ∷ cs)) (c ∷ cs)
top_up_chests-Fills item stack (suc q) node_idx chest_idx (c ∷ cs) sized =
    let x = top_up_chest item (pos stack) node_idx chest_idx (pos (suc q)) c in
    let free = if is_passed item node_idx chest_idx c then 0 else room (capacity stack) c.amounts in
    let f = top_up_chest-Fills item stack q node_idx chest_idx c sized.0 in
    rw (top_up_chests_step item stack q node_idx chest_idx c cs) (
      chests_after-Fills item (suc q) free (room_chests item stack node_idx (chest_idx + 1) cs) c cs
        x (top_up_chests item (pos stack) node_idx (chest_idx + 1) x.1 cs) f
        (rw f.0
          (top_up_chests-Fills item stack (suc q - free) node_idx (chest_idx + 1) cs sized.1)))

abbrev nodes_after :
    Node
    → List Chest × ℤ × List ChestTransfer
    → List Node × ℤ × List ChestTransfer
    → List Node × ℤ × List ChestTransfer
nodes_after n (cs, _, t) (ns, left, plan) = (record n { chests = cs } ∷ ns, left, t ++ plan)

nodes_after-Fills :
    (item : ItemId) (q a b : ℕ) (n : Node) (ns : List Node)
    (x : List Chest × ℤ × List ChestTransfer) (y : List Node × ℤ × List ChestTransfer)
    → Fills stock_chests item q a n.chests x
    → Fills stock_nodes item (q - a) b ns y
    → Fills stock_nodes item q (a + b) (n ∷ ns) (nodes_after n x y)
unfolding stock_nodes
nodes_after-Fills item q a b n ns (cs, l, t) (ns', l', t') (e, p, s, o) (e', p', s', o') = (
  e' ∙ ap pos (omega arith),
  omega (arith, planned-append t t'),
  omega arith,
  λ j ne. omega (arith, o j ne, o' j ne),
)

-- The first phase of a deposit puts as much of the quantity as has room into the chests of the
-- item: that much is planned, the item's amount in the warehouse grows by exactly that, no other
-- item's amount changes, and the rest is left for the second phase. Every chest has 54 slots.
pub top_up_nodes-Fills :
    (item : ItemId) (stack q node_idx : ℕ) (ns : List Node)
    → AreSized ns
    → Fills stock_nodes item q
        (room_nodes item stack node_idx ns)
        ns
        (top_up_nodes item (pos stack) node_idx (pos q) ns)
unfolding top_up_nodes room_nodes
top_up_nodes-Fills item stack q node_idx [] sized = Fills-none stock_nodes item q []
top_up_nodes-Fills item stack q node_idx (n ∷ ns) sized =
    let x = top_up_chests item (pos stack) node_idx 0 (pos q) n.chests in
    let free = room_chests item stack node_idx 0 n.chests in
    let f = top_up_chests-Fills item stack q node_idx 0 n.chests sized.0 in
    nodes_after-Fills item q free (room_nodes item stack (node_idx + 1) ns) n ns x
      (top_up_nodes item (pos stack) (node_idx + 1) x.1 ns) f
      (rw f.0 (top_up_nodes-Fills item stack (q - free) (node_idx + 1) ns sized.1))
