-- ===== src/Storage/Foresee/Planned.antt =====
-- How much the dry run of a deposit plans.
use cj_store.Prelude.{
  ℕ, zero, suc, ◌+◌, ◌-◌, ◌*◌, ◌≤◌, ◌≡◌, refl, ap, ◌∙◌, inl, inr, true, false, not, ◌||◌, Option,
  none, some, List, [], ◌∷◌, str_eq, min, any, drop, get_elem?, All, Bool-cases, if_split, arith,
}
use cj_store.Prelude.Int.{
  ℤ, pos, negsuc, ◌-ℤ◌, ◌*ℤ◌, leb_ℤ, ltb_ℤ, eq_ℤ, min_ℤ, min_ℤ-pos, -ℤ-pos, +ℤ-pos, leb_ℤ-suc,
}
use cj_store.Types.{ItemId, is_empty, Chest, Node, Storage, ChestTransfer}
use cj_store.Storage.Withdraw.{planned}
use cj_store.Storage.Deposit.Phase.{capacity, capacity_lem}
use cj_store.Storage.Foresee.{
  Rest, Claims, merged, record_transfer, fill_slot, fill_slots, fill_chest, fill_chests, fill_nodes,
  try_claim, try_claims, claim_reserved, claim_first, claim_rest, claim_nodes,
  simulate_deposit_plan,
}

-- A plan's entry moves something.
abbrev pub IsPositive : ChestTransfer → Type 0
IsPositive t = (n : ℕ) × (t.amount ≡ pos (suc n))

-- The plan and the rest make up the quantity.
abbrev pub Covers : ℕ → Rest → Type 0
Covers q (plan, remaining) =
    (r : ℕ) × (remaining ≡ pos r) × (planned plan + r ≡ q) × All IsPositive plan

merged-planned :
    (c : Chest) (item : ItemId) (a : ℕ) (plan : List ChestTransfer)
    → All IsPositive plan
    → (planned (merged c item (pos (suc a)) plan) ≡ planned plan + suc a)
      × All IsPositive (merged c item (pos (suc a)) plan)
unfolding merged
merged-planned c item a [] p = (omega arith, ((a, refl), tt))
merged-planned c item a (t ∷ []) ((n, e), p) = elim (Bool-cases (eq_ℤ t.chest_id c.id)) [
  | inl same ↦
      rw (same, e, +ℤ-pos (suc n) (suc a)) (omega arith, ((n + suc a, ap pos (omega arith)), tt))
  | inr other ↦ rw other (omega arith, ((n, e), ((a, refl), tt)))
]
merged-planned c item a (t ∷ (u ∷ ts)) (p, ps) =
    let (e, ps') = merged-planned c item a (u ∷ ts) ps in (omega (arith, e), (p, ps'))

record_transfer-Covers :
    (c : Chest) (item : ItemId) (q r a : ℕ) (plan : List ChestTransfer)
    → a ≤ r
    → planned plan + r ≡ q
    → All IsPositive plan
    → Covers q (record_transfer c item (pos a) plan, pos r -ℤ pos a)
unfolding record_transfer
record_transfer-Covers c item q r zero plan le e p = (r, -ℤ-pos r 0 le ∙ ap pos (omega arith), e, p)
record_transfer-Covers c item q r (suc a) plan le e p =
    let (e', p') = merged-planned c item a plan p in
    rw (leb_ℤ-suc a) (r - suc a, -ℤ-pos r (suc a) le, omega (arith, e', e), p')

-- Both phases put in the less of the room and the rest.
entry-Covers :
    (c : Chest) (item : ItemId) (q room r : ℕ) (plan : List ChestTransfer)
    → planned plan + r ≡ q
    → All IsPositive plan
    → let add = min_ℤ (pos room) (pos r) in Covers q (record_transfer c item add plan, pos r -ℤ add)
entry-Covers c item q room r plan e p =
    rw (min_ℤ-pos room r) (record_transfer-Covers c item q r (min room r) plan (omega arith) e p)

fill_slot-Covers :
    (k : ℕ) (item : ItemId) (c : Chest) (current : ℤ) (q : ℕ) (s : Rest)
    → Covers q s
    → Covers q (fill_slot (pos k) item c current s)
unfolding fill_slot
fill_slot-Covers k item c (negsuc n) q (plan, remaining) (r, l, e, p) =
    rw (unused remaining n) (r, l, e, p)
  where
    unused :
        (m : ℤ) (n : ℕ)
        → (leb_ℤ m (pos 0) || ltb_ℤ (negsuc n) (pos 0) || leb_ℤ (pos k) (negsuc n)) ≡ true
    unused m n = ground arith
fill_slot-Covers k item c (pos n) q (plan, remaining) (r, l, e, p) =
    elim (Bool-cases (leb_ℤ remaining (pos 0) || ltb_ℤ (pos n) (pos 0) || leb_ℤ (pos k) (pos n))) [
      | inl passed ↦ rw passed (r, l, e, p)
      | inr free ↦
          rw (free, l, -ℤ-pos k n (below remaining free)) (entry-Covers c item q (k - n) r plan e p)
    ]
  where
    below :
        (m : ℤ)
        → (leb_ℤ m (pos 0) || ltb_ℤ (pos n) (pos 0) || leb_ℤ (pos k) (pos n)) ≡ false
        → n ≤ k
    below m h = ground (arith, h)

fill_slots-Covers :
    (k : ℕ) (item : ItemId) (c : Chest) (xs : List ℤ) (q : ℕ) (s : Rest)
    → Covers q s
    → Covers q (fill_slots (pos k) item c xs s)
unfolding fill_slots
fill_slots-Covers k item c [] q s h = h
fill_slots-Covers k item c (x ∷ xs) q s h =
    fill_slots-Covers k item c xs q (fill_slot (pos k) item c x s)
      (fill_slot-Covers k item c x q s h)

fill_chest-Covers :
    (k : ℕ) (item : ItemId) (ni ci : ℕ) (c : Chest) (q : ℕ) (s : Rest)
    → Covers q s
    → Covers q (fill_chest (pos k) item ni ci c s)
unfolding fill_chest
fill_chest-Covers k item ni ci c q s h =
    if_split (Covers q) _ (λ _. h) (λ _. fill_slots-Covers k item c c.amounts q s h)

fill_chests-Covers :
    (k : ℕ) (item : ItemId) (ni ci : ℕ) (cs : List Chest) (q : ℕ) (s : Rest)
    → Covers q s
    → Covers q (fill_chests (pos k) item ni ci cs s)
unfolding fill_chests
fill_chests-Covers k item ni ci [] q s h = h
fill_chests-Covers k item ni ci (c ∷ cs) q s h =
    fill_chests-Covers k item ni (ci + 1) cs q _ (fill_chest-Covers k item ni ci c q s h)

fill_nodes-Covers :
    (k : ℕ) (item : ItemId) (ni : ℕ) (ns : List Node) (q : ℕ) (s : Rest)
    → Covers q s
    → Covers q (fill_nodes (pos k) item ni ns s)
unfolding fill_nodes
fill_nodes-Covers k item ni [] q s h = h
fill_nodes-Covers k item ni (n ∷ ns) q s h =
    fill_nodes-Covers k item (ni + 1) ns q _ (fill_chests-Covers k item ni 0 n.chests q s h)

try_claim-Covers :
    (k : ℕ) (item : ItemId) (c : Chest) (q : ℕ) (s : Claims)
    → Covers q s.0
    → Covers q (try_claim (pos k) item c s).0
unfolding try_claim
try_claim-Covers k item c q ((plan, remaining), claimed) (r, l, e, p) =
    elim (Bool-cases
      (leb_ℤ remaining (pos 0) || not (is_empty c.item) || any (λ i. eq_ℤ i c.id) claimed)) [
        | inl passed ↦ rw passed (r, l, e, p)
        | inr free ↦ rw (free, l) (entry-Covers c item q k r plan e p)
      ]

try_claims-Covers :
    (k : ℕ) (item : ItemId) (cs : List Chest) (q : ℕ) (s : Claims)
    → Covers q s.0
    → Covers q (try_claims (pos k) item cs s).0
unfolding try_claims
try_claims-Covers k item [] q s h = h
try_claims-Covers k item (c ∷ cs) q s h =
    try_claims-Covers k item cs q (try_claim (pos k) item c s) (try_claim-Covers k item c q s h)

claim_reserved-Covers :
    (k : ℕ) (item reserved : ItemId) (o : Option Chest) (q : ℕ) (s : Claims)
    → Covers q s.0
    → Covers q (claim_reserved (pos k) item reserved o s).0
unfolding claim_reserved
claim_reserved-Covers k item reserved none q s h = h
claim_reserved-Covers k item reserved (some c) q s h =
    if_split (λ (x : Claims). Covers q x.0) (str_eq item reserved)
      (λ _. try_claim-Covers k item c q s h) (λ _. h)

claim_nodes-Covers :
    (k : ℕ) (item : ItemId) (ns : List Node) (q : ℕ) (s : Claims)
    → Covers q s.0
    → Covers q (claim_nodes (pos k) item ns s).0
unfolding claim_nodes claim_first
claim_nodes-Covers k item [] q s h = h
claim_nodes-Covers k item (n ∷ ns) q s h = rest ns (claim_first (pos k) item n.chests s) (
    try_claims-Covers k item (drop 2 n.chests) q _ (
      claim_reserved-Covers k item "overflow" (get_elem? n.chests 1) q _
        (claim_reserved-Covers k item "diamond" (get_elem? n.chests 0) q s h)))
  where
    rest : (ms : List Node) (s : Claims) → Covers q s.0 → Covers q (claim_rest (pos k) item ms s).0
    rest [] s h = h
    rest (m ∷ ms) s h =
        rest ms (try_claims (pos k) item m.chests s) (try_claims-Covers k item m.chests q s h)

chest_capacity : (k : ℕ) → pos 54 *ℤ pos k ≡ pos (54 * k)
unfolding ◌*ℤ◌
chest_capacity k = ground arith

-- What the dry run says that it planned.
abbrev pub Foresees : ℕ → List ChestTransfer × ℤ → Type 0
Foresees q (plan, n) = (n ≡ pos (planned plan)) × (planned plan ≤ q) × All IsPositive plan

-- The dry run of a deposit plans at most the quantity, its entries are positive and come to what it
-- says that it planned, and what it says is not negative. No condition on the warehouse.
pub simulate_deposit_plan-Foresees :
    (item : ItemId) (q stack : ℕ) (s : Storage)
    → Foresees q (simulate_deposit_plan item (pos q) (pos stack) s)
unfolding simulate_deposit_plan
simulate_deposit_plan-Foresees item q stack s =
    rw (capacity_lem stack, chest_capacity (capacity stack))
      (let topped_up = fill_nodes (pos (capacity stack)) item 0 s.nodes ([], pos q) in
        let (r, l, e, p) =
          claim_nodes-Covers (54 * capacity stack) item s.nodes q (topped_up, [])
            (fill_nodes-Covers (capacity stack) item 0 s.nodes q ([], pos q)
              (q, refl, omega arith, tt)) in
        if_split (Foresees q) (leb_ℤ (pos q) (pos 0) || is_empty item) (λ _. nothing)
          (λ _. something _ _ r l e p))
  where
    nothing : Foresees q ([], pos 0)
    nothing = (refl, omega arith, tt)

    something :
        (plan : List ChestTransfer) (left : ℤ) (r : ℕ)
        → left ≡ pos r
        → planned plan + r ≡ q
        → All IsPositive plan
        → Foresees q (plan, pos q -ℤ left)
    something plan left r l e p =
        (rw (l, -ℤ-pos q r (omega arith)) (ap pos (omega arith)), omega arith, p)
