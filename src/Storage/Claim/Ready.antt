-- ===== src/Storage/Claim/Ready.antt =====
-- A warehouse that is ready for claims: every chest has its 54 slots, and an unassigned chest is
-- empty. Writes, new nodes and the first phase of a deposit keep it ready.
use cj_store.Prelude.{
  ℕ, zero, suc, ◌+◌, ◌-◌, ◌≡◌, refl, ap, sym, ◌∙◌, inl, inr, true, false, some, List, [], ◌∷◌, ◌++◌,
  if◌then◌else◌, str_eq, eq_iff, length, get_elem?, set, replicate, All, All-append, Bool-cases,
  arith,
}
use cj_store.Prelude.Int.{ℤ, pos}
use mathlib.Core.Path.{subst}
use mathlib.Core.Option.{some-injective}
use cj_store.Types.{Position, ItemId, is_empty, Chest, Node, Storage}
use cj_store.Storage.{stock, held, stock_chests, stock_nodes}
use cj_store.Storage.Withdraw.{IsSized, AreSized}
use cj_store.Storage.Deposit.{top_up_chest, top_up_chests, top_up_nodes, deposit_slots}
use cj_store.Storage.Deposit.Phase.{
  is_passed, top_up_taken, top_up_passed, capacity, taken_by, room_chests, top_up_chest-Fills,
  top_up_chests_step, top_up_chests-Fills,
}
use cj_store.Storage.Deposit.Fills.{room, deposit_slots-Stores}
use cj_store.Storage.Layout.{new_node, new_chest, reserved_item, add_node, free_id}
use cj_store.Storage.Claim.{chest_at, put_chest}

abbrev pub IsReady : Chest → Type 0
IsReady c = IsSized c × (is_empty c.item ≡ true → c.amounts ≡ replicate 54 (pos 0))

abbrev pub AreReady : List Node → Type 0
AreReady = All (λ n. All IsReady n.chests)

All-get_elem? :
    (cs : List Chest) (ci : ℕ) (c : Chest) → get_elem? cs ci ≡ some c → All IsReady cs → IsReady c
All-get_elem? [] ci c e r = absurd (cc e)
All-get_elem? (x ∷ cs) zero c e r = subst IsReady (some-injective _ _ e) r.0
All-get_elem? (x ∷ cs) (suc ci) c e r = All-get_elem? cs ci c e r.1

pub chest_at-IsReady :
    (ns : List Node) (ni ci : ℕ) (c : Chest) → chest_at ns ni ci ≡ some c → AreReady ns → IsReady c
unfolding chest_at
chest_at-IsReady [] ni ci c e r = absurd (cc e)
chest_at-IsReady (n ∷ ns) zero ci c e r = All-get_elem? n.chests ci c e r.0
chest_at-IsReady (n ∷ ns) (suc ni) ci c e r = chest_at-IsReady ns ni ci c e r.1

All-set :
    (cs : List Chest) (ci : ℕ) (c : Chest) → All IsReady cs → IsReady c → All IsReady (set cs ci c)
All-set [] ci c r h = tt
All-set (x ∷ cs) zero c r h = (h, r.1)
All-set (x ∷ cs) (suc ci) c r h = (r.0, All-set cs ci c r.1 h)

pub put_chest-AreReady :
    (ns : List Node) (ni ci : ℕ) (c : Chest)
    → AreReady ns
    → IsReady c
    → AreReady (put_chest ns ni ci c)
unfolding put_chest
put_chest-AreReady [] ni ci c r h = tt
put_chest-AreReady (n ∷ ns) zero ci c r h = (All-set n.chests ci c r.0 h, r.1)
put_chest-AreReady (n ∷ ns) (suc ni) ci c r h = (r.0, put_chest-AreReady ns ni ci c r.1 h)

-- A new node has empty chests only.
new_node-IsReady : (i : ℕ) (at : Position) → All IsReady (new_node i at).chests
unfolding new_node new_chest
new_node-IsReady i at =
    ((refl, λ e. refl), ((refl, λ e. refl), ((refl, λ e. refl), ((refl, λ e. refl), tt))))

pub add_node-AreReady : (s : Storage) → AreReady s.nodes → AreReady (add_node s).nodes
unfolding add_node
add_node-AreReady s r = All-append _ s.nodes _ r (new_node-IsReady (free_id s.nodes) s.position, tt)

held_empty : (j : ItemId) (c : Chest) → c.amounts ≡ replicate 54 (pos 0) → held j c ≡ 0
unfolding held stock
held_empty j c e = elim (Bool-cases (str_eq c.item j)) [
  | inl same ↦ rw (same, e) refl
  | inr other ↦ rw other refl
]

pub held-unassigned : (j : ItemId) (c : Chest) → is_empty c.item ≡ true → IsReady c → held j c ≡ 0
held-unassigned j c free r = held_empty j c (r.1 free)

stock_new_node : (j : ItemId) (i : ℕ) (at : Position) → stock_chests j (new_node i at).chests ≡ 0
unfolding new_node new_chest stock_chests
stock_new_node j i at = omega (
  arith,
  held_empty j (new_chest i (new_node i at).position (reserved_item i 0) 0) refl,
  held_empty j (new_chest i (new_node i at).position (reserved_item i 1) 1) refl,
  held_empty j (new_chest i (new_node i at).position (reserved_item i 2) 2) refl,
  held_empty j (new_chest i (new_node i at).position (reserved_item i 3) 3) refl,
)

stock_nodes-append :
    (j : ItemId) (xs ys : List Node)
    → stock_nodes j (xs ++ ys) ≡ stock_nodes j xs + stock_nodes j ys
unfolding stock_nodes
stock_nodes-append j [] ys = omega arith
stock_nodes-append j (n ∷ xs) ys = omega (arith, stock_nodes-append j xs ys)

pub stock_nodes-add_node :
    (j : ItemId) (s : Storage) → stock_nodes j (add_node s).nodes ≡ stock_nodes j s.nodes
unfolding add_node stock_nodes
stock_nodes-add_node j s = omega (
  arith,
  stock_nodes-append j s.nodes (new_node (free_id s.nodes) s.position ∷ []),
  stock_new_node j (free_id s.nodes) s.position,
)

-- The first phase changes the chests that hold the item already.
taken_by-IsReady :
    (item : ItemId) (c : Chest) (x : List ℤ × ℤ × ℤ)
    → is_empty item ≡ false
    → str_eq c.item item ≡ true
    → length x.0 ≡ length c.amounts
    → IsReady c
    → IsReady (taken_by item c x).0
taken_by-IsReady item c x named same len r =
    (len ∙ r.0, λ free. absurd (cc (sym free ∙ ap is_empty ((eq_iff c.item item).0 same) ∙ named)))

top_up_chest-IsReady :
    (item : ItemId) (stack q node_idx chest_idx : ℕ) (c : Chest)
    → is_empty item ≡ false
    → IsReady c
    → IsReady (top_up_chest item (pos stack) node_idx chest_idx (pos (suc q)) c).0
top_up_chest-IsReady item stack q node_idx chest_idx c named r =
    elim (Bool-cases (is_passed item node_idx chest_idx c)) [
      | inl passed ↦ rw (top_up_passed item stack node_idx chest_idx (pos (suc q)) c passed) r
      | inr used ↦ rw (top_up_taken item stack q node_idx chest_idx c r.0 used) (
          let (_, _, _, len) = deposit_slots-Stores (capacity stack) (suc q) c.amounts in
          taken_by-IsReady item c (deposit_slots (pos (capacity stack)) (pos (suc q)) c.amounts)
            named (same used) len r)
    ]
  where
    same : is_passed item node_idx chest_idx c ≡ false → str_eq c.item item ≡ true
    same h = ground (arith, h)

top_up_chests-AllReady :
    (item : ItemId) (stack q node_idx chest_idx : ℕ) (cs : List Chest)
    → is_empty item ≡ false
    → All IsReady cs
    → All IsReady (top_up_chests item (pos stack) node_idx chest_idx (pos q) cs).0
unfolding top_up_chests
top_up_chests-AllReady item stack q node_idx chest_idx [] named r = tt
top_up_chests-AllReady item stack zero node_idx chest_idx (c ∷ cs) named r = r
top_up_chests-AllReady item stack (suc q) node_idx chest_idx (c ∷ cs) named r =
    let x = top_up_chest item (pos stack) node_idx chest_idx (pos (suc q)) c in
    let free = if is_passed item node_idx chest_idx c then 0 else room (capacity stack) c.amounts in
    let (l, _, _, _) = top_up_chest-Fills item stack q node_idx chest_idx c r.0.0 in
    rw (top_up_chests_step item stack q node_idx chest_idx c cs) (
      top_up_chest-IsReady item stack q node_idx chest_idx c named r.0,
      rw l (top_up_chests-AllReady item stack (suc q - free) node_idx (chest_idx + 1) cs named r.1),
    )

All-sizes : (cs : List Chest) → All IsReady cs → All IsSized cs
All-sizes [] r = tt
All-sizes (c ∷ cs) (r, rs) = (r.0, All-sizes cs rs)

pub AreReady-AreSized : (ns : List Node) → AreReady ns → AreSized ns
AreReady-AreSized [] r = tt
AreReady-AreSized (n ∷ ns) (r, rs) = (All-sizes n.chests r, AreReady-AreSized ns rs)

pub top_up_nodes-AreReady :
    (item : ItemId) (stack q node_idx : ℕ) (ns : List Node)
    → is_empty item ≡ false
    → AreReady ns
    → AreReady (top_up_nodes item (pos stack) node_idx (pos q) ns).0
unfolding top_up_nodes
top_up_nodes-AreReady item stack q node_idx [] named r = tt
top_up_nodes-AreReady item stack q node_idx (n ∷ ns) named r =
    let (l, _, _, _) =
      top_up_chests-Fills item stack q node_idx 0 n.chests (All-sizes n.chests r.0) in
    (
      top_up_chests-AllReady item stack q node_idx 0 n.chests named r.0,
      rw l (
          top_up_nodes-AreReady item stack (q - room_chests item stack node_idx 0 n.chests)
            (node_idx + 1) ns named r.1),
    )
