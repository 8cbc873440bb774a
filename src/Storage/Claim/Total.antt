-- ===== src/Storage/Claim/Total.antt =====
-- The second phase of a deposit comes to an end with the whole quantity planned.
use cj_store.Prelude.{
  ℕ, zero, suc, ◌+◌, ◌-◌, ◌≤◌, ◌≡◌, ◌≢◌, refl, ap, sym, ◌∙◌, inl, inr, true, false, ◌&&◌, some,
  List, [], ◌∷◌, ◌++◌, str_eq, eq_iff, length, min, replicate, drop, Bool-cases, Option-cases,
  arith,
}
use cj_store.Prelude.Int.{ℤ, pos, leb_ℤ-suc}
use cj_store.Types.{Position, ItemId, is_empty, Chest, Node, Storage, ChestTransfer}
use cj_store.Storage.{stock, held, stock_nodes, transfers}
use cj_store.Storage.Withdraw.{planned, planned-append, planned-transfers, IsSized, normalized}
use cj_store.Storage.Deposit.{top_up_nodes, deposit_into_chest, deposit_slots}
use cj_store.Storage.Deposit.Phase.{capacity, capacity_lem, Fills, room_nodes, top_up_nodes-Fills}
use cj_store.Storage.Deposit.Fills.{room, deposit_slots-Stores}
use cj_store.Storage.Layout.{new_node, add_node, free_id}
use cj_store.Storage.Claim.{
  unassigned_at, first_unassigned, find_in_first, find_in_rest, find_empty_chest_index, chest_at,
  put_chest, Claimed, planned_all, found_or_grown, assigned, claim, claim_found, claim_loop,
  deposit_plan,
}
use cj_store.Storage.Claim.Places.{VacantAt, find_empty_chest_index-VacantAt, stock_nodes-put_chest}
use cj_store.Storage.Claim.Ready.{
  AreReady, AreReady-AreSized, chest_at-IsReady, put_chest-AreReady, add_node-AreReady,
  held-unassigned, stock_nodes-add_node, top_up_nodes-AreReady,
}

-- A new node has a free chest, also when it is node 0.
new_node-free :
    (i : ℕ) (at : Position) → (ci : ℕ) × (first_unassigned 0 (new_node i at).chests ≡ some ci)
unfolding new_node first_unassigned
new_node-free zero at = (2, refl)
new_node-free (suc i) at = (0, refl)

find_in_first-some :
    (item : ItemId) (cs : List Chest) (k : ℕ)
    → first_unassigned 2 (drop 2 cs) ≡ some k
    → (ci : ℕ) × (find_in_first item cs ≡ some ci)
unfolding find_in_first
find_in_first-some item cs k e = elim (Bool-cases (str_eq item "diamond" && unassigned_at cs 0)) [
  | inl d ↦ (0, rw (d, find_in_first) refl)
  | inr d ↦ elim (Bool-cases (str_eq item "overflow" && unassigned_at cs 1)) [
    | inl o ↦ (1, rw (d, o, find_in_first) refl)
    | inr o ↦ (k, rw (d, o, find_in_first) e)
  ]
]

new_node-free_in_first :
    (item : ItemId) (i : ℕ) (at : Position)
    → (ci : ℕ) × (find_in_first item (new_node i at).chests ≡ some ci)
unfolding new_node first_unassigned
new_node-free_in_first item zero at = find_in_first-some item (new_node zero at).chests 2 refl
new_node-free_in_first item (suc i) at = find_in_first-some item (new_node (suc i) at).chests 2 refl

find_in_rest-grown :
    (k i : ℕ) (at : Position) (ns : List Node)
    → (p : ℕ × ℕ) × (find_in_rest k (ns ++ new_node i at ∷ []) ≡ some p)
unfolding find_in_rest
find_in_rest-grown k i at [] =
    let (ci, e) = new_node-free i at in ((k, ci), rw (e, find_in_rest) refl)
find_in_rest-grown k i at (n ∷ ns) = elim (Option-cases (first_unassigned 0 n.chests)) [
  | inl full ↦ let (p, e) = find_in_rest-grown (k + 1) i at ns in (p, rw (full, find_in_rest) e)
  | inr (ci, e) ↦ ((k, ci), rw (e, find_in_rest) refl)
]

grown-VacantAt :
    (item : ItemId) (s : Storage)
    → (p : ℕ × ℕ) × (find_empty_chest_index item (add_node s).nodes ≡ some p)
unfolding add_node find_empty_chest_index
grown-VacantAt item s = go (free_id s.nodes) s.nodes
  where
    go :
        (i : ℕ) (ns : List Node)
        → (p : ℕ × ℕ) × (find_empty_chest_index item (ns ++ new_node i s.position ∷ []) ≡ some p)
    go i [] =
        let (ci, e) = new_node-free_in_first item i s.position in
        ((0, ci), rw (e, find_empty_chest_index) refl)
    go i (n ∷ ns) = elim (Option-cases (find_in_first item n.chests)) [
      | inl full ↦
          let (p, e) = find_in_rest-grown 1 i s.position ns in
          (p, rw (full, find_empty_chest_index) e)
      | inr (ci, e) ↦ ((0, ci), rw (e, find_empty_chest_index) refl)
    ]

-- What an unassigned chest can take in.
unfoldable free_room : ℕ → ℕ
free_room stack = room (capacity stack) (replicate 54 (pos 0))

free_room-pos : (stack : ℕ) → 1 ≤ stack → 1 ≤ free_room stack
unfolding free_room
free_room-pos stack h = omega arith

abbrev filled : Chest → List ℤ × ℤ × ℤ → Chest × ℤ × ℤ
filled c (xs, left, deposited) = (record c { amounts = xs }, left, deposited)

deposit_into_chest_lem :
    (stack q : ℕ) (c : Chest)
    → IsSized c
    → deposit_into_chest (pos stack) (pos (suc q)) c
      ≡ filled c (deposit_slots (pos (capacity stack)) (pos (suc q)) c.amounts)
unfolding deposit_into_chest
deposit_into_chest_lem stack q c sized =
    simp (normalized c sized, leb_ℤ-suc q, capacity_lem stack, deposit_into_chest)

-- What becomes of the warehouse when a place is claimed.
abbrev claimed :
    ItemId → Storage → ℕ × ℕ → Chest → List ℤ × ℤ × ℤ → Storage × ℤ × List ChestTransfer
claimed item s (ni, ci) c (xs, left, deposited) =
    let c' : Chest = record (assigned item c) { amounts = xs } in
    (record s { nodes = put_chest s.nodes ni ci c' }, left, transfers c' item deposited)

claim_vacant :
    (item : ItemId) (stack q : ℕ) (s : Storage) (at : ℕ × ℕ) (c : Chest)
    → chest_at s.nodes at.0 at.1 ≡ some c
    → IsSized c
    → claim item (pos stack) (pos (suc q)) s at
      ≡ some (claimed item s at c (deposit_slots (pos (capacity stack)) (pos (suc q)) c.amounts))
unfolding claim
claim_vacant item stack q s (ni, ci) c e sized =
    rw (e, deposit_into_chest_lem stack q (assigned item c) sized, claim) refl

-- A step of the loop: some of the quantity `q` goes into a chest with the room `f`.
abbrev Claims : ItemId → ℕ → ℕ → Storage → Storage × ℤ × List ChestTransfer → Type 0
Claims item q f s (s', left, t) =
    Fills stock_nodes item q f s.nodes (s'.nodes, left, t) × AreReady s'.nodes

claimed-Claims :
    (item : ItemId) (q f : ℕ) (s : Storage) (at : ℕ × ℕ) (c : Chest) (x : List ℤ × ℤ × ℤ)
    → is_empty item ≡ false
    → AreReady s.nodes
    → chest_at s.nodes at.0 at.1 ≡ some c
    → is_empty c.item ≡ true
    → (x.1 ≡ pos (q - f)) × (x.2 ≡ pos (min q f)) × (stock x.0 ≡ min q f) × (length x.0 ≡ 54)
    → Claims item q f s (claimed item s at c x)
unfolding held
claimed-Claims item q f s (ni, ci) c (xs, left, d) named ready e free (l, dep, st, len) =
    let c' : Chest = record (assigned item c) { amounts = xs } in
    let nothing =
      λ (j : ItemId). held-unassigned j c free (chest_at-IsReady s.nodes ni ci c e ready) in
    let write = λ (j : ItemId). stock_nodes-put_chest j s.nodes ni ci c c' e in
    (
      (
        l,
        rw dep (planned-transfers c' item (min q f)),
        omega (arith, write item, nothing item, own xs st),
        λ j ne. omega (arith, write j, nothing j, other j xs ne),
      ),
      put_chest-AreReady s.nodes ni ci c' ready (len, λ h. absurd (cc (sym h ∙ named))),
    )
  where
    own :
        (xs : List ℤ)
        → stock xs ≡ min q f
        → held item (record (assigned item c) { amounts = xs }) ≡ min q f
    own xs st = rw ((eq_iff item item).1 refl) st

    other :
        (j : ItemId) (xs : List ℤ)
        → j ≢ item
        → held j (record (assigned item c) { amounts = xs }) ≡ 0
    other j xs ne = ground (arith, ne, eq_iff item j)

claim-Claims :
    (item : ItemId) (stack q : ℕ) (s : Storage) (at : ℕ × ℕ)
    → is_empty item ≡ false
    → AreReady s.nodes
    → VacantAt s.nodes at
    → (r : Storage × ℤ × List ChestTransfer) × (claim item (pos stack) (pos (suc q)) s at ≡ some r)
      × Claims item (suc q) (free_room stack) s r
unfolding stock free_room
claim-Claims item stack q s at named ready (c, e, free) =
    let r = chest_at-IsReady s.nodes at.0 at.1 c e ready in
    let x = deposit_slots (pos (capacity stack)) (pos (suc q)) c.amounts in
    (
      claimed item s at c x,
      claim_vacant item stack q s at c e r.0,
      claimed-Claims item (suc q) (free_room stack) s at c x named ready e free (
          rw (r.1 free) (
            let (l, d, t, n) =
              deposit_slots-Stores (capacity stack) (suc q) (replicate 54 (pos 0)) in
            (l, d, from_zero _ _ t, n))),
    )
  where
    from_zero : (m n : ℕ) → m ≡ 0 + n → m ≡ n
    from_zero m n e = omega (arith, e)

-- One round of the loop, with a node added where there was no free chest.
found_or_grown-VacantAt :
    (item : ItemId) (s : Storage)
    → AreReady s.nodes
    → (s' : Storage) × (at : ℕ × ℕ) × (found_or_grown item s ≡ (s', some at))
      × VacantAt s'.nodes at
      × AreReady s'.nodes
      × ((j : ItemId) → stock_nodes j s'.nodes ≡ stock_nodes j s.nodes)
found_or_grown-VacantAt item s ready = elim (Option-cases (find_empty_chest_index item s.nodes)) [
  | inl full ↦
      let (at, e) = grown-VacantAt item s in
      (
        add_node s,
        at,
        rw (full, found_or_grown, e) refl,
        find_empty_chest_index-VacantAt item (add_node s).nodes at e,
        add_node-AreReady s ready,
        λ j. stock_nodes-add_node j s,
      )
  | inr (at, e) ↦ (
    s,
    at,
    rw (e, found_or_grown) refl,
    find_empty_chest_index-VacantAt item s.nodes at e,
    ready,
    λ j. refl,
  )
]

round-Claims :
    (item : ItemId) (stack q : ℕ) (s : Storage)
    → is_empty item ≡ false
    → AreReady s.nodes
    → (r : Storage × ℤ × List ChestTransfer) × (claim_found item
          (pos stack)
          (pos (suc q))
          (found_or_grown item s)
        ≡ some r)
      × Claims item (suc q) (free_room stack) s r
round-Claims item stack q s named ready =
    let (s', at, e, free, ready', same) = found_or_grown-VacantAt item s ready in
    let (r, claims, ((l, t, own, other), after)) =
      claim-Claims item stack q s' at named ready' free in
    (
      r,
      rw e claims,
      (
        (
          l,
          t,
          own ∙ ap (λ n. n + min (suc q) (free_room stack)) (same item),
          λ j ne. other j ne ∙ same j,
        ),
        after,
      ),
    )

-- What the loop comes to.
abbrev pub Plans : ItemId → ℕ → Storage → Claimed → Type 0
Plans item q s r =
    (s' : Storage) × (plan : List ChestTransfer) × (r ≡ planned_all s' plan)
    × (planned plan ≡ q)
    × (stock_nodes item s'.nodes ≡ stock_nodes item s.nodes + q)
    × ((j : ItemId) → j ≢ item → stock_nodes j s'.nodes ≡ stock_nodes j s.nodes)

claim_loop-Plans :
    (tries : ℕ) (item : ItemId) (stack q : ℕ) (s : Storage)
    → q ≤ tries
    → 1 ≤ stack
    → is_empty item ≡ false
    → AreReady s.nodes
    → Plans item q s (claim_loop tries item (pos stack) (pos q) s)
unfolding claim_loop
claim_loop-Plans zero item stack zero s enough some_fit named ready =
    (s, [], refl, refl, omega arith, λ j ne. refl)
claim_loop-Plans zero item stack (suc q) s enough some_fit named ready = absurd (omega arith)
claim_loop-Plans (suc tries) item stack zero s enough some_fit named ready =
    (s, [], refl, refl, omega arith, λ j ne. refl)
claim_loop-Plans (suc tries) item stack (suc q) s enough some_fit named ready =
    let ((s1, left, t), e, ((l, tp, own, other), after)) =
      round-Claims item stack q s named ready in
    let some_in = free_room-pos stack some_fit in
    let (s2, plan, e', tp', own', other') =
      claim_loop-Plans tries item stack (suc q - free_room stack) s1 (omega arith) some_fit named
        after in
    (
      s2,
      t ++ plan,
      rw (leb_ℤ-suc q, e, l, e', claim_loop) refl,
      omega (arith, planned-append t plan),
      omega arith,
      λ j ne. other' j ne ∙ other j ne,
    )

-- `deposit_plan` comes to an end, never panics, and plans the whole quantity: the stock of the item
-- grows by exactly that, and no other item's stock changes. A node is added whenever there is no
-- free chest. The item is not the empty one, its stack size is positive, every chest has 54 slots,
-- and an unassigned chest is empty.
pub deposit_plan-Plans :
    (item : ItemId) (q stack : ℕ) (s : Storage)
    → is_empty item ≡ false
    → 1 ≤ stack
    → AreReady s.nodes
    → Plans item q s (deposit_plan item (pos q) (pos stack) s)
unfolding deposit_plan
deposit_plan-Plans item zero stack s named some_fit ready =
    (s, [], refl, refl, omega arith, λ j ne. refl)
deposit_plan-Plans item (suc q) stack s named some_fit ready =
    let r = top_up_nodes item (pos stack) 0 (pos (suc q)) s.nodes in
    let free = room_nodes item stack 0 s.nodes in
    let (l, t, own, other) =
      top_up_nodes-Fills item stack (suc q) 0 s.nodes (AreReady-AreSized s.nodes ready) in
    let (s2, plan, e, tp', own', other') =
      claim_loop-Plans (suc q) item stack (suc q - free) (record s { nodes = r.0 }) (omega arith)
        some_fit named (top_up_nodes-AreReady item stack (suc q) 0 s.nodes named ready) in
    (
      s2,
      r.2 ++ plan,
      rw (named, leb_ℤ-suc q, l, e, deposit_plan) refl,
      omega (arith, planned-append r.2 plan),
      omega arith,
      λ j ne. other' j ne ∙ other j ne,
    )
