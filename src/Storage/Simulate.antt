-- ===== src/Storage/Simulate.antt =====
-- The dry run of a withdrawal beside the withdrawal.
use cj_store.Prelude.{
  ℕ, zero, suc, ◌-◌, ◌≡◌, refl, ap, sym, inl, inr, true, List, [], ◌∷◌, min, All, arith, str_eq,
  Bool-cases,
}
use cj_store.Prelude.Int.{ℤ, pos, ◌-ℤ◌, -ℤ-pos, leb_ℤ, min_ℤ, leb_ℤ-suc}
use cj_store.Types.{ItemId, is_empty, Chest, Node, Storage}
use cj_store.Storage.{
  withdraw_slots, withdraw_chests, withdraw_nodes, withdraw_plan, simulate_slots, simulate_chests,
  simulate_nodes, simulate_withdraw_plan, stock_nodes,
}
use cj_store.Storage.Withdraw.{
  IsSized, AreSized, planned, withdraw_chest_same, withdraw_chest_other, withdraw_nodes-Withdraws,
}

-- What a withdrawal tells, the new contents left out.
abbrev told : {A B : Type 0} → A × ℤ × B → ℤ × B
told (_, left, b) = (left, b)

simulate_slots_lem : (qty : ℤ) (xs : List ℤ) → simulate_slots qty xs ≡ told (withdraw_slots qty xs)
unfolding simulate_slots withdraw_slots
simulate_slots_lem qty [] = refl
simulate_slots_lem qty (x ∷ xs) =
    ground (arith, simulate_slots_lem qty xs, simulate_slots_lem (qty -ℤ min_ℤ x qty) xs)

-- Once the quantity is met nothing more is withdrawn.
withdraw_chests_met :
    (item : ItemId) (qty : ℤ) (cs : List Chest)
    → leb_ℤ qty (pos 0) ≡ true
    → withdraw_chests item qty cs ≡ (cs, qty, [])
unfolding withdraw_chests
withdraw_chests_met item qty [] met = refl
withdraw_chests_met item qty (c ∷ cs) met = rw met

withdraw_nodes_met :
    (item : ItemId) (qty : ℤ) (ns : List Node)
    → leb_ℤ qty (pos 0) ≡ true
    → told (withdraw_nodes item qty ns) ≡ (qty, [])
unfolding withdraw_nodes
withdraw_nodes_met item qty [] met = refl
withdraw_nodes_met item qty (n ∷ ns) met =
    rw (withdraw_chests_met item qty n.chests met) (withdraw_nodes_met item qty ns met)

simulate_chests_lem :
    (item : ItemId) (qty : ℤ) (cs : List Chest)
    → All IsSized cs
    → simulate_chests item qty cs ≡ told (withdraw_chests item qty cs)
unfolding simulate_chests withdraw_chests
simulate_chests_lem item qty [] sized = refl
simulate_chests_lem item qty (c ∷ cs) sized = elim (Bool-cases (leb_ℤ qty (pos 0))) [
  | inl met ↦ rw met
  | inr more ↦ elim (Bool-cases (str_eq c.item item)) [
    | inl same ↦
        rw (more, same, withdraw_chest_same item qty c sized.0 same)
          (rw (
            simulate_slots_lem qty c.amounts,
            simulate_chests_lem item (withdraw_slots qty c.amounts).1 cs sized.1,
          ))
    | inr other ↦
        rw (more, other, withdraw_chest_other item qty c other)
          (simulate_chests_lem item qty cs sized.1)
  ]
]

simulate_nodes_lem :
    (item : ItemId) (qty : ℤ) (ns : List Node)
    → AreSized ns
    → simulate_nodes item qty ns ≡ told (withdraw_nodes item qty ns)
unfolding simulate_nodes withdraw_nodes
simulate_nodes_lem item qty [] sized = refl
simulate_nodes_lem item qty (n ∷ ns) sized = elim (Bool-cases (leb_ℤ qty (pos 0))) [
  | inl met ↦ rw (met, sym (withdraw_nodes_met item qty (n ∷ ns) met), withdraw_nodes)
  | inr more ↦ rw (
    more,
    simulate_chests_lem item qty n.chests sized.0,
    simulate_nodes_lem item (withdraw_chests item qty n.chests).1 ns sized.1,
  )
]

-- What is planned, by what is left.
covered :
    (q have : ℕ) (left : ℤ) (p : ℕ) → left ≡ pos (q - have) → p ≡ min q have → pos q -ℤ left ≡ pos p
covered q have left p l e = rw (l, -ℤ-pos q (q - have) (omega arith)) (ap pos (omega arith))

-- In a warehouse whose chests have 54 slots each, the dry run of a withdrawal gives the plan that
-- the withdrawal then carries out, and the amount that this plan covers.
pub simulate_withdraw_plan-eq-withdraw_plan :
    (item : ItemId) (q : ℕ) (s : Storage)
    → AreSized s.nodes
    → let plan = (withdraw_plan item (pos q) s).1 in
      simulate_withdraw_plan item (pos q) s ≡ (plan, pos (planned plan))
unfolding simulate_withdraw_plan withdraw_plan
simulate_withdraw_plan-eq-withdraw_plan item zero s sized = refl
simulate_withdraw_plan-eq-withdraw_plan item (suc q) s sized = elim (Bool-cases (is_empty item)) [
  | inl unnamed ↦ rw (leb_ℤ-suc q, unnamed)
  | inr named ↦
      rw (leb_ℤ-suc q, named, simulate_nodes_lem item (pos (suc q)) s.nodes sized)
        (let (l, p, _, _) = withdraw_nodes-Withdraws item (suc q) s.nodes sized in
          ap (λ (x : ℤ). ((withdraw_nodes item (pos (suc q)) s.nodes).2, x))
            (covered (suc q) (stock_nodes item s.nodes) _ _ l p))
]
