-- ===== src/Tests/Warehouse.antt =====
-- Withdrawals from a small warehouse.
use cj_store.Prelude.{ℕ, false, sym, ◌∙◌, ◌≡◌, ◌≢◌, refl, [], ◌∷◌, min, ◌-◌, eq_iff, arith}
use cj_store.Prelude.Int.{pos}
use cj_store.Types.{is_empty, ItemId, Storage}
use cj_store.Tests.Fixtures.{origin, stocked, warehouse}
use cj_store.Storage.{withdraw_plan, simulate_withdraw_plan, stock_nodes}
use cj_store.Storage.Withdraw.{planned, AreSized, withdraw_plan-Withdraws}
use cj_store.Storage.Claim.{deposit_plan}
use cj_store.Storage.Claim.Ready.{IsReady, AreReady}
use cj_store.Storage.Claim.Total.{Plans, deposit_plan-Plans}
use cj_store.Storage.Foresee.{simulate_deposit_plan}
use cj_store.Storage.Foresee.Planned.{Foresees, simulate_deposit_plan-Foresees}
use cj_store.Storage.Simulate.{simulate_withdraw_plan-eq-withdraw_plan}

warehouse-AreSized : AreSized warehouse.nodes
warehouse-AreSized = ((refl, (refl, (refl, tt))), tt)

abbrev dirt : ItemId
dirt = "dirt"

named : dirt ≢ ""
named e = ground (arith, e, eq_iff dirt "")

withdraw_plan-Withdraws_example :
    let (s', plan) = withdraw_plan dirt (pos 14) warehouse in
    (planned plan ≡ min 14 (stock_nodes dirt warehouse.nodes))
    × (stock_nodes dirt s'.nodes ≡ stock_nodes dirt warehouse.nodes - planned plan)
    × ((j : ItemId) → j ≢ dirt → stock_nodes j s'.nodes ≡ stock_nodes j warehouse.nodes)
withdraw_plan-Withdraws_example = withdraw_plan-Withdraws dirt 14 warehouse named warehouse-AreSized

simulate_withdraw_plan-eq-withdraw_plan_example :
    let plan = (withdraw_plan dirt (pos 14) warehouse).1 in
    simulate_withdraw_plan dirt (pos 14) warehouse ≡ (plan, pos (planned plan))
simulate_withdraw_plan-eq-withdraw_plan_example =
    simulate_withdraw_plan-eq-withdraw_plan dirt 14 warehouse warehouse-AreSized

-- No chest is assigned to gravel, and one chest is free.
abbrev roomy : Storage
roomy = record {
  position = origin;
  nodes =
      record {
        id = pos 0;
        position = origin;
        chests = stocked 0 "diamond" 5 7 ∷ stocked 1 "overflow" 9 9 ∷ stocked 2 "" 0 0 ∷ [];
      }
      ∷ [];
}

named_or_empty :
    (id : ℕ) (item : ItemId) (a b : ℕ) → is_empty item ≡ false → IsReady (stocked id item a b)
named_or_empty id item a b e = (refl, λ h. absurd (cc (sym h ∙ e)))

roomy-AreReady : AreReady roomy.nodes
roomy-AreReady = (
  (
    named_or_empty 0 "diamond" 5 7 refl,
    (named_or_empty 1 "overflow" 9 9 refl, ((refl, λ h. refl), tt)),
  ),
  tt,
)

-- More than the one free chest can take in, so that a node is added.
deposit_plan-Plans_example :
    Plans "gravel" 200000 roomy (deposit_plan "gravel" (pos 200000) (pos 64) roomy)
deposit_plan-Plans_example =
    deposit_plan-Plans "gravel" 200000 64 roomy refl (omega arith) roomy-AreReady

simulate_deposit_plan-Foresees_example :
    Foresees 200000 (simulate_deposit_plan "gravel" (pos 200000) (pos 64) roomy)
simulate_deposit_plan-Foresees_example = simulate_deposit_plan-Foresees "gravel" 200000 64 roomy
