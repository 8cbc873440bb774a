-- ===== src/Rollback/Growth.antt =====
-- The accounts of `rollback_amount_to_storage`.
use cj_store.Prelude.{
  ℕ, zero, suc, ◌+◌, ◌-◌, ◌≤◌, ◌≡◌, refl, Bool, true, not, List, String, if_split, arith,
}
use cj_store.Prelude.Int.{ℤ, pos, leb_ℤ, ltb_ℤ, max_ℤ, -ℤ-pos}
use cj_store.Types.{Node, Storage, ChestTransfer}
use cj_store.Storage.Withdraw.{planned}
use cj_store.Storage.Layout.{add_node, new_node, free_id}
use cj_store.Storage.Foresee.{simulate_deposit_plan}
use cj_store.Storage.Foresee.Planned.{Foresees, simulate_deposit_plan-Foresees}
use cj_store.ChestSync.{Depot}
use cj_store.Rollback.{Desk, RollbackResult, no_rollback}
use cj_store.Rollback.Planning.{
  max_grow_attempts, unplanned, grow, replayed, rollback_amount_to_storage,
}
use cj_store.Rollback.Accounts.{deposit_transfers-Accounts, confirmed}

abbrev ForeseesIn : ℕ → Storage × List ChestTransfer × ℤ → Type 0
ForeseesIn q (_, plan, n) = Foresees q (plan, n)

grow-ForeseesIn :
    (save : Node → Bool) (attempts : ℕ) (item : String) (q stack : ℕ) (s : Storage)
    (x : List ChestTransfer × ℤ)
    → Foresees q x
    → ForeseesIn q (grow save attempts item (pos q) (pos stack) s x)
unfolding grow
grow-ForeseesIn save zero item q stack s x f = f
grow-ForeseesIn save (suc attempts) item q stack s (plan, n) f =
    if_split (ForeseesIn q) (not (ltb_ℤ (pos 0) (unplanned (pos q) n))) (λ _. f)
      (λ _.
        if_split (ForeseesIn q) (not (save (new_node (free_id s.nodes) s.position))) (λ _. f)
          (λ _.
            if_split (ForeseesIn q)
              (leb_ℤ (simulate_deposit_plan item (pos q) (pos stack) (add_node s)).1 n) (λ _. f)
              (λ _.
                grow-ForeseesIn save attempts item q stack (add_node s)
                  (simulate_deposit_plan item (pos q) (pos stack) (add_node s))
                  (simulate_deposit_plan-Foresees item q stack (add_node s)))))

-- Every item is counted once.
abbrev pub AllCounted : ℕ → RollbackResult → Type 0
AllCounted q r =
    (returned stuck left : ℕ) × (r.items_returned ≡ pos returned)
    × (r.items_stuck_on_bot ≡ pos stuck)
    × (r.items_unplanned ≡ pos left)
    × (returned + stuck + left ≡ q)

replayed-AllCounted :
    (item : String) (q stack : ℕ) (d : Desk) (x : Storage × List ChestTransfer × ℤ)
    → q ≤ 2147483647
    → ForeseesIn q x
    → AllCounted q (replayed item (pos q) (pos stack) d x).0
replayed-AllCounted item q stack d (s, plan, n) fits (e, le, _) =
    let depot : Depot = record d.depot { storage = s } in
    let (a, b, c, _, _) =
      deposit_transfers-Accounts plan item (pos stack) (record d { depot = depot })
        (omega (arith, le, fits)) in
    (
      confirmed plan d.replies,
      planned plan - confirmed plan d.replies,
      q - planned plan,
      a,
      b,
      rw (e, -ℤ-pos q (planned plan) le) (not_negative (q - planned plan)),
      omega (arith, le, c),
    )
  where
    not_negative : (k : ℕ) → max_ℤ (pos k) (pos 0) ≡ pos k
    not_negative k = ground arith

-- A rollback of an amount counts each of its items once, as returned, as stuck on the bot or as not
-- planned, whatever the bot answers and whether or not the new nodes can be saved.
pub rollback_amount_to_storage-AllCounted :
    (save : Node → Bool) (item : String) (q stack : ℕ) (d : Desk)
    → q ≤ 2147483647
    → AllCounted q (rollback_amount_to_storage save item (pos q) (pos stack) d).0
unfolding rollback_amount_to_storage
rollback_amount_to_storage-AllCounted save item q stack d fits =
    let s = d.depot.storage in
    let planned_first = simulate_deposit_plan item (pos q) (pos stack) s in
    let x = grow save max_grow_attempts item (pos q) (pos stack) s planned_first in
    if_split (λ (y : RollbackResult × Desk). AllCounted q y.0) (leb_ℤ (pos q) (pos 0))
      {x = (no_rollback, d)} {y = replayed item (pos q) (pos stack) d x}
      (λ none_asked. (0, 0, 0, refl, refl, refl, nothing none_asked))
      (λ _. replayed-AllCounted item q stack d x fits (
        grow-ForeseesIn save max_grow_attempts item q stack s planned_first
          (simulate_deposit_plan-Foresees item q stack s)))
  where
    nothing : leb_ℤ (pos q) (pos 0) ≡ true → 0 ≡ q
    nothing h = ground (arith, h)
