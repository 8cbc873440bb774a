-- ===== src/Rollback/Planning.antt =====
-- src/store/rollback.rs: `rollback_amount_to_storage`, which plans a deposit and lets the warehouse
-- grow for it. Whether a new node can be saved to disk is a parameter.
use cj_store.Prelude.{ℕ, zero, suc, Bool, not, List, String, if◌then◌else◌}
use cj_store.Prelude.Int.{ℤ, pos, ◌-ℤ◌, leb_ℤ, ltb_ℤ, max_ℤ}
use cj_store.Types.{Node, Storage, ChestTransfer}
use cj_store.Storage.Layout.{add_node, new_node, free_id}
use cj_store.Storage.Foresee.{simulate_deposit_plan}
use cj_store.ChestSync.{Depot}
use cj_store.Rollback.{Desk, RollbackResult, no_rollback, deposit_transfers}

abbrev pub unplanned : ℤ → ℤ → ℤ
unplanned amount planned = max_ℤ (amount -ℤ planned) (pos 0)

-- `grow_attempts > 16`
abbrev pub max_grow_attempts : ℕ
max_grow_attempts = 16

-- The loop `while unplanned > 0`, on the attempts that are left.
unfoldable pub grow :
    (Node → Bool)
    → ℕ
    → String
    → ℤ
    → ℤ
    → Storage
    → List ChestTransfer × ℤ
    → Storage × List ChestTransfer × ℤ
unfolding simulate_deposit_plan add_node
grow save zero item amount stack_size s (plan, planned) = (s, plan, planned)
grow save (suc attempts) item amount stack_size s (plan, planned) =
    let s' : Storage = add_node s in
    let replanned = simulate_deposit_plan item amount stack_size s' in
    let grown = grow save attempts item amount stack_size s' replanned in
    if not (ltb_ℤ (pos 0) (unplanned amount planned))
    then (s, plan, planned)
    else if not (save (new_node (free_id s.nodes) s.position))
    then (s', plan, planned)
    else if leb_ℤ replanned.1 planned
    then (s', plan, planned)
    else grown

-- The plan is carried out in the warehouse as it has grown.
abbrev pub replayed :
    String → ℤ → ℤ → Desk → Storage × List ChestTransfer × ℤ → RollbackResult × Desk
replayed item amount stack_size d (storage, plan, planned) =
    let depot : Depot = record d.depot { storage = storage } in
    let (r, d') = deposit_transfers plan item stack_size (record d { depot = depot }) in
    (record r { items_unplanned = unplanned amount planned }, d')

unfoldable pub rollback_amount_to_storage :
    (Node → Bool) → String → ℤ → ℤ → Desk → RollbackResult × Desk
unfolding grow deposit_transfers
rollback_amount_to_storage save item amount stack_size d =
    let storage = d.depot.storage in
    let done = replayed item amount stack_size d (
      grow save max_grow_attempts item amount stack_size storage
        (simulate_deposit_plan item amount stack_size storage)) in
    if leb_ℤ amount (pos 0) then (no_rollback, d) else done
