-- ===== src/Transfers.antt =====
-- src/store/orders.rs: `execute_chest_transfers`, which carries out a plan chest by chest, and what
-- it puts back when a step fails. An error stands as what it is made from.
pub mod PutBack
use cj_store.Prelude.{
  ℕ, Bool, true, false, Option, none, some, List, [], ◌∷◌, ◌++◌, String, Result, ok, err,
}
use cj_store.Prelude.Int.{ℤ}
use cj_store.Types.{ChestTransfer}
use cj_store.ChestSync.{ChestSyncReport, deposit, withdraw, SyncError, Depot, apply_chest_sync}
use cj_store.Rollback.{
  Instruction, Reply, reported, refused, dropped, timed_out, Desk, interact, chest_from_transfer,
  deposit_of, deposit_transfers,
}

pub data ChestDirection : Type 0 where
  withdrawal depositing : ChestDirection

-- The variants of `StoreError` that come of a chest transfer.
pub data TransferError : Type 0 where
  bot_disconnected bot_response_dropped chest_timeout : TransferError
  chest_op : String → TransferError
  chest_sync : SyncError → TransferError

abbrev pub withdraw_of : String → ℤ → ChestTransfer → Instruction
withdraw_of item stack_size t = record {
  target_chest = chest_from_transfer t;
  action = withdraw item t.amount none stack_size;
}

abbrev pub instruction_of : ChestDirection → String → ℤ → ChestTransfer → Instruction
instruction_of withdrawal = withdraw_of
instruction_of depositing = deposit_of

-- A deposit is not put back, as that would be a second deposit.
unfoldable pub rollback_applied_prefix :
    ChestDirection → List ChestTransfer → String → ℤ → Desk → Desk
unfolding deposit_transfers
rollback_applied_prefix withdrawal [] item stack_size d = d
rollback_applied_prefix withdrawal (t ∷ ts) item stack_size d =
    (deposit_transfers (t ∷ ts) item stack_size d).1
rollback_applied_prefix depositing ts item stack_size d = d

-- How a step ends: with the desk as it is then, or with an error.
abbrev pub sync_step : Desk → Result Depot SyncError → Result Desk TransferError
sync_step d (ok depot) = ok (record d { depot = depot })
sync_step d (err e) = err (chest_sync e)

abbrev pub step : Desk → Option Reply → Result Desk TransferError
step d none = err bot_disconnected
step d (some (reported report)) = sync_step d (apply_chest_sync report d.depot)
step d (some (refused e)) = err (chest_op e)
step d (some dropped) = err bot_response_dropped
step d (some timed_out) = err chest_timeout

-- The loop over the plan, with the steps that are done.
unfoldable pub transfer_steps :
    ChestDirection
    → String
    → ℤ
    → List ChestTransfer
    → List ChestTransfer
    → Desk
    → Desk × Result (Unit {0}) TransferError
unfolding interact rollback_applied_prefix apply_chest_sync chest_from_transfer
transfer_steps direction item stack_size applied [] d = (d, ok tt)
transfer_steps direction item stack_size applied (t ∷ ts) d =
    let (d', answer) = interact (instruction_of direction item stack_size t) d in
    elim (step d' answer) [
      | ok d'' ↦ transfer_steps direction item stack_size (applied ++ t ∷ []) ts d''
      | err e ↦ (rollback_applied_prefix direction applied item stack_size d', err e)
    ]

unfoldable pub execute_chest_transfers :
    List ChestTransfer → String → ℤ → ChestDirection → Desk → Desk × Result (Unit {0}) TransferError
unfolding transfer_steps
execute_chest_transfers ts item stack_size direction d =
    transfer_steps direction item stack_size [] ts d
