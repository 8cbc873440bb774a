-- ===== src/Transfers/PutBack.antt =====
-- A plan is carried out to its end, or what was done of it is put back.
use cj_store.Prelude.{◌≡◌, ◌⊎◌, List, [], ◌∷◌, ◌++◌, map, String, Result, ok, err}
use cj_store.Prelude.Int.{ℤ}
use cj_store.Types.{ChestTransfer}
use cj_store.Rollback.{Instruction, Desk, deposit_of}
use cj_store.Rollback.Accounts.{sent_for}
use cj_store.Transfers.{ChestDirection, withdrawal, depositing, TransferError, instruction_of}

-- What the bot was asked to do from the desk `d` on.
abbrev pub Asked : List Instruction → Desk → Desk → Type 0
Asked is d d' = d'.sent ≡ d.sent ++ is

-- What is put back of the steps done: of a withdrawal one deposit for each of them, in order, goes out
-- while the bot answers; after a deposit the desk stays as it is.
abbrev pub IsPutBack : ChestDirection → String → ℤ → List ChestTransfer → Desk → Desk → Type 0
IsPutBack withdrawal item stack steps failed d' =
    Asked (sent_for (deposit_of item stack) steps failed.replies) failed d'
IsPutBack depositing item stack steps failed d' = d' ≡ failed

-- How the loop ends, with the steps `done` behind it: after the whole plan, or at a step `t` whose
-- instruction went out or could not be sent; then what was done is put back.
abbrev pub Ends :
    ChestDirection
    → String
    → ℤ
    → List ChestTransfer
    → List ChestTransfer
    → Desk
    → Desk × Result (Unit {0}) TransferError
    → Type 0
Ends dir item stack done ts d (d', ok _) = Asked (map (instruction_of dir item stack) ts) d d'
Ends dir item stack done ts d (d', err e) =
    (before : List ChestTransfer) × (t : ChestTransfer) × (after : List ChestTransfer)
    × (failed : Desk) × (ts ≡ before ++ t ∷ after)
    × (Asked (map (instruction_of dir item stack) before) d failed
        ⊎ Asked (map (instruction_of dir item stack) (before ++ t ∷ [])) d failed)
    × IsPutBack dir item stack (done ++ before) failed d'
