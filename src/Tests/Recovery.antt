-- ===== src/Tests/Recovery.antt =====
-- Runs of chest transfers and rollbacks.
use cj_store.Prelude.{ℕ, ◌≡◌, refl, Bool, true, false, List, [], ◌∷◌, replicate, ok, arith}
use cj_store.Prelude.Int.{pos, negsuc}
use cj_store.Types.{ChestTransfer, Node}
use cj_store.ItemNames.{new, is_canonical}
use cj_store.ItemNames.Canonical.{new-canonical}
use cj_store.ChestSync.{ChestSyncReport, Depot}
use cj_store.Rollback.{Desk, reported, timed_out, deposit_transfers}
use cj_store.Rollback.Accounts.{Accounts, deposit_transfers-Accounts}
use cj_store.Rollback.Planning.{rollback_amount_to_storage}
use cj_store.Rollback.Growth.{AllCounted, rollback_amount_to_storage-AllCounted}
use cj_store.Tests.Fixtures.{origin, warehouse}

abbrev depot : Depot
depot = record { storage = warehouse; dirty = false }

-- The first slot of chest 2 is counted, the others were not looked at.
abbrev looked_at : ChestSyncReport
looked_at = record {
  chest_id = pos 2;
  item = "minecraft:Dirt";
  amounts = pos 40 ∷ replicate 53 (negsuc 0);
}

abbrev gives : ℕ → ℕ → ChestTransfer
gives chest_id amount = record {
  chest_id = pos chest_id;
  position = origin;
  item = "dirt";
  amount = pos amount;
}

abbrev two_steps : List ChestTransfer
two_steps = gives 2 30 ∷ gives 0 12 ∷ []

-- The bot does the first step, gives no answer to the second, and is gone.
abbrev desk : Desk
desk = record { depot = depot; sent = []; replies = reported looked_at ∷ timed_out ∷ [] }

new-canonical_example : (is_canonical "dirt" ≡ true) × (new "dirt" ≡ ok "dirt")
new-canonical_example = new-canonical "minecraft:Dirt" "dirt" (unfold new in refl)

deposit_transfers-Accounts_example :
    Accounts "dirt" (pos 64) two_steps desk (deposit_transfers two_steps "dirt" (pos 64) desk)
deposit_transfers-Accounts_example =
    deposit_transfers-Accounts two_steps "dirt" (pos 64) desk (omega arith)

abbrev can_save : Node → Bool
can_save n = true

rollback_amount_to_storage-AllCounted_example :
    AllCounted 5000 (rollback_amount_to_storage can_save "dirt" (pos 5000) (pos 64) desk).0
rollback_amount_to_storage-AllCounted_example =
    rollback_amount_to_storage-AllCounted can_save "dirt" 5000 64 desk (omega arith)
