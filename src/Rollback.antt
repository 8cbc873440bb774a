-- ===== src/Rollback.antt =====
-- src/store/rollback.rs: deposits that put items back into the warehouse, with get_node_position of
-- src/store/utils.rs. The bot's answers to come are a list, one for each instruction that it takes;
-- when the list is at its end, the bot's channel is closed. An instruction is recorded without the
-- position of the node, which `get_node_position` gives. Logging is not modelled.
pub mod Accounts
pub mod Planning
pub mod Growth
use cj_store.Prelude.{
  ℕ, zero, suc, ◌+◌, ◌-◌, ◌*◌, ◌/◌, ◌%◌, ◌^◌, Bool, true, false, not, ◌||◌, Option, none, some,
  List, [], ◌∷◌, ◌++◌, String, Result, ok, err, if◌then◌else◌, ltb, leb, ◌==◌, length, replicate,
}
use cj_store.Prelude.Int.{ℤ, pos, negsuc, ◌+ℤ◌, ◌-ℤ◌, leb_ℤ, ltb_ℤ, eq_ℤ, min_ℤ, max_ℤ, neg}
use cj_store.Types.{
  Position, ItemId, Chest, Node, Storage, ChestTransfer, chests_per_node, double_chest_slots,
}
use cj_store.Storage.{wrap_i32}
use cj_store.Storage.Withdraw.{planned}
use cj_store.Storage.Layout.{node_position, add_node, new_node, free_id}
use cj_store.Storage.Foresee.{simulate_deposit_plan}
use cj_store.ChestSync.{ChestSyncReport, ChestAction, deposit, SyncError, Depot, apply_chest_sync}

-- Division and remainder of an `i32`, which go towards zero.
unfoldable pub div_i32 : ℤ → ℕ → ℤ
div_i32 (pos n) k = pos (n / k)
div_i32 (negsuc n) k = neg (suc n / k)

unfoldable pub rem_i32 : ℤ → ℕ → ℤ
rem_i32 (pos n) k = pos (n % k)
rem_i32 (negsuc n) k = neg (suc n % k)

abbrev pub i32_max : ℤ
i32_max = pos (2 ^ 31 - 1)

abbrev pub i32_min : ℤ
i32_min = negsuc (2 ^ 31 - 1)

-- `i32::saturating_add`
abbrev pub saturating_add : ℤ → ℤ → ℤ
saturating_add a b = min_ℤ i32_max (max_ℤ i32_min (a +ℤ b))

-- The node is looked up by its identifier; `none` is the assertion in `Node::calc_position`, which
-- refuses a negative one.
abbrev pub calc_position : ℤ → Position → Option Position
calc_position (pos n) origin = some (node_position n origin)
calc_position (negsuc n) origin = none

unfoldable pub find_node : ℤ → List Node → Option Node
find_node i [] = none
find_node i (n ∷ ns) = let rest = find_node i ns in if eq_ℤ n.id i then some n else rest

unfoldable pub get_node_position : Storage → ℤ → Option Position
unfolding div_i32 find_node
get_node_position s chest_id =
    let node_id = div_i32 chest_id chests_per_node in
    elim (find_node node_id s.nodes) [
      | some n ↦ some n.position
      | none ↦ calc_position node_id s.position
    ]

unfoldable pub chest_from_transfer : ChestTransfer → Chest
unfolding div_i32 rem_i32
chest_from_transfer t = record {
  id = t.chest_id;
  node_id = div_i32 t.chest_id chests_per_node;
  index = rem_i32 t.chest_id chests_per_node;
  position = t.position;
  item = t.item;
  amounts = replicate double_chest_slots (pos 0);
}

-- `BotInstruction::InteractWithChestAndSync`
pub record Instruction : Type 0 where
  pub target_chest : Chest
  pub action : ChestAction

pub data Reply : Type 0 where
  reported : ChestSyncReport → Reply
  refused : String → Reply
  dropped timed_out : Reply

-- The store with its line to the bot.
pub record Desk : Type 0 where
  pub depot : Depot
  pub sent : List Instruction
  pub replies : List Reply

-- An instruction goes out, and the answer is awaited; `none` when it cannot be sent.
abbrev pub taken : Instruction → Desk → List Reply → Desk × Option Reply
taken i d [] = (d, none)
taken i d (r ∷ rs) = (record d { sent = d.sent ++ i ∷ []; replies = rs }, some r)

unfoldable pub interact : Instruction → Desk → Desk × Option Reply
interact i d = taken i d d.replies

pub record RollbackResult : Type 0 where
  pub items_returned : ℤ
  pub items_unplanned : ℤ
  pub items_stuck_on_bot : ℤ
  pub operations_succeeded : ℕ
  pub operations_failed : ℕ

abbrev pub no_rollback : RollbackResult
no_rollback = record {
  items_returned = pos 0;
  items_unplanned = pos 0;
  items_stuck_on_bot = pos 0;
  operations_succeeded = 0;
  operations_failed = 0;
}

unfoldable pub has_failures : RollbackResult → Bool
has_failures r =
    ltb 0 r.operations_failed
    || ltb_ℤ (pos 0) r.items_unplanned
    || ltb_ℤ (pos 0) r.items_stuck_on_bot

abbrev pub deposit_of : String → ℤ → ChestTransfer → Instruction
deposit_of item stack_size t = record {
  target_chest = chest_from_transfer t;
  action = deposit item t.amount none stack_size;
}

-- What a step adds to the counters.
abbrev pub stuck : ChestTransfer → RollbackResult → RollbackResult
stuck t r = record r {
  operations_failed = r.operations_failed + 1;
  items_stuck_on_bot = saturating_add r.items_stuck_on_bot (max_ℤ t.amount (pos 0));
}

abbrev pub returned : ChestTransfer → RollbackResult → RollbackResult
returned t r = record r {
  items_returned = saturating_add r.items_returned (max_ℤ t.amount (pos 0));
}

-- The channel is closed: the steps that were not tried are counted at once, by a sum that wraps.
abbrev pub skipped : List ChestTransfer → RollbackResult → RollbackResult
skipped rest r =
    if ltb 0 (length rest)
    then record r {
      operations_failed = r.operations_failed + length rest;
      items_stuck_on_bot = saturating_add r.items_stuck_on_bot (wrap_i32 (planned rest));
    }
    else r

-- The chest has the items, also when the report cannot be applied.
abbrev pub with_sync :
    ChestTransfer → RollbackResult → Desk → Result Depot SyncError → RollbackResult × Desk
with_sync t r d (ok depot) = (
  returned t (record r { operations_succeeded = r.operations_succeeded + 1 }),
  record d { depot = depot },
)
with_sync t r d (err _) = (returned t (record r { operations_failed = r.operations_failed + 1 }), d)

abbrev pub answered : ChestTransfer → RollbackResult → Desk → Reply → RollbackResult × Desk
answered t r d (reported report) = with_sync t r d (apply_chest_sync report d.depot)
answered t r d (refused _) = (stuck t r, d)
answered t r d dropped = (stuck t r, d)
answered t r d timed_out = (stuck t r, d)

unfoldable pub deposit_steps :
    String → ℤ → List ChestTransfer → RollbackResult → Desk → RollbackResult × Desk
unfolding interact chest_from_transfer apply_chest_sync
deposit_steps item stack_size [] r d = (r, d)
deposit_steps item stack_size (t ∷ ts) r d =
    let (d', answer) = interact (deposit_of item stack_size t) d in
    elim answer [
      | none ↦ (skipped ts (stuck t r), d')
      | some reply ↦
          (let (r', d'') = answered t r d' reply in deposit_steps item stack_size ts r' d'')
    ]

unfoldable pub deposit_transfers : List ChestTransfer → String → ℤ → Desk → RollbackResult × Desk
unfolding deposit_steps
deposit_transfers ts item stack_size d = deposit_steps item stack_size ts no_rollback d
