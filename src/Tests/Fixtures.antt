-- ===== src/Tests/Fixtures.antt =====
-- The inputs that the runs share: a file system that does what it is asked, a text that is the
-- value itself, a few orders, and a small warehouse.
use cj_store.Prelude.{Bool, true, false, Option, none, some, [], ◌∷◌, sym, ℕ, replicate}
use cj_store.Prelude.Int.{pos}
use cj_store.Types.{Position, ItemId, Chest, Storage}
use cj_store.Serde.{Serde, IsFaithful}
use cj_store.Fsutil.{Siblings, Faults}
use cj_store.Fsutil.Archive.{ArchiveFaults}
use cj_store.Messages.{buy, sell}
use cj_store.Queue.{OrderQueue, QueuePersist, QueuedOrder, Request, World}

abbrev pub works : {C : Type 0} → C → Faults C
works c = record {
  named = true;
  parent_exists = true;
  created_dir = true;
  created = true;
  written = true;
  synced = true;
  torn = c;
  renamed = true;
  copied = true;
  torn_copy = none;
  removed_torn_copy = true;
  removed_bak = true;
  set_aside = true;
  final_renamed = true;
  removed_tmp = true;
  removed_old = true;
}

-- The rename is refused, the aside-rename is done, and the last rename fails.
abbrev pub fails_late : {C : Type 0} → C → Faults C
fails_late c = record (works c) { renamed = false; final_renamed = false }

abbrev pub archives_well : {C : Type 0} → ArchiveFaults C
archives_well = record { renamed = true; copied = true; torn_copy = none; removed_source = true }

abbrev pub archives_never : {C : Type 0} → ArchiveFaults C
archives_never = record { renamed = false; copied = false; torn_copy = none; removed_source = true }

abbrev pub alone : {C : Type 0} → Option C → Siblings C
alone c = record { live = c; tmp = none; recovery = none; bak = none }

-- The value is its own text.
abbrev pub plain : (A : Type 0) → Serde A A
plain A = record { to_string = some; from_str = some }

abbrev pub always : {A : Type 0} → A → Bool
always a = true

pub plain-IsFaithful : (A : Type 0) → IsFaithful (plain A) always
plain-IsFaithful A = record { reads_back = λ a j _ e. sym e }

abbrev pub alex_order : QueuedOrder
alex_order = record {
  id = 1;
  user_uuid = "alex-uuid";
  username = "Alex";
  order_type = buy;
  item = "cobblestone";
  quantity = 64;
  queued_at = 5;
}

abbrev pub steve_order : QueuedOrder
steve_order = record {
  id = 2;
  user_uuid = "steve-uuid";
  username = "Steve";
  order_type = sell;
  item = "iron_ingot";
  quantity = 10;
  queued_at = 6;
}

abbrev pub two_orders : OrderQueue
two_orders = record { orders = alex_order ∷ steve_order ∷ []; next_id = 3 }

abbrev pub two_orders_text : QueuePersist
two_orders_text = record { orders = alex_order ∷ steve_order ∷ []; next_id = 3 }

abbrev pub two_orders_world : World QueuePersist
two_orders_world = (two_orders, alone (some two_orders_text))

abbrev pub alex_request : Request
alex_request = record {
  user_uuid = "alex-uuid";
  username = "Alex";
  order_type = sell;
  item = "dirt";
  quantity = 3;
  now = 9;
}

abbrev pub origin : Position
origin = record { x = pos 0; y = pos 64; z = pos 0 }

-- A chest whose first two slots hold something.
abbrev pub stocked : ℕ → ItemId → ℕ → ℕ → Chest
stocked id item a b = record {
  id = pos id;
  node_id = pos 0;
  index = pos id;
  position = origin;
  item = item;
  amounts = pos a ∷ pos b ∷ replicate 52 (pos 0);
}

abbrev pub warehouse : Storage
warehouse = record {
  position = origin;
  nodes =
      record {
        id = pos 0;
        position = origin;
        chests = stocked 0 "dirt" 5 7 ∷ stocked 1 "iron_ingot" 9 9 ∷ stocked 2 "dirt" 4 1 ∷ [];
      }
      ∷ [];
}
