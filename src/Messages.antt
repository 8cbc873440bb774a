-- ===== src/Messages.antt =====
-- src/messages.rs: the data that the parts of the program send one another. An `f64` that is only
-- stored or passed on stands as its 64 bits.
use cj_store.Prelude.{ℕ, Option, String}
use cj_store.Prelude.Int.{ℤ}

abbrev pub F64 : Type 0
F64 = ℕ

-- `none` is a flexible deposit, or a withdrawal of the whole balance.
pub data QueuedOrderType : Type 0 where
  buy sell : QueuedOrderType
  deposit withdraw : Option F64 → QueuedOrderType

pub record TradeItem : Type 0 where
  pub item : String
  pub amount : ℤ
