-- ===== src/Types.antt =====
-- src/types: the data of the warehouse. An `i32` is an integer without its bounds, an `ItemId` its
-- text, and `usize` a natural number.
use cj_store.Prelude.{ℕ, Bool, List, String, str_eq}
use cj_store.Prelude.Int.{ℤ}

pub record Position : Type 0 where
  pub x : ℤ
  pub y : ℤ
  pub z : ℤ

abbrev pub ItemId : Type 0
ItemId = String

-- `ItemId::is_empty`
abbrev pub is_empty : ItemId → Bool
is_empty item = str_eq item ""

pub record Chest : Type 0 where
  pub id : ℤ
  pub node_id : ℤ
  pub index : ℤ
  pub position : Position
  pub item : ItemId
  pub amounts : List ℤ

pub record Node : Type 0 where
  pub id : ℤ
  pub position : Position
  pub chests : List Chest

pub record Storage : Type 0 where
  pub position : Position
  pub nodes : List Node

pub record ChestTransfer : Type 0 where
  pub chest_id : ℤ
  pub position : Position
  pub item : ItemId
  pub amount : ℤ

-- constants.rs
abbrev pub double_chest_slots : ℕ
double_chest_slots = 54

abbrev pub shulker_box_slots : ℕ
shulker_box_slots = 27

abbrev pub chests_per_node : ℕ
chests_per_node = 4

abbrev pub node_spacing : ℕ
node_spacing = 3

abbrev pub base_currency_item : ItemId
base_currency_item = "diamond"

abbrev pub overflow_chest_item : ItemId
overflow_chest_item = "overflow"
