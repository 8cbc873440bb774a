-- ===== src/ChestSync.antt =====
-- src/store/state.rs: `apply_chest_sync`, which writes a report of the bot into the warehouse, with
-- the report and the chest actions of src/messages.rs. A format string of an error stands as the
-- values in it.
pub mod Lookup
use cj_store.Prelude.{
  ℕ, Bool, true, false, Option, none, some, List, [], ◌∷◌, String, Result, ok, err, if◌then◌else◌,
}
use cj_store.Prelude.Int.{ℤ, pos, ltb_ℤ, eq_ℤ}
use cj_store.Types.{ItemId, Chest, Node, Storage, base_currency_item, overflow_chest_item}
use cj_store.ItemNames.{ItemIdError, new}

pub record ChestSyncReport : Type 0 where
  pub chest_id : ℤ
  pub item : String
  pub amounts : List ℤ

-- The third field is the player, the fourth the stack size.
pub data ChestAction : Type 0 where
  deposit withdraw : String → ℤ → Option String → ℤ → ChestAction

pub data SyncError : Type 0 where
  invalid_item : ItemIdError → SyncError
  not_found : ℤ → SyncError

abbrev pub diamond_chest_id : ℤ
diamond_chest_id = pos 0

abbrev pub overflow_chest_id : ℤ
overflow_chest_id = pos 1

-- The item after the report: the reserved chests keep theirs.
unfoldable pub reported_item : Chest → ChestSyncReport → Result ItemId ItemIdError
reported_item c report =
    if eq_ℤ c.id diamond_chest_id
    then ok base_currency_item
    else if eq_ℤ c.id overflow_chest_id
    then ok overflow_chest_item
    else new report.item

-- A negative count stands for a slot that the bot did not look at.
unfoldable pub reported_amounts : List ℤ → List ℤ → List ℤ
reported_amounts [] ns = []
reported_amounts (x ∷ xs) [] = x ∷ xs
reported_amounts (x ∷ xs) (n ∷ ns) = (if ltb_ℤ n (pos 0) then x else n) ∷ reported_amounts xs ns

abbrev pub with_item : ChestSyncReport → Chest → Result ItemId ItemIdError → Result Chest SyncError
with_item report c (ok item) =
    ok (record c { item = item; amounts = reported_amounts c.amounts report.amounts })
with_item report c (err e) = err (invalid_item e)

unfoldable pub synced : ChestSyncReport → Chest → Result Chest SyncError
unfolding reported_item reported_amounts
synced report c = with_item report c (reported_item c report)

-- The first chest with the report's identifier; `none` when there is none.
abbrev pub then_cons :
    {A : Type 0} → A → Option (Result (List A) SyncError) → Option (Result (List A) SyncError)
then_cons a (some (ok rest)) = some (ok (a ∷ rest))
then_cons a other = other

abbrev pub put_first : {A : Type 0} → List A → Result A SyncError → Result (List A) SyncError
put_first rest (ok a) = ok (a ∷ rest)
put_first rest (err e) = err e

unfoldable pub sync_chests : ChestSyncReport → List Chest → Option (Result (List Chest) SyncError)
unfolding synced
sync_chests report [] = none
sync_chests report (c ∷ cs) =
    let rest = then_cons c (sync_chests report cs) in
    if eq_ℤ c.id report.chest_id then some (put_first cs (synced report c)) else rest

abbrev pub with_chests : Node → Result (List Chest) SyncError → Result Node SyncError
with_chests n (ok cs) = ok (record n { chests = cs })
with_chests n (err e) = err e

unfoldable pub sync_nodes : ChestSyncReport → List Node → Option (Result (List Node) SyncError)
unfolding sync_chests
sync_nodes report [] = none
sync_nodes report (n ∷ ns) =
    let rest = then_cons n (sync_nodes report ns) in
    elim (sync_chests report n.chests) [
      | some r ↦ some (put_first ns (with_chests n r))
      | none ↦ rest
    ]

-- The warehouse and the `dirty` flag of the store.
pub record Depot : Type 0 where
  pub storage : Storage
  pub dirty : Bool

abbrev pub with_nodes :
    ChestSyncReport → Depot → Option (Result (List Node) SyncError) → Result Depot SyncError
with_nodes report d none = err (not_found report.chest_id)
with_nodes report d (some (err e)) = err e
with_nodes report d (some (ok ns)) =
    ok (record { storage = record d.storage { nodes = ns }; dirty = true })

unfoldable pub apply_chest_sync : ChestSyncReport → Depot → Result Depot SyncError
unfolding sync_nodes
apply_chest_sync report d = with_nodes report d (sync_nodes report d.storage.nodes)
