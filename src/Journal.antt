-- ===== src/Journal.antt =====
-- src/store/journal.rs, and its use at the start of the bot in src/bot/mod.rs: the record of the one
-- shulker operation in flight. A text `[]` stands for no operation; an operation takes the journal,
-- the counter of identifiers and the files, and gives them back.
pub mod Calls
pub mod Start
use cj_store.Prelude.{
  ℕ, ◌+◌, ◌%◌, ◌^◌, Bool, true, false, Option, none, some, List, [], ◌∷◌, Result, ok, err,
  if◌then◌else◌,
}
use cj_store.Prelude.Int.{ℤ}
use cj_store.Serde.{Serde}
use cj_store.Fsutil.{Siblings, Faults, IoError, other, invalid_data, write_atomic}
use cj_store.Fsutil.Archive.{ArchiveFaults, archive_aside}

pub data JournalOp : Type 0 where
  withdraw_from_chest deposit_to_chest : JournalOp

pub data JournalState : Type 0 where
  shulker_taken shulker_on_station items_transferred shulker_picked_up shulker_replaced :
      JournalState

pub record JournalEntry : Type 0 where
  pub operation_id : ℕ
  pub operation_type : JournalOp
  pub chest_id : ℤ
  pub slot_index : ℕ
  pub state : JournalState

pub record Journal : Type 0 where
  pub entry : Option JournalEntry
  pub restored_leftover : Bool

-- The journal, `NEXT_OPERATION_ID`, the files beside `journal.json`, and the archives.
pub record World (J : Type 0) : Type 0 where
  pub journal : Journal
  pub next_operation_id : ℕ
  pub disk : Siblings J
  pub archives : List J

-- How the choice of an archive name and the move go.
pub record MoveFaults (J : Type 0) : Type 0 where
  pub picked : Bool
  pub archiving : ArchiveFaults J

-- How the calls of the file system in one operation of the journal go.
pub record Weather (J : Type 0) : Type 0 where
  pub moving : MoveFaults J
  pub writing : Faults J

abbrev pub fresh : Journal
fresh = record { entry = none; restored_leftover = false }

-- The journal's answers: the journal and the leftover entry.
abbrev pub LoadResult : Type 0
LoadResult = Result (Journal × Option JournalEntry) IoError

-- `into_iter().next_back()`
abbrev pub last : List JournalEntry → Option JournalEntry
last [] = none
last (e ∷ []) = some e
last (e ∷ (f ∷ l)) = last (f ∷ l)

abbrev pub with_state : JournalState → JournalEntry → JournalEntry
with_state st e = record e { state = st }

module _ {J : Type 0} where
  -- Every archive has a name of its own.
  abbrev pub filed : Option J → List J → List J
  filed none archives = archives
  filed (some j) archives = j ∷ archives

  abbrev pub moved :
      (Option J × Option J) × Result (Unit {0}) IoError
      → World J
      → World J × Result (Unit {0}) IoError
  moved ((live, copy), r) w =
      (record w { disk = record w.disk { live = live }; archives = filed copy w.archives }, r)

  -- `quarantine_unreadable` and `archive_leftover`: the name is free, so nothing is overwritten.
  unfoldable pub move_aside : MoveFaults J → World J → World J × Result (Unit {0}) IoError
  unfolding archive_aside
  move_aside f w =
      if f.picked then moved (archive_aside f.archiving w.disk.live none) w else (w, err other)

module _ {J : Type 0} (sd : Serde J (List JournalEntry)) (empty_text : J) where
  -- `&[entry]`, or the literal text `[]`.
  abbrev pub text : Option JournalEntry → Option J
  text none = some empty_text
  text (some e) = sd.to_string (e ∷ [])

  unfoldable pub persist :
      Faults J → Option JournalEntry → Siblings J → Siblings J × Result (Unit {0}) IoError
  persist f e d = elim (text e) [ none ↦ (d, err other) | some j ↦ write_atomic f j d ]

  -- A tentative change that a failed write takes back.
  unfoldable pub keep_or_restore :
      {A : Type 0}
      → A
      → Journal
      → Siblings J × Result (Unit {0}) IoError
      → World J
      → World J × Result A IoError
  keep_or_restore a old (d, ok _) w = (record w { disk = d }, ok a)
  keep_or_restore a old (d, err e) w = (record w { disk = d; journal = old }, err e)

  -- The part of `begin` after a restored leftover was moved away.
  unfoldable pub begin_entry : Faults J → JournalOp → ℤ → ℕ → World J → World J × Result ℕ IoError
  unfolding persist keep_or_restore
  begin_entry f operation_type chest_id slot_index w =
      let id = w.next_operation_id in
      let e : JournalEntry = record {
        operation_id = id;
        operation_type = operation_type;
        chest_id = chest_id;
        slot_index = slot_index;
        state = shulker_taken;
      } in
      keep_or_restore id w.journal (persist f (some e) w.disk) (record w {
        next_operation_id = (id + 1) % 2 ^ 64;
        journal = record w.journal { entry = some e };
      })

  unfoldable pub begin_moved :
      Faults J
      → JournalOp
      → ℤ
      → ℕ
      → World J × Result (Unit {0}) IoError
      → World J × Result ℕ IoError
  unfolding begin_entry
  begin_moved f op chest slot (w, ok _) =
      begin_entry f op chest slot
        (record w { journal = record w.journal { restored_leftover = false } })
  begin_moved f op chest slot (w, err e) = (w, err e)

  unfoldable pub begin : Weather J → JournalOp → ℤ → ℕ → World J → World J × Result ℕ IoError
  unfolding begin_moved move_aside
  begin f op chest slot w =
      if w.journal.restored_leftover
      then begin_moved f.writing op chest slot (move_aside f.moving w)
      else begin_entry f.writing op chest slot w

  advance_entry :
      Faults J → JournalState → Option JournalEntry → World J → World J × Result (Unit {0}) IoError
  unfolding persist keep_or_restore
  advance_entry f state none w = (w, ok tt)
  advance_entry f state (some e) w =
      let e' = with_state state e in
      keep_or_restore tt w.journal (persist f (some e') w.disk)
        (record w { journal = record w.journal { entry = some e' } })

  unfoldable pub advance : Faults J → JournalState → World J → World J × Result (Unit {0}) IoError
  unfolding advance_entry
  advance f state w = advance_entry f state w.journal.entry w

  -- `complete`: a failed write leaves the entry cleared in memory.
  unfoldable pub complete : Faults J → World J → World J × Result (Unit {0}) IoError
  unfolding persist keep_or_restore
  complete f w =
      let cleared : Journal = record w.journal { entry = none } in
      keep_or_restore tt cleared (persist f none w.disk) (record w { journal = cleared })

  -- On a failed write the entry goes back with its prior state, whatever `state` was.
  unfoldable pub complete_with_state :
      Faults J → JournalState → World J → World J × Result (Unit {0}) IoError
  unfolding persist keep_or_restore
  complete_with_state f state w =
      keep_or_restore tt w.journal (persist f none w.disk)
        (record w { journal = record w.journal { entry = none } })

  unfoldable pub restore_leftover : JournalEntry → World J → World J
  restore_leftover e w = record w { journal = record { entry = some e; restored_leftover = true } }

  -- An unreadable file that could not be moved is an error; one that is no JSON is not.
  unreadable : World J × Result (Unit {0}) IoError → World J × LoadResult
  unreadable (w, ok _) = (w, ok (fresh, none))
  unreadable (w, err _) = (w, err other)

  parsed : MoveFaults J → Option (List JournalEntry) → World J → World J × LoadResult
  unfolding move_aside
  parsed f none w = ((move_aside f w).0, ok (fresh, none))
  parsed f (some []) w = (w, ok (fresh, none))
  parsed f (some (e ∷ [])) w = (w, ok (fresh, some e))
  parsed f (some (e ∷ (e' ∷ l))) w = ((move_aside f w).0, ok (fresh, last (e' ∷ l)))

  load_file : Bool → MoveFaults J → Option J → World J → World J × LoadResult
  unfolding unreadable parsed
  load_file readable f none w = (w, ok (fresh, none))
  load_file true f (some j) w = parsed f (sd.from_str j) w
  load_file false f (some j) w = unreadable (move_aside f w)

  -- `load_from`, with whether the file can be read.
  unfoldable pub load_from : Bool → MoveFaults J → World J → World J × LoadResult
  unfolding load_file
  load_from readable f w = load_file readable f w.disk.live w

  restore_on : JournalEntry → World J × Result (Unit {0}) IoError → World J
  unfolding restore_leftover
  restore_on e (w, ok _) = w
  restore_on e (w, err _) = restore_leftover e w

  adopt : MoveFaults J → World J × LoadResult → World J
  unfolding restore_on
  adopt f (w, ok (journal, none)) = record w { journal = journal }
  adopt f (w, ok (journal, some e)) = restore_on e (move_aside f (record w { journal = journal }))
  adopt f (w, err _) = record w { journal = fresh }

  -- The start of the bot: the load, and the move of a leftover to the archive.
  unfoldable pub start : Bool → MoveFaults J → MoveFaults J → World J → World J
  unfolding load_from adopt
  start readable f g w = adopt g (load_from readable f w)
