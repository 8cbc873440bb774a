-- ===== src/Journal/Calls.antt =====
-- The journal's calls during an operation: what each leaves in memory and on disk.
use cj_store.Prelude.{
  ℕ, ◌+◌, ◌%◌, ◌^◌, ◌≡◌, refl, inl, inr, false, Option, none, some, List, Result, ok, err, if_split,
  Option-cases,
}
use cj_store.Prelude.Int.{ℤ}
use cj_store.Serde.{Serde}
use cj_store.Fsutil.{Siblings, Faults, IoError, write_atomic_ok, write_atomic_err}
use cj_store.Queue.Saves.{Kept}
use cj_store.Journal.{
  JournalEntry, JournalOp, JournalState, World, Weather, text, persist, keep_or_restore,
  begin_entry, begin, advance, advance_entry, complete_with_state, with_state, shulker_taken,
}

module _ {J : Type 0} (sd : Serde J (List JournalEntry)) (empty_text : J) where
  -- The file holds the text of the entry.
  abbrev pub Written : Option JournalEntry → Siblings J → Type 0
  Written e d = (j : J) × (text sd empty_text e ≡ some j) × (d.live ≡ some j)

  -- What a change of the journal to the entry `e` may leave: the change with its text on the disk,
  -- or the journal as it was, with no written byte lost.
  abbrev pub Changes :
      {A : Type 0} → Option JournalEntry → World J → World J × Result A IoError → Type 0
  Changes e w (w', ok _) =
      (w'.journal ≡ record w.journal { entry = e }) × Written e w'.disk × (w'.archives ≡ w.archives)
  Changes e w (w', err _) =
      (w'.journal ≡ w.journal) × Kept w.disk w'.disk × (w'.archives ≡ w.archives)

  persist_ok :
      (f : Faults J) (e : Option JournalEntry) (d : Siblings J)
      → (persist sd empty_text f e d).1 ≡ ok tt
      → Written e (persist sd empty_text f e d).0
  unfolding persist
  persist_ok f e d h = elim (Option-cases (text sd empty_text e)) [
    | inl n ↦ absurd (cc (rw (n, persist) at h))
    | inr (j, t) ↦ rw (t, persist) (j, refl, write_atomic_ok f j d (rw (t, persist) at h))
  ]

  persist_err :
      (f : Faults J) (e : Option JournalEntry) (d : Siblings J) {x : IoError}
      → (persist sd empty_text f e d).1 ≡ err x
      → Kept d (persist sd empty_text f e d).0
  unfolding persist
  persist_err f e d h = elim (Option-cases (text sd empty_text e)) [
    | inl n ↦ rw (n, persist) (inl refl)
    | inr (j, t) ↦
        rw (t, persist)
          (elim (write_atomic_err f j d (rw (t, persist) at h)) [
            | inl k ↦ inl k
            | inr (a, b, _) ↦ inr (a, b)
          ])
  ]

  keep_or_restore-Changes :
      {A : Type 0} (a : A) (e : Option JournalEntry) (w : World J)
      (x : Siblings J × Result (Unit {0}) IoError) (n : ℕ)
      → (x.1 ≡ ok tt → Written e x.0)
      → ((i : IoError) → x.1 ≡ err i → Kept w.disk x.0)
      → Changes e w (
          keep_or_restore sd empty_text a w.journal x
            (record w { next_operation_id = n; journal = record w.journal { entry = e } }))
  unfolding keep_or_restore
  keep_or_restore-Changes a e w (d, ok _) n s k = (refl, s refl, refl)
  keep_or_restore-Changes a e w (d, err i) n s k = (refl, k i refl, refl)

  changes :
      {A : Type 0} (a : A) (f : Faults J) (e : Option JournalEntry) (w : World J) (n : ℕ)
      → Changes e w (
          keep_or_restore sd empty_text a w.journal
            (persist sd empty_text f e w.disk)
            (record w { next_operation_id = n; journal = record w.journal { entry = e } }))
  changes a f e w n =
      keep_or_restore-Changes a e w (persist sd empty_text f e w.disk) n (persist_ok f e w.disk)
        (λ _. persist_err f e w.disk)

  -- `complete_with_state` clears the journal, in memory and on disk; or the entry and its state are
  -- as they were, and no written byte is lost. The state in between is never on the disk.
  pub complete_with_state-Changes :
      (f : Faults J) (state : JournalState) (w : World J)
      → Changes none w (complete_with_state sd empty_text f state w)
  unfolding complete_with_state
  complete_with_state-Changes f state w = changes tt f none w w.next_operation_id

  -- What `advance` may leave.
  abbrev pub Advances :
      JournalState → Option JournalEntry → World J → World J × Result (Unit {0}) IoError → Type 0
  Advances state none w x = x ≡ (w, ok tt)
  Advances state (some e) w x = Changes (some (with_state state e)) w x

  -- `advance` moves the entry to the new state, in memory and on disk; or the journal is as it was,
  -- and no written byte is lost. Without an entry it does nothing.
  advance-Advances :
      (f : Faults J) (state : JournalState) (w : World J)
      → Advances state w.journal.entry w (advance sd empty_text f state w)
  unfolding advance advance_entry
  advance-Advances f state w = by-entry w.journal.entry
    where
      by-entry :
          (e : Option JournalEntry) → Advances state e w (advance_entry sd empty_text f state e w)
      by-entry none = refl
      by-entry (some e) = changes tt f (some (with_state state e)) w w.next_operation_id

  abbrev pub first_entry : ℕ → JournalOp → ℤ → ℕ → JournalEntry
  first_entry id op chest slot = record {
    operation_id = id;
    operation_type = op;
    chest_id = chest;
    slot_index = slot;
    state = shulker_taken;
  }

  -- `begin` puts an entry in its first state, with the next identifier, in memory and on disk; or
  -- the journal is as it was, and no written byte is lost. This is without a restored leftover.
  begin-Changes :
      (f : Weather J) (op : JournalOp) (chest : ℤ) (slot : ℕ) (w : World J)
      → w.journal.restored_leftover ≡ false
      → Changes
          (some (first_entry w.next_operation_id op chest slot))
          w
          (begin sd empty_text f op chest slot w)
  unfolding begin begin_entry
  begin-Changes f op chest slot w h =
      let e = first_entry w.next_operation_id op chest slot in
      if_split (Changes (some e) w) w.journal.restored_leftover (λ t. cc)
        (λ _. changes w.next_operation_id f.writing (some e) w ((w.next_operation_id + 1) % 2 ^ 64))
