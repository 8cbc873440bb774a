-- ===== src/Queue/Load.antt =====
-- `OrderQueue::load`: what a restart finds.
use cj_store.Prelude.{
  ◌≡◌, refl, ◌⊎◌, inl, inr, Bool, true, false, Option, none, some, Result, ok, err, List, ◌+◌, ◌<◌,
  ◌^◌, length,
}
use cj_store.Serde.{Serde, IsFaithful}
use cj_store.Fsutil.{Siblings, IoError, invalid_data, other}
use cj_store.Fsutil.Archive.{ArchiveFaults, archive_aside, archive_aside_keeps}
use cj_store.Queue.{OrderQueue, QueuePersist, World, new, persisted}
use cj_store.Queue.Saves.{Saved}
use cj_store.Queue.Runs.{Call, run, Tracks, IsValid, run-Tracks}

-- Whether the file can be read, and how a move of it aside goes.
pub record LoadFaults (J : Type 0) : Type 0 where
  pub readable : Bool
  pub archiving : ArchiveFaults J

abbrev restored : QueuePersist → OrderQueue
restored p = record { orders = p.orders; next_id = p.next_id }

module _ {J : Type 0} (sd : Serde J QueuePersist) where
  -- The queue, the file and its archive after the start.
  abbrev Loaded : Type 0
  Loaded = Result OrderQueue IoError × Option J × Option J

  -- The move aside, and the queue or the error that follows it.
  quarantine_to : ArchiveFaults J → IoError → J → Option J → Loaded
  quarantine_to f e j archive =
      let ((live, archive'), moved) = archive_aside f (some j) archive in
      (elim moved [ ok _ ↦ ok new | err _ ↦ err e ], live, archive')

  parse : ArchiveFaults J → J → Option J → Option QueuePersist → Loaded
  unfolding quarantine_to
  parse f j archive (some p) = (ok (restored p), some j, archive)
  parse f j archive none = quarantine_to f invalid_data j archive

  pub load_from : LoadFaults J → Option J → Option J → Loaded
  unfolding parse
  load_from f none archive = (ok new, none, archive)
  load_from f (some j) archive = elim f.readable [
    | false ↦ quarantine_to f.archiving other j archive
    | true ↦ parse f.archiving j archive (sd.from_str j)
  ]

  quarantine_to_keeps :
      (f : ArchiveFaults J) (e : IoError) (j : J) (archive : Option J)
      → let (_, live, archive') = quarantine_to f e j archive in
        (live ≡ some j) ⊎ (archive' ≡ some j)
  unfolding quarantine_to
  quarantine_to_keeps f e j archive = elim (archive_aside_keeps f j archive) [
    | inl (_, kept) ↦ inr kept
    | inr (_, kept) ↦ inl kept
  ]

  parse_keeps :
      (f : ArchiveFaults J) (j : J) (archive : Option J) (p : Option QueuePersist)
      → let (_, live, archive') = parse f j archive p in (live ≡ some j) ⊎ (archive' ≡ some j)
  unfolding parse
  parse_keeps f j archive (some p) = inl refl
  parse_keeps f j archive none = quarantine_to_keeps f invalid_data j archive

  -- A start never destroys the bytes of the queue file: they stay at the path, or in the archive,
  -- also when they cannot be read or parsed and the store starts with an empty queue.
  pub load_from_keeps :
      (f : LoadFaults J) (j : J) (archive : Option J)
      → let (_, live, archive') = load_from f (some j) archive in
        (live ≡ some j) ⊎ (archive' ≡ some j)
  unfolding load_from
  load_from_keeps f j archive = keeps f.readable
    where
      keeps :
          (b : Bool)
          → let (_, live, archive') : Loaded = elim b [
            | false ↦ quarantine_to f.archiving other j archive
            | true ↦ parse f.archiving j archive (sd.from_str j)
          ] in
            (live ≡ some j) ⊎ (archive' ≡ some j)
      keeps false = quarantine_to_keeps f.archiving other j archive
      keeps true = parse_keeps f.archiving j archive (sd.from_str j)

  -- The queue whose text is in the file is the queue that a start finds.
  pub load_from-Saved :
      (exact : QueuePersist → Bool)
      → IsFaithful sd exact
      → (q : OrderQueue) (d : Siblings J) → exact (persisted q) ≡ true
      → Saved sd q d
      → (f : LoadFaults J) (archive : Option J) → f.readable ≡ true
      → (load_from f d.live archive).0 ≡ ok q
  unfolding load_from
  load_from-Saved exact faithful q d fits (j, text, there) f archive can =
      rw (there, can, faithful.reads_back (persisted q) j fits text, load_from, parse) refl

  -- After any calls of the queue, with any failures, a start that can read the file at the path
  -- finds the queue that was in memory, if the JSON library reads the queue's values back exactly, the
  -- file is there, it held the text of the queue at first, and the identifiers stay below 2^64.
  pub load_from-run :
      (exact : QueuePersist → Bool)
      → IsFaithful sd exact
      → (cs : List (Call J)) (w : World J) → IsValid w.0
      → w.0.next_id + length cs < 2 ^ 64
      → Tracks sd w
      → (j : J) → (run sd cs w).1.live ≡ some j
      → exact (persisted (run sd cs w).0) ≡ true
      → (f : LoadFaults J) (archive : Option J) → f.readable ≡ true
      → load_from f (run sd cs w).1.live archive ≡ (ok (run sd cs w).0, some j, archive)
  unfolding load_from
  load_from-run exact faithful cs w v room t j here fin f archive can =
      let text = run-Tracks sd cs w v room t j here in
      rw (here, can, faithful.reads_back _ j fin text, load_from, parse)
