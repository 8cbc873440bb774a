-- ===== src/Fsutil.antt =====
-- src/fsutil.rs: the atomic write of a file, and the move of a file aside. The files are those that
-- stand beside one target; each system call's outcome is a field of `Faults`, so that a theorem
-- for all faults holds whatever the file system answers.
pub mod Archive
use cj_store.Prelude.{
  ◌≡◌, ◌⊎◌, Bool, true, false, not, ◌&&◌, Option, none, some, Result, ok, err, if◌then◌else◌, arith,
}

-- The contents of `path`, `path.tmp`, `path.recovery.tmp` and `path.bak`; `none` is no file.
pub record Siblings (C : Type 0) : Type 0 where
  pub live : Option C
  pub tmp : Option C
  pub recovery : Option C
  pub bak : Option C

pub data IoError : Type 0 where
  invalid_input already_exists invalid_data other : IoError

-- What each system call of one write answers. A failed write or copy may leave `torn` bytes.
pub record Faults (C : Type 0) : Type 0 where
  pub named : Bool
  pub parent_exists : Bool
  pub created_dir : Bool
  pub created : Bool
  pub written : Bool
  pub synced : Bool
  pub torn : C
  pub renamed : Bool
  pub copied : Bool
  pub torn_copy : Option C
  pub removed_torn_copy : Bool
  pub removed_bak : Bool
  pub set_aside : Bool
  pub final_renamed : Bool
  pub removed_tmp : Bool
  pub removed_old : Bool

module _ {C : Type 0} where
  -- `let _ = fs::remove_file(..)`: a failed removal leaves the file.
  abbrev removed : Bool → Option C → Option C
  removed done c = if done then none else c

  -- The aside-rename of the live file to `.bak`, after an old `.bak` is removed; one attempt, as
  -- on Unix. The flag says whether it was done.
  set_aside_live : Faults C → Siblings C → Siblings C × Bool
  set_aside_live f s = elim s.live [
    | none ↦ (s, false)
    | some old ↦
        if f.set_aside
        then (record s { live = none; bak = some old }, true)
        else (record s { bak = removed f.removed_bak s.bak }, false)
  ]

  -- The last rename of `rename_failed_fallback_copy`, and its removal of the siblings.
  swap_in : Faults C → C → Siblings C × Bool → Siblings C × Result (Unit {0}) IoError
  swap_in f c (s, aside) =
      if f.final_renamed
      then (
        record s {
          live = some c;
          recovery = none;
          tmp = removed f.removed_tmp s.tmp;
          bak = if aside then removed f.removed_old s.bak else s.bak;
        },
        ok tt,
      )
      else (s, err other)

  rename_failed_fallback_copy : Faults C → C → Siblings C → Siblings C × Result (Unit {0}) IoError
  unfolding set_aside_live swap_in
  rename_failed_fallback_copy f c s =
      if f.copied
      then swap_in f c (set_aside_live f (record s { recovery = some c }))
      else (record s { recovery = removed f.removed_torn_copy f.torn_copy }, err other)

  -- The rename of the finished `.tmp` into place.
  flip : Faults C → C → Siblings C → Siblings C × Result (Unit {0}) IoError
  unfolding rename_failed_fallback_copy
  flip f c s =
      if f.renamed
      then (record s { live = some c; tmp = none }, ok tt)
      else rename_failed_fallback_copy f c s

  unfoldable pub write_atomic : Faults C → C → Siblings C → Siblings C × Result (Unit {0}) IoError
  unfolding flip
  write_atomic f c s =
      if not f.named
      then (s, err invalid_input)
      else if not f.parent_exists && not f.created_dir
      then (s, err other)
      else if not f.created
      then (s, err other)
      else if not (f.written && f.synced)
      then (record s { tmp = some f.torn }, err other)
      else flip f c (record s { tmp = some c })

  -- A write that reports success has put exactly the new contents at the path, however many of
  -- the system calls behind it failed.
  pub write_atomic_ok :
      (f : Faults C) (c : C) (s : Siblings C)
      → (write_atomic f c s).1 ≡ ok tt
      → (write_atomic f c s).0.live ≡ some c
  unfolding write_atomic
  write_atomic_ok f c s h = ground arith

  -- After a failed write the old contents are still at the path, or the path is free, the old
  -- contents are at `.bak` and the new ones at `.recovery.tmp`.
  pub write_atomic_err :
      (f : Faults C) (c : C) (s : Siblings C) {e : IoError}
      → (write_atomic f c s).1 ≡ err e
      → let s' = (write_atomic f c s).0 in
        (s'.live ≡ s.live) ⊎ ((s'.live ≡ none) × (s'.bak ≡ s.live) × (s'.recovery ≡ some c))
  unfolding write_atomic
  write_atomic_err f c s h = ground arith
