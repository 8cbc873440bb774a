-- ===== src/Fsutil/Archive.antt =====
-- src/fsutil.rs: the choice of a free archive name and the move of a damaged file to it.
use cj_store.Prelude.{
  ℕ, zero, suc, ◌+◌, ◌≤◌, ◌<◌, ◌≡◌, ◌⊎◌, Bool, true, false, not, ◌&&◌, Option, none, some, Result,
  ok, err, refl, if◌then◌else◌, arith, Bool-cases, inl, inr,
}
use cj_store.Fsutil.{IoError, already_exists, other}

-- What the system calls of one archiving answer.
pub record ArchiveFaults (C : Type 0) : Type 0 where
  pub renamed : Bool
  pub copied : Bool
  pub torn_copy : Option C
  pub removed_source : Bool

module _ {C : Type 0} where
  -- The source and the destination after the call. Without a source file neither the rename nor
  -- the copy can succeed.
  unfoldable pub archive_aside :
      ArchiveFaults C → Option C → Option C → (Option C × Option C) × Result (Unit {0}) IoError
  archive_aside f none dst = ((none, dst), err other)
  archive_aside f (some c) dst =
      if f.renamed
      then ((none, some c), ok tt)
      else if not f.copied
      then ((some c, f.torn_copy), err other)
      else ((if f.removed_source then none else some c, some c), ok tt)

  -- An archiving that reports success has kept the bytes at the destination, and one that fails
  -- has left them at the source.
  pub archive_aside_keeps :
      (f : ArchiveFaults C) (c : C) (dst : Option C)
      → let ((src', dst'), r) = archive_aside f (some c) dst in
        ((r ≡ ok tt) × (dst' ≡ some c)) ⊎ ((r ≡ err other) × (src' ≡ some c))
  unfolding archive_aside
  archive_aside_keeps f c dst = ground arith

-- The loop `while candidate.exists() && bump < 1000`, with `left` for `1000 - bump`. Candidate 0 is
-- the name without a suffix.
bump_loop : (ℕ → Bool) → ℕ → ℕ → ℕ
bump_loop exists zero bump = bump
bump_loop exists (suc left) bump =
    let rest = bump_loop exists left (bump + 1) in if exists bump then rest else bump

-- The name that the loop ends at, unless it is taken too.
check_free : (ℕ → Bool) → ℕ → Result ℕ IoError
check_free exists bump = if exists bump then err already_exists else ok bump

-- `exists` says which of the candidates are taken; the flags, whether the folder is there and
-- whether it could be made; `limit` is the bound 1000. The result is the chosen candidate's number.
unfoldable pub pick_archive_path : ℕ → Bool → Bool → (ℕ → Bool) → Result ℕ IoError
unfolding bump_loop check_free
pick_archive_path limit parent_exists created_dir exists =
    if not parent_exists && not created_dir
    then err other
    else check_free exists (bump_loop exists limit 0)

-- The loop stops at the first free candidate, or at the last of all.
bump_loop_lem :
    (exists : ℕ → Bool) (left bump : ℕ)
    → let r = bump_loop exists left bump in
      (bump ≤ r)
      × (r ≤ bump + left)
      × ((exists r ≡ false) ⊎ (r ≡ bump + left))
      × ((j : ℕ) → bump ≤ j → j < r → exists j ≡ true)
unfolding bump_loop
bump_loop_lem exists zero bump =
    (omega arith, omega arith, inr (omega arith), λ j p q. absurd (omega arith))
bump_loop_lem exists (suc left) bump = elim (Bool-cases (exists bump)) [
  | inr free ↦ rw free (omega arith, omega arith, inl free, λ j p q. absurd (omega arith))
  | inl taken ↦
      let (lo, hi, stop, below) = bump_loop_lem exists left (bump + 1) in
      rw taken (
        omega arith,
        omega arith,
        elim stop [ inl e ↦ inl e | inr e ↦ inr (omega arith) ],
        λ j p q. elim (bump-or-later j p) [ inl e ↦ rw e taken | inr l ↦ below j l q ],
      )
]
  where
    bump-or-later : (j : ℕ) → bump ≤ j → (j ≡ bump) ⊎ (bump + 1 ≤ j)
    bump-or-later j p = ground arith

-- The limit of `pick_archive_path`.
abbrev pub max_bump : ℕ
max_bump = 1000

-- What the choice of an archive name comes to.
abbrev pub Picks : ℕ → (ℕ → Bool) → Result ℕ IoError → Type 0
Picks limit exists (ok n) = (n ≤ limit) × (exists n ≡ false) × ((j : ℕ) → j < n → exists j ≡ true)
Picks limit exists (err already_exists) = (j : ℕ) → j ≤ limit → exists j ≡ true
Picks limit exists (err _) = Unit

check_free-Picks :
    (limit : ℕ) (exists : ℕ → Bool) (b : ℕ) (e : Bool)
    → exists b ≡ e
    → b ≤ limit
    → ((e ≡ false) ⊎ (b ≡ limit))
    → ((j : ℕ) → j < b → exists j ≡ true)
    → Picks limit exists (check_free exists b)
unfolding check_free
check_free-Picks limit exists b false h le stop below = rw h (le, h, below)
check_free-Picks limit exists b true h le (inl f) below = cc
check_free-Picks limit exists b true h le (inr e) below =
    rw h (λ j q. elim (last-or-below j q) [ inl i ↦ rw i h | inr l ↦ below j l ])
  where
    last-or-below : (j : ℕ) → j ≤ limit → (j ≡ b) ⊎ (j < b)
    last-or-below j q = ground arith

found :
    (limit : ℕ) (exists : ℕ → Bool)
    → Picks limit exists (check_free exists (bump_loop exists limit 0))
found limit exists =
    let (_, hi, stop, below) = bump_loop_lem exists limit 0 in
    check_free-Picks limit exists (bump_loop exists limit 0) _ refl (omega arith)
      (elim stop [ inl e ↦ inl e | inr e ↦ inr (omega arith) ]) (λ j. below j (omega arith))

-- A chosen archive name is free, so that no earlier archive is overwritten, and it is the first
-- free one; the choice fails for want of a name only if every candidate up to the limit is taken.
pub pick_archive_path-Picks :
    (limit : ℕ) (parent_exists created_dir : Bool) (exists : ℕ → Bool)
    → Picks limit exists (pick_archive_path limit parent_exists created_dir exists)
unfolding pick_archive_path
pick_archive_path-Picks limit false false exists = tt
pick_archive_path-Picks limit false true exists = found limit exists
pick_archive_path-Picks limit true c exists = found limit exists
