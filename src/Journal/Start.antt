-- ===== src/Journal/Start.antt =====
-- The evidence of an interrupted operation, from the start of the bot to its next operation.
use cj_store.Prelude.{
  ℕ, ◌≡◌, refl, sym, ◌∙◌, ◌⊎◌, inl, inr, Bool, true, false, Option, none, some, List, [], ◌∷◌,
  Result, ok, err, if_split, arith,
}
use cj_store.Prelude.Int.{ℤ}
use mathlib.Core.Path.{subst}
use cj_store.Serde.{Serde}
use cj_store.Fsutil.{Siblings, IoError, other}
use cj_store.Fsutil.Archive.{archive_aside}
use cj_store.Journal.{
  Journal, JournalEntry, JournalOp, World, MoveFaults, Weather, move_aside, begin_entry, LoadResult,
  begin_moved, begin, load_from, load_file, parsed, unreadable, adopt, restore_on, restore_leftover,
  filed, last, start, keep_or_restore,
}

module _ {J : Type 0} where
  abbrev pub Among : J → List J → Type 0
  Among j [] = ⊥
  Among j (k ∷ ks) = (k ≡ j) ⊎ Among j ks

  -- The text is at the path, or in an archive.
  abbrev pub Evident : J → World J → Type 0
  Evident j w = (w.disk.live ≡ some j) ⊎ Among j w.archives

  -- A move aside keeps the text at the path, wherever it ends, and every archive.
  move_aside_keeps :
      (f : MoveFaults J) (j : J) (w : World J)
      → w.disk.live ≡ some j
      → let (w', r) = move_aside f w in
        ((r ≡ ok tt) × (w'.archives ≡ j ∷ w.archives)) ⊎ ((r ≡ err other) × (w'.disk.live ≡ some j))
  unfolding move_aside archive_aside
  move_aside_keeps f j w h = ground (arith, h)

  filed-Among : (j : J) (o : Option J) (l : List J) → Among j l → Among j (filed o l)
  filed-Among j none l h = h
  filed-Among j (some k) l h = inr h

  move_aside-Among :
      (f : MoveFaults J) (j : J) (w : World J)
      → Among j w.archives
      → Among j (move_aside f w).0.archives
  unfolding move_aside
  move_aside-Among f j w h =
      if_split (λ (x : World J × Result (Unit {0}) IoError). Among j x.0.archives) f.picked
        (λ _. filed-Among j _ w.archives h) (λ _. h)

  move_aside-Evident :
      (f : MoveFaults J) (j : J) (w : World J) → Evident j w → Evident j (move_aside f w).0
  move_aside-Evident f j w (inl h) = elim (move_aside_keeps f j w h) [
    | inl (_, a) ↦ inr (subst (Among j) (sym a) (inl refl))
    | inr (_, l) ↦ inl l
  ]
  move_aside-Evident f j w (inr m) = inr (move_aside-Among f j w m)

module _ {J : Type 0} (sd : Serde J (List JournalEntry)) (empty_text : J) where
  parsed-Evident :
      (f : MoveFaults J) (j : J) (l : Option (List JournalEntry)) (w : World J)
      → Evident j w
      → Evident j (parsed sd empty_text f l w).0
  unfolding parsed
  parsed-Evident f j none w h = move_aside-Evident f j w h
  parsed-Evident f j (some []) w h = h
  parsed-Evident f j (some (e ∷ [])) w h = h
  parsed-Evident f j (some (e ∷ (e' ∷ l))) w h = move_aside-Evident f j w h

  unreadable-Evident :
      (j : J) (x : World J × Result (Unit {0}) IoError)
      → Evident j x.0
      → Evident j (unreadable sd empty_text x).0
  unfolding unreadable
  unreadable-Evident j (w, ok _) h = h
  unreadable-Evident j (w, err _) h = h

  load_file-Evident :
      (readable : Bool) (f : MoveFaults J) (j : J) (o : Option J) (w : World J)
      → Evident j w
      → Evident j (load_file sd empty_text readable f o w).0
  unfolding load_file
  load_file-Evident readable f j none w h = h
  load_file-Evident true f j (some k) w h = parsed-Evident f j (sd.from_str k) w h
  load_file-Evident false f j (some k) w h =
      unreadable-Evident j (move_aside f w) (move_aside-Evident f j w h)

  restore_on-Evident :
      (j : J) (e : JournalEntry) (x : World J × Result (Unit {0}) IoError)
      → Evident j x.0
      → Evident j (restore_on sd empty_text e x)
  unfolding restore_on restore_leftover
  restore_on-Evident j e (w, ok _) h = h
  restore_on-Evident j e (w, err _) h = h

  adopt-Evident :
      (f : MoveFaults J) (j : J) (x : World J × LoadResult)
      → Evident j x.0
      → Evident j (adopt sd empty_text f x)
  unfolding adopt
  adopt-Evident f j (w, ok (journal, none)) h = h
  adopt-Evident f j (w, ok (journal, some e)) h =
      let w' : World J = record w { journal = journal } in
      restore_on-Evident j e (move_aside f w') (move_aside-Evident f j w' h)
  adopt-Evident f j (w, err _) h = h

  -- The start of the bot destroys no byte of the journal's file, whatever the file holds and
  -- whatever fails: the text stays at the path, or it is in an archive.
  pub start-Evident :
      (readable : Bool) (f g : MoveFaults J) (j : J) (w : World J)
      → w.disk.live ≡ some j
      → Evident j (start sd empty_text readable f g w)
  unfolding start load_from
  start-Evident readable f g j w h =
      adopt-Evident g j (load_file sd empty_text readable f w.disk.live w)
        (load_file-Evident readable f j w.disk.live w (inl h))

  keep_or_restore_same :
      {A : Type 0} (a : A) (old : Journal) (x : Siblings J × Result (Unit {0}) IoError)
      (w : World J)
      → (keep_or_restore sd empty_text a old x w).0.archives ≡ w.archives
  unfolding keep_or_restore
  keep_or_restore_same a old (d, ok _) w = refl
  keep_or_restore_same a old (d, err _) w = refl

  -- The first operation after a start that could not archive the leftover does so now, or refuses:
  -- the leftover's text is never written over.
  pub begin_keeps_leftover :
      (f : Weather J) (op : JournalOp) (chest : ℤ) (slot : ℕ) (j : J) (w : World J)
      → w.journal.restored_leftover ≡ true
      → w.disk.live ≡ some j
      → Evident j (begin sd empty_text f op chest slot w).0
  unfolding begin begin_moved begin_entry
  begin_keeps_leftover f op chest slot j w restored h =
      if_split (λ (x : World J × Result ℕ IoError). Evident j x.0) w.journal.restored_leftover
        (λ _. moved-on (move_aside f.moving w) (move_aside_keeps f.moving j w h)) (λ t. cc)
    where
      moved-on :
          (x : World J × Result (Unit {0}) IoError)
          → ((x.1 ≡ ok tt) × (x.0.archives ≡ j ∷ w.archives))
            ⊎ ((x.1 ≡ err other) × (x.0.disk.live ≡ some j))
          → Evident j (begin_moved sd empty_text f.writing op chest slot x).0
      moved-on (w', ok _) (inl (_, a)) =
          inr (subst (Among j) (sym (keep_or_restore_same _ _ _ _ ∙ a)) (inl refl))
      moved-on (w', ok _) (inr (e, _)) = absurd (cc e)
      moved-on (w', err e) (inl (r, _)) = absurd (cc r)
      moved-on (w', err e) (inr (_, l)) = inl l

  -- With a restored leftover and no file at the path, `begin` is refused and changes nothing, so
  -- that the next one is refused too.
  pub begin_stuck :
      (f : Weather J) (op : JournalOp) (chest : ℤ) (slot : ℕ) (w : World J)
      → w.journal.restored_leftover ≡ true
      → w.disk.live ≡ none
      → begin sd empty_text f op chest slot w ≡ (w, err other)
  unfolding begin begin_moved move_aside archive_aside
  begin_stuck f op chest slot w restored gone = ground (arith, restored, gone)

  last-some :
      (e : JournalEntry) (l : List JournalEntry) → (x : JournalEntry) × (last (e ∷ l) ≡ some x)
  last-some e [] = (e, refl)
  last-some e (e' ∷ l) = last-some e' l

  -- If the file holds several entries, and the load moves it to the archive by a rename, then the
  -- start ends with a restored leftover and no file at the path, whatever the second move, that of
  -- the leftover, is answered.
  pub start-several :
      (f g : MoveFaults J) (j : J) (w : World J) (e e' : JournalEntry) (l : List JournalEntry)
      → w.disk.live ≡ some j
      → sd.from_str j ≡ some (e ∷ (e' ∷ l))
      → f.picked ≡ true
      → f.archiving.renamed ≡ true
      → let w' = start sd empty_text true f g w in
        (w'.journal.restored_leftover ≡ true) × (w'.disk.live ≡ none)
  unfolding start load_from load_file parsed adopt restore_on restore_leftover move_aside
      archive_aside
  start-several f g j w e e' l h several picked renamed =
      let (x, found) = last-some e' l in ground (arith, h, several, picked, renamed, found)
