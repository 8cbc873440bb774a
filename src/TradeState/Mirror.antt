-- ===== src/TradeState/Mirror.antt =====
-- The persisted copy of the trade in flight, `current_trade.json`: persist, load, clear, archive.
use cj_store.Prelude.{
  ◌≡◌, refl, ◌⊎◌, inl, inr, Bool, true, Option, none, some, Result, ok, err, if◌then◌else◌,
  Option-cases, if_split, arith,
}
use cj_store.Serde.{Serde, IsFaithful}
use cj_store.Fsutil.{Siblings, Faults, IoError, invalid_data, other, write_atomic, write_atomic_ok}
use cj_store.Fsutil.Archive.{ArchiveFaults, archive_aside}
use cj_store.TradeState.{TradeState}

-- How the read of the file, the choice of an archive name and the move aside go.
pub record LoadFaults (K : Type 0) : Type 0 where
  pub readable : Bool
  pub picked : Bool
  pub archiving : ArchiveFaults K

module _ {K : Type 0} (sd : Serde K TradeState) where
  unfoldable pub persist_to :
      Faults K → TradeState → Siblings K → Siblings K × Result (Unit {0}) IoError
  persist_to f s d = elim (sd.to_string s) [ none ↦ (d, err other) | some k ↦ write_atomic f k d ]

  -- Removing a file that is not there counts as done.
  unfoldable pub clear_persisted_from : Bool → Siblings K → Siblings K × Result (Unit {0}) IoError
  clear_persisted_from removed d = elim d.live [
    | none ↦ (d, ok tt)
    | some _ ↦ if removed then (record d { live = none }, ok tt) else (d, err other)
  ]

  -- The trade, the file and its archive after the start.
  abbrev Loaded : Type 0
  Loaded = Result (Option TradeState) IoError × Option K × Option K

  quarantine_unreadable_to : LoadFaults K → IoError → K → Option K → Loaded
  quarantine_unreadable_to f e k archive =
      if f.picked
      then (let ((live, archive'), moved) = archive_aside f.archiving (some k) archive in
          (elim moved [ ok _ ↦ ok none | err _ ↦ err e ], live, archive'))
      else (err e, some k, archive)

  parse : LoadFaults K → K → Option K → Option TradeState → Loaded
  unfolding quarantine_unreadable_to
  parse f k archive (some s) = (ok (some s), some k, archive)
  parse f k archive none = quarantine_unreadable_to f invalid_data k archive

  pub load_persisted_from : LoadFaults K → Option K → Option K → Loaded
  unfolding parse
  load_persisted_from f none archive = (ok none, none, archive)
  load_persisted_from f (some k) archive =
      if f.readable
      then parse f k archive (sd.from_str k)
      else quarantine_unreadable_to f other k archive

  -- `archive_persisted_to`
  unfoldable pub archive_persisted_to :
      Bool
      → ArchiveFaults K
      → Option K
      → Option K
      → (Option K × Option K) × Result (Unit {0}) IoError
  archive_persisted_to picked f live archive =
      if picked then archive_aside f live archive else ((live, archive), err other)

  -- The file holds the text of the trade.
  abbrev pub Mirrored : TradeState → Siblings K → Type 0
  Mirrored s d = (k : K) × (sd.to_string s ≡ some k) × (d.live ≡ some k)

  pub persist_to_ok :
      (f : Faults K) (s : TradeState) (d : Siblings K)
      → (persist_to f s d).1 ≡ ok tt
      → Mirrored s (persist_to f s d).0
  unfolding persist_to
  persist_to_ok f s d h = elim (Option-cases (sd.to_string s)) [
    | inl e ↦ cc (rw (e, persist_to) at h)
    | inr (k, e) ↦ rw (e, persist_to) (k, refl, write_atomic_ok f k d (rw (e, persist_to) at h))
  ]

  pub clear_persisted_from_ok :
      (removed : Bool) (d : Siblings K)
      → (clear_persisted_from removed d).1 ≡ ok tt
      → (clear_persisted_from removed d).0.live ≡ none
  unfolding clear_persisted_from
  clear_persisted_from_ok removed d h = ground arith

  -- The copy whose write succeeded is the trade that a restart finds, if it can read the file and
  -- the JSON library reads the values of the trade back exactly.
  pub load-persist :
      (exact : TradeState → Bool)
      → IsFaithful sd exact
      → (f : Faults K) (s : TradeState) (d : Siblings K) → exact s ≡ true
      → (persist_to f s d).1 ≡ ok tt
      → (g : LoadFaults K) (archive : Option K) → g.readable ≡ true
      → (load_persisted_from g (persist_to f s d).0.live archive).0 ≡ ok (some s)
  unfolding persist_to load_persisted_from
  load-persist exact faithful f s d fin written g archive can =
      elim (Option-cases (sd.to_string s)) [
        | inl e ↦ cc (rw (e, persist_to) at written)
        | inr (k, e) ↦ rw (
          e,
          write_atomic_ok f k d (rw (e, persist_to) at written),
          can,
          faithful.reads_back s k fin e,
          persist_to,
          load_persisted_from,
          parse,
        )
      ]

  -- Without a file a start finds no trade.
  pub load_persisted_from-none :
      (g : LoadFaults K) (live archive : Option K)
      → live ≡ none
      → (load_persisted_from g live archive).0 ≡ ok none
  unfolding load_persisted_from
  load_persisted_from-none g live archive e = rw (e, load_persisted_from) refl

  quarantine_keeps :
      (f : LoadFaults K) (e : IoError) (k : K) (archive : Option K)
      → let (r, live, archive') = quarantine_unreadable_to f e k archive in
        ((r ≡ ok none) × (archive' ≡ some k)) ⊎ ((r ≡ err e) × (live ≡ some k))
  unfolding quarantine_unreadable_to archive_aside
  quarantine_keeps f e k archive = ground arith

  -- What a start makes of the file: a trade that it stays the text of; no trade, with the text in
  -- the archive; or an error, with the text where it was.
  abbrev pub Recovers : K → Loaded → Type 0
  Recovers k (ok (some s), live, archive) = (sd.from_str k ≡ some s) × (live ≡ some k)
  Recovers k (ok none, live, archive) = archive ≡ some k
  Recovers k (err e, live, archive) = live ≡ some k

  quarantine-Recovers :
      (k : K) (x : Loaded) (e : IoError)
      → ((x.0 ≡ ok none) × (x.2 ≡ some k)) ⊎ ((x.0 ≡ err e) × (x.1 ≡ some k))
      → Recovers k x
  quarantine-Recovers k (r, live, archive) e (inl (h, a)) = rw h a
  quarantine-Recovers k (r, live, archive) e (inr (h, l)) = rw h l

  parse-Recovers :
      (f : LoadFaults K) (k : K) (archive : Option K) (p : Option TradeState)
      → sd.from_str k ≡ p
      → Recovers k (parse f k archive p)
  unfolding parse
  parse-Recovers f k archive (some s) h = (h, refl)
  parse-Recovers f k archive none h =
      quarantine-Recovers k _ invalid_data (quarantine_keeps f invalid_data k archive)

  -- The evidence of an interrupted trade survives every start: the file is read as it stands, or
  -- moved to the archive whole, or left where it is with an error.
  pub load_persisted_from-Recovers :
      (f : LoadFaults K) (k : K) (archive : Option K)
      → Recovers k (load_persisted_from f (some k) archive)
  unfolding load_persisted_from
  load_persisted_from-Recovers f k archive =
      if_split (Recovers k) f.readable (λ _. parse-Recovers f k archive (sd.from_str k) refl)
        (λ _. quarantine-Recovers k _ other (quarantine_keeps f other k archive))
