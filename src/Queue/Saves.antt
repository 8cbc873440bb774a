-- ===== src/Queue/Saves.antt =====
-- What a save of the queue leaves on the disk.
use cj_store.Prelude.{◌≡◌, ◌⊎◌, inl, inr, none, some, ok, err, Option-cases, refl}
use cj_store.Serde.{Serde}
use cj_store.Fsutil.{Siblings, Faults, IoError, write_atomic_ok, write_atomic_err}
use cj_store.Queue.{OrderQueue, QueuePersist, persisted, save_persist, save_to}

-- The old contents are where they were, or at `.bak` with the path left free.
abbrev pub Kept : {C : Type 0} → Siblings C → Siblings C → Type 0
Kept d d' = (d'.live ≡ d.live) ⊎ ((d'.live ≡ none) × (d'.bak ≡ d.live))

module _ {J : Type 0} (sd : Serde J QueuePersist) where
  -- The file holds the text of the queue.
  abbrev pub Saved : OrderQueue → Siblings J → Type 0
  Saved q d = (j : J) × (sd.to_string (persisted q) ≡ some j) × (d.live ≡ some j)

  pub save_to_ok :
      (f : Faults J) (q : OrderQueue) (d : Siblings J)
      → (save_to sd f q d).1 ≡ ok tt
      → Saved q (save_to sd f q d).0
  unfolding save_to
  save_to_ok f q d h = elim (Option-cases (sd.to_string (persisted q))) [
    | inl e ↦ absurd (cc (rw (e, save_persist) at h))
    | inr (j, e) ↦ rw (e, save_persist) (j, refl, write_atomic_ok f j d (rw (e, save_persist) at h))
  ]

  pub save_to_err :
      (f : Faults J) (q : OrderQueue) (d : Siblings J) {x : IoError}
      → (save_to sd f q d).1 ≡ err x
      → Kept d (save_to sd f q d).0
  unfolding save_to
  save_to_err f q d h = elim (Option-cases (sd.to_string (persisted q))) [
    | inl e ↦ rw (e, save_persist) (inl refl)
    | inr (j, e) ↦
        rw (e, save_persist)
          (elim (write_atomic_err f j d (rw (e, save_persist) at h)) [
            | inl k ↦ inl k
            | inr (a, b, _) ↦ inr (a, b)
          ])
  ]
