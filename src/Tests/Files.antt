-- ===== src/Tests/Files.antt =====
-- Writes and archives of src/fsutil.rs.
use cj_store.Prelude.{ℕ, ◌≡◌, ◌⊎◌, refl, false, Bool, none, some, err, ltb}
use cj_store.Fsutil.{Faults, other, write_atomic, write_atomic_err}
use cj_store.Tests.Fixtures.{works, fails_late, alone}

-- The rename fails and the fallback copy succeeds.
abbrev falls_back : Faults ℕ
falls_back = record (works 0) { renamed = false }

fails : (write_atomic {C = ℕ} (fails_late 0) 8 (alone (some 7))).1 ≡ err other
unfolding write_atomic
fails = refl

write_atomic_err_example :
    let s' = (write_atomic {C = ℕ} (fails_late 0) 8 (alone (some 7))).0 in
    (s'.live ≡ some 7) ⊎ ((s'.live ≡ none) × (s'.bak ≡ some 7) × (s'.recovery ≡ some 8))
write_atomic_err_example =
    write_atomic_err {C = ℕ} (fails_late 0) 8 (alone (some 7)) {e = other} fails

-- The first three names are taken.
abbrev three_taken : ℕ → Bool
three_taken n = ltb n 3
