-- ===== src/Serde.antt =====
-- The JSON library serde_json, which is not part of the repository: a pair of functions between a
-- type and its texts, and what the program relies on.
use cj_store.Prelude.{◌≡◌, Bool, true, Option, some}

pub record Serde (J A : Type 0) : Type 0 where
  pub to_string : A → Option J
  pub from_str : J → Option A

-- The values told by `exact` are read back as they were written. serde_json documents that of values
-- of integers, texts, lists, options and enums; of an `f64` it promises a best effort only, without
-- its feature `float_roundtrip`, and it writes a NaN as `null`. So `exact` holds at least of the
-- values without an `f64`, and a theorem with it says nothing of the others.
pub record IsFaithful {J A : Type 0} (s : Serde J A) (exact : A → Bool) : Type 0 where
  pub reads_back : (a : A) (j : J) → exact a ≡ true → s.to_string a ≡ some j → s.from_str j ≡ some a
