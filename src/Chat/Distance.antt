-- ===== src/Chat/Distance.antt =====
-- src/chat/conversation.rs: `levenshtein`, the distance of two texts as lists of bytes, by one row of
-- the table after another.
pub mod Least
use cj_store.Prelude.{
  ℕ, zero, suc, ◌+◌, ◌-◌, Bool, ◌&&◌, List, [], ◌∷◌, if◌then◌else◌, leb, ◌==◌, length, min,
}

abbrev lowercase_byte : ℕ → ℕ
lowercase_byte c = if leb 65 c && leb c 90 then c + 32 else c

-- `u8::eq_ignore_ascii_case`
unfoldable pub eq_ignore_ascii_case : ℕ → ℕ → Bool
eq_ignore_ascii_case a b = lowercase_byte a == lowercase_byte b

unfoldable pub cost : ℕ → ℕ → ℕ
unfolding eq_ignore_ascii_case
cost a b = if eq_ignore_ascii_case a b then 0 else 1

-- `from..=from + n`
unfoldable pub count_from : ℕ → ℕ → List ℕ
count_from from zero = from ∷ []
count_from from (suc n) = from ∷ count_from (from + 1) n

-- The row after `left`: `diag` and `up` are the next two entries of the row before.
unfoldable pub fill : ℕ → ℕ → List ℕ → List ℕ → List ℕ
unfolding cost
fill ca left (diag ∷ up ∷ prev) (cb ∷ bs) =
    let v = min (min (left + 1) (up + 1)) (diag + cost ca cb) in v ∷ fill ca v (up ∷ prev) bs
fill ca left (diag ∷ up ∷ prev) [] = []
fill ca left (diag ∷ []) bs = []
fill ca left [] bs = []

unfoldable pub next_row : ℕ → ℕ → List ℕ → List ℕ → List ℕ
unfolding fill
next_row ca first prev b = first ∷ fill ca first prev b

unfoldable pub rows : ℕ → List ℕ → List ℕ → List ℕ → List ℕ
unfolding next_row
rows i prev [] b = prev
rows i prev (ca ∷ a) b = rows (i + 1) (next_row ca (i + 1) prev b) a b

-- An index past the end, which there is not, would panic.
unfoldable pub entry : ℕ → List ℕ → ℕ
entry n [] = 0
entry zero (x ∷ xs) = x
entry (suc n) (x ∷ xs) = entry n xs

unfoldable pub levenshtein : List ℕ → List ℕ → ℕ
unfolding rows entry count_from
levenshtein [] b = length b
levenshtein (c ∷ a) [] = length (c ∷ a)
levenshtein (c ∷ a) (d ∷ b) =
    let n = length (d ∷ b) in entry n (rows 0 (count_from 0 n) (c ∷ a) (d ∷ b))
