-- ===== src/Ledger/Users.antt =====
-- src/types/user.rs: the shape of a user's identifier.
use Prim.Native.Char.{Char, code}
use Prim.Native.String.{[], ◌∷◌, len}
use cj_store.Prelude.{ℕ, ◌+◌, Bool, true, false, ◌&&◌, ◌||◌, String, if◌then◌else◌, str_eq, ◌==◌}
use cj_store.ItemNames.{is_ascii_digit, is_between, all}

-- A lower-case hexadecimal digit.
abbrev pub is_hex : Char → Bool
is_hex c = is_ascii_digit c || is_between c 97 102

unfoldable pub hyphenated_from : ℕ → String → Bool
hyphenated_from i [] = true
hyphenated_from i (c ∷ s) =
    (if i == 8 || i == 13 || i == 18 || i == 23 then code c == 45 else is_hex c)
    && hyphenated_from (i + 1) s

unfoldable pub is_valid_uuid_shape : String → Bool
unfolding all hyphenated_from
is_valid_uuid_shape uuid =
    if str_eq uuid "00000000-0000-0000-0000-000000000000"
      || str_eq uuid "00000000000000000000000000000000"
    then false
    else if len uuid == 32
    then all is_hex uuid
    else if len uuid == 36
    then hyphenated_from 0 uuid
    else false
