-- ===== src/ItemNames.antt =====
-- src/types/item_id.rs: the normal form of an item's identifier. A text is its characters; `len`
-- counts the bytes of its UTF-8, and a character with an ASCII code is one byte.
pub mod Canonical
use Prim.Native.Char.{Char, code}
use Prim.Native.String.{[], ◌∷◌, len, char_at}
use cj_store.Prelude.{
  ℕ, ◌-◌, Bool, true, false, not, ◌&&◌, ◌||◌, Option, none, some, String, Result, ok, err,
  if◌then◌else◌, ltb, leb, ◌==◌,
}
use cj_store.Types.{ItemId}

abbrev pub max_len : ℕ
max_len = 64

-- `char::is_ascii_lowercase` and its like
abbrev pub is_between : Char → ℕ → ℕ → Bool
is_between c lo hi = leb lo (code c) && leb (code c) hi

abbrev pub is_ascii_lowercase : Char → Bool
is_ascii_lowercase c = is_between c 97 122

abbrev pub is_ascii_uppercase : Char → Bool
is_ascii_uppercase c = is_between c 65 90

abbrev pub is_ascii_digit : Char → Bool
is_ascii_digit c = is_between c 48 57

abbrev pub is_underscore : Char → Bool
is_underscore c = code c == 95

abbrev pub is_allowed : Char → Bool
is_allowed c = is_ascii_lowercase c || is_ascii_uppercase c || is_ascii_digit c || is_underscore c

abbrev pub is_lower_allowed : Char → Bool
is_lower_allowed c = is_ascii_lowercase c || is_ascii_digit c || is_underscore c

unfoldable pub all : (Char → Bool) → String → Bool
all p [] = true
all p (c ∷ s) = p c && all p s

-- `str::strip_prefix`
unfoldable pub strip_prefix : String → String → Option String
strip_prefix [] s = some s
strip_prefix (p ∷ ps) [] = none
strip_prefix (p ∷ ps) (c ∷ s) =
    let rest = strip_prefix ps s in if code p == code c then rest else none

-- `str::to_ascii_lowercase`
abbrev pub lowercase_char : Char → Char
lowercase_char c =
    if is_ascii_uppercase c then char_at "abcdefghijklmnopqrstuvwxyz" (code c - 65) else c

unfoldable pub to_ascii_lowercase : String → String
to_ascii_lowercase [] = []
to_ascii_lowercase (c ∷ s) = lowercase_char c ∷ to_ascii_lowercase s

abbrev pub is_blank : String → Bool
is_blank [] = true
is_blank (_ ∷ _) = false

abbrev pub is_some : Option String → Bool
is_some none = false
is_some (some _) = true

abbrev pub or_else : Option String → String → String
or_else none s = s
or_else (some t) _ = t

unfoldable pub is_canonical : String → Bool
unfolding all strip_prefix
is_canonical s =
    not (is_blank s)
    && leb (len s) max_len
    && not (is_some (strip_prefix "minecraft:" s))
    && all is_lower_allowed s

-- `ItemId::new`
pub data ItemIdError : Type 0 where
  empty_id too_long forbidden_character : ItemIdError

abbrev pub normalized_id : String → Result ItemId ItemIdError
normalized_id s =
    if is_blank s
    then err empty_id
    else if ltb max_len (len s)
    then err too_long
    else if not (all is_allowed s)
    then err forbidden_character
    else ok (to_ascii_lowercase s)

unfoldable pub new : String → Result ItemId ItemIdError
unfolding all strip_prefix to_ascii_lowercase
new raw = normalized_id (or_else (strip_prefix "minecraft:" raw) raw)
