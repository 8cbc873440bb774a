-- ===== src/Player.antt =====
-- src/store/handlers/player.rs: `handle_player_command`, the way of a whispered command to its
-- handler. The lookup of a uuid and the handlers are parameters; a failed lookup has no reason here.
pub mod Admitted
use Prim.Native.String.{[], ◌∷◌}
use cj_store.Prelude.{
  ℕ, Bool, true, false, not, ◌&&◌, Option, none, some, String, Result, ok, err, if◌then◌else◌,
}
use cj_store.Float.{Float}
use cj_store.Messages.{F64}
use cj_store.ItemNames.{to_ascii_lowercase}
use cj_store.Ledger.{User, lookup}
use cj_store.RateLimit.{RateLimiter, Throttled, check}
use cj_store.Shop.{Shop, Answer, send_message_to_player, ensure_user_exists}
use cj_store.Commands.{
  Command, buy, sell, add_item, remove_item, deposit, withdraw, price, balance, help, pay, items,
  queue, cancel, status, add_currency, remove_currency, Rejection, validate_username, parse_command,
}

unfoldable pub prefixed : String → String → String
prefixed [] s = s
prefixed (c ∷ p) s = c ∷ prefixed p s

-- A name that has been validated is ASCII.
abbrev pub name_rate_limit_key : String → String
name_rate_limit_key name = prefixed "n:" (to_ascii_lowercase name)

-- `utils::is_operator`
abbrev pub is_operator_user : Option (User F64) → Bool
is_operator_user none = false
is_operator_user (some u) = u.operator

unfoldable pub is_operator : String → Shop → Bool
unfolding lookup
is_operator uuid sh = is_operator_user (lookup uuid sh.users)

-- The commands that ask `ensure_operator` first.
unfoldable pub needs_operator : Command → Bool
needs_operator (add_item _ _) = true
needs_operator (remove_item _ _) = true
needs_operator (add_currency _ _) = true
needs_operator (remove_currency _ _) = true
needs_operator (buy _ _) = false
needs_operator (sell _ _) = false
needs_operator (deposit _) = false
needs_operator (withdraw _) = false
needs_operator (price _ _) = false
needs_operator (balance _) = false
needs_operator (help _) = false
needs_operator (pay _ _) = false
needs_operator (items _) = false
needs_operator (queue _) = false
needs_operator (cancel _) = false
needs_operator status = false

abbrev pub whisper_rate_limit_notice : Throttled → Shop → Answer
whisper_rate_limit_notice t sh = if t.should_whisper then send_message_to_player sh else (sh, ok tt)

module _ ⦃f : Float F64⦄ (parse_f64 : String → Option F64) (resolve : String → Option String)
    (handle : String → Command → Shop → Answer) where
  abbrev pub dispatched : String → Shop → Result Command Rejection → Answer
  dispatched uuid sh (err _) = send_message_to_player sh
  dispatched uuid sh (ok c) =
      if needs_operator c && not (is_operator uuid sh)
      then send_message_to_player sh
      else handle uuid c sh

  -- The second gate, by uuid.
  abbrev pub post_resolve :
      String → String → Shop → RateLimiter × Result (Unit {0}) Throttled → RateLimiter × Answer
  post_resolve uuid command sh (limiter, err t) = (limiter, whisper_rate_limit_notice t sh)
  post_resolve uuid command sh (limiter, ok _) =
      (limiter, dispatched uuid sh (parse_command parse_f64 command))

  abbrev pub resolved :
      String → String → ℕ → RateLimiter → Shop → Option String → RateLimiter × Answer
  resolved name command now limiter sh none = (limiter, send_message_to_player sh)
  resolved name command now limiter sh (some uuid) =
      post_resolve uuid command (ensure_user_exists name uuid sh)
        (check (prefixed "u:" uuid) now limiter)

  -- The first gate, by name, before the lookup.
  abbrev pub pre_resolve :
      String → String → ℕ → Shop → RateLimiter × Result (Unit {0}) Throttled → RateLimiter × Answer
  pre_resolve name command now sh (limiter, err t) = (limiter, whisper_rate_limit_notice t sh)
  pre_resolve name command now sh (limiter, ok _) =
      resolved name command now limiter sh (resolve name)

  abbrev pub validated :
      String
      → String
      → ℕ
      → ℕ
      → RateLimiter
      → Shop
      → Result (Unit {0}) Rejection
      → RateLimiter × Answer
  validated name command now later limiter sh (err _) = (limiter, (sh, ok tt))
  validated name command now later limiter sh (ok _) =
      pre_resolve name command later sh (check (name_rate_limit_key name) now limiter)

  unfoldable pub handle_player_command :
      String → String → ℕ → ℕ → RateLimiter → Shop → RateLimiter × Answer
  unfolding validate_username check to_ascii_lowercase prefixed ensure_user_exists
      send_message_to_player parse_command needs_operator is_operator
  handle_player_command name command now later limiter sh =
      validated name command now later limiter sh (validate_username name)
