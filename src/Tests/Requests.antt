-- ===== src/Tests/Requests.antt =====
-- Runs of a payment, of the parser of commands, and of a whispered command.
use mathlib.Core.Path.{subst}
use mathlib.Core.Option.{some-injective}
use cj_store.Prelude.{◌⊎◌, Option, some, String, ◌≡◌, true, refl, ok}
use cj_store.ItemNames.{all}
use cj_store.Messages.{F64}
use cj_store.Commands.{Command, parse_command}
use cj_store.RateLimit
use cj_store.Shop.{Shop, Answer}
use cj_store.Player.{handle_player_command}
use cj_store.Player.Admitted.{TurnedAway, Admitted, handle_player_command-End}
use cj_store.Commands.Checked.{OnOk, IsChecked, parse_command-IsChecked}
use cj_store.Ledger.Users.{is_valid_uuid_shape}
use cj_store.Pay.{pay_async}
use cj_store.Pay.Transfer.{PayEnd, pay_async-PayEnd}
use cj_store.Tests.Shops.{whole_diamonds, shop}

-- The identifier of every name.
abbrev steve_uuid : String
steve_uuid = "0123456789abcdef0123456789abcdef"

abbrev everyone_is_steve : String → Option String
everyone_is_steve name = some steve_uuid

steve_valid : is_valid_uuid_shape steve_uuid ≡ true
unfolding is_valid_uuid_shape all
steve_valid = refl

pay_async-PayEnd_example :
    PayEnd "alex-uuid"
      (everyone_is_steve "Steve")
      3
      shop
      (pay_async everyone_is_steve "Alex" "alex-uuid" "Steve" 3 shop)
pay_async-PayEnd_example =
    pay_async-PayEnd everyone_is_steve "Alex" "alex-uuid" "Steve" 3 shop (λ uuid e.
      subst (λ (u : String). is_valid_uuid_shape u ≡ true) (some-injective _ _ e) steve_valid)

abbrev parse_five : String → Option F64
parse_five s = some 5

parse_command-IsChecked_example : OnOk IsChecked (parse_command parse_five "pay Steve 5")
parse_command-IsChecked_example = parse_command-IsChecked parse_five "pay Steve 5"

-- A handler that does nothing.
abbrev idle : String → Command → Shop → Answer
idle uuid c sh = (sh, ok tt)

handle_player_command-End_example :
    TurnedAway parse_five everyone_is_steve idle "Steve" shop
      (handle_player_command parse_five everyone_is_steve idle "Steve" "status" 7 8 RateLimit.new
        shop).1
    ⊎ Admitted parse_five everyone_is_steve idle "Steve" "status" 7 8 RateLimit.new shop
        (handle_player_command parse_five everyone_is_steve idle "Steve" "status" 7 8 RateLimit.new
          shop).1
handle_player_command-End_example =
    handle_player_command-End parse_five everyone_is_steve idle "Steve" "status" 7 8 RateLimit.new
      shop
