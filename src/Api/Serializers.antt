-- ===== src/Api/Serializers.antt =====
-- The input serializers of api/serializers.py: the checks on a parsed body, and the values that
-- `validated_data` holds. A text field is stripped before its checks. A number is an integer from 0
-- on: the fields whose minimum is not stated here have none in the source.
use ssh_panel_vpn.Common.{
  ℕ, Bool, true, false, not, ◌&&◌, ◌||◌, Option, none, some, [], ◌∷◌, every, length, leb, ◌==◌,
}
use ssh_panel_vpn.Common.Text.{Text, strip, is_digit, is_empty}

-- `[a-z_]` and `[a-z0-9_-]`
abbrev pub is_lower_or_underscore : ℕ → Bool
is_lower_or_underscore c = (leb 97 c && leb c 122) || c == 95

abbrev pub is_username_char : ℕ → Bool
is_username_char c = is_lower_or_underscore c || is_digit c || c == 45

-- `^[a-z_][a-z0-9_-]{lo,hi}$` of a text that ends in no line break
unfoldable pub matches : ℕ → ℕ → Text → Bool
matches lo hi [] = false
matches lo hi (c ∷ s) =
    is_lower_or_underscore c && every is_username_char s && leb lo (length s) && leb (length s) hi

abbrev pub in_range : ℕ → ℕ → Option ℕ → Bool
in_range lo hi none = true
in_range lo hi (some n) = leb lo n && leb n hi

-- A text field that may be left out, not blank, of a length at most `n`.
abbrev pub valid_text : ℕ → Option Text → Bool
valid_text n none = true
valid_text n (some t) = not (is_empty t) && leb (length t) n

abbrev strip_field : Option Text → Option Text
strip_field none = none
strip_field (some t) = some (strip t)

-- `CreateAccountSerializer`
pub record CreateRequest : Type 0 where
  pub username : Text
  pub plan_id : ℕ
  pub server_id : Option ℕ
  pub password : Option Text
  pub note : Option Text
  pub duration_days : Option ℕ
  pub bandwidth_limit_gb : Option ℕ
  pub max_connections : Option ℕ

unfoldable pub clean_create : CreateRequest → CreateRequest
unfolding strip
clean_create r = record r {
  username = strip r.username;
  password = strip_field r.password;
  note = strip_field r.note;
}

unfoldable pub create_is_valid : CreateRequest → Bool
unfolding matches
create_is_valid r =
    matches 2 31 r.username
    && valid_text 128 r.password
    && in_range 1 3650 r.duration_days
    && in_range 1 100 r.max_connections

-- `BulkCreateSerializer`
pub record BulkRequest : Type 0 where
  pub prefix : Text
  pub count : ℕ
  pub plan_id : ℕ
  pub server_id : Option ℕ

unfoldable pub bulk_is_valid : BulkRequest → Bool
unfolding matches
bulk_is_valid r = matches 1 25 r.prefix && in_range 1 500 (some r.count)

-- `AccountUpdateSerializer`
pub record UpdateRequest : Type 0 where
  pub expire_date : Option ℕ
  pub duration_days : Option ℕ
  pub bandwidth_limit_gb : Option ℕ
  pub max_connections : Option ℕ
  pub note : Option Text

unfoldable pub update_is_valid : UpdateRequest → Bool
update_is_valid r = in_range 1 3650 r.duration_days && in_range 1 100 r.max_connections

-- `PaymentWebhookSerializer`; the amount is in hundredths.
pub data PaymentStatus : Type 0 where
  paid failed pending : PaymentStatus

pub record Payment : Type 0 where
  pub order_id : Text
  pub username : Text
  pub plan_id : ℕ
  pub amount : ℕ
  pub status : PaymentStatus
  pub signature : Text

-- Of texts without the NUL character, which the fields refuse.
unfoldable pub payment_is_valid : Payment → Bool
payment_is_valid p =
    not (is_empty p.order_id)
    && not (is_empty p.username)
    && not (is_empty p.signature)
    && leb p.amount 9999999999
