-- ===== src/Api/Accounts/Usernames.antt =====
-- The usernames that `bulk_create_accounts` makes from a prefix and a number.
use ssh_panel_vpn.Common.{
  ℕ, ◌-◌, ◌≤◌, ◌<◌, ◌≡◌, ◌≢◌, refl, sym, ap, ◌∙◌, true, [], ◌∷◌, ◌++◌, length, every, arith,
  length-append, and_true, some_eq,
}
use ssh_panel_vpn.Common.Text.{Text, decimal, zeros, digits_value, is_digit}
use ssh_panel_vpn.Common.Text.Decimal.{
  digits_value-padded, every-append, every-padded, length-decimal, length-zeros,
}
use mathlib.Core.List.{append_cancel_left}
use ssh_panel_vpn.Api.Serializers.{BulkRequest, bulk_is_valid, matches, is_username_char}
use ssh_panel_vpn.Services.Create.{bulk_username}

-- The digits behind a prefix.
abbrev number : ℕ → Text
number i = zeros (3 - length (decimal i)) ++ decimal i

-- Two accounts of one bulk creation never share a username: the digits behind the prefix read back
-- as the number.
pub bulk_username_distinct :
    (prefix : Text) (i j : ℕ) → i ≢ j → bulk_username prefix i ≢ bulk_username prefix j
unfolding bulk_username
bulk_username_distinct prefix i j differ same =
    let equal = append_cancel_left prefix (number i) (number j) same in
    differ (
      some_eq (
        sym (digits_value-padded (3 - length (decimal i)) i)
        ∙ ap (digits_value 0) equal
        ∙ digits_value-padded (3 - length (decimal j)) j))

every-is_username_char : (t : Text) → every is_digit t ≡ true → every is_username_char t ≡ true
every-is_username_char [] h = refl
every-is_username_char (c ∷ t) h =
    let (digit, rest) = and_true (is_digit c) (every is_digit t) h in
    ground (arith, every-is_username_char t rest)

length-number : (i : ℕ) → i < 1000 → length (number i) ≡ 3
length-number i below =
    let padding = length-zeros (3 - length (decimal i)) in
    let total = length-append (zeros (3 - length (decimal i))) (decimal i) in
    let digits = length-decimal i below in omega arith

-- A prefix of up to 26 characters and up to three more is a username.
matches-append :
    (prefix digits : Text)
    → matches 1 25 prefix ≡ true
    → every is_digit digits ≡ true
    → length digits ≡ 3
    → matches 2 31 (prefix ++ digits) ≡ true
unfolding matches
matches-append [] digits h d three = cc
matches-append (c ∷ s) digits h d three =
    let total = length-append s digits in
    let split = every-append is_username_char s digits in
    let chars = every-is_username_char digits d in ground arith

-- A bulk request that is accepted makes only usernames that the form for one account accepts: after
-- the prefix stands the number in three digits, and the whole has a valid first character, valid
-- others, and at most 32 of them.
pub bulk_username-matches :
    (request : BulkRequest)
    → bulk_is_valid request ≡ true
    → (i : ℕ) → i ≤ request.count
    → matches 2 31 (bulk_username request.prefix i) ≡ true
unfolding bulk_is_valid bulk_username
bulk_username-matches request valid i below =
    let (prefix, count) = and_true (matches 1 25 request.prefix) _ valid in
    let small : i < 1000 = ground arith in
    matches-append request.prefix (number i) prefix (every-padded (3 - length (decimal i)) i)
      (length-number i small)
