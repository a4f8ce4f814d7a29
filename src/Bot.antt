-- ===== src/Bot.antt =====
-- bot/telegram_bot.py: the handlers of the commands. A handler returns the texts that it sends. The
-- handlers are coroutines that call Django's ORM directly: in an event loop Django refuses each query
-- by a `SynchronousOnlyOperation`, unless `DJANGO_ALLOW_ASYNC_UNSAFE` is set.
pub mod Run
pub mod Ledger
pub mod Refused
use ssh_panel_vpn.Common.{
  ℕ, ◌/◌, ◌%◌, ◌+◌, ◌-◌, ◌*◌, Bool, true, false, not, ◌&&◌, Option, none, some, List, [], ◌∷◌, ◌++◌,
  select, ◌==◌, if◌then◌else◌,
}
use ssh_panel_vpn.Common.Text.{Text, codes, concat, concat, decimal, strip, is_digit, text_eq}
use ssh_panel_vpn.Models.{Account, AccountStatus, Db, Integer, pos, neg, Plan, Server}
use ssh_panel_vpn.Models.Queries.{account_status_eq, find_plan}
use ssh_panel_vpn.Models.Time.{day, days_remaining, strftime_date}
use ssh_panel_vpn.Effects.{
  Act, Exception, err, account_error, synchronous_only_operation, pure, raise, gets, ◌>>=◌,
  on_option, on_result, attempt, get_db, read_now,
}
use ssh_panel_vpn.Database.{server_of}
use ssh_panel_vpn.Services.Create.{NewAccount, create_account}

-- A query in a coroutine.
unfoldable pub in_loop {ℓ} : {A : Type ℓ} → Act A → Act A
in_loop m env w = if env.async_unsafe then m env w else (err synchronous_only_operation, w)

-- `start`, and `help_cmd`, which calls it
unfoldable pub start : List Text
start =
    (codes "Welcome to SSH VPN Bot!\n\nCommands:\n/plans - View available plans\n"
      ++ (codes "/buy <plan_id> <username> - Purchase an account\n"
          ++ codes "/status <username> - Check account status\n/help - Show this message"))
    ∷ []

-- `int(text)` of ASCII text: blanks round it, a sign, and digits with single underscores between.
-- The digits after at least one digit; `true` says that an underscore came last.
unfoldable pub digits_after : Bool → ℕ → Text → Option ℕ
digits_after under n [] = if under then none else some n
digits_after under n (c ∷ s) =
    let more = digits_after false (n * 10 + (c - 48)) s in
    let skipped = digits_after true n s in
    if is_digit c then more else if c == 95 && not under then skipped else none

unfoldable pub unsigned : Text → Option ℕ
unfolding digits_after
unsigned [] = none
unsigned (c ∷ s) = if is_digit c then digits_after false (c - 48) s else none

abbrev with_sign : (ℕ → Integer) → Option ℕ → Option Integer
with_sign sign none = none
with_sign sign (some n) = some (sign n)

unfoldable pub signed_digits : Text → Option Integer
unfolding unsigned
signed_digits [] = none
signed_digits (c ∷ s) =
    if c == 45
    then with_sign neg (unsigned s)
    else if c == 43
    then with_sign pos (unsigned s)
    else with_sign pos (unsigned (c ∷ s))

unfoldable pub python_int : Text → Option Integer
unfolding signed_digits strip
python_int s = signed_digits (strip s)

unfoldable pub print_integer : Integer → Text
unfolding decimal
print_integer (pos n) = decimal n
print_integer (neg n) = if n == 0 then decimal 0 else 45 ∷ decimal n

-- `Plan.objects.get(pk=plan_id, is_active=True)`
abbrev active_plan : Option Plan → Option Plan
active_plan none = none
active_plan (some p) = if p.is_active then some p else none

unfoldable pub plan_by_integer : Integer → Db → Option Plan
unfolding find_plan
plan_by_integer (pos n) db = active_plan (find_plan n db.plans)
plan_by_integer (neg n) db = if n == 0 then active_plan (find_plan 0 db.plans) else none

-- `f"{date:%Y-%m-%d %H:%M UTC}"`
abbrev two_digits : ℕ → Text
two_digits n = (48 + n / 10) ∷ (48 + n % 10) ∷ []

abbrev minute : ℕ
minute = 60000000

unfoldable pub print_minute : ℕ → Text
unfolding strftime_date
print_minute t =
    strftime_date t
    ++ 32 ∷ two_digits (t % day / (60 * minute))
    ++ 58 ∷ two_digits (t / minute % 60)
    ++ codes " UTC"

-- `f"{price}"` of a price in hundredths
unfoldable pub print_price : ℕ → Text
unfolding decimal
print_price p = decimal (p / 100) ++ 46 ∷ two_digits (p % 100)

abbrev newline : Text
newline = 10 ∷ []

unfoldable pub plan_lines : Plan → Text
unfolding print_price decimal concat
plan_lines p = concat (
    codes "ID "
    ∷ decimal p.id
    ∷ codes ": "
    ∷ p.name
    ∷ codes "\n  Duration: "
    ∷ decimal p.duration_days
    ∷ codes " days\n  Price: "
    ∷ print_price p.price
    ∷ codes " "
    ∷ p.currency
    ∷ codes "\n  Max connections: "
    ∷ decimal p.max_connections
    ∷ codes "\n  Bandwidth: "
    ∷ (if p.bandwidth_limit_gb == 0
        then codes "Unlimited"
        else decimal p.bandwidth_limit_gb ++ codes " GB")
    ∷ newline
    ∷ [])

-- `"\n".join(lines)` behind a first line
unfoldable pub joined : List Plan → Text
unfolding plan_lines
joined [] = []
joined (p ∷ l) = newline ++ (plan_lines p ++ joined l)

abbrev offered : Plan → Bool
offered p = p.is_active

unfoldable pub list_plans : List Plan → List Text
unfolding joined
list_plans [] = codes "No plans available at the moment." ∷ []
list_plans (p ∷ l) = (codes "Available Plans:\n" ++ joined (p ∷ l)) ∷ []

-- `plans_cmd`
unfoldable pub plans_cmd : Act (List Text)
unfolding list_plans in_loop
plans_cmd = do db ← in_loop get_db; pure (list_plans (select offered db.plans))

abbrev pub say : Text → Act (List Text)
say t = pure (t ∷ [])

unfoldable pub order_args : Text → Plan → NewAccount
order_args username plan = record {
  username = username;
  plan = plan;
  server = none;
  password = none;
  admin_user = none;
  note = [];
  duration_days = none;
  bandwidth_limit_gb = none;
  max_connections = none;
  protocol_type = none;
}

unfoldable pub receipt : Server → Account → Text
unfolding print_minute decimal concat
receipt server account = concat (
    codes "Account created!\n\nHost: "
    ∷ server.ip_address
    ∷ codes "\nPort: "
    ∷ decimal server.ssh_port
    ∷ codes "\nUsername: "
    ∷ account.username
    ∷ codes "\nPassword: "
    ∷ account.password_display
    ∷ codes "\nExpires: "
    ∷ print_minute account.expire_date
    ∷ codes "\n\nSave this information "
    ∷ (8212 ∷ [])
    ∷ codes " password won't be shown again."
    ∷ [])

-- `except AccountError`: any other exception passes.
unfoldable pub order_failed : Exception → Act (List Text)
order_failed (account_error t) = say (codes "Error: " ++ t)
order_failed e = raise e

unfoldable pub place_order : Text → Plan → Act (List Text)
unfolding order_args order_failed receipt in_loop
place_order username plan = do
  r ← attempt (in_loop (create_account (order_args username plan)))
  on_result r (λ account. do server ← server_of account; say (receipt server account)) order_failed

unfoldable pub buy_plan : Text → Integer → Act (List Text)
unfolding print_integer plan_by_integer place_order in_loop
buy_plan username plan_id = do
  db ← in_loop get_db
  on_option (plan_by_integer plan_id db)
      (say (codes "Plan " ++ (print_integer plan_id ++ codes " not found."))) (place_order username)

-- `buy_cmd`, with `context.args`
unfoldable pub buy_cmd : List Text → Act (List Text)
unfolding buy_plan
buy_cmd [] = say (codes "Usage: /buy <plan_id> <username>")
buy_cmd (plan_id ∷ []) = say (codes "Usage: /buy <plan_id> <username>")
buy_cmd (plan_id ∷ name ∷ args) = do
  username ← gets (λ env w. strip (env.lower name))
  on_option (python_int plan_id) (say (codes "Invalid arguments. Usage: /buy <plan_id> <username>"))
      (buy_plan username)

-- `get_status_display()`
unfoldable pub status_label : AccountStatus → Text
status_label AccountStatus.active = codes "Active"
status_label AccountStatus.suspended = codes "Suspended"
status_label AccountStatus.expired = codes "Expired"
status_label AccountStatus.deleted = codes "Deleted"

unfoldable pub status_text : ℕ → Server → Account → Text
unfolding print_minute decimal days_remaining status_label concat
status_text now server acc = concat (
    codes "Account: "
    ∷ acc.username
    ∷ codes "\nServer: "
    ∷ server.ip_address
    ∷ codes ":"
    ∷ decimal server.ssh_port
    ∷ codes "\nStatus: "
    ∷ status_label acc.status
    ∷ codes "\nExpires: "
    ∷ print_minute acc.expire_date
    ∷ codes "\nDays remaining: "
    ∷ decimal (days_remaining now acc.expire_date)
    ∷ newline
    ∷ [])

-- One message for each account.
unfoldable pub status_messages : List Account → Act (List Text)
unfolding status_text
status_messages [] = pure []
status_messages (acc ∷ l) = do
  server ← server_of acc
  now ← read_now
  rest ← status_messages l
  pure (status_text now server acc ∷ rest)

abbrev pub named : Text → Account → Bool
named username a =
    text_eq a.username username && not (account_status_eq a.status AccountStatus.deleted)

unfoldable pub found_status : Text → List Account → Act (List Text)
unfolding status_messages
found_status username [] = say (codes "No account found for '" ++ (username ++ codes "'."))
found_status username (acc ∷ l) = status_messages (acc ∷ l)

-- `status_cmd`
unfoldable pub status_cmd : List Text → Act (List Text)
unfolding found_status in_loop
status_cmd [] = say (codes "Usage: /status <username>")
status_cmd (name ∷ args) = do
  username ← gets (λ env w. strip (env.lower name))
  db ← in_loop get_db
  found_status username (select (named username) db.accounts)
