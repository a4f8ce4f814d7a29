-- ===== src/Bot/Refused.antt =====
-- The handlers where Django refuses queries in an event loop.
use ssh_panel_vpn.Common.{
  ℕ, ◌+◌, ◌-◌, ◌*◌, ◌<◌, ◌≡◌, refl, ◌∙◌, ap, true, false, Option, none, some, List, [], ◌∷◌, every,
  length, ◌==◌, arith,
}
use ssh_panel_vpn.Common.Text.{
  Text, codes, decimal, digits_value, is_digit, is_space, lstrip, rstrip, strip, zeros,
}
use ssh_panel_vpn.Common.Text.Decimal.{digits_value-padded, every-padded, length-decimal_long}
use ssh_panel_vpn.Models.{Integer, pos}
use ssh_panel_vpn.Effects.{
  Env, World, Act, ok, err, synchronous_only_operation, pure, attempt, ◌>>=◌, gets, get_db,
  on_option,
}
use ssh_panel_vpn.Bot.Run.{
  Command, start_command, help_command, plans_command, buy_command, status_command, handle,
  converse,
}
use ssh_panel_vpn.Bot.{
  digits_after, unsigned, signed_digits, python_int, in_loop, say, plans_cmd, buy_plan, buy_cmd,
  status_cmd,
}

digit-is_space : (c : ℕ) → is_digit c ≡ true → is_space c ≡ false
unfolding is_space
digit-is_space c digit = ground (arith, digit)

lstrip-digits : (s : Text) → every is_digit s ≡ true → lstrip s ≡ s
unfolding lstrip
lstrip-digits [] digits = refl
lstrip-digits (c ∷ s) digits = rw (digit-is_space c (ground (arith, digits))) refl

rstrip-digits : (s : Text) → every is_digit s ≡ true → rstrip s ≡ s
unfolding rstrip
rstrip-digits [] digits = refl
rstrip-digits (c ∷ []) digits = rw (digit-is_space c (ground (arith, digits))) refl
rstrip-digits (c ∷ d ∷ s) digits = rw (rstrip-digits (d ∷ s) (ground (arith, digits))) refl

digits_after-digits :
    (n : ℕ) (s : Text) → every is_digit s ≡ true → digits_after false n s ≡ digits_value n s
unfolding digits_after digits_value
digits_after-digits n [] digits = refl
digits_after-digits n (c ∷ s) digits =
    let digit : is_digit c ≡ true = ground (arith, digits) in
    rw (digit, digits_after-digits (n * 10 + (c - 48)) s (ground (arith, digits))) refl

signed_digits-digits :
    (s : Text) (n : ℕ)
    → every is_digit s ≡ true
    → 0 < length s
    → digits_value 0 s ≡ some n
    → signed_digits s ≡ some (pos n)
unfolding signed_digits unsigned digits_value
signed_digits-digits [] n digits long value = absurd (omega (arith, long))
signed_digits-digits (c ∷ s) n digits long value =
    let digit : is_digit c ≡ true = ground (arith, digits) in
    let minus : (c == 45) ≡ false = ground (arith, digit) in
    let plus : (c == 43) ≡ false = ground (arith, digit) in
    let rest = digits_after-digits (c - 48) s (ground (arith, digits)) in
    let read : digits_value (0 + (c - 48)) s ≡ some n = rw digit at value in
    let same : digits_value (c - 48) s ≡ digits_value (0 + (c - 48)) s =
      ap (λ m. digits_value m s) (omega arith) in
    rw (minus, plus, digit, rest, same, read) refl

python_int-decimal : (n : ℕ) → python_int (decimal n) ≡ some (pos n)
unfolding python_int strip
python_int-decimal n =
    let digits : every is_digit (decimal n) ≡ true = unfold zeros in every-padded 0 n in
    let value : digits_value 0 (decimal n) ≡ some n = unfold zeros in digits_value-padded 0 n in
    ap (λ t. signed_digits (rstrip t)) (lstrip-digits (decimal n) digits)
    ∙ ap signed_digits (rstrip-digits (decimal n) digits)
    ∙ signed_digits-digits (decimal n) n digits (length-decimal_long n) value

-- Where the variable is not set, a query in a coroutine raises.
module _ (env : Env) (unsafe : env.async_unsafe ≡ false) where
  in_loop-err :
      {A : Type 0} (m : Act A) (w : World) → in_loop m env w ≡ (err synchronous_only_operation, w)
  unfolding in_loop
  in_loop-err m w = rw unsafe refl

  buy_plan-err :
      (username : Text) (i : Integer) (w : World)
      → buy_plan username i env w ≡ (err synchronous_only_operation, w)
  unfolding buy_plan ◌>>=◌
  buy_plan-err username i w = rw (in_loop-err get_db w) refl

  plans_cmd-err : (w : World) → plans_cmd env w ≡ (err synchronous_only_operation, w)
  unfolding plans_cmd ◌>>=◌
  plans_cmd-err w = rw (in_loop-err get_db w) refl

  status_cmd-err :
      (name : Text) (args : List Text) (w : World)
      → status_cmd (name ∷ args) env w ≡ (err synchronous_only_operation, w)
  unfolding status_cmd gets ◌>>=◌
  status_cmd-err name args w = rw (in_loop-err get_db w) refl

  buy_cmd-err :
      (n : ℕ) (name : Text) (args : List Text) (w : World)
      → buy_cmd (decimal n ∷ name ∷ args) env w ≡ (err synchronous_only_operation, w)
  unfolding buy_cmd gets on_option ◌>>=◌
  buy_cmd-err n name args w =
      rw (python_int-decimal n) (buy_plan-err (strip (env.lower name)) (pos n) w)

  -- No message touches anything.
  buy_cmd-still : (args : List Text) (w : World) → (buy_cmd args env w).1 ≡ w
  unfolding buy_cmd gets pure on_option ◌>>=◌
  buy_cmd-still [] w = refl
  buy_cmd-still (plan_id ∷ []) w = refl
  buy_cmd-still (plan_id ∷ name ∷ args) w = ordered (python_int plan_id)
    where
      ordered :
          (o : Option Integer)
          → (on_option o
              (say (codes "Invalid arguments. Usage: /buy <plan_id> <username>"))
              (buy_plan (strip (env.lower name)))
              env
              w).1
            ≡ w
      ordered none = refl
      ordered (some i) = ap (λ x. x.1) (buy_plan-err (strip (env.lower name)) i w)

  handle-still :
      (command : Command) (args : List Text) (w : World) → (handle command args env w).1 ≡ w
  unfolding handle status_cmd pure
  handle-still start_command args w = refl
  handle-still help_command args w = refl
  handle-still plans_command args w = ap (λ x. x.1) (plans_cmd-err w)
  handle-still buy_command args w = buy_cmd-still args w
  handle-still status_command [] w = refl
  handle-still status_command (name ∷ args) w = ap (λ x. x.1) (status_cmd-err name args w)

  converse-still :
      (messages : List (Command × List Text)) (w : World) → converse messages env w ≡ (ok tt, w)
  unfolding converse attempt pure ◌>>=◌
  converse-still [] w = refl
  converse-still ((command, args) ∷ messages) w =
      ap (λ v. converse messages env v) (handle-still command args w) ∙ converse-still messages w

-- Where `DJANGO_ALLOW_ASYNC_UNSAFE` is not set, the bot serves nobody: `/plans`, `/status` of any name
-- and `/buy` of any plan number and name each raise a `SynchronousOnlyOperation` in place of an answer,
-- and no sequence of messages, whatever their arguments, opens an account or changes anything else.
pub queries_refused :
    (env : Env)
    → env.async_unsafe ≡ false
    → (messages : List (Command × List Text)) (n : ℕ) (name : Text) (args : List Text) (w : World)
    → (handle plans_command args env w ≡ (err synchronous_only_operation, w))
      × (handle status_command (name ∷ args) env w ≡ (err synchronous_only_operation, w))
      × (handle buy_command (decimal n ∷ name ∷ args) env w ≡ (err synchronous_only_operation, w))
      × (converse messages env w ≡ (ok tt, w))
unfolding handle
queries_refused env unsafe messages n name args w = (
  plans_cmd-err env unsafe w,
  status_cmd-err env unsafe name args w,
  buy_cmd-err env unsafe n name args w,
  converse-still env unsafe messages w,
)
