-- ===== src/Common/Text/Decimal.antt =====
-- What `decimal` writes: digits, as many as the size of the number needs, that `digits_value` reads
-- back.
use Prim.Native.Nat.{ℕ, zero, suc, ◌+◌, ◌-◌, ◌*◌, ◌/◌, ◌%◌, ◌≤◌, ◌<◌}
use mathlib.Core.Path.{◌≡◌, refl, sym, ◌∙◌, ap}
use mathlib.Core.Logic.{inl, inr}
use mathlib.Core.Bool.{Bool, true, ◌&&◌}
use mathlib.Core.Option.{some}
use mathlib.Core.List.{List, [], ◌∷◌, ◌++◌, append_assoc, append-nil}
use native.Mathlib.Omega.{arith}
use ssh_panel_vpn.Common.Tests.{ltb, Bool-cases}
use ssh_panel_vpn.Common.Lists.{length, every, length-append}
use ssh_panel_vpn.Common.Text.{Text, decimal, digits_from, digits_value, is_digit, zeros}

pub every-append :
    {A : Type 0} (p : A → Bool) (xs ys : List A) → every p (xs ++ ys) ≡ (every p xs && every p ys)
every-append p [] ys = refl
every-append p (x ∷ xs) ys = ground (arith, every-append p xs ys)

digits_value_digit :
    (acc d : ℕ) (s : Text)
    → d < 10
    → digits_value acc ((48 + d) ∷ s) ≡ digits_value (acc * 10 + d) s
unfolding digits_value
digits_value_digit acc d s below =
    let digit : is_digit (48 + d) ≡ true = ground arith in
    let value : 48 + d - 48 ≡ d = omega arith in rw (digit, value) refl

digits_value-digits_from :
    (fuel n : ℕ) (s : Text) → n < fuel → digits_value 0 (digits_from fuel n ++ s) ≡ digits_value n s
unfolding digits_from
digits_value-digits_from zero n s below = absurd (omega arith)
digits_value-digits_from (suc fuel) n s below = elim (Bool-cases (ltb n 10)) [
  | inl small ↦
      rw small (digits_value_digit 0 n s (ground arith) ∙ ap (λ m. digits_value m s) (omega arith))
  | inr large ↦
      let again = digits_value-digits_from fuel (n / 10) ((48 + n % 10) ∷ s) (ground arith) in
      let value : n / 10 * 10 + n % 10 ≡ n = omega arith in
      let digit = digits_value_digit (n / 10) (n % 10) s (omega arith) in
      rw (large, append_assoc (digits_from fuel (n / 10)) ((48 + n % 10) ∷ []) s)
        (again ∙ digit ∙ ap (λ m. digits_value m s) value)
]

digits_value-zeros : (k : ℕ) (s : Text) → digits_value 0 (zeros k ++ s) ≡ digits_value 0 s
unfolding zeros digits_value
digits_value-zeros zero s = refl
digits_value-zeros (suc k) s = digits_value-zeros k s

-- The zeros of a padded number do not change its value.
pub digits_value-padded : (k n : ℕ) → digits_value 0 (zeros k ++ decimal n) ≡ some n
unfolding decimal digits_value
digits_value-padded k n =
    digits_value-zeros k (digits_from (suc n) n)
    ∙ ap (digits_value 0) (sym (append-nil (digits_from (suc n) n)))
    ∙ digits_value-digits_from (suc n) n [] (omega arith)

every-digits_from : (fuel n : ℕ) → every is_digit (digits_from fuel n) ≡ true
unfolding digits_from
every-digits_from zero n = refl
every-digits_from (suc fuel) n = elim (Bool-cases (ltb n 10)) [
  | inl small ↦ rw small (ground arith)
  | inr large ↦
      rw
        (
          large,
          every-append is_digit (digits_from fuel (n / 10)) ((48 + n % 10) ∷ []),
          every-digits_from fuel (n / 10),
        )
        (ground arith)
]

every-zeros : (k : ℕ) → every is_digit (zeros k) ≡ true
unfolding zeros
every-zeros zero = refl
every-zeros (suc k) = every-zeros k

pub every-padded : (k n : ℕ) → every is_digit (zeros k ++ decimal n) ≡ true
unfolding decimal
every-padded k n =
    rw
      (
        every-append is_digit (zeros k) (digits_from (suc n) n),
        every-zeros k,
        every-digits_from (suc n) n,
      )
      refl

pub length-zeros : (k : ℕ) → length (zeros k) ≡ k
unfolding zeros
length-zeros zero = refl
length-zeros (suc k) = ap suc (length-zeros k)

length_one : (fuel n : ℕ) → n < 10 → length (digits_from fuel n) ≤ 1
unfolding digits_from
length_one zero n below = omega arith
length_one (suc fuel) n below = let small : ltb n 10 ≡ true = ground arith in rw small (omega arith)

length_more :
    (fuel n m : ℕ)
    → length (digits_from fuel (n / 10)) ≤ m
    → length (digits_from (suc fuel) n) ≤ suc m
unfolding digits_from
length_more fuel n m shorter = elim (Bool-cases (ltb n 10)) [
  | inl small ↦ rw small (omega arith)
  | inr large ↦
      rw large
        (omega (arith, length-append (digits_from fuel (n / 10)) ((48 + n % 10) ∷ []), shorter))
]

length_two : (fuel n : ℕ) → n < 100 → length (digits_from fuel n) ≤ 2
length_two zero n below = unfold digits_from in omega arith
length_two (suc fuel) n below = length_more fuel n 1 (length_one fuel (n / 10) (omega arith))

-- A number below 1000 has at most three digits.
pub length-decimal : (n : ℕ) → n < 1000 → length (decimal n) ≤ 3
unfolding decimal
length-decimal n below = length_more n n 2 (length_two n (n / 10) (omega arith))

-- At least one digit.
pub length-decimal_long : (n : ℕ) → 0 < length (decimal n)
unfolding decimal digits_from
length-decimal_long n = elim (Bool-cases (ltb n 10)) [
  | inl small ↦ rw small (omega arith)
  | inr large ↦
      rw large (omega (arith, length-append (digits_from n (n / 10)) ((48 + n % 10) ∷ [])))
]
