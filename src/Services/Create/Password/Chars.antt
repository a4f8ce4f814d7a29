-- ===== src/Services/Create/Password/Chars.antt =====
-- What `generate_password` draws.
use ssh_panel_vpn.Common.{
  and_true, ℕ, zero, suc, ◌%◌, ◌<◌, ◌≡◌, refl, ap, Bool, true, ◌&&◌, ◌||◌, [], ◌∷◌, ◌++◌, length,
  every, leb, arith,
}
use ssh_panel_vpn.Common.Text.{Text, is_digit}
use ssh_panel_vpn.Effects.{Env, World, draw}
use ssh_panel_vpn.Effects.Outcome.{Ends, Ends-weaken, Outcome, Outcome-bind, Outcome-pure}
use ssh_panel_vpn.Ssh.Quote.{q, escape_quotes}
use ssh_panel_vpn.Services.Create.Password.{choice, draw_chars, generate_password}

-- A letter or a digit of ASCII.
abbrev pub is_alphanumeric : ℕ → Bool
is_alphanumeric c = (leb 97 c && leb c 122) || (leb 65 c && leb c 90) || is_digit c

-- Every index under 62 passes a test, by evaluation.
each_index : (test : ℕ → Bool) → ℕ → Bool
each_index test zero = true
each_index test (suc bound) = each_index test bound && test bound

each_index_at :
    (test : ℕ → Bool) (bound : ℕ)
    → each_index test bound ≡ true
    → (i : ℕ) → i < bound
    → test i ≡ true
unfolding each_index
each_index_at test zero all i below = absurd (omega arith)
each_index_at test (suc bound) all i below =
    ground (arith, each_index_at test bound (and_true _ _ all).0 i)

choice_table : each_index (λ n. is_alphanumeric (choice n)) 62 ≡ true
unfolding each_index choice
choice_table = refl

choice_mod : (n : ℕ) → choice n ≡ choice (n % 62)
unfolding choice
choice_mod n = let e : n % 62 % 62 ≡ n % 62 = omega arith in rw e

choice_alphanumeric : (n : ℕ) → is_alphanumeric (choice n) ≡ true
choice_alphanumeric n =
    rw (choice_mod n)
      (each_index_at (λ k. is_alphanumeric (choice k)) 62 choice_table (n % 62) (omega arith))

-- `n` letters and digits.
abbrev pub IsPassword : ℕ → Text → Type 0
IsPassword n t = (length t ≡ n) × (every is_alphanumeric t ≡ true)

abbrev Anywhere : World → Type 0
Anywhere w = Unit

draw_chars-Outcome :
    (env : Env) (n : ℕ) → Outcome env Anywhere (draw_chars n) (λ t _. IsPassword n t) (λ _. ⊥)
unfolding draw_chars
draw_chars-Outcome env zero = Outcome-pure [] (λ w _. (refl, refl))
draw_chars-Outcome env (suc n) =
    Outcome-bind {R = λ _ _. Unit} (record { at = λ w _. unfold draw in tt })
      λ c.
        Outcome-bind {R = λ t _. IsPassword n t}
          (record { at = λ w _. (draw_chars-Outcome env n).at w tt })
          λ t. Outcome-pure (choice c ∷ t) (λ w h. ground (arith, choice_alphanumeric c))

escape_alphanumeric : (t : Text) → every is_alphanumeric t ≡ true → escape_quotes t ≡ t
unfolding escape_quotes
escape_alphanumeric [] h = refl
escape_alphanumeric (c ∷ t) h = ground (arith, escape_alphanumeric t)

-- `generate_password` always returns twelve letters and digits, so that `_q` only puts it between
-- quotes.
pub generate_password_plain :
    (env : Env) (w : World)
    → Ends (λ t _. IsPassword 12 t × (q t ≡ 39 ∷ t ++ 39 ∷ [])) (λ _. ⊥) (generate_password env w)
unfolding generate_password q
generate_password_plain env w =
    Ends-weaken (λ t w' h. (h, ap (λ s. 39 ∷ s ++ 39 ∷ []) (escape_alphanumeric t h.1))) (λ w' h. h)
      (draw_chars 12 env w) ((draw_chars-Outcome env 12).at w tt)
