-- ===== src/Effects/Outcome.antt =====
-- How a call ends: what holds after it returned, and what holds after it raised.
use ssh_panel_vpn.Common.{◌≡◌, refl, Bool, true, false, if◌then◌else◌}
use ssh_panel_vpn.Effects.{
  Env, World, Exception, Result, ok, err, Act, pure, raise, attempt, ◌>>=◌, continue,
}
use ssh_panel_vpn.Effects.Keeps.{Keeps}

-- `Q` of the result and the world after a return, `E` of the world after a raise.
abbrev pub Ends : {A : Type 0} → (A → World → Type 0) → (World → Type 0) → Result A × World → Type 0
Ends Q E (ok a, w) = Q a w
Ends Q E (err e, w) = E w

pub record Outcome (env : Env) {A : Type 0} (P : World → Type 0) (m : Act A)
    (Q : A → World → Type 0) (E : World → Type 0) : Type 0 where
  pub at : (w : World) → P w → Ends Q E (m env w)

module _ {env : Env} {A : Type 0} {P : World → Type 0} {Q : A → World → Type 0}
    {E : World → Type 0} where
  pub Outcome-pure : (a : A) → ((w : World) → P w → Q a w) → Outcome env P (pure a) Q E
  unfolding pure
  Outcome-pure a h = record { at = λ w p. h w p }

  pub Outcome-raise : (e : Exception) → ((w : World) → P w → E w) → Outcome env P (raise e) Q E
  unfolding raise
  Outcome-raise e h = record { at = λ w p. h w p }

  pub Outcome-if :
      (b : Bool) (m n : Act A)
      → (b ≡ true → Outcome env P m Q E)
      → (b ≡ false → Outcome env P n Q E)
      → Outcome env P (if b then m else n) Q E
  Outcome-if true m n hm hn = hm refl
  Outcome-if false m n hm hn = hn refl

kept-Ends :
    {A : Type 0} (P : World → Type 0) (r : Result A) (w : World) → P w → Ends (λ _. P) P (r, w)
kept-Ends P (ok a) w p = p
kept-Ends P (err e) w p = p

pub Keeps-Outcome :
    {env : Env} {A : Type 0} {P : World → Type 0} {m : Act A}
    → Keeps P m
    → Outcome env P m (λ _. P) P
Keeps-Outcome {env} {P} {m} k = record {
  at = λ w p. let (r, w') = m env w in kept-Ends P r w' (k.at env w p);
}

module _ {A B : Type 0} {R : A → World → Type 0} {Q : B → World → Type 0} {E : World → Type 0} where
  continue-Ends :
      (r : Result A) (f : A → Act B) (env : Env) (w : World)
      → ((a : A) → Outcome env (R a) (f a) Q E)
      → Ends R E (r, w)
      → Ends Q E (continue r f env w)
  continue-Ends (ok a) f env w hf h = (hf a).at w h
  continue-Ends (err e) f env w hf h = h

  pub Outcome-bind :
      {env : Env} {P : World → Type 0} {m : Act A} {f : A → Act B}
      → Outcome env P m R E
      → ((a : A) → Outcome env (R a) (f a) Q E)
      → Outcome env P (m >>= f) Q E
  unfolding ◌>>=◌
  Outcome-bind {env} {P} {m} {f} hm hf = record {
    at = λ w p. let (r, w') = m env w in continue-Ends r f env w' hf (hm.at w p);
  }

pub Ends-weaken :
    {A : Type 0} {Q R : A → World → Type 0} {E F : World → Type 0}
    → ((a : A) (w : World) → Q a w → R a w)
    → ((w : World) → E w → F w)
    → (x : Result A × World) → Ends Q E x
    → Ends R F x
Ends-weaken f g (ok a, w) h = f a w h
Ends-weaken f g (err e, w) h = g w h

pub Outcome_weaken :
    {env : Env} {A : Type 0} {P : World → Type 0} {m : Act A} {Q R : A → World → Type 0}
    {E F : World → Type 0}
    → ((a : A) (w : World) → Q a w → R a w)
    → ((w : World) → E w → F w)
    → Outcome env P m Q E
    → Outcome env P m R F
Outcome_weaken {env} {m = m} f g o = record { at = λ w p. Ends-weaken f g (m env w) (o.at w p) }

pub ends_kept : {A : Type 0} (P : World → Type 0) (x : Result A × World) → Ends (λ _. P) P x → P x.1
ends_kept P (ok a, w) h = h
ends_kept P (err e, w) h = h

-- A fact about the value that a call returned, for the rest of the block.
pub Outcome_bind_fact :
    {A B : Type 0} {P : World → Type 0} {R : World → Type 0} {Q : B → World → Type 0}
    {E : World → Type 0} {env : Env} {m : Act A} {f : A → Act B} (F : A → Type 0)
    → Outcome env P m (λ a w. F a × R w) E
    → ((a : A) → F a → Outcome env R (f a) Q E)
    → Outcome env P (m >>= f) Q E
Outcome_bind_fact F o rest = Outcome-bind o (λ a. record { at = λ w h. (rest a h.0).at w h.1 })

-- A call that keeps `P`, in a block where a raise says nothing.
pub Outcome_bind_kept :
    {A B : Type 0} {P : World → Type 0} {Q : B → World → Type 0} {env : Env} {m : Act A}
    {f : A → Act B}
    → Keeps P m
    → ((a : A) → Outcome env P (f a) Q (λ _. Unit))
    → Outcome env P (m >>= f) Q (λ _. Unit)
Outcome_bind_kept {P} k rest =
    Outcome-bind {R = λ _. P} (Outcome_weaken (λ a w h. h) (λ w h. tt) (Keeps-Outcome k)) rest

-- What `attempt` runs may raise, and `attempt` does not.
pub Outcome-attempt :
    {env : Env} {A : Type 0} {P E : World → Type 0} (m : Act A)
    → Keeps P m
    → Outcome env P (attempt m) (λ _. P) E
unfolding attempt
Outcome-attempt {env} m k = record { at = λ w h. k.at env w h }
