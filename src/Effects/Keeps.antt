-- ===== src/Effects/Keeps.antt =====
-- What an action keeps, whether it returns or raises: one rule for each way to build an action.
use mathlib.Core.Path.{subst₂}
use ssh_panel_vpn.Common.{ℕ, ◌≡◌, refl, sym, Bool, true, false, Option, none, some, if◌then◌else◌}
use ssh_panel_vpn.Models.{Db}
use ssh_panel_vpn.Effects.{
  Env, World, Exception, Result, ok, err, Act, pure, raise, gets, or_raise, ◌>>=◌, attempt, settle,
  continue, on_result, on_option, get_db, read_now, draw, new_uuid,
}

pub record Keeps {ℓ κ} {A : Type ℓ} (P : World → Type κ) (m : Act A) : Type (ℓ ⊔ κ) where
  pub at : (env : Env) (w : World) → P w → P (m env w).1

module _ {ℓ κ} {A : Type ℓ} {P : World → Type κ} where
  pub Keeps-pure : (a : A) → Keeps P (pure a)
  unfolding pure
  Keeps-pure a = record { at = λ env w h. h }

  pub Keeps-raise : (e : Exception) → Keeps P (raise {A = A} e)
  unfolding raise
  Keeps-raise e = record { at = λ env w h. h }

  pub Keeps-gets : (f : Env → World → A) → Keeps P (gets f)
  unfolding gets
  Keeps-gets f = record { at = λ env w h. h }

  pub Keeps-or_raise : (e : Exception) (o : Option A) → Keeps P (or_raise e o)
  unfolding or_raise
  Keeps-or_raise e none = record { at = λ env w h. h }
  Keeps-or_raise e (some a) = record { at = λ env w h. h }

  pub Keeps-settle : (r : Result A) → Keeps P (settle r)
  unfolding settle
  Keeps-settle r = record { at = λ env w h. h }

  pub Keeps-attempt : (m : Act A) → Keeps P m → Keeps P (attempt m)
  unfolding attempt
  Keeps-attempt m k = record { at = λ env w h. k.at env w h }

  pub Keeps-if :
      (test : Bool) (taken other : Act A)
      → Keeps P taken
      → Keeps P other
      → Keeps P (if test then taken else other)
  Keeps-if true taken other kept_taken kept_other = kept_taken
  Keeps-if false taken other kept_taken kept_other = kept_other

module _ {ℓ κ} {A B : Type ℓ} {P : World → Type κ} where
  Keeps-continue :
      (r : Result A) (f : A → Act B) → ((a : A) → Keeps P (f a)) → Keeps P (continue r f)
  Keeps-continue (ok a) f kf = record { at = (kf a).at }
  Keeps-continue (err e) f kf = record { at = λ env w h. h }

  pub Keeps-bind :
      (first : Act A) (rest : A → Act B)
      → Keeps P first
      → ((a : A) → Keeps P (rest a))
      → Keeps P (first >>= rest)
  unfolding ◌>>=◌
  Keeps-bind first rest kept_first kept_rest = record {
    at = λ env w h.
        let (r, w') = first env w in
        (Keeps-continue r rest kept_rest).at env w' (kept_first.at env w h);
  }

  -- What is read of the environment and the world, with all that is known of it.
  pub Keeps-gets_bind :
      (f : Env → World → A) (rest : A → Act B)
      → ((env : Env) (w : World) → Keeps P (rest (f env w)))
      → Keeps P (gets f >>= rest)
  unfolding gets ◌>>=◌
  Keeps-gets_bind f rest k = record { at = λ env w h. (k env w).at env w h }

  pub Keeps-on_result :
      (r : Result A) (f : A → Act B) (g : Exception → Act B)
      → ((a : A) → Keeps P (f a))
      → ((e : Exception) → Keeps P (g e))
      → Keeps P (on_result r f g)
  unfolding on_result
  Keeps-on_result (ok a) f g kf kg = kf a
  Keeps-on_result (err e) f g kf kg = kg e

  pub Keeps-on_option :
      (o : Option A) (n : Act B) (f : A → Act B)
      → Keeps P n
      → ((a : A) → Keeps P (f a))
      → Keeps P (on_option o n f)
  unfolding on_option
  Keeps-on_option none n f kn kf = kn
  Keeps-on_option (some a) n f kn kf = kf a

pub ruleset keeps_rules = (
  Keeps-pure, Keeps-raise, Keeps-gets, Keeps-or_raise, Keeps-settle, Keeps-attempt, Keeps-if,
  Keeps-bind, Keeps-on_result, Keeps-on_option,
)

-- What an action that only asks the outside, or moves the manager, leaves alone.
abbrev pub SameTables : Db → ℕ → World → Type 0
SameTables d n w = (w.db ≡ d) × (w.next_id ≡ n)

abbrev pub IsRemote : {A : Type 0} → Act A → Type 0
IsRemote m = (d : Db) (n : ℕ) → Keeps (SameTables d n) m

-- A property of the tables and the next id alone.
abbrev pub OnTables : (Db → ℕ → Type 0) → World → Type 0
OnTables P w = P w.db w.next_id

-- Such an action keeps whatever the tables and the next id determine.
pub IsRemote-Keeps :
    {A : Type 0} (P : Db → ℕ → Type 0) (m : Act A) → IsRemote m → Keeps (OnTables P) m
IsRemote-Keeps P m remote = record {
  at = λ env w h.
      let s = (remote w.db w.next_id).at env w (refl, refl) in subst₂ P (sym s.0) (sym s.1) h;
}

pub get_db-Keeps : {P : World → Type 0} → Keeps P get_db
unfolding get_db
get_db-Keeps = record { at = λ env w h. h }

pub read_now-IsRemote : IsRemote read_now
unfolding read_now
read_now-IsRemote d n = record { at = λ env w h. h }

pub draw-IsRemote : IsRemote draw
unfolding draw
draw-IsRemote d n = record { at = λ env w h. h }

pub new_uuid-IsRemote : IsRemote new_uuid
unfolding new_uuid
new_uuid-IsRemote d n = record { at = λ env w h. h }

pub ruleset remote_rules =
    (keeps_rules, get_db-Keeps, read_now-IsRemote, draw-IsRemote, new_uuid-IsRemote)
