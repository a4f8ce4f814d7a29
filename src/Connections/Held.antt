-- ===== src/Connections/Held.antt =====
-- How the connections that a trace opened and closed stand beside the client that is held.
use ssh_panel_vpn.Common.{
  ℕ, ◌+◌, ◌≡◌, refl, Bool, true, false, Option, [], ◌∷◌, arith, if◌then◌else◌, Bool-cases, inl, inr,
}
use ssh_panel_vpn.Common.Text.{Text}
use ssh_panel_vpn.Effects.{
  Env, World, Exception, Event, opened, closed, Trace, Result, ok, err, Manager, KeyClass, ◌>>=◌,
  pure,
}
use ssh_panel_vpn.Effects.Keeps.{Keeps}
use ssh_panel_vpn.Effects.Outcome.{Ends, Outcome, Outcome-bind, Keeps-Outcome}
use ssh_panel_vpn.Database.Permit.{Permit}
use ssh_panel_vpn.Database.Steady.{Steady}
use ssh_panel_vpn.Ssh.Bracket.{load_private_key-Keeps}
use ssh_panel_vpn.Ssh.Connection.{connect, disconnect, open_client, exec_command, load_private_key}

-- The connections that a trace leaves open.
abbrev pub opens : Event → ℕ
opens (opened m) = 1
opens _ = 0

abbrev pub closes : Event → ℕ
closes (closed m) = 1
closes _ = 0

abbrev pub total : (Event → ℕ) → Trace → ℕ
total f [] = 0
total f (e ∷ t) = f e + total f t

-- As many connections were closed as were opened.
abbrev pub IsTidy : World → Type 0
IsTidy w = total opens w.trace ≡ total closes w.trace

-- One more was opened while the manager holds a client.
abbrev pub IsHeld : World → Type 0
IsHeld w =
    total opens w.trace ≡ (if w.client then 1 + total closes w.trace else total closes w.trace)

pub IsHeld-Steady : (may : Permit) → Steady may IsHeld
IsHeld-Steady may = record {
  with_others = λ w d same stay h. h;
  restored = λ w w' h h'. h';
  inserted = λ w a adds active fits free h. h;
  updated = λ w i f writes h. h;
  relocated = λ w i server t moves free h. h;
  with_id = λ w n h. h;
  with_counts = λ w l h. h;
  with_event = λ w e q h. ground arith;
}

pub IsTidy-Steady : (may : Permit) → Steady may IsTidy
IsTidy-Steady may = record {
  with_others = λ w d same stay h. h;
  restored = λ w w' h h'. h';
  inserted = λ w a adds active fits free h. h;
  updated = λ w i f writes h. h;
  relocated = λ w i server t moves free h. h;
  with_id = λ w n h. h;
  with_counts = λ w l h. h;
  with_event = λ w e q h. ground arith;
}

pub exec_command-IsHeld : (ssh : Manager) (c : Text) → Keeps IsHeld (exec_command ssh c)
unfolding exec_command
exec_command-IsHeld ssh c = record { at = λ env w h. ground arith }

pub disconnect-IsTidy :
    (ssh : Manager) (env : Env) (w : World) → IsHeld w → IsTidy (disconnect ssh env w).1
unfolding disconnect
disconnect-IsTidy ssh env w h = ground arith

abbrev pub NoClient : World → Type 0
NoClient w = w.client ≡ false

abbrev Free : World → Type 0
Free w = IsHeld w × NoClient w

open_client-Outcome :
    (env : Env) (ssh : Manager) (k : Option KeyClass)
    → Outcome env Free (open_client ssh k) (λ _. IsHeld) Free
unfolding open_client
open_client-Outcome env ssh k = record {
  at = λ w h. elim (Bool-cases (env.connects w.trace ssh k)) [
    | inl connected ↦ rw connected (ground (arith, h.0, h.1))
    | inr failed ↦ rw failed (ground (arith, h.0, h.1))
  ];
}

-- The branch of `connect` with no client.
open_new-Ends :
    (ssh : Manager) (env : Env) (w : World)
    → Free w
    → Ends (λ _. IsHeld) Free ((load_private_key ssh.key_path >>= open_client ssh) env w)
open_new-Ends ssh env w h =
    (Outcome-bind (Keeps-Outcome (load_private_key-Keeps ssh.key_path))
        (open_client-Outcome env ssh)).at
      w h

open_unless-Ends :
    (held : Bool) (ssh : Manager) (env : Env) (w : World)
    → w.client ≡ held
    → IsHeld w
    → Ends
        (λ _. IsHeld)
        Free
        ((if held then pure tt else load_private_key ssh.key_path >>= open_client ssh) env w)
unfolding pure
open_unless-Ends true ssh env w e h = h
open_unless-Ends false ssh env w e h = open_new-Ends ssh env w (h, e)

connect-Ends :
    (ssh : Manager) (env : Env) (w : World) → IsHeld w → Ends (λ _. IsHeld) Free (connect ssh env w)
unfolding connect ◌>>=◌
connect-Ends ssh env w h = open_unless-Ends w.client ssh env w refl h

Ends-IsHeld : (x : Result (Unit {0}) × World) → Ends (λ _. IsHeld) Free x → IsHeld x.1
Ends-IsHeld (ok _, w) h = h
Ends-IsHeld (err e, w) h = h.0

pub connect-IsHeld : (ssh : Manager) → Keeps IsHeld (connect ssh)
connect-IsHeld ssh = record {
  at = λ env w h. Ends-IsHeld (connect ssh env w) (connect-Ends ssh env w h);
}

-- A failed `connect` of a new manager holds no client.
open_failed-NoClient :
    (env : Env) (ssh : Manager) (k : Option KeyClass)
    → Outcome env NoClient (open_client ssh k) (λ _ _. Unit) NoClient
unfolding open_client
open_failed-NoClient env ssh k = record {
  at = λ w h. elim (Bool-cases (env.connects w.trace ssh k)) [
    | inl connected ↦ rw connected tt
    | inr failed ↦ rw failed h
  ];
}

pub connect-NoClient :
    (ssh : Manager) (env : Env) (w : World)
    → Ends (λ _ _. Unit) NoClient (connect ssh env (record w { client = false }))
unfolding connect ◌>>=◌
connect-NoClient ssh env w =
    (Outcome-bind (Keeps-Outcome {P = NoClient} (load_private_key-Keeps ssh.key_path))
        (open_failed-NoClient env ssh)).at
      (record w { client = false }) refl

pub unopened-IsTidy :
    (e : Exception) (x : Result (Unit {0}) × World)
    → Ends (λ _ _. Unit) NoClient x
    → x.0 ≡ err e
    → IsHeld x.1
    → IsTidy x.1
unopened-IsTidy e (ok _, w) n h held = absurd (cc)
unopened-IsTidy e (err _, w) n h held = rw n at held
