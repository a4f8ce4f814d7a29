-- ===== src/Setup/Command/Leak.antt =====
-- The connection test of `setup_server` on a node that answers with a failure.
use ssh_panel_vpn.Common.{◌+◌, ◌≡◌, refl, sym, Bool, true, false, some, ◌++◌, if◌then◌else◌}
use mathlib.Core.Path.{subst}
use ssh_panel_vpn.Common.Text.{Text, codes}
use ssh_panel_vpn.Models.{Server}
use ssh_panel_vpn.Effects.{
  Env, World, Trace, Manager, command_error, CommandResult, Exception, Result, ok, err, pure, raise,
  attempt, on_result, ◌>>=◌,
}
use ssh_panel_vpn.Effects.Outcome.{Ends, Ends-weaken, Outcome, Outcome-bind}
use ssh_panel_vpn.Ssh.Connection.{
  connect, disconnect, exec_command, get_ssh_manager, run, succeeded,
}
use ssh_panel_vpn.Ssh.Up.{IsUp, HasClient}
use ssh_panel_vpn.Ssh.Up.{connect-Up}
use ssh_panel_vpn.Connections.Held.{
  IsHeld, IsTidy, total, opens, closes, exec_command-IsHeld, connect-IsHeld,
}
use ssh_panel_vpn.Setup.Command.{new_manager, try_echo, test_connection}

-- Every command is answered with an exit code other than 0.
abbrev pub Refuses : Env → Type 0
Refuses env =
    (t : Trace) (m : Manager) (c : Text) (r : CommandResult)
    → env.answers t m c ≡ some r
    → succeeded r ≡ false

abbrev Open : World → Type 0
Open w = HasClient w × IsHeld w

Ends-and :
    {A : Type 0} (Q : A → World → Type 0) (P : World → Type 0) (x : Result A × World)
    → Ends Q (λ _. ⊥) x
    → P x.1
    → Ends (λ a w. Q a w × P w) (λ _. ⊥) x
Ends-and Q P (ok a, w) h p = (h, p)
Ends-and Q P (err e, w) h p = elim h [ ]

module _ {env : Env} (up : IsUp env) (refuses : Refuses env) where
  exec_command-Refused :
      (ssh : Manager) (c : Text) (w : World)
      → HasClient w
      → Ends (λ r v. (succeeded r ≡ false) × HasClient v) (λ _. ⊥) (exec_command ssh c env w)
  unfolding exec_command
  exec_command-Refused ssh c w h =
      let (r, e) = up.answers w.trace ssh c in rw (e, exec_command) (refuses w.trace ssh c r e, h)

  run-Refused :
      (ssh : Manager) (c : Text) (held : Bool) (w : World)
      → held ≡ true
      → Open w
      → Ends
          (λ r v. ((succeeded r ≡ false) × HasClient v) × IsHeld v)
          (λ _. ⊥)
          (((if held then pure tt else connect ssh) >>= λ _. exec_command ssh c) env w)
  unfolding ◌>>=◌
  run-Refused ssh c true w e h =
      Ends-and (λ r v. (succeeded r ≡ false) × HasClient v) IsHeld (exec_command ssh c env w)
        (exec_command-Refused ssh c w h.0) ((exec_command-IsHeld ssh c).at env w h.1)
  run-Refused ssh c false w e h = absurd (cc)

  connect-Open :
      (ssh : Manager) (w : World)
      → IsTidy w
      → Ends (λ _. Open) (λ _. ⊥) (connect ssh env (record w { client = false }))
  connect-Open ssh w h =
      Ends-and (λ _. HasClient) IsHeld (connect ssh env (record w { client = false }))
        (connect-Up up ssh w) ((connect-IsHeld ssh).at env (record w { client = false }) h)

  or_Open :
      {A : Type 0} (Q : A → World → Type 0) (x : Result A × World)
      → Ends Q (λ _. ⊥) x
      → Ends Q Open x
  or_Open Q x =
      Ends-weaken {Q = Q} {R = Q} {E = λ _. ⊥} {F = Open} (λ a v k. k) (λ v k. elim k [ ]) x

  run-Open :
      (ssh : Manager) (c : Text)
      → Outcome env Open (run ssh c) (λ r v. ((succeeded r ≡ false) × HasClient v) × IsHeld v) Open
  unfolding run ◌>>=◌
  run-Open ssh c = record {
    at = λ w h.
        or_Open (λ r v. ((succeeded r ≡ false) × HasClient v) × IsHeld v) _
          (run-Refused ssh c w.client w h.0 h);
  }

  -- After the connection was made.
  echo_refused :
      (ssh : Manager) (r : Unit {0})
      → Outcome env Open
          (do
            result ← run ssh (codes "echo ok")
            if succeeded result
                then disconnect ssh
                else raise (
                    command_error
                      (codes "SSH connected but test command failed: " ++ result.stderr)))
          (λ _ _. ⊥)
          Open
  echo_refused ssh r =
      Outcome-bind (run-Open ssh (codes "echo ok"))
        (λ result. record { at = λ w h. rw (h.0.0) (unfold raise in (h.0.1, h.1)) })

  try_echo-Open :
      (ssh : Manager) (w : World)
      → IsTidy w
      → Ends (λ _ _. ⊥) Open (try_echo ssh env (record w { client = false }))
  unfolding try_echo
  try_echo-Open ssh w h =
      (Outcome-bind {R = λ _. Open} {P = λ v. v ≡ record w { client = false }}
          (record {
            at = λ v e.
                subst (λ v'. Ends (λ _. Open) Open (connect ssh env v')) (sym e)
                  (or_Open (λ _. Open) _ (connect-Open ssh w h));
          })
          (echo_refused ssh)).at
        (record w { client = false }) refl

  -- The exception of the test is raised again under another message.
  raised_again :
      (message : Exception → Exception) (x : Result (Unit {0}) × World)
      → Ends (λ _ _. ⊥) Open x
      → Ends (λ _ _. ⊥) Open (on_result x.0 pure (λ e. raise (message e)) env x.1)
  unfolding on_result raise
  raised_again message (ok a, w) h = elim h [ ]
  raised_again message (err e, w) h = h

one-Open : (w : World) → Open w → total opens w.trace ≡ 1 + total closes w.trace
one-Open w (held, h) = rw held at h

-- Step 2 of `setup_server` leaks a connection: on a node that accepts the connection and answers every
-- command with an exit code other than 0, the test raises, and the connection that it opened is not
-- closed.
pub test_connection_leaks :
    (server : Server) (env : Env) (w : World)
    → IsUp env
    → Refuses env
    → IsTidy w
    → Ends
        (λ _ _. ⊥)
        (λ w'. total opens w'.trace ≡ 1 + total closes w'.trace)
        (test_connection server env w)
unfolding test_connection new_manager attempt ◌>>=◌
test_connection_leaks server env w up refuses h =
    Ends-weaken {A = Unit {0}} {Q = λ _ _. ⊥} {R = λ _ _. ⊥} {E = Open}
      {F = λ w'. total opens w'.trace ≡ 1 + total closes w'.trace} (λ a v k. k)
      (λ v k. one-Open v k) _
      (raised_again up refuses _ _ (try_echo-Open up refuses (get_ssh_manager server) w h))
