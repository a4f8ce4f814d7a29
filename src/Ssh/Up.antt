-- ===== src/Ssh/Up.antt =====
-- Nodes that answer: what returns when every key loads, every connection opens and every command is
-- answered.
use ssh_panel_vpn.Common.{◌≡◌, refl, Bool, true, false, if◌then◌else◌, Option, some, [], ◌∷◌}
use ssh_panel_vpn.Common.Text.{Text}
use ssh_panel_vpn.Models.{Server}
use ssh_panel_vpn.Effects.{
  Env, World, Act, Trace, Manager, KeyClass, CommandResult, Result, ok, err, pure, gets, on_option,
  ◌>>=◌,
}
use ssh_panel_vpn.Effects.Outcome.{Ends, Outcome, Outcome-bind}
use ssh_panel_vpn.Ssh.Connection.{
  load_private_key, open_client, connect, exec_command, run, with_ssh, enter, leave, first_class,
  get_ssh_manager,
}

pub record IsUp (env : Env) : Type 0 where
  pub loads : (t : Trace) (path : Text) → env.loads_key t KeyClass.ed25519 path ≡ true
  pub connects : (t : Trace) (m : Manager) (k : Option KeyClass) → env.connects t m k ≡ true
  pub answers :
      (t : Trace) (m : Manager) (c : Text) → (r : CommandResult) × (env.answers t m c ≡ some r)

-- A call that returns.
abbrev pub Returns : {A : Type 0} → Result A × World → Type 0
Returns {A} x = (a : A) × (x.0 ≡ ok a)

abbrev NoClient : World → Type 0
NoClient w = w.client ≡ false

abbrev pub HasClient : World → Type 0
HasClient w = w.client ≡ true

module _ {env : Env} (up : IsUp env) where
  load_private_key-Up :
      (path : Text) → Outcome env NoClient (load_private_key path) (λ _. NoClient) (λ _. ⊥)
  unfolding load_private_key first_class on_option pure gets ◌>>=◌
  load_private_key-Up [] = record { at = λ w h. h }
  load_private_key-Up (c ∷ path) = record { at = λ w h. rw (up.loads w.trace (c ∷ path)) h }

  open_client-Up :
      (ssh : Manager) (k : Option KeyClass)
      → Outcome env NoClient (open_client ssh k) (λ _. HasClient) (λ _. ⊥)
  unfolding open_client
  open_client-Up ssh k = record { at = λ w h. rw (up.connects w.trace ssh k) refl }

  pub connect-Up :
      (ssh : Manager) (w : World)
      → Ends (λ _. HasClient) (λ _. ⊥) (connect ssh env (record w { client = false }))
  unfolding connect ◌>>=◌
  connect-Up ssh w =
      (Outcome-bind (load_private_key-Up ssh.key_path) (open_client-Up ssh)).at
        (record w { client = false }) refl

  exec_command-Up : (ssh : Manager) (c : Text) (w : World) → Returns (exec_command ssh c env w)
  unfolding exec_command
  exec_command-Up ssh c w = let (r, e) = up.answers w.trace ssh c in rw (e, exec_command) (_, refl)

  run_held-Up :
      (ssh : Manager) (c : Text) (held : Bool) (w : World)
      → held ≡ true
      → Returns (((if held then pure tt else connect ssh) >>= λ _. exec_command ssh c) env w)
  unfolding ◌>>=◌
  run_held-Up ssh c true w e = exec_command-Up ssh c w
  run_held-Up ssh c false w e = absurd (cc)

  pub run-Up : (ssh : Manager) (c : Text) (w : World) → HasClient w → Returns (run ssh c env w)
  unfolding run ◌>>=◌
  run-Up ssh c w h = run_held-Up ssh c w.client w h

  enter-Up :
      {A : Type 0} (ssh : Manager) (body : Manager → Act A) (r : Result (Unit {0})) (w : World)
      → ((w : World) → HasClient w → Returns (body ssh env w))
      → Ends (λ _. HasClient) (λ _. ⊥) (r, w)
      → Returns (enter ssh body r env w)
  unfolding enter leave
  enter-Up ssh body (ok _) w b h = b w h
  enter-Up ssh body (err e) w b h = elim h [ ]

  -- A `with` whose body returns while a client is held.
  pub with_ssh-Up :
      {A : Type 0} (server : Server) (body : Manager → Act A)
      → ((ssh : Manager) (w : World) → HasClient w → Returns (body ssh env w))
      → (w : World) → Returns (with_ssh server body env w)
  unfolding with_ssh
  with_ssh-Up server body b w =
      let mgr = get_ssh_manager server in
      let (r, w') = connect mgr env (record w { client = false }) in
      enter-Up mgr body r w' (b mgr) (connect-Up mgr w)
