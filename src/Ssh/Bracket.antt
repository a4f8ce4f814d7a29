-- ===== src/Ssh/Bracket.antt =====
-- What a `with get_ssh_manager(server) as ssh:` keeps: what the connection, the body and the closing
-- keep.
use ssh_panel_vpn.Common.{◌≡◌, refl, false, Option, [], ◌∷◌}
use ssh_panel_vpn.Common.Text.{Text}
use ssh_panel_vpn.Models.{Server}
use ssh_panel_vpn.Effects.{Env, World, Exception, Result, ok, err, Act, Manager, KeyClass}
use ssh_panel_vpn.Effects.Keeps.{Keeps, Keeps-bind, Keeps-gets, Keeps-if, Keeps-pure, keeps_rules}
use ssh_panel_vpn.Ssh.Connection.{
  run, exec_command, connect, open_client, load_private_key, disconnect, with_ssh, enter, leave,
  get_ssh_manager,
}

pub load_private_key-Keeps : {P : World → Type 0} (path : Text) → Keeps P (load_private_key path)
unfolding load_private_key
load_private_key-Keeps [] = search keeps_rules
load_private_key-Keeps (c ∷ path) = search keeps_rules

-- A command keeps what the connection and its own execution keep.
pub run_connected-Keeps :
    {P : World → Type 0}
    → ((ssh : Manager) → Keeps P (connect ssh))
    → (ssh : Manager) (c : Text) → Keeps P (exec_command ssh c)
    → Keeps P (run ssh c)
unfolding run
run_connected-Keeps connected ssh c k =
    Keeps-bind _ _ (Keeps-gets _)
      (λ held. Keeps-bind _ _ (Keeps-if held _ _ (Keeps-pure tt) (connected ssh)) (λ _. k))

module _ {P : World → Type 0}
    (open_client-Keeps : (ssh : Manager) (k : Option KeyClass) → Keeps P (open_client ssh k)) where
  pub connect-Keeps : (ssh : Manager) → Keeps P (connect ssh)
  unfolding connect
  connect-Keeps ssh = search (keeps_rules, load_private_key-Keeps, open_client-Keeps) depth 7

  pub run_within-Keeps :
      (ssh : Manager) (c : Text) → Keeps P (exec_command ssh c) → Keeps P (run ssh c)
  run_within-Keeps = run_connected-Keeps connect-Keeps

-- `P` holds while a client may be held, and `Q` outside: the two may be one.
module _ {P Q : World → Type 0} (start : (w : World) → Q w → P (record w { client = false }))
    (connected : (ssh : Manager) → Keeps P (connect ssh))
    (finish : (ssh : Manager) (env : Env) (w : World) → P w → Q (disconnect ssh env w).1)
    (unopened : (ssh : Manager) (env : Env) (w : World) (e : Exception)
      → (connect ssh env (record w { client = false })).0 ≡ err e
      → P (connect ssh env (record w { client = false })).1
      → Q (connect ssh env (record w { client = false })).1) where
  leave-Keeps :
      {A : Type 0} (ssh : Manager) (x : Result A × World) (env : Env)
      → P x.1
      → Q (leave ssh x env).1
  unfolding leave
  leave-Keeps ssh (r, w) env h = finish ssh env w h

  enter-Keeps :
      {A : Type 0} (ssh : Manager) (body : Manager → Act A) (r : Result (Unit {0})) (env : Env)
      (w : World)
      → ((ssh : Manager) → Keeps P (body ssh))
      → ((e : Exception) → r ≡ err e → P w → Q w)
      → P w
      → Q (enter ssh body r env w).1
  unfolding enter
  enter-Keeps ssh body (err e) env w kb hu h = hu e refl h
  enter-Keeps ssh body (ok _) env w kb hu h =
      leave-Keeps ssh (body ssh env w) env ((kb ssh).at env w h)

  pub with_ssh_bracket :
      {A : Type 0} (server : Server) (body : Manager → Act A)
      → ((ssh : Manager) → Keeps P (body ssh))
      → Keeps Q (with_ssh server body)
  unfolding with_ssh
  with_ssh_bracket server body kb = record {
    at = λ env w h.
        let ssh = get_ssh_manager server in
        let (r, w') = connect ssh env (record w { client = false }) in
        enter-Keeps ssh body r env w' kb (unopened ssh env w)
          ((connected ssh).at env (record w { client = false }) (start w h));
  }
