-- ===== src/Ssh/Connection.antt =====
-- `SSHManager`: `connect`, `disconnect`, `__enter__`, `__exit__` and `run`. The manager's `_client` is
-- the `client` of the world: the program never holds two managers at once.
use ssh_panel_vpn.Common.{Bool, true, false, Option, none, some, List, [], ◌∷◌, ◌==◌, if◌then◌else◌}
use ssh_panel_vpn.Common.Text.{Text, strip}
use ssh_panel_vpn.Models.{Server}
use ssh_panel_vpn.Effects.{
  Env, World, Result, ok, err, Act, Manager, KeyClass, CommandResult, opened, refused, closed,
  executed, pure, raise, gets, ◌>>=◌, on_option, ◌>>◌, connection_failed, command_failed,
  key_unreadable,
}

-- `CommandResult.ok`
abbrev pub succeeded : CommandResult → Bool
succeeded r = r.exit_code == 0

-- `get_ssh_manager`
unfoldable pub get_ssh_manager : Server → Manager
get_ssh_manager server = record {
  host = server.ip_address;
  port = server.ssh_port;
  username = server.ssh_user;
  key_path = server.ssh_key_path;
}

-- The first of the classes whose constructor accepts the file.
unfoldable pub first_class : (KeyClass → Bool) → List KeyClass → Option KeyClass
first_class loads [] = none
first_class loads (k ∷ ks) = if loads k then some k else first_class loads ks

-- `_load_private_key(self.key_path) if self.key_path else None`
unfoldable pub load_private_key : Text → Act (Option KeyClass)
unfolding first_class
load_private_key [] = pure none
load_private_key (c ∷ path) = do
  found ← gets (λ env w.
      first_class (λ k. env.loads_key w.trace k (c ∷ path))
        (KeyClass.ed25519 ∷ KeyClass.rsa ∷ KeyClass.ecdsa ∷ []))
  on_option found (raise key_unreadable) (λ k. pure (some k))

-- `client.connect(...)` with the key
unfoldable pub open_client : Manager → Option KeyClass → Act (Unit {0})
open_client mgr key env w =
    if env.connects w.trace mgr key
    then (ok tt, record w { client = true; trace = opened mgr ∷ w.trace })
    else (err connection_failed, record w { trace = refused mgr ∷ w.trace })

-- `SSHManager.connect`
unfoldable pub connect : Manager → Act (Unit {0})
unfolding load_private_key open_client
connect mgr = do
  held ← gets (λ env w. w.client)
  if held then pure tt else (do key ← load_private_key mgr.key_path; open_client mgr key)

-- `SSHManager.disconnect`
unfoldable pub disconnect : Manager → Act (Unit {0})
disconnect mgr env w =
    if w.client
    then (ok tt, record w { client = false; trace = closed mgr ∷ w.trace })
    else (ok tt, w)

-- `exec_command` and the three reads of its channels, stripped
unfoldable pub exec_command : Manager → Text → Act CommandResult
unfolding strip
exec_command mgr command env w =
    let w' = record w { trace = executed mgr command ∷ w.trace } in
    elim (env.answers w.trace mgr command) [
      | none ↦ (err command_failed, w')
      | some r ↦ (ok (record r { stdout = strip r.stdout; stderr = strip r.stderr }), w')
    ]

-- `SSHManager.run`
unfoldable pub run : Manager → Text → Act CommandResult
run mgr command = do
  held ← gets (λ env w. w.client)
  if held then pure tt else connect mgr
  exec_command mgr command

-- `with get_ssh_manager(server) as ssh:` a manager with no client, `connect`, the body, and
-- `disconnect` whether the body returned or raised.

unfoldable pub leave : {A : Type 0} → Manager → Result A × World → Env → Result A × World
leave mgr (r, w) env = (r, (disconnect mgr env w).1)

unfoldable pub enter : {A : Type 0} → Manager → (Manager → Act A) → Result (Unit {0}) → Act A
enter mgr body (err e) env w = (err e, w)
enter mgr body (ok _) env w = leave mgr (body mgr env w) env

unfoldable pub with_ssh : {A : Type 0} → Server → (Manager → Act A) → Act A
unfolding enter leave get_ssh_manager
with_ssh server body env w =
    let mgr = get_ssh_manager server in
    let (r, w') = connect mgr env (record w { client = false }) in enter mgr body r env w'
