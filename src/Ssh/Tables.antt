-- ===== src/Ssh/Tables.antt =====
-- No call of servers/ssh.py or of the bridge writes a table of the panel.
use ssh_panel_vpn.Common.{ℕ, ◌≡◌, Option, arith}
use ssh_panel_vpn.Common.Text.{Text}
use ssh_panel_vpn.Models.{Db, Server}
use ssh_panel_vpn.Effects.{Act, Manager, KeyClass}
use ssh_panel_vpn.Effects.Keeps.{Keeps, IsRemote, OnTables, IsRemote-Keeps}
use ssh_panel_vpn.Ssh.Bracket.{connect-Keeps, run_within-Keeps, with_ssh_bracket}
use ssh_panel_vpn.ShadowLink.{
  bridge_request, register_token, deregister_token, suspend_token, activate_token,
}
use ssh_panel_vpn.Ssh.Connection.{run, exec_command, open_client, disconnect, with_ssh}

exec_command-IsRemote : (ssh : Manager) (c : Text) → IsRemote (exec_command ssh c)
unfolding exec_command
exec_command-IsRemote ssh c d n = record { at = λ env w h. ground arith }

open_client-IsRemote : (ssh : Manager) (k : Option KeyClass) → IsRemote (open_client ssh k)
unfolding open_client
open_client-IsRemote ssh k d n = record { at = λ env w h. ground arith }

disconnect-IsRemote : (ssh : Manager) → IsRemote (disconnect ssh)
unfolding disconnect
disconnect-IsRemote ssh d n = record { at = λ env w h. ground arith }

pub run-IsRemote : (ssh : Manager) (c : Text) → IsRemote (run ssh c)
run-IsRemote ssh c d n =
    run_within-Keeps (λ h k. open_client-IsRemote h k d n) ssh c (exec_command-IsRemote ssh c d n)

-- A `with` keeps what its body keeps.
pub with_ssh-Keeps :
    {A : Type 0} (P : Db → ℕ → Type 0) (server : Server) (body : Manager → Act A)
    → ((ssh : Manager) → Keeps (OnTables P) (body ssh))
    → Keeps (OnTables P) (with_ssh server body)
with_ssh-Keeps P =
    with_ssh_bracket {P = OnTables P} {Q = OnTables P} (λ w h. h)
      (connect-Keeps (λ ssh k. IsRemote-Keeps P (open_client ssh k) (open_client-IsRemote ssh k)))
      (λ ssh env w h. (IsRemote-Keeps P (disconnect ssh) (disconnect-IsRemote ssh)).at env w h)
      (λ ssh env w e f h. h)

pub with_ssh-IsRemote :
    {A : Type 0} (server : Server) (body : Manager → Act A)
    → ((ssh : Manager) → IsRemote (body ssh))
    → IsRemote (with_ssh server body)
with_ssh-IsRemote server body kb d n =
    with_ssh-Keeps (λ d' n'. (d' ≡ d) × (n' ≡ n)) server body (λ ssh. kb ssh d n)

pub bridge_request-IsRemote :
    (server : Server) (m p : Text) (t : Option Text) (n : Option ℕ)
    → IsRemote (bridge_request server m p t n)
unfolding bridge_request
bridge_request-IsRemote server m p t n d i = record { at = λ env w h. h }

pub deregister_token-IsRemote : (server : Server) (t : Text) → IsRemote (deregister_token server t)
unfolding deregister_token
deregister_token-IsRemote server t = bridge_request-IsRemote server _ _ _ _

pub suspend_token-IsRemote : (server : Server) (t : Text) → IsRemote (suspend_token server t)
unfolding suspend_token
suspend_token-IsRemote server t = bridge_request-IsRemote server _ _ _ _

pub activate_token-IsRemote : (server : Server) (t : Text) → IsRemote (activate_token server t)
unfolding activate_token
activate_token-IsRemote server t = bridge_request-IsRemote server _ _ _ _

pub register_token-IsRemote :
    (server : Server) (t : Text) (n : ℕ) → IsRemote (register_token server t n)
unfolding register_token
register_token-IsRemote server t n = bridge_request-IsRemote server _ _ _ _
