-- ===== src/Services/Create/Remote.antt =====
-- The parts of `create_account` that write no table.
use ssh_panel_vpn.Common.{ℕ, zero, suc, Option, none, some, [], ◌∷◌}
use ssh_panel_vpn.Common.Text.{Text}
use ssh_panel_vpn.Models.{Account, Server}
use ssh_panel_vpn.Effects.{Manager}
use ssh_panel_vpn.Effects.Keeps.{Keeps-bind, Keeps-pure, draw-IsRemote, remote_rules, IsRemote}
use ssh_panel_vpn.Ssh.Tables.{run-IsRemote, with_ssh-IsRemote, register_token-IsRemote}
use ssh_panel_vpn.Ssh.Kept.{
  create_user-Keeps, set_expiry-Keeps, set_max_logins-Keeps, setup_traffic_accounting-Keeps,
}
use ssh_panel_vpn.Services.Create.{password_or, provision_shadowlink, provision_ssh, provision}
use ssh_panel_vpn.Services.Create.Password.{draw_chars, generate_password}

draw_chars-IsRemote : (n : ℕ) → IsRemote (draw_chars n)
unfolding draw_chars
draw_chars-IsRemote zero d i = search remote_rules
draw_chars-IsRemote (suc n) d i =
    Keeps-bind _ _ (draw-IsRemote d i)
      (λ c. Keeps-bind _ _ (draw_chars-IsRemote n d i) (λ rest. Keeps-pure _))

pub generate_password-IsRemote : IsRemote generate_password
unfolding generate_password
generate_password-IsRemote = draw_chars-IsRemote 12

pub password_or-IsRemote : (o : Option Text) → IsRemote (password_or o)
unfolding password_or
password_or-IsRemote none d i = generate_password-IsRemote d i
password_or-IsRemote (some []) d i = generate_password-IsRemote d i
password_or-IsRemote (some (c ∷ s)) d i = Keeps-pure _

provision_shadowlink-IsRemote :
    (a : Account) (s : Server) (n : ℕ) → IsRemote (provision_shadowlink a s n)
unfolding provision_shadowlink
provision_shadowlink-IsRemote a s n d i = search (remote_rules, register_token-IsRemote) depth 6

provision_ssh-IsRemote : (a : Account) (p : Text) (ssh : Manager) → IsRemote (provision_ssh a p ssh)
unfolding provision_ssh
provision_ssh-IsRemote a p ssh d i =
    let r = λ (h : Manager) (c : Text). run-IsRemote h c d i in
    search
      (
        remote_rules,
        create_user-Keeps r,
        set_expiry-Keeps r,
        set_max_logins-Keeps r,
        setup_traffic_accounting-Keeps r,
      )
      depth 9

pub provision-IsRemote : (a : Account) (s : Server) (p : Text) → IsRemote (provision a s p)
unfolding provision
provision-IsRemote a s p d i =
    search (remote_rules, provision_shadowlink-IsRemote, with_ssh-IsRemote, provision_ssh-IsRemote)
      depth 6
