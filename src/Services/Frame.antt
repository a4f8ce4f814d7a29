-- ===== src/Services/Frame.antt =====
-- What every service keeps of the connections: `P` while a client may be held, `Q` outside.
pub mod Lifecycle
pub mod Writes
use ssh_panel_vpn.Common.{ℕ, ◌≡◌, refl, true, zero, suc, Option, none, some, [], ◌∷◌}
use ssh_panel_vpn.Common.Text.{Text}
use ssh_panel_vpn.Models.{Account, Action, Plan, Server}
use ssh_panel_vpn.Effects.{
  World, Act, Manager, Exception, account_error, CommandResult, ◌>>◌, ◌>>=◌, pure, read_now,
}
use ssh_panel_vpn.Database.{create_account_row, create_log}
use ssh_panel_vpn.Effects.Keeps.{
  Keeps, Keeps-bind, Keeps-pure, Keeps-raise, Keeps-attempt, Keeps-on_result, keeps_rules,
  get_db-Keeps,
}
use ssh_panel_vpn.Database.Permit.{Permit}
use ssh_panel_vpn.Database.Steady.{
  Steady, read_now-Steady, draw-Steady, new_uuid-Steady, new_id-Steady, atomic-Steady,
  create_account_row-Steady, save_account-Steady, create_log-Steady, server_of-Steady,
  register_token-Steady, deregister_token-Steady, suspend_token-Steady, activate_token-Steady,
}
use ssh_panel_vpn.Ssh.Connection.{run, with_ssh}
use ssh_panel_vpn.Ssh.Users.{delete_user, lock_user, unlock_user}
use ssh_panel_vpn.Ssh.Kept.{
  create_user-Keeps, delete_user-Keeps, lock_user-Keeps, unlock_user-Keeps, set_expiry-Keeps,
  change_password-Keeps, set_max_logins-Keeps, setup_traffic_accounting-Keeps,
}
use ssh_panel_vpn.ShadowLink.{deregister_token, suspend_token, activate_token}
use ssh_panel_vpn.Services.Server.{pick_best_server, search_server}
use ssh_panel_vpn.Services.Create.{
  NewAccount, account_row, create_detail, password_or, add_days, provision_shadowlink,
  provision_ssh, provision, create_account_body, create_account, stop_or_raise, bulk_loop,
  bulk_create_accounts,
}
use ssh_panel_vpn.Services.Create.Password.{draw_chars, generate_password}
use ssh_panel_vpn.Services.Lifecycle.{
  remote_change, delete_account, suspend_account, activate_account, extend, renew_remote,
  extend_account, change_remote_password, reset_password,
}

-- What the connection layer owes to the services.
pub record Frame (may : Permit) (P Q : World → Type 0) : Type 1 where
  pub inside : Steady may P
  pub outside : Steady may Q
  pub run_inside : (ssh : Manager) (c : Text) → Keeps P (run ssh c)
  pub bracket :
      {A : Type 0} (server : Server) (body : Manager → Act A)
      → ((ssh : Manager) → Keeps P (body ssh))
      → Keeps Q (with_ssh server body)

pub draw_chars-Keeps :
    {may : Permit} {P : World → Type 0} → Steady may P → (n : ℕ) → Keeps P (draw_chars n)
unfolding draw_chars
draw_chars-Keeps steady zero = search keeps_rules
draw_chars-Keeps steady (suc n) =
    Keeps-bind _ _ (draw-Steady steady)
      (λ c. Keeps-bind _ _ (draw_chars-Keeps steady n) (λ rest. Keeps-pure _))

pub generate_password-Keeps :
    {may : Permit} {P : World → Type 0} → Steady may P → Keeps P generate_password
unfolding generate_password
generate_password-Keeps steady = draw_chars-Keeps steady 12

pub pick_best_server-Keeps : {P : World → Type 0} (o : Option Server) → Keeps P (pick_best_server o)
unfolding pick_best_server search_server
pick_best_server-Keeps none = search keeps_rules
pick_best_server-Keeps (some s) = search (keeps_rules, get_db-Keeps) depth 7

module _ {may : Permit} {P Q : World → Type 0} (frame : Frame may P Q) where
  password_or-Keeps : (o : Option Text) → Keeps Q (password_or o)
  unfolding password_or
  password_or-Keeps none = generate_password-Keeps frame.outside
  password_or-Keeps (some []) = generate_password-Keeps frame.outside
  password_or-Keeps (some (c ∷ s)) = Keeps-pure _

  pub add_days-Keeps : (t n : ℕ) → Keeps Q (add_days t n)
  unfolding add_days
  add_days-Keeps t n = search keeps_rules

  provision_shadowlink-Keeps :
      (a : Account) (s : Server) (n : ℕ) → Keeps Q (provision_shadowlink a s n)
  unfolding provision_shadowlink
  provision_shadowlink-Keeps a s n =
      search (keeps_rules, register_token-Steady frame.outside) depth 7

  provision_ssh-Keeps : (a : Account) (p : Text) (ssh : Manager) → Keeps P (provision_ssh a p ssh)
  unfolding provision_ssh
  provision_ssh-Keeps a p ssh =
      search
        (
          keeps_rules,
          create_user-Keeps frame.run_inside,
          set_expiry-Keeps frame.run_inside,
          set_max_logins-Keeps frame.run_inside,
          setup_traffic_accounting-Keeps frame.run_inside,
        )
        depth 9

  provision-Keeps : (a : Account) (s : Server) (p : Text) → Keeps Q (provision a s p)
  unfolding provision
  provision-Keeps a s p =
      search (keeps_rules, provision_shadowlink-Keeps, frame.bracket, provision_ssh-Keeps) depth 6

  -- The rest of `create_account_body` after the tokens were drawn.
  create_rows : NewAccount → Server → Text → ℕ → ℕ → ℕ → ℕ → Act Account
  create_rows args server password expire_date id access_token auth_token = do
    created_at ← read_now
    updated_at ← read_now
    account ← create_account_row (
        account_row args server password expire_date id access_token auth_token created_at
          updated_at)
    provision account server password
    create_log Action.create account.id args.admin_user (create_detail args server account)
    pure account

  module _ (adds : may.adds ≡ true) where
    create_rows-Keeps :
        (args : NewAccount) (server : Server) (password : Text) (expire_date id t u : ℕ)
        → Keeps Q (create_rows args server password expire_date id t u)
    unfolding create_rows account_row
    create_rows-Keeps args server password expire_date id t u =
        let S = frame.outside in
        Keeps-bind _ _ (read_now-Steady S) λ created_at.
          Keeps-bind _ _ (read_now-Steady S) λ updated_at.
            Keeps-bind _ _ (create_account_row-Steady S _ adds refl) λ account.
              Keeps-bind _ _ (provision-Keeps account server password)
                λ _. Keeps-bind _ _ (create_log-Steady S _ _ _ _) λ _. Keeps-pure account

    pub create_account-Keeps : (args : NewAccount) → Keeps Q (create_account args)
    unfolding create_account create_account_body create_rows
    create_account-Keeps args =
        let S = frame.outside in
        atomic-Steady S _ (
          Keeps-bind _ _ (pick_best_server-Keeps args.server) λ server.
            Keeps-bind _ _ (password_or-Keeps args.password) λ password.
              Keeps-bind _ _ (read_now-Steady S) λ now.
                Keeps-bind _ _ (add_days-Keeps now _) λ expire_date.
                  Keeps-bind _ _ (new_id-Steady S) λ id.
                    Keeps-bind _ _ (new_uuid-Steady S) λ access_token.
                      Keeps-bind _ _ (new_uuid-Steady S) λ auth_token.
                        create_rows-Keeps args server password expire_date id access_token
                          auth_token)

    stop_or_raise-Keeps : (e : Exception) → Keeps Q (stop_or_raise e)
    unfolding stop_or_raise
    stop_or_raise-Keeps (account_error t) = Keeps-pure []
    stop_or_raise-Keeps _ = Keeps-raise _

    bulk_loop-Keeps :
        (n i : ℕ) (prefix : Text) (plan : Plan) (server : Option Server) (user : Option ℕ)
        → Keeps Q (bulk_loop n i prefix plan server user)
    unfolding bulk_loop
    bulk_loop-Keeps zero i prefix plan server user = Keeps-pure _
    bulk_loop-Keeps (suc n) i prefix plan server user =
        Keeps-bind _ _ (Keeps-attempt _ (create_account-Keeps _)) (λ r.
          Keeps-on_result r _ _
            (λ acc.
              Keeps-bind _ _ (bulk_loop-Keeps n _ prefix plan server user) (λ rest. Keeps-pure _))
            stop_or_raise-Keeps)

    pub bulk_create_accounts-Keeps :
        (prefix : Text) (count : ℕ) (plan : Plan) (server : Option Server) (user : Option ℕ)
        → Keeps Q (bulk_create_accounts prefix count plan server user)
    unfolding bulk_create_accounts
    bulk_create_accounts-Keeps prefix count plan server user =
        bulk_loop-Keeps count 1 prefix plan server user
