-- ===== src/Services/Lifecycle/Extend.antt =====
-- What `extend_account` asks of the node: it never unlocks the user.
use ssh_panel_vpn.Common.{
  ℕ, ◌≡◌, refl, Bool, true, false, not, Option, none, some, ◌++◌, every, max, arith,
}
use ssh_panel_vpn.Common.Text.{Text, codes, starts_with}
use ssh_panel_vpn.Models.{Account, AccountStatus, Action, Db, Server}
use ssh_panel_vpn.Effects.{
  Env, World, Event, executed, Act, Manager, KeyClass, ◌>>=◌, ◌>>◌, pure, read_now, modify,
}
use ssh_panel_vpn.Effects.Keeps.{Keeps, Keeps-bind, Keeps-pure, keeps_rules, get_db-Keeps}
use ssh_panel_vpn.Effects.Outcome.{Outcome, Outcome-bind, Outcome-pure, Keeps-Outcome, ends_kept}
use ssh_panel_vpn.Database.{save_account, create_log, server_of}
use ssh_panel_vpn.Ssh.Connection.{exec_command, open_client, disconnect, with_ssh}
use ssh_panel_vpn.Ssh.Bracket.{connect-Keeps, run_within-Keeps, with_ssh_bracket}
use ssh_panel_vpn.Ssh.Quote.{q}
use ssh_panel_vpn.Ssh.Users.{set_expiry}
use ssh_panel_vpn.Services.Create.{add_days}
use ssh_panel_vpn.Services.Lifecycle.{extend, renew_remote, extend_account}

-- A command that begins with `usermod -U `, which unlocks a user.
abbrev pub is_unlock_command : Text → Bool
is_unlock_command c = elim (starts_with (codes "usermod -U ") c) [ none ↦ false | some _ ↦ true ]

abbrev pub is_unlock : Event → Bool
is_unlock (executed ssh c) = is_unlock_command c
is_unlock _ = false

-- No unlock command has been sent.
abbrev pub NoUnlock : World → Type 0
NoUnlock w = every (λ e. not (is_unlock e)) w.trace ≡ true

exec_command-NoUnlock :
    (ssh : Manager) (c : Text) → is_unlock_command c ≡ false → Keeps NoUnlock (exec_command ssh c)
unfolding exec_command
exec_command-NoUnlock ssh c h = record { at = λ env w p. ground arith }

open_client-NoUnlock : (ssh : Manager) (k : Option KeyClass) → Keeps NoUnlock (open_client ssh k)
unfolding open_client
open_client-NoUnlock ssh k = record { at = λ env w p. ground arith }

disconnect-NoUnlock : (ssh : Manager) → Keeps NoUnlock (disconnect ssh)
unfolding disconnect
disconnect-NoUnlock ssh = record { at = λ env w p. ground arith }

-- `chage -E` is no unlock command.
chage_no_unlock : (t : Text) → is_unlock_command (codes "chage -E " ++ t) ≡ false
unfolding codes starts_with
chage_no_unlock t = refl

set_expiry-NoUnlock : (ssh : Manager) (u d : Text) → Keeps NoUnlock (set_expiry ssh u d)
unfolding set_expiry
set_expiry-NoUnlock ssh u d =
    let c : Text = codes "chage -E " ++ (q d ++ (codes " " ++ q u)) in
    run_within-Keeps open_client-NoUnlock ssh c (exec_command-NoUnlock ssh c (chage_no_unlock _))

-- On an account whose status is not `expired`, `renew_remote` only sends the new date.
renew_remote-NoUnlock :
    (account : Account) (ssh : Manager)
    → account.status ≡ AccountStatus.active
    → Keeps NoUnlock (renew_remote account ssh)
unfolding renew_remote
renew_remote-NoUnlock account ssh h = rw h (search (keeps_rules, set_expiry-NoUnlock))

read_now-NoUnlock : Keeps NoUnlock read_now
unfolding read_now
read_now-NoUnlock = record { at = λ env w p. p }

modify-NoUnlock : (f : Db → Db) → Keeps NoUnlock (modify f)
unfolding modify
modify-NoUnlock f = record { at = λ env w p. p }

ruleset trace_rules = (keeps_rules, get_db-Keeps, read_now-NoUnlock, modify-NoUnlock)

save_account-NoUnlock : (i : ℕ) (f : Account → Account) → Keeps NoUnlock (save_account i f)
unfolding save_account
save_account-NoUnlock i f = search trace_rules depth 7

create_log-NoUnlock :
    (action : Action) (i : ℕ) (user : Option ℕ) (text : Text)
    → Keeps NoUnlock (create_log action i user text)
unfolding create_log
create_log-NoUnlock action i user text = search trace_rules

server_of-NoUnlock : (a : Account) → Keeps NoUnlock (server_of a)
unfolding server_of
server_of-NoUnlock a = search trace_rules

add_days-NoUnlock : (t n : ℕ) → Keeps NoUnlock (add_days t n)
unfolding add_days
add_days-NoUnlock t n = search trace_rules

-- The object that `extend` returns is active.
extend-Outcome :
    (env : Env) (account : Account) (days : ℕ)
    → Outcome env NoUnlock
        (extend account days)
        (λ a w. NoUnlock w × (a.status ≡ AccountStatus.active))
        NoUnlock
unfolding extend
extend-Outcome env account days = Outcome-bind (Keeps-Outcome read_now-NoUnlock) λ now.
    Outcome-bind (Keeps-Outcome (add_days-NoUnlock (max account.expire_date now) days)) λ date.
      Outcome-bind (Keeps-Outcome (save_account-NoUnlock account.id _))
        λ _. Outcome-pure _ (λ w h. (h, refl))

with_ssh-NoUnlock :
    (server : Server) (body : Manager → Act (Unit {0}))
    → ((ssh : Manager) → Keeps NoUnlock (body ssh))
    → Keeps NoUnlock (with_ssh server body)
with_ssh-NoUnlock =
    with_ssh_bracket {P = NoUnlock} {Q = NoUnlock} (λ w h. h) (connect-Keeps open_client-NoUnlock)
      (λ ssh env w h. (disconnect-NoUnlock ssh).at env w h) (λ ssh env w e f h. h)

-- What follows `extend` in `extend_account`.
after_extend : Account → ℕ → Option ℕ → Text → Act Account
after_extend extended i admin_user text = do
  server ← server_of extended
  with_ssh server (renew_remote extended)
  create_log Action.extend i admin_user text
  pure extended

after_extend-NoUnlock :
    (a : Account) (i : ℕ) (admin_user : Option ℕ) (text : Text)
    → a.status ≡ AccountStatus.active
    → Keeps NoUnlock (after_extend a i admin_user text)
unfolding after_extend
after_extend-NoUnlock a i admin_user text h = Keeps-bind _ _ (server_of-NoUnlock a) λ server.
    Keeps-bind _ _
      (with_ssh-NoUnlock server (renew_remote a) (λ ssh. renew_remote-NoUnlock a ssh h))
      λ _. Keeps-bind _ _ (create_log-NoUnlock Action.extend i admin_user text) λ _. Keeps-pure a

-- `extend_account` sends no command that unlocks a user, whatever the account's status was: its test
-- for an expired account reads the status that `extend` has just set to active.
pub extend_account-NoUnlock :
    (account : Account) (days : ℕ) (admin_user : Option ℕ) (env : Env) (w : World)
    → NoUnlock w
    → NoUnlock (extend_account account days admin_user env w).1
unfolding extend_account after_extend
extend_account-NoUnlock account days admin_user env w h =
    ends_kept NoUnlock (extend_account account days admin_user env w) (
      (Outcome-bind (extend-Outcome env account days) λ a. record {
        at = λ w' h'.
            (Keeps-Outcome (after_extend-NoUnlock a account.id admin_user _ h'.1)).at w' h'.0;
      }).at
        w h)
