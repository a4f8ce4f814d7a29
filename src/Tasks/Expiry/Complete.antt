-- ===== src/Tasks/Expiry/Complete.antt =====
-- Where the nodes answer, no due account is missed.
use ssh_panel_vpn.Common.{ℕ, ◌+◌, ◌≡◌, refl, true, not, List, [], ◌∷◌, select, every, length, arith}
use ssh_panel_vpn.Common.Text.{Text}
use ssh_panel_vpn.Models.{Account, AccountStatus, Server}
use ssh_panel_vpn.Effects.{
  Env, World, Act, Manager, Result, read_clock, ok, err, attempt, get_db, read_now, or_raise, ◌>>=◌,
}
use ssh_panel_vpn.Effects.Keeps.{OnTables, IsRemote-Keeps}
use ssh_panel_vpn.Effects.Outcome.{
  Ends, Outcome, Outcome-bind, Outcome-pure, Outcome_weaken, Outcome_bind_fact,
}
use ssh_panel_vpn.Database.{server_of}
use ssh_panel_vpn.Ssh.Connection.{with_ssh}
use ssh_panel_vpn.Ssh.Users.{lock_user}
use ssh_panel_vpn.Ssh.Kept.{lock_user-Keeps}
use ssh_panel_vpn.Ssh.Tables.{run-IsRemote, with_ssh-Keeps}
use ssh_panel_vpn.Ssh.Up.{IsUp, HasClient, Returns, run-Up, with_ssh-Up}
use ssh_panel_vpn.Tasks.Expiry.{past, count_rounds, expire_one, expire_users}
use ssh_panel_vpn.Tasks.Expiry.Pending.{
  Returns-Ends, Pending, save_expired-Ends, HasServers, select-Pending, Covered-every,
}

counted :
    (Q : World → Type 0) (x : Result (Unit {0}) × World)
    → Ends (λ _. Q) (λ _. ⊥) x
    → (x.0 ≡ ok tt) × Q x.1
counted Q (ok tt, w) h = (refl, h)
counted Q (err e, w) h = elim h [ ]

module _ {env : Env} (up : IsUp env) (now : ℕ) where
  abbrev StillDue : List Account → World → Type 0
  StillDue rest = OnTables (Pending (past AccountStatus.active now) rest)

  server_of-Up :
      (acc : Account) (rest : List Account)
      → Outcome env (StillDue (acc ∷ rest)) (server_of acc) (λ _. StillDue (acc ∷ rest)) (λ _. ⊥)
  unfolding server_of get_db or_raise ◌>>=◌
  server_of-Up acc rest = record { at = λ w h. rw (h.0.0.1.1) h }

  lock_user-Up :
      (username : Text) (ssh : Manager) (w : World)
      → HasClient w
      → Returns (lock_user ssh username env w)
  unfolding lock_user
  lock_user-Up username ssh w held = run-Up up ssh _ w held

  lock-Up :
      (acc : Account) (rest : List Account) (server : Server)
      → Outcome env
          (StillDue (acc ∷ rest))
          (with_ssh server (λ ssh. lock_user ssh acc.username))
          (λ _. StillDue (acc ∷ rest))
          (λ _. ⊥)
  lock-Up acc rest server = record {
    at = λ w h.
        Returns-Ends (StillDue (acc ∷ rest)) _
          (with_ssh-Up up server _ (λ ssh v held. lock_user-Up acc.username ssh v held) w)
          ((with_ssh-Keeps (Pending (past AccountStatus.active now) (acc ∷ rest)) server _ (λ ssh.
              lock_user-Keeps
                (λ m c.
                  IsRemote-Keeps (Pending (past AccountStatus.active now) (acc ∷ rest)) _
                    (run-IsRemote m c))
                ssh acc.username)).at
            env w h);
  }

  expire_one-Up :
      (acc : Account) (rest : List Account)
      → Outcome env (StillDue (acc ∷ rest)) (expire_one acc) (λ _. StillDue rest) (λ _. ⊥)
  unfolding expire_one
  expire_one-Up acc rest = Outcome-bind (server_of-Up acc rest) (λ server.
      Outcome-bind (lock-Up acc rest server)
        (λ _. record { at = λ w h. save_expired-Ends now acc rest env w h }))

  -- A round that returns is counted.
  attempt-Up :
      {P Q : World → Type 0} (m : Act (Unit {0}))
      → Outcome env P m (λ _. Q) (λ _. ⊥)
      → Outcome env P (attempt m) (λ r w. (r ≡ ok tt) × Q w) (λ _. ⊥)
  unfolding attempt
  attempt-Up {P} {Q} m o = record { at = λ w h. counted Q (m env w) (o.at w h) }

  expire_rounds-Up :
      (accounts : List Account) (n : ℕ)
      → Outcome env
          (StillDue accounts)
          (count_rounds expire_one accounts n)
          (λ c w. (c ≡ n + length accounts) × StillDue [] w)
          (λ _. ⊥)
  unfolding count_rounds
  expire_rounds-Up [] n = Outcome-pure n (λ w h. (omega arith, h))
  expire_rounds-Up (acc ∷ accounts) n =
      Outcome_bind_fact (λ r. r ≡ ok tt) (attempt-Up (expire_one acc) (expire_one-Up acc accounts))
        (λ r e. rw e (
          Outcome_weaken (λ c w h. (omega (arith, h.0), h.1)) (λ w h. h)
            (expire_rounds-Up accounts (n + 1))))

-- Where every node answers and each account's server is there, `expire_users` leaves no active
-- account whose expiry date is not after the time at which it ran, and returns how many there were.
pub expire_users_complete :
    (env : Env) (w : World)
    → IsUp env
    → HasServers w.db
    → Ends
        (λ count w'.
          (count ≡ length (select (past AccountStatus.active (env.now w.trace)) w.db.accounts))
          × (every (λ b. not (past AccountStatus.active (env.now w.trace) b)) w'.db.accounts
              ≡ true))
        (λ _. ⊥)
        (expire_users env w)
unfolding expire_users read_now get_db ◌>>=◌
expire_users_complete env w up servers =
    let due = past AccountStatus.active (env.now w.trace) in
    (Outcome_weaken
        {R = λ count w'.
          (count ≡ length (select due w.db.accounts))
          × (every (λ b. not (due b)) w'.db.accounts ≡ true)}
        {F = λ _. ⊥} (λ c w' h. (omega (arith, h.0), Covered-every due w'.db.accounts h.1.1))
        (λ w' h. h) (expire_rounds-Up up (env.now w.trace) (select due w.db.accounts) 0)).at
      (record w { trace = read_clock ∷ w.trace }) (select-Pending due w.db w.next_id servers)
