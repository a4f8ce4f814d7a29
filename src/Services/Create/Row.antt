-- ===== src/Services/Create/Row.antt =====
-- What `create_account` leaves in the database.
use ssh_panel_vpn.Common.{
  ℕ, ◌+◌, ◌*◌, ◌≤◌, ◌≡◌, refl, sym, [], true, false, some, exists, if◌then◌else◌,
}
use mathlib.Core.Path.{subst}
use ssh_panel_vpn.Common.Text.{Text}
use ssh_panel_vpn.Models.{Account, AccountStatus, Action, Db, Server}
use ssh_panel_vpn.Models.Queries.{is_shadowlink}
use ssh_panel_vpn.Models.Time.{day, datetime_max}
use ssh_panel_vpn.Effects.{Env, World, Result, ok, err, Act, ◌>>◌, pure, atomic, restore}
use ssh_panel_vpn.Effects.Outcome.{
  Ends, Outcome, Outcome-bind, Outcome-pure, Outcome_bind_fact, Outcome_bind_kept, Ends-weaken,
}
use ssh_panel_vpn.Database.{create_log, fits_columns, clashes}
use ssh_panel_vpn.Database.Rows.{HasDb, logged_db, create_log_db}
use ssh_panel_vpn.Services.Create.{
  NewAccount, given_or, account_row, provision, create_detail, create_account_body, create_account,
}
use ssh_panel_vpn.Services.Create.Remote.{provision-IsRemote}
use ssh_panel_vpn.Services.Create.Parts.{
  IsPicked, IsGiven, IsTime, IsUuid, password_or-Outcome, read_now-Outcome, new_uuid-Outcome,
  pick_best_server-Outcome, IsDate, add_days-Outcome, IsNew, with_row, create_account_row-Outcome,
  new_id-HasDb, kept,
}

-- The columns of a new row: those that the arguments give, the defaults of the plan and of the server
-- where they give none, and those that every new account has.
abbrev pub IsOrdered : NewAccount → Server → Text → Account → Type 0
IsOrdered args server password a =
    (a.username ≡ args.username)
    × (a.server ≡ server.id)
    × (a.plan ≡ some args.plan.id)
    × (a.protocol_type ≡ given_or args.protocol_type server.protocol_type)
    × (a.password_display ≡ (if is_shadowlink a.protocol_type then [] else password))
    × (a.max_connections ≡ given_or args.max_connections args.plan.max_connections)
    × (a.bandwidth_limit_gb ≡ given_or args.bandwidth_limit_gb args.plan.bandwidth_limit_gb)
    × (a.created_by ≡ args.admin_user)
    × (a.note ≡ args.note)
    × (a.status ≡ AccountStatus.active)
    × (a.bandwidth_used_gb ≡ 0)

-- What a successful call has made of the database `d`, with the account `a`.
pub record Created (env : Env) (args : NewAccount) (d : Db) (a : Account) (d' : Db) : Type 0 where
  -- the server, the password, the clock, and when the audit row was written
  pub server : Server
  pub password : Text
  pub now : ℕ
  pub logged_at : ℕ
  pub picked : IsPicked args.server d server
  pub given : IsGiven args.password password
  pub asked : IsTime env now
  pub ordered : IsOrdered args server password a
  pub expiry : a.expire_date ≡ now + given_or args.duration_days args.plan.duration_days * day
  pub tokens : IsUuid env a.access_token × IsUuid env a.auth_token
  pub times : IsTime env a.created_at × IsTime env a.updated_at
  pub in_time : a.expire_date ≤ datetime_max
  pub fits : fits_columns a ≡ true
  pub unique : exists (clashes a) d.accounts ≡ false
  pub written :
      d'
      ≡ logged_db Action.create a.id args.admin_user
          (create_detail args server a)
          logged_at
          (with_row d a)

-- The writes at the end of `create_account_body`.
finish : NewAccount → Server → Text → Account → Text → Act Account
finish args server password account detail = do
  provision account server password
  create_log Action.create account.id args.admin_user detail
  pure account

finish-Outcome :
    (env : Env) (args : NewAccount) (server : Server) (password : Text) (a : Account)
    (detail : Text) (d : Db)
    → Outcome env
        (HasDb (with_row d a))
        (finish args server password a detail)
        (λ b w.
          (b ≡ a)
          × ((t : ℕ) × HasDb
                (logged_db Action.create a.id args.admin_user detail t (with_row d a))
                w))
        (λ _. Unit)
unfolding finish
finish-Outcome env args server password a detail d =
    Outcome_bind_kept (kept (with_row d a) (provision-IsRemote a server password)) λ _.
      Outcome-bind (create_log_db env a.id Action.create args.admin_user detail (with_row d a))
        λ _. Outcome-pure a (λ w h. (refl, h))

-- From the row that was inserted to the end of the body.
module _ (env : Env) (args : NewAccount) (d : Db) (server : Server) (password : Text)
    (now date id access_token auth_token created_at updated_at : ℕ)
    (picked : IsPicked args.server d server) (given : IsGiven args.password password)
    (asked : IsTime env now)
    (is_date : IsDate now (given_or args.duration_days args.plan.duration_days) date)
    (tokens : IsUuid env access_token × IsUuid env auth_token)
    (times : IsTime env created_at × IsTime env updated_at) where
  abbrev the_row : Account
  the_row = account_row args server password date id access_token auth_token created_at updated_at

  inserted-Created :
      (t : ℕ) (w : World)
      → IsNew d the_row
      → HasDb
          (logged_db Action.create the_row.id args.admin_user
            (create_detail args server the_row)
            t
            (with_row d the_row))
          w
      → Created env args d the_row w.db
  unfolding account_row
  inserted-Created t w new written = record {
    server = server;
    password = password;
    now = now;
    logged_at = t;
    picked = picked;
    given = given;
    asked = asked;
    ordered = (refl, refl, refl, refl, refl, refl, refl, refl, refl, refl, refl);
    expiry = is_date.0;
    tokens = tokens;
    times = times;
    in_time = is_date.1;
    fits = new.0;
    unique = new.1;
    written = written;
  }

  insert-Outcome :
      (a : Account)
      → Outcome env
          (λ w. (a ≡ the_row) × IsNew d the_row × HasDb (with_row d the_row) w)
          (finish args server password a (create_detail args server a))
          (λ b w. Created env args d b w.db)
          (λ _. Unit)
  insert-Outcome a = record {
    at = λ w h.
        subst
          (λ c.
            Ends (λ b w'. Created env args d b w'.db) (λ _. Unit)
              (finish args server password c (create_detail args server c) env w))
          (sym h.0)
          (Ends-weaken
            (λ b w' k.
              subst (λ c. Created env args d c w'.db) (sym k.0)
                (inserted-Created (k.1).0 w' h.1 (k.1).1))
            (λ _ _. tt)
            (finish args server password the_row (create_detail args server the_row) env w)
            ((finish-Outcome env args server password the_row (create_detail args server the_row)
                d).at
              w h.2));
  }

create_account_body-Outcome :
    (env : Env) (args : NewAccount) (d : Db)
    → Outcome env
        (HasDb d)
        (create_account_body args)
        (λ a w. Created env args d a w.db)
        (λ _. Unit)
unfolding create_account_body finish
create_account_body-Outcome env args d =
    let days = given_or args.duration_days args.plan.duration_days in
    Outcome_bind_fact (IsPicked args.server d) (pick_best_server-Outcome env args.server d)
      λ server picked.
        Outcome_bind_fact (IsGiven args.password) (password_or-Outcome env args.password d)
          λ password given. Outcome_bind_fact (IsTime env) (read_now-Outcome env d) λ now asked.
            Outcome_bind_fact (IsDate now days) (add_days-Outcome env now days (HasDb d))
              λ date is_date. Outcome_bind_kept (new_id-HasDb d) λ id.
                Outcome_bind_fact (IsUuid env) (new_uuid-Outcome env d) λ access_token drawn.
                  Outcome_bind_fact (IsUuid env) (new_uuid-Outcome env d) λ auth_token drawn'.
                    Outcome_bind_fact (IsTime env) (read_now-Outcome env d) λ created_at read.
                      Outcome_bind_fact (IsTime env) (read_now-Outcome env d) λ updated_at read'.
                        Outcome-bind (create_account_row-Outcome env _ d) (
                          insert-Outcome env args d server password now date id access_token
                            auth_token created_at updated_at picked given asked is_date
                            (drawn, drawn') (read, read'))

restored :
    {A : Type 0} (Q : A → World → Type 0) (d : Db) (x : Result A × World)
    → Ends Q (λ _. Unit) x
    → Ends Q (HasDb d) (x.0, restore d x.0 x.1)
restored Q d (ok a, w) h = h
restored Q d (err e, w) h = refl

-- `create_account` is all or nothing in the database. If it returns, the database has one new account
-- and one new audit row and nothing else is changed. The account's server was available, and is the
-- one that the arguments name wherever that was available; its username, password, protocol, limits,
-- note and creator are those of the arguments, where these are given, and otherwise the plan's and the
-- server's, with a password of twelve letters and digits (no password is stored for a ShadowLink
-- account); its status is ACTIVE, its expiry date is the given days, or else the plan's, after an
-- answer of the clock and not past the year 9999, its tokens are answers of uuid4; and it fits its
-- columns and clashes with no other row. If it raises, the database is as it was before.
pub create_account_atomic :
    (args : NewAccount) (env : Env) (w : World)
    → Ends (λ a w'. Created env args w.db a w'.db) (HasDb w.db) (create_account args env w)
unfolding create_account atomic
create_account_atomic args env w =
    restored (λ a w'. Created env args w.db a w'.db) w.db (create_account_body args env w)
      ((create_account_body-Outcome env args w.db).at w refl)
