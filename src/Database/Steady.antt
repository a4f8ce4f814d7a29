-- ===== src/Database/Steady.antt =====
-- Properties of the world that permitted writes of accounts keep, and that the other tables, the id
-- sequence and the harmless events do not touch.
use ssh_panel_vpn.Common.{
  List, ℕ, ◌==◌, ==_iff, ◌∙◌, if◌then◌else◌, [], exists, inl, inr, Bool-cases, ◌≡◌, ◌∷◌, Option,
  Bool, true, false, refl, sym,
}
use ssh_panel_vpn.Common.Text.{Text}
use ssh_panel_vpn.Models.{Account, AccountStatus, Action, Db, Server}
use ssh_panel_vpn.Models.Queries.{has_server}
use ssh_panel_vpn.Effects.{
  World, Event, requested, read_clock, drew_random, uploaded, dispatched, Result, ok, err, Act,
  get_db, ◌>>=◌, atomic, restore, read_now, draw, new_uuid, new_id, modify,
}
use ssh_panel_vpn.Effects.Keeps.{
  Keeps, Keeps-bind, Keeps-if, Keeps-raise, keeps_rules, get_db-Keeps,
}
use ssh_panel_vpn.Database.{
  change_row, has_account, clashes, fits_columns, login_taken, create_account_row, save_account,
  create_log, server_of, move_account, save_server, save_server_row, change_server,
}
use ssh_panel_vpn.Database.Permit.{Permit, Writes, placed}
use ssh_panel_vpn.ShadowLink.{
  bridge_request, register_token, deregister_token, suspend_token, activate_token,
}

-- Events that move no connection.
abbrev pub is_quiet : Event → Bool
is_quiet (requested c) = true
is_quiet read_clock = true
is_quiet drew_random = true
is_quiet (uploaded m t) = true
is_quiet (dispatched i) = true
is_quiet _ = false

-- The world with other rows in the table of accounts.
abbrev pub with_accounts : List Account → World → World
with_accounts rows w = record w { db = record w.db { accounts = rows } }

-- No server of the first database is missing in the second.
abbrev pub ServersStay : Db → Db → Type 0
ServersStay d d' = (i : ℕ) → has_server i d.servers ≡ true → has_server i d'.servers ≡ true

has_server-change_server :
    (j i : ℕ) (f : Server → Server) (l : List Server)
    → ((s : Server) → s.id ≡ i → (f s).id ≡ s.id)
    → has_server j (change_server i f l) ≡ has_server j l
unfolding has_server change_server
has_server-change_server j i f [] same = refl
has_server-change_server j i f (s ∷ l) same =
    rw (changed_id s (s.id == i) refl, has_server-change_server j i f l same) refl
  where
    changed_id : (s : Server) (b : Bool) → (s.id == i) ≡ b → (if b then f s else s).id ≡ s.id
    changed_id s true e = same s ((==_iff s.id i).0 e)
    changed_id s false e = refl

pub record Steady (may : Permit) (P : World → Type 0) : Type 0 where
  -- a write to the other tables, and what `atomic` does when it rolls back
  pub with_others :
      (w : World) (d : Db)
      → d.accounts ≡ w.db.accounts
      → ServersStay w.db d
      → P w
      → P (record w { db = d })
  pub restored : (w w' : World) → P w → P w' → P (record w' { db = w.db })
  -- a write to the accounts
  pub inserted :
      (w : World) (a : Account)
      → may.adds ≡ true
      → a.status ≡ AccountStatus.active
      → fits_columns a ≡ true
      → exists (clashes a) w.db.accounts ≡ false
      → P w
      → P (with_accounts (a ∷ w.db.accounts) w)
  pub updated :
      (w : World) (i : ℕ) (f : Account → Account)
      → Writes may f
      → P w
      → P (with_accounts (change_row i f w.db.accounts) w)
  pub relocated :
      (w : World) (i server t : ℕ)
      → may.moves ≡ true
      → login_taken i server w.db.accounts ≡ false
      → P w
      → P (with_accounts (change_row i (placed server t) w.db.accounts) w)
  pub with_id : (w : World) (n : ℕ) → P w → P (record w { next_id = n })
  pub with_counts : (w : World) (l : List (ℕ × ℕ)) → P w → P (record w { fail_counts = l })
  pub with_event :
      (w : World) (e : Event) → is_quiet e ≡ true → P w → P (record w { trace = e ∷ w.trace })

module _ {may : Permit} {P : World → Type 0} (steady : Steady may P) where
  pub modify-Steady :
      (f : Db → Db)
      → ((d : Db) → (f d).accounts ≡ d.accounts)
      → ((d : Db) → ServersStay d (f d))
      → Keeps P (modify f)
  unfolding modify
  modify-Steady f same stay = record {
    at = λ env w h. steady.with_others w (f w.db) (same w.db) (stay w.db) h;
  }

  pub read_now-Steady : Keeps P read_now
  unfolding read_now
  read_now-Steady = record { at = λ env w h. steady.with_event w read_clock refl h }

  pub draw-Steady : Keeps P draw
  unfolding draw
  draw-Steady = record { at = λ env w h. steady.with_event w drew_random refl h }

  pub new_uuid-Steady : Keeps P new_uuid
  unfolding new_uuid
  new_uuid-Steady = record { at = λ env w h. steady.with_event w drew_random refl h }

  pub new_id-Steady : Keeps P new_id
  unfolding new_id
  new_id-Steady = record { at = λ env w h. steady.with_id w _ h }

  restore-Steady : {A : Type 0} (r : Result A) (w w' : World) → P w → P w' → P (restore w.db r w')
  restore-Steady (ok a) w w' h h' = h'
  restore-Steady (err e) w w' h h' = steady.restored w w' h h'

  pub atomic-Steady : {A : Type 0} (m : Act A) → Keeps P m → Keeps P (atomic m)
  unfolding atomic
  atomic-Steady m k = record {
    at = λ env w h. let (r, w') = m env w in restore-Steady r w w' h (k.at env w h);
  }

  pub create_account_row-Steady :
      (a : Account)
      → may.adds ≡ true
      → a.status ≡ AccountStatus.active
      → Keeps P (create_account_row a)
  unfolding create_account_row get_db modify ◌>>=◌
  create_account_row-Steady a adds active = record {
    at = λ env w h. elim (Bool-cases (fits_columns a)) [
      | inl fits ↦ (elim (Bool-cases (exists (clashes a) w.db.accounts)) [
        | inl taken ↦ rw (fits, taken) h
        | inr free ↦ rw (fits, free) (steady.inserted w a adds active fits free h)
      ])
      | inr large ↦ rw large h
    ];
  }

  -- An update of a row whose change is permitted.
  pub save_account-Steady :
      (i : ℕ) (f : Account → Account)
      → ((t : ℕ) → Writes may (λ a. record (f a) { updated_at = t }))
      → Keeps P (save_account i f)
  unfolding save_account read_now get_db modify ◌>>=◌
  save_account-Steady i f writes = record {
    at = λ env w h. elim (Bool-cases (has_account i w.db.accounts)) [
      | inl found ↦ rw found (
          steady.updated (record w { trace = read_clock ∷ w.trace }) i _ (writes (env.now w.trace))
            (steady.with_event w read_clock refl h))
      | inr gone ↦ rw gone (steady.with_event w read_clock refl h)
    ];
  }

  pub create_log-Steady :
      (action : Action) (i : ℕ) (user : Option ℕ) (text : Text)
      → Keeps P (create_log action i user text)
  unfolding create_log
  create_log-Steady action i user text =
      Keeps-bind _ _ read_now-Steady (λ now. modify-Steady _ (λ d. refl) (λ d i h. h))

  pub server_of-Steady : (a : Account) → Keeps P (server_of a)
  unfolding server_of
  server_of-Steady a = search (keeps_rules, get_db-Keeps)

  pub move_account-Steady :
      (a : Account) (server : ℕ) → may.moves ≡ true → Keeps P (move_account a server)
  unfolding move_account save_account read_now get_db modify ◌>>=◌
  move_account-Steady a server moves = record {
    at = λ env w h. elim (Bool-cases (login_taken a.id server w.db.accounts)) [
      | inl taken ↦ rw taken h
      | inr free ↦ (elim (Bool-cases (has_account a.id w.db.accounts)) [
        | inl found ↦
            rw (free, found)
              (steady.relocated (record w { trace = read_clock ∷ w.trace }) a.id server
                (env.now w.trace) moves free (steady.with_event w read_clock refl h))
        | inr gone ↦ rw (free, gone) (steady.with_event w read_clock refl h)
      ])
    ];
  }

  pub save_server-Steady :
      (i : ℕ) (f : Server → Server)
      → ((s : Server) → s.id ≡ i → (f s).id ≡ s.id)
      → Keeps P (save_server i f)
  unfolding save_server
  save_server-Steady i f same =
      modify-Steady _ (λ d. refl) (λ d j h. has_server-change_server j i f d.servers same ∙ h)

  pub save_server_row-Steady : (s : Server) → Keeps P (save_server_row s)
  unfolding save_server_row
  save_server_row-Steady s =
      Keeps-bind _ _ read_now-Steady
        λ now. Keeps-if _ _ _ (save_server-Steady s.id _ (λ row e. sym e)) (Keeps-raise _)

  pub bridge_request-Steady :
      (s : Server) (m p : Text) (t : Option Text) (n : Option ℕ)
      → Keeps P (bridge_request s m p t n)
  unfolding bridge_request
  bridge_request-Steady s m p t n = record { at = λ env w h. steady.with_event w _ refl h }

  pub register_token-Steady : (s : Server) (t : Text) (n : ℕ) → Keeps P (register_token s t n)
  unfolding register_token
  register_token-Steady s t n = bridge_request-Steady s _ _ _ _

  pub deregister_token-Steady : (s : Server) (t : Text) → Keeps P (deregister_token s t)
  unfolding deregister_token
  deregister_token-Steady s t = bridge_request-Steady s _ _ _ _

  pub suspend_token-Steady : (s : Server) (t : Text) → Keeps P (suspend_token s t)
  unfolding suspend_token
  suspend_token-Steady s t = bridge_request-Steady s _ _ _ _

  pub activate_token-Steady : (s : Server) (t : Text) → Keeps P (activate_token s t)
  unfolding activate_token
  activate_token-Steady s t = bridge_request-Steady s _ _ _ _
