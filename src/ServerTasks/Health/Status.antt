-- ===== src/ServerTasks/Health/Status.antt =====
-- How the periodic check moves the status of a server.
use ssh_panel_vpn.Common.{
  ℕ, ◌≡◌, ◌⊎◌, refl, sym, ap, Bool, true, false, ◌&&◌, if◌then◌else◌, List, [], ◌∷◌, select, All,
  arith, Bool-cases, inl, inr, ◌∙◌, and_true,
}
use mathlib.Core.Path.{subst}
use ssh_panel_vpn.Models.{Server, ServerStatus}
use ssh_panel_vpn.Models.Queries.{server_status_eq}
use ssh_panel_vpn.Effects.{
  Env, World, Result, ok, err, Act, pure, ◌>>=◌, on_result, read_now, get_db, modify,
}
use ssh_panel_vpn.Effects.Keeps.{Keeps, Keeps-bind, Keeps-if, Keeps-raise, OnTables, IsRemote-Keeps}
use ssh_panel_vpn.Effects.Outcome.{Ends, Outcome, Outcome-pure, Outcome-bind, Outcome-attempt}
use ssh_panel_vpn.Database.{save_server, save_server_row, change_server}
use ssh_panel_vpn.Database.Related.{Related, Related-refl, change_server-Related}
use ssh_panel_vpn.Ssh.Connection.{with_ssh}
use ssh_panel_vpn.Ssh.Health.{Health, get_health}
use ssh_panel_vpn.Ssh.Kept.{get_health-Keeps}
use ssh_panel_vpn.Ssh.Tables.{run-IsRemote, with_ssh-IsRemote}
use ssh_panel_vpn.ServerTasks.Health.{
  with_health, mark_full, save_checked, check_passed, check_failed, check_server, check_servers,
  is_watched, check_all_servers_health, write_fail_count,
}

-- The status stays, an active server fills, or a server goes down.
abbrev pub StatusStep : ServerStatus → ServerStatus → Type 0
StatusStep s t =
    (t ≡ s) ⊎ ((s ≡ ServerStatus.active) × (t ≡ ServerStatus.full)) ⊎ (t ≡ ServerStatus.down)

-- Some watched server of a list has the id of `t`, and its status steps to that of `t`.
abbrev pub Comes : List Server → Server → Type 0
Comes [] t = ⊥
Comes (s ∷ l) t = ((is_watched s ≡ true) × (t.id ≡ s.id) × StatusStep s.status t.status) ⊎ Comes l t

-- The row is as it was, or was written from a watched server.
abbrev pub Checked : List Server → Server → Server → Type 0
Checked start a b = (b ≡ a) ⊎ ((b.id ≡ a.id) × Comes start b)

-- What may be written from `s`.
abbrev Allowed : List Server → Server → Type 0
Allowed start s = (t : Server) → t.id ≡ s.id → StatusStep s.status t.status → Comes start t

All-Allowed_cons :
    (s : Server) (start l : List Server) → All (Allowed start) l → All (Allowed (s ∷ start)) l
All-Allowed_cons s start [] h = tt
All-Allowed_cons s start (t ∷ l) h =
    (λ u e step. inr (h.0 u e step), All-Allowed_cons s start l h.1)

All-Allowed_if :
    (b : Bool) (s : Server) (start l : List Server)
    → is_watched s ≡ b
    → All (Allowed (s ∷ start)) l
    → All (Allowed (s ∷ start)) (if b then s ∷ l else l)
All-Allowed_if true s start l e h = (λ t i step. inl (e, i, step), h)
All-Allowed_if false s start l e h = h

watched-Allowed : (start : List Server) → All (Allowed start) (select is_watched start)
watched-Allowed [] = tt
watched-Allowed (s ∷ start) =
    All-Allowed_if (is_watched s) s start (select is_watched start) refl
      (All-Allowed_cons s start (select is_watched start) (watched-Allowed start))

was_active :
    (s : ServerStatus) → server_status_eq s ServerStatus.active ≡ true → s ≡ ServerStatus.active
was_active s h = ground arith

mark_full-StatusStep : (env : Env) (srv : Server) → StatusStep srv.status (mark_full env srv).status
unfolding mark_full
mark_full-StatusStep env srv =
    let b =
      server_status_eq srv.status ServerStatus.active && env.float_lt (env.of_ℕ 95) srv.cpu_usage in
    elim (Bool-cases b) [
      | inl full ↦ rw full (inr (inl (was_active srv.status (and_true _ _ full).0, refl)))
      | inr same ↦ rw same (inl refl)
    ]

mark_full_id : (env : Env) (srv : Server) → (mark_full env srv).id ≡ srv.id
unfolding mark_full
mark_full_id env srv = ground arith

-- The servers of the world, related to those of the start.
abbrev IsChecked : List Server → World → Type 0
IsChecked start = OnTables (λ d _. Related (Checked start) start d.servers)

-- A write from an allowed server keeps the relation.
write-Checked :
    (start : List Server) (srv : Server) (f : Server → Server)
    → Allowed start srv
    → ((b : Server) → b.id ≡ srv.id → ((f b).id ≡ srv.id) × StatusStep srv.status (f b).status)
    → (m : List Server) → Related (Checked start) start m
    → Related (Checked start) start (change_server srv.id f m)
write-Checked start srv f allowed step =
    change_server-Related (Checked start) srv.id f
      (λ a b e h. let (i, s) = step b e in inr (i ∙ sym e ∙ same_id a b h, allowed (f b) i s)) start
  where
    same_id : (a b : Server) → Checked start a b → b.id ≡ a.id
    same_id a b (inl e) = ap (λ s. s.id) e
    same_id a b (inr h) = h.0

StatusStep-trans : (s t u : ServerStatus) → StatusStep s t → StatusStep t u → StatusStep s u
StatusStep-trans s t u (inl same) step = subst (λ x. StatusStep x u) same step
StatusStep-trans s t u (inr first) (inl same) = subst (StatusStep s) (sym same) (inr first)
StatusStep-trans s t u (inr first) (inr (inr d)) = inr (inr d)
StatusStep-trans s t u (inr (inl (active, full))) (inr (inl (active', e))) = inr (inl (active, e))
StatusStep-trans s t u (inr (inr d)) (inr (inl (active', e))) =
    absurd (down_active (sym d ∙ active'))
  where
    down_active : ServerStatus.down ≡ ServerStatus.active → ⊥
    down_active e = ground arith

-- What may be written from `srv` may be written from the object after a step.
Allowed-step :
    (start : List Server) (srv checked : Server)
    → Allowed start srv
    → checked.id ≡ srv.id
    → StatusStep srv.status checked.status
    → Allowed start checked
Allowed-step start srv checked allowed same step t e next =
    allowed t (e ∙ same) (StatusStep-trans srv.status checked.status t.status step next)

module _ (start : List Server) (env : Env) where
  abbrev Returns : {A : Type 0} → Act A → Type 0
  Returns m = Outcome env (IsChecked start) m (λ _. IsChecked start) (λ _. ⊥)

  failed-StatusStep :
      (srv : Server) (b : Bool)
      → StatusStep srv.status (if b then ServerStatus.down else srv.status)
  failed-StatusStep srv true = inr (inr refl)
  failed-StatusStep srv false = inl refl

  check_failed-Returns : (srv : Server) → Allowed start srv → Returns (check_failed srv)
  unfolding check_failed read_now write_fail_count save_server modify ◌>>=◌
  check_failed-Returns srv allowed = record {
    at = λ w h.
        write-Checked start srv _ allowed (λ b e. (e, failed-StatusStep srv _)) w.db.servers h;
  }

  write_row-Checked :
      (checked : Server) (now : ℕ)
      → Allowed start checked
      → Keeps
          (IsChecked start)
          (save_server checked.id (λ row. record checked { updated_at = now }))
  unfolding save_server modify
  write_row-Checked checked now allowed = record {
    at = λ e w h.
        write-Checked start checked (λ row. record checked { updated_at = now }) allowed
          (λ b same. (refl, inl refl)) w.db.servers h;
  }

  read_now-Checked : Keeps (IsChecked start) read_now
  unfolding read_now
  read_now-Checked = record { at = λ e w h. h }

  save_server_row-Checked :
      (checked : Server) → Allowed start checked → Keeps (IsChecked start) (save_server_row checked)
  unfolding save_server_row
  save_server_row-Checked checked allowed =
      Keeps-bind _ _ read_now-Checked
        λ now. Keeps-if _ _ _ (write_row-Checked checked now allowed) (Keeps-raise _)

  save_checked-Returns : (checked : Server) → Allowed start checked → Returns (save_checked checked)
  unfolding save_checked on_result
  save_checked-Returns checked allowed =
      Outcome-bind (Outcome-attempt _ (save_server_row-Checked checked allowed)) saved
    where
      saved :
          (r : Result (Unit {0})) → Returns (on_result r (λ _. pure tt) (λ _. check_failed checked))
      saved (ok tt) = Outcome-pure tt (λ w h. h)
      saved (err e) = check_failed-Returns checked allowed

  check_passed-Returns :
      (srv : Server) (health : Health) → Allowed start srv → Returns (check_passed srv health)
  unfolding check_passed read_now write_fail_count with_health ◌>>=◌
  check_passed-Returns srv health allowed = record {
    at = λ w h.
        let checked : Server = mark_full env (with_health srv health (env.now w.trace)) in
        (save_checked-Returns checked (
            Allowed-step start srv checked allowed (mark_full_id env _)
              (mark_full-StatusStep env _))).at
          _ h;
  }

  check_server-Returns : (srv : Server) → Allowed start srv → Returns (check_server srv)
  unfolding check_server on_result
  check_server-Returns srv allowed =
      Outcome-bind
        (Outcome-attempt (with_ssh srv get_health) (
          IsRemote-Keeps (λ d _. Related (Checked start) start d.servers) (with_ssh srv get_health)
            (with_ssh-IsRemote srv get_health
              (λ ssh d n. get_health-Keeps (λ m c. run-IsRemote m c d n) ssh))))
        read
    where
      read : (r : Result Health) → Returns (on_result r (check_passed srv) (λ _. check_failed srv))
      read (ok health) = check_passed-Returns srv health allowed
      read (err e) = check_failed-Returns srv allowed

check_servers-Returns :
    (start : List Server) (env : Env) (l : List Server)
    → All (Allowed start) l
    → Outcome env (IsChecked start) (check_servers l) (λ _. IsChecked start) (λ _. ⊥)
unfolding check_servers
check_servers-Returns start env [] h = Outcome-pure tt (λ w p. p)
check_servers-Returns start env (srv ∷ l) h =
    Outcome-bind (check_server-Returns start env srv h.0)
      (λ _. check_servers-Returns start env l h.1)

-- Whatever the nodes answer, an uptime that the column cannot hold included,
-- `check_all_servers_health` returns, and it adds and removes no server:
-- each row is as it was, or keeps its id and was written from a server of that id that was not DOWN
-- at the start, and then its status is the one that server had, or FULL where it had ACTIVE, or DOWN.
pub check_all_servers_health-Checked :
    (env : Env) (w : World)
    → Ends
        (λ _ w'. Related (Checked w.db.servers) w.db.servers w'.db.servers)
        (λ _. ⊥)
        (check_all_servers_health env w)
unfolding check_all_servers_health get_db ◌>>=◌
check_all_servers_health-Checked env w =
    (check_servers-Returns w.db.servers env (select is_watched w.db.servers)
        (watched-Allowed w.db.servers)).at
      w (Related-refl (Checked w.db.servers) (λ s. inl refl) w.db.servers)
