-- ===== src/Connections/Ledger.antt =====
-- The accounts as a ledger that each call only extends within its permit.
use ssh_panel_vpn.Common.{List}
use ssh_panel_vpn.Models.{Account}
use ssh_panel_vpn.Effects.{Env, World}
use ssh_panel_vpn.Effects.Keeps.{IsRemote-Keeps}
use ssh_panel_vpn.Ssh.Tables.{run-IsRemote, with_ssh-Keeps}
use ssh_panel_vpn.Database.Permit.{Permit, Evolves, unchanged, opened, changed, moved}
use ssh_panel_vpn.Database.Steady.{Steady}
use ssh_panel_vpn.Services.Frame.{Frame}
use ssh_panel_vpn.Connections.{Operation, perform}
use ssh_panel_vpn.Connections.Permits.{permit, perform-Keeps}
use mathlib.Core.Path.{subst, sym}

module _ (may : Permit) (start : List Account) where
  abbrev Grown : World → Type 0
  Grown w = Evolves may start w.db.accounts

  Grown-Steady : Steady may Grown
  Grown-Steady = record {
    with_others = λ w d same stay h. subst (Evolves may start) (sym same) h;
    restored = λ w w' h h'. h;
    inserted = λ w a adds active fits free h. opened a h adds active fits free;
    updated = λ w i f writes h. changed i f h writes;
    relocated = λ w i server t moves free h. moved i server t h moves free;
    with_id = λ w n h. h;
    with_counts = λ w l h. h;
    with_event = λ w e q h. h;
  }

  pub Grown-Frame : Frame may Grown Grown
  Grown-Frame = record {
    inside = Grown-Steady;
    outside = Grown-Steady;
    run_inside =
        λ ssh c. IsRemote-Keeps (λ d n. Evolves may start d.accounts) _ (run-IsRemote ssh c);
    bracket = with_ssh-Keeps (λ d n. Evolves may start d.accounts);
  }

-- Every call refines the ledger: whatever the nodes answer and however it ends, the accounts after
-- it are those before it after a history of writes that its permit allows. Creations only add new
-- active rows that fit their columns and clash with none, rebalancing only moves rows to a server
-- where their login is free, a password reset writes only the password, a renewal only the expiry
-- date and the status ACTIVE, the bandwidth task only the usage and the status SUSPENDED, deletion,
-- suspension, activation, expiry and cleanup only their status, the checks and the session task
-- write no row (each write sets `updated_at` too), and no row is lost or loses its identity.
pub perform-Evolves :
    (op : Operation) (env : Env) (w : World)
    → Evolves (permit op) w.db.accounts (perform op env w).1.db.accounts
perform-Evolves op env w =
    (perform-Keeps op (Grown-Frame (permit op) w.db.accounts)).at env w unchanged
