-- ===== src/Connections/Rows.antt =====
-- What the ledger says of the rows: the unique columns stay unique, and no account is lost.
use ssh_panel_vpn.Common.{List, [], ◌∷◌}
use ssh_panel_vpn.Effects.{Env, World}
use ssh_panel_vpn.Effects.Keeps.{Keeps, Keeps-bind, Keeps-pure, Keeps-attempt}
use ssh_panel_vpn.Database.Unique.{Unique, Evolves-Unique}
use ssh_panel_vpn.Database.Persists.{Persists, Evolves-Persists}
use ssh_panel_vpn.Connections.{Operation, perform, perform_all}
use ssh_panel_vpn.Connections.Permits.{permit}
use ssh_panel_vpn.Connections.Ledger.{perform-Evolves}

abbrev pub HasUniqueRows : World → Type 0
HasUniqueRows w = Unique w.db.accounts

perform_all-Keeps : (ops : List Operation) → Keeps HasUniqueRows (perform_all ops)
unfolding perform_all
perform_all-Keeps [] = Keeps-pure tt
perform_all-Keeps (op ∷ ops) =
    Keeps-bind _ _
      (Keeps-attempt _ (record { at = λ env w h. Evolves-Unique (perform-Evolves op env w) h }))
      (λ _. perform_all-Keeps ops)

-- The constraints of the account table hold at all times: if no two rows share a primary key, a
-- token, or a username on one server, then none do after any sequence of calls, whatever the nodes
-- answer and whichever calls raise.
pub perform_all-HasUniqueRows :
    (ops : List Operation) (env : Env) (w : World)
    → HasUniqueRows w
    → HasUniqueRows (perform_all ops env w).1
perform_all-HasUniqueRows ops env w h = (perform_all-Keeps ops).at env w h

-- No call loses an account: each row from before it is there after it, with its id, username,
-- protocol, tokens, creator and creation date; its server differs only after rebalancing, and its
-- status only where it is the one that the call sets (deleted, suspended, active or expired).
pub perform-Persists :
    (op : Operation) (env : Env) (w : World)
    → Persists (permit op) w.db.accounts (perform op env w).1.db.accounts
perform-Persists op env w = Evolves-Persists (perform-Evolves op env w)
