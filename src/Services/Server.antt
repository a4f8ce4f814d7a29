-- ===== src/Services/Server.antt =====
-- `pick_best_server`.
pub mod Choice
use ssh_panel_vpn.Common.{
  ℕ, Bool, true, false, Option, none, some, List, [], ◌∷◌, select, if◌then◌else◌,
}
use ssh_panel_vpn.Common.Text.{codes}
use ssh_panel_vpn.Models.{Db, Server, ServerStatus}
use ssh_panel_vpn.Models.Queries.{is_available, server_status_eq}
use ssh_panel_vpn.Effects.{
  Env, World, Act, raise, gets, ◌>>=◌, on_result, on_option, account_error, pure, get_db,
}

abbrev pub is_active : Server → Bool
is_active srv = server_status_eq srv.status ServerStatus.active

-- The loop over the ordered servers.
unfoldable pub first_available : Db → List Server → Option Server
first_available db [] = none
first_available db (srv ∷ servers) =
    if is_available db srv then some srv else first_available db servers

-- The query and the loop, when no server was given that is available.
unfoldable pub least_loaded : Env → Db → Option Server
unfolding first_available is_available
least_loaded env db = first_available db (env.order_by_cpu (select is_active db.servers))

unfoldable pub search_server : Act Server
unfolding least_loaded
search_server = do
  found ← gets (λ env w. least_loaded env w.db)
  on_option found (raise (account_error (codes "No available servers. All are full or offline.")))
      pure

unfoldable pub pick_best_server : Option Server → Act Server
pick_best_server none = search_server
pick_best_server (some preferred) = do
  db ← get_db
  if is_available db preferred then pure preferred else search_server
