-- ===== src/Models/Queries.antt =====
-- What the query sets compute: equality of the enumerations, rows by id, the rows of a server, and
-- the properties `current_user_count` and `is_available` of servers/models.py.
use ssh_panel_vpn.Common.{
  ℕ, ◌≡◌, refl, Bool, true, false, ◌&&◌, not, Option, none, some, List, [], ◌∷◌, length, select,
  ltb, ◌==◌, if◌then◌else◌, arith,
}
use ssh_panel_vpn.Common.Text.{Text, text_eq}
use ssh_panel_vpn.Models.{Account, AccountStatus, Server, ServerStatus, Protocol, Plan, Db}

abbrev pub account_status_eq : AccountStatus → AccountStatus → Bool
account_status_eq AccountStatus.active AccountStatus.active = true
account_status_eq AccountStatus.suspended AccountStatus.suspended = true
account_status_eq AccountStatus.expired AccountStatus.expired = true
account_status_eq AccountStatus.deleted AccountStatus.deleted = true
account_status_eq _ _ = false

abbrev pub server_status_eq : ServerStatus → ServerStatus → Bool
server_status_eq ServerStatus.active ServerStatus.active = true
server_status_eq ServerStatus.maintenance ServerStatus.maintenance = true
server_status_eq ServerStatus.full ServerStatus.full = true
server_status_eq ServerStatus.down ServerStatus.down = true
server_status_eq _ _ = false

abbrev pub is_shadowlink : Protocol → Bool
is_shadowlink Protocol.ssh = false
is_shadowlink Protocol.shadowlink = true

module _ {ℓ} {A : Type ℓ} where
  -- `.first()`
  abbrev pub first : List A → Option A
  first [] = none
  first (x ∷ xs) = some x

unfoldable pub find_account : ℕ → List Account → Option Account
find_account i [] = none
find_account i (a ∷ as') = if a.id == i then some a else find_account i as'

unfoldable pub find_server : ℕ → List Server → Option Server
find_server i [] = none
find_server i (s ∷ rest) = if s.id == i then some s else find_server i rest

unfoldable pub has_server : ℕ → List Server → Bool
has_server i [] = false
has_server i (s ∷ rest) = if s.id == i then true else has_server i rest

unfoldable pub find_plan : ℕ → List Plan → Option Plan
find_plan i [] = none
find_plan i (p ∷ rest) = if p.id == i then some p else find_plan i rest

-- An account of server `i` that `exclude(status="deleted")` keeps.
abbrev pub counts_on : ℕ → Account → Bool
counts_on i a = a.server == i && not (account_status_eq a.status AccountStatus.deleted)

-- `Server.current_user_count`
unfoldable pub current_user_count : Db → Server → ℕ
current_user_count db srv = length (select (counts_on srv.id) db.accounts)

-- `Server.is_available`
unfoldable pub is_available : Db → Server → Bool
unfolding current_user_count
is_available db srv =
    server_status_eq srv.status ServerStatus.active && ltb (current_user_count db srv) srv.max_users

-- The pair that `unique_together` compares.
abbrev pub same_login : Text → ℕ → Account → Bool
same_login username server a = text_eq a.username username && a.server == server

pub account_status_eq_refl : (s : AccountStatus) → account_status_eq s s ≡ true
account_status_eq_refl AccountStatus.active = refl
account_status_eq_refl _ = refl

pub account_status_eq_sound : (s t : AccountStatus) → account_status_eq s t ≡ true → s ≡ t
account_status_eq_sound s t h = ground arith
