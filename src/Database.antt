-- ===== src/Database.antt =====
-- What the ORM calls of accounts/services.py and the tasks write: a new account row with its unique
-- constraints and column sizes, an update of named columns of one row, and a new audit row.
pub mod Rows
pub mod Related
pub mod Member
pub mod Permit
pub mod Unique
pub mod Persists
pub mod Steady
use ssh_panel_vpn.Common.{
  ℕ, ◌≡◌, refl, Bool, true, false, ◌&&◌, ◌||◌, not, Option, none, some, List, [], ◌∷◌, map, length,
  ◌+◌, exists, leb, ◌==◌, if◌then◌else◌,
}
use ssh_panel_vpn.Common.Text.{Text}
use ssh_panel_vpn.Models.{
  Account, AccountStatus, Action, AuditLog, Db, Integer, pos, neg, Server, ServerStatus,
}
use ssh_panel_vpn.Models.Queries.{same_login, find_server}
use ssh_panel_vpn.Effects.{
  World, Act, pure, raise, or_raise, ◌>>=◌, ◌>>◌, get_db, modify, read_now, integrity_error,
  data_error, does_not_exist,
}

-- The largest `PositiveIntegerField`.
abbrev pub int_max : ℕ
int_max = 2147483647

-- The column sizes: `username` 32, `password_display` 128, and the integer columns.
unfoldable pub fits_columns : Account → Bool
fits_columns a =
    leb (length a.username) 32
    && leb (length a.password_display) 128
    && leb a.max_connections int_max
    && leb a.bandwidth_limit_gb int_max

-- A row that shares the primary key or a unique column with `a`, or the pair of `unique_together`.
unfoldable pub clashes : Account → Account → Bool
clashes a row =
    row.id == a.id
    || same_login a.username a.server row
    || row.access_token == a.access_token
    || row.auth_token == a.auth_token

-- `SSHAccount.objects.create(...)`
unfoldable pub create_account_row : Account → Act Account
unfolding fits_columns clashes
create_account_row a = do
  db ← get_db
  if not (fits_columns a)
      then raise data_error
      else if exists (clashes a) db.accounts
      then raise integrity_error
      else (do modify (λ d. record d { accounts = a ∷ d.accounts }); pure a)

-- The rows with a change made to the one with an id.
unfoldable pub change_row : ℕ → (Account → Account) → List Account → List Account
change_row i f [] = []
change_row i f (a ∷ rest) = (if a.id == i then f a else a) ∷ change_row i f rest

unfoldable pub has_account : ℕ → List Account → Bool
has_account i [] = false
has_account i (a ∷ rest) = if a.id == i then true else has_account i rest

-- `account.save(update_fields=[..., "updated_at"])`: the named columns of the row with the object's
-- id are written, and a row that is gone is a `DatabaseError`.
unfoldable pub save_account : ℕ → (Account → Account) → Act (Unit {0})
unfolding change_row has_account
save_account i f = do
  now ← read_now
  db ← get_db
  if has_account i db.accounts
      then modify (λ d. record d {
        accounts = change_row i (λ a. record (f a) { updated_at = now }) d.accounts;
      })
      else raise does_not_exist

-- `AuditLog.objects.create(...)`
unfoldable pub create_log : Action → ℕ → Option ℕ → Text → Act (Unit {0})
create_log action account admin_user detail = do
  now ← read_now
  modify (λ d. record d {
    logs =
        record {
          action = action;
          account = some account;
          admin_user = admin_user;
          detail = detail;
          created_at = now;
        }
        ∷ d.logs;
  })

-- The servers with a change made to the one with an id.
unfoldable pub change_server : ℕ → (Server → Server) → List Server → List Server
change_server i f [] = []
change_server i f (s ∷ rest) = (if s.id == i then f s else s) ∷ change_server i f rest

-- `Server.save(update_fields=[...])` of an object that was read: no server is deleted by the code, so
-- its row is there, and the columns that are named fit.
unfoldable pub save_server : ℕ → (Server → Server) → Act (Unit {0})
unfolding change_server
save_server i f = modify (λ d. record d { servers = change_server i f d.servers })

-- The largest `BigIntegerField`.
abbrev pub big_int_max : ℕ
big_int_max = 9223372036854775807

abbrev pub fits_big : Integer → Bool
fits_big (pos n) = leb n big_int_max
fits_big (neg n) = leb n (big_int_max + 1)

-- `Server.save()` of an object that was read, with another snapshot of its health: every column is
-- written, `updated_at` is set, and an uptime that the column cannot hold is a `DataError`. The name
-- and the address are those of its own row, which clash with none.
unfoldable pub save_server_row : Server → Act (Unit {0})
unfolding save_server
save_server_row s = do
  now ← read_now
  if fits_big s.uptime_seconds
      then save_server s.id (λ row. record s { updated_at = now })
      else raise data_error

-- A row other than that of id `i` with its username on a server.
unfoldable pub login_taken : ℕ → ℕ → List Account → Bool
login_taken i server rows =
    exists
      (λ (a : Account).
        a.id == i
        && exists (λ (b : Account). not (b.id == i) && same_login a.username server b) rows)
      rows

-- `account.save(update_fields=["server", "updated_at"])`, under `unique_together`
unfoldable pub move_account : Account → ℕ → Act (Unit {0})
unfolding login_taken save_account
move_account a server = do
  db ← get_db
  if login_taken a.id server db.accounts
      then raise integrity_error
      else save_account a.id (λ row. record row { server = server })

-- `account.server`: the row that the foreign key names.
unfoldable pub server_of : Account → Act Server
unfolding find_server
server_of a = do db ← get_db; or_raise does_not_exist (find_server a.server db.servers)
