-- ===== src/Effects.antt =====
-- What the panel does to the outside, and how its calls fail.
-- `World` is the panel's state: the database, the next row id, `_health_fail_counts` of
-- servers/tasks.py, whether the SSH manager in use holds a client (`_client` of servers/ssh.py), and
-- the trace of what was asked of the outside, the last
-- first. `Env` is the outside: paramiko, requests, the clock, the random source, Python's floats and
-- the order in which the database sorts. Each answer is a function of the whole trace, so any
-- deterministic behaviour of the nodes is an `Env`, and a theorem for every `Env` holds for each.
pub mod Keeps
pub mod Outcome
use ssh_panel_vpn.Common.{
  ℕ, ◌+◌, Bool, true, false, Option, none, some, List, [], ◌∷◌, if◌then◌else◌,
}
use ssh_panel_vpn.Common.Text.{Text}
use ssh_panel_vpn.Common.Yaml.{Yaml}
use ssh_panel_vpn.Models.{Db, Float, Integer, Plan, Server}

-- `CommandResult` of servers/ssh.py.
pub record CommandResult : Type 0 where
  pub exit_code : ℕ
  pub stdout : Text
  pub stderr : Text

-- The three key classes that `_load_private_key` tries.
pub data KeyClass : Type 0 where
  ed25519 rsa ecdsa : KeyClass

-- The address that an `SSHManager` was built with.
pub record Manager : Type 0 where
  pub host : Text
  pub port : ℕ
  pub username : Text
  pub key_path : Text

-- A call of `requests.request`: the path, and the fields `token` and `max_conns` of the JSON body.
pub record BridgeCall : Type 0 where
  pub method : Text
  pub url : Text
  pub token : Option Text
  pub max_conns : Option ℕ
  pub api_key : Option Text

-- What `requests.request` and the two calls on its response end with.
pub data BridgeReply : Type 0 where
  json : Text → BridgeReply
  connection_error timeout : BridgeReply
  http_error : ℕ → Text → BridgeReply
  other_error : BridgeReply

pub data Event : Type 0 where
  opened refused closed : Manager → Event
  executed : Manager → Text → Event
  requested : BridgeCall → Event
  read_clock drew_random : Event
  -- a file sent over SFTP, and a task handed to Celery
  uploaded : Manager → Text → Event
  dispatched : ℕ → Event

abbrev pub Trace : Type 0
Trace = List Event

pub record Env : Type 0 where
  -- `paramiko`: a key file that loads, a connection that opens, a command that is answered
  pub loads_key : Trace → KeyClass → Text → Bool
  pub connects : Trace → Manager → Option KeyClass → Bool
  pub answers : Trace → Manager → Text → Option CommandResult
  -- `requests`
  pub replies : Trace → BridgeCall → BridgeReply
  -- `timezone.now()`, `secrets.choice` (an index, reduced by the caller) and `uuid.uuid4()`
  pub now : Trace → ℕ
  pub random : Trace → ℕ
  pub uuid : Trace → ℕ
  -- `.order_by("cpu_usage")`, and `.order_by("duration_days")` of plans
  pub order_by_cpu : List Server → List Server
  pub order_by_duration : List Plan → List Plan
  -- SFTP: whether a file of the panel is written to the node and made executable
  pub uploads : Trace → Manager → Text → Bool
  -- the address that Django stores for an IP address, `yaml.dump`, and `str.lower`
  pub clean_ip : Text → Option Text
  pub dump_yaml : Yaml → Text
  pub lower : Text → Text
  -- `DJANGO_ALLOW_ASYNC_UNSAFE` is set in the environment of the process
  pub async_unsafe : Bool
  -- floats: `float(text)`, `int(x)`, `x < y`, a whole number as a float, `round(n / 1024 ** 3, 6)`
  pub parse_float : Text → Option Float
  pub truncate : Float → Option Integer
  pub float_lt : Float → Float → Bool
  pub float_eq : Float → Float → Bool
  pub of_ℕ : ℕ → Float
  pub gigabytes : ℕ → Float

pub record World : Type 0 where
  pub db : Db
  pub next_id : ℕ
  pub fail_counts : List (ℕ × ℕ)
  pub client : Bool
  pub trace : Trace

pub data Exception : Type 0 where
  account_error : Text → Exception
  shadowlink_error : Text → Exception
  command_error : Text → Exception
  connection_failed command_failed key_unreadable bridge_failed : Exception
  integrity_error data_error does_not_exist overflow_error value_error http_404 : Exception
  validation_error permission_denied synchronous_only_operation : Exception

pub data Result {ℓ} (A : Type ℓ) : Type ℓ where
  ok : A → Result A
  err : Exception → Result A

-- What was written before a raise stays written: the world comes back beside the error too.
abbrev pub Act {ℓ} : Type ℓ → Type ℓ
Act A = Env → World → Result A × World

module _ {ℓ} {A : Type ℓ} where
  unfoldable pub pure : A → Act A
  pure a env w = (ok a, w)

  unfoldable pub raise : Exception → Act A
  raise e env w = (err e, w)

  unfoldable pub gets : (Env → World → A) → Act A
  gets f env w = (ok (f env w), w)

  -- a row that a lookup did not find
  unfoldable pub or_raise : Exception → Option A → Act A
  or_raise e none env w = (err e, w)
  or_raise e (some a) env w = (ok a, w)

module _ {ℓ} {A B : Type ℓ} where
  abbrev pub continue : Result A → (A → Act B) → Act B
  continue (ok a) f env w = f a env w
  continue (err e) f env w = (err e, w)

  infixl 5 ◌>>=◌ ◌>>◌
  -- opening this opens `pure`, `raise`, `gets` and `or_raise` too
  unfoldable pub ◌>>=◌ : Act A → (A → Act B) → Act B
  unfolding pure raise gets or_raise
  ◌>>=◌ m f env w = let (r, w') = m env w in continue r f env w'

  abbrev pub ◌>>◌ : Act A → Act B → Act B
  m >> k = m >>= λ _. k

  -- A branch on what a call returned or raised, and on a value that may be `None`.
  unfoldable pub on_result : Result A → (A → Act B) → (Exception → Act B) → Act B
  on_result (ok a) f g = f a
  on_result (err e) f g = g e

  unfoldable pub on_option : Option A → Act B → (A → Act B) → Act B
  on_option none n f = n
  on_option (some a) n f = f a

module _ {ℓ} {A : Type ℓ} where
  -- `try: … except Exception`: the exception becomes a value.
  unfoldable pub attempt : Act A → Act (Result A)
  attempt m env w = let (r, w') = m env w in (ok r, w')

  -- `raise` again what `attempt` caught
  unfoldable pub settle : Result A → Act A
  settle r env w = (r, w)

  abbrev pub restore : Db → Result A → World → World
  restore db (ok a) w = w
  restore db (err e) w = record w { db = db }

  -- `@transaction.atomic`: an exception restores the database, and nothing else.
  unfoldable pub atomic : Act A → Act A
  atomic m env w = let (r, w') = m env w in (r, restore w.db r w')

abbrev note : Event → World → World
note e w = record w { trace = e ∷ w.trace }

unfoldable pub read_now : Act ℕ
read_now env w = (ok (env.now w.trace), note read_clock w)

unfoldable pub draw : Act ℕ
draw env w = (ok (env.random w.trace), note drew_random w)

unfoldable pub new_uuid : Act ℕ
new_uuid env w = (ok (env.uuid w.trace), note drew_random w)

-- The next value of the id sequence, which a rollback does not restore.
unfoldable pub new_id : Act ℕ
new_id env w = (ok w.next_id, record w { next_id = w.next_id + 1 })

unfoldable pub get_db : Act Db
get_db env w = (ok w.db, w)

unfoldable pub modify : (Db → Db) → Act (Unit {0})
modify f env w = (ok tt, record w { db = f w.db })
