-- ===== src/Lib.antt =====
-- The SSH VPN management panel: a Django service that sells accounts on SSH and ShadowLink nodes,
-- provisions them over SSH or a bridge API, and keeps them in step by periodic tasks.
--
-- How the parts interact. The REST views (api/views.py) validate a request and call the services
-- (accounts/services.py). A service picks a server, writes the tables (accounts/models.py,
-- servers/models.py, plans/models.py), and asks the node through `SSHManager` (servers/ssh.py) or
-- the bridge of ShadowLink (servers/shadowlink.py). The Celery tasks (accounts/tasks.py,
-- servers/tasks.py) expire, clean up, meter and watch, by the same managers and services.
--
-- Which file models which part.
-- - Common: Boolean tests, lists and text. A text is the list of its code points.
-- - Models, Models/Queries, Models/Time: the rows of the tables as records, `Db` as lists of rows, the
--   newest first, and what the query sets and the model properties compute. A date is a number of
--   microseconds; a float is an opaque number with the operations of the environment.
-- - Effects: the world and the actions. `World` is the tables, the id sequence, the fail counters of
--   servers/tasks.py, whether the manager holds a client, and the trace of what was asked of the
--   outside. `Env` is the outside: paramiko, requests, the clock, the random source, Python's floats
--   and the order of the database, each answer a function of the whole trace. An action returns or
--   raises, and gives the world back in both cases, so what was written before a raise stays written
--   unless a transaction restores it. Effects/Keeps and Effects/Outcome are the rules to reason on
--   actions.
-- - Database: the ORM writes with their unique constraints and column sizes. A save of named columns
--   writes the row with the object's id and raises when it is gone. Database/Rows and
--   Database/Related say what the writes leave.
-- - Ssh: `SSHManager`. Ssh/Connection is connect, disconnect, run and the `with` statement; Ssh/Users,
--   Ssh/Limits, Ssh/Traffic, Ssh/Sessions and Ssh/Health are its commands, with the text that is sent;
--   Ssh/Quote is `_q`, and Ssh/Quote/Shell an independent reading of single quotes and backslashes by
--   a POSIX shell. Ssh/Bracket, Ssh/Kept and Ssh/Tables are what connections and commands keep.
-- - Ssh/Limits, with Ssh/Quote/Shell/Injection: the commands of `set_max_logins`, and how a shell reads
--   them. Ssh/Up: nodes that answer everything.
-- - ShadowLink: the bridge requests. ShadowLink/Deploy, ShadowLink/Config and ShadowLink/Upload: the
--   service commands, the configuration file as a tree, and the deployment over SFTP.
-- - Services: `pick_best_server` in Services/Server, `create_account` and `bulk_create_accounts` in
--   Services/Create, the other operations on an account in Services/Lifecycle.
-- - Tasks and ServerTasks: the Celery tasks of accounts/tasks.py and servers/tasks.py, one module each.
-- - Services/Frame, Tasks/Frame, ServerTasks/Frame: what every operation keeps, from an interface of
--   the connection layer and of the writes (`Frame`, over `Steady` of Database/Steady), under a permit
--   for the rows that may be added, the moves, the statuses that may be set and the columns that may
--   be written (Database/Permit).
-- - Connections: the services and the tasks as the operations of one machine, which runs any sequence of
--   them. Connections/Permits gives each its permit; Connections/Tidy counts connections;
--   Connections/Ledger is the abstract history of the account table (`Evolves`), and
--   Connections/Rows what follows from it, by Database/Unique and Database/Persists;
--   Connections/Linked is the foreign key to the servers under calls that add and move no account.
-- - Celery: the beat schedule of sshvpn/celery.py, over an interface with what Celery documents of
--   `crontab` and of a schedule in seconds. Celery/Rates counts what is sent in a range of seconds, and
--   Celery/Expired puts the schedule and the machine together.
-- - Api: the serializers' validation (Serializers) and output (Output), the permission tests (Request),
--   the views (Accounts, Update, Payment, Servers, Nodes, Lists, Public, Dashboard, Auth), and Routes:
--   the routes of api/urls.py that change accounts and those that make, switch, check and deploy
--   servers, as one data type with one function that answers them. Api/Routes/Views, Changes, Nodes
--   and Frame say what requests keep, from the interface `Frame`; Api/Routes/Tidy and Rows use them for
--   connections and rows. Api/Update/Stale is about a row that changed after the view read it.
-- - Setup: servers/management/commands/setup_server.py, and the default user that `ServerListView`
--   makes on a new server. Admin: the bulk actions of accounts/admin.py and what the admin's columns
--   compute; Admin/Pages: the fields that the pages of the
--   admin and the lists of the API name. Bot: the handlers of bot/telegram_bot.py, with their
--   registration and the notification in Bot/Run. Settings: sshvpn/settings.py. Display: accounts/utils.py. Seeds: the
--   seedplans command and the data migration of the tokens.
-- - Migrations: the migration files as data (Initial, Files) beside the fields of models.py (Declared),
--   Django's state of models as an interface (State), and the scripts that the migrations run
--   (Columns, and Seeds for the tokens), with PostgreSQL's ADD COLUMN as an interface.
-- - Examples: a small panel, the theorems at it, and tests.
--
-- Conventions. A loop is structural recursion on the list of rows that its query returned. The only
-- fuel is in the decimal digits of a number, which gets one step more than the number, so there is
-- always enough. A `try ... except Exception` is `attempt`, which makes the exception a value. A
-- constant text is a list of codes, and log messages are left out.
--
-- Not modelled: the template context, the logging tree and the constants of the settings, and the
-- rest of the routes, which are configuration; the create, update and delete views that Django
-- REST framework generates for servers and plans, its pages, filters and throttling, and the list
-- of audit logs; the pages that Django's admin builds and its cells
-- of HTML; the frontend; and the ShadowLink server
-- itself, which is a Go program behind the bridge API. Sessions and CSRF tokens are Django's: a
-- request carries the user that Django found. The handlers of the bot raise at their
-- first query unless the environment lets them run it. Requests
-- and tasks are not interleaved, but for the save of an account update after a concurrent write.
pub mod Common
pub mod Models
pub mod Effects
pub mod Database
pub mod Ssh
pub mod ShadowLink
pub mod Services
pub mod Tasks
pub mod ServerTasks
pub mod Api
pub mod Setup
pub mod Admin
pub mod Bot
pub mod Display
pub mod Seeds
pub mod Connections
pub mod Examples
pub mod Migrations
pub mod Celery
pub mod Settings
