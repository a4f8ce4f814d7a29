-- ===== src/Bot/Run.antt =====
-- `run_bot` and `send_admin_notification` of bot/telegram_bot.py. The telegram library and asyncio are
-- parameters: whether a message is sent, and what `get_event_loop` finds.
use ssh_panel_vpn.Common.{ℕ, Bool, List, [], ◌∷◌, ◌||◌, if◌then◌else◌}
use ssh_panel_vpn.Common.Text.{Text, codes, is_empty}
use ssh_panel_vpn.Effects.{Act, pure, ◌>>=◌, attempt}
use ssh_panel_vpn.Settings.{Settings}
use ssh_panel_vpn.Bot.{start, plans_cmd, buy_cmd, status_cmd}

-- `asyncio.get_event_loop()` raises, or gives a loop that runs or one that does not.
pub data EventLoop : Type 0 where
  absent running idle : EventLoop

-- A message that is handed to the loop is sent later; an exception is only logged.
pub data Delivery : Type 0 where
  unconfigured delivered failed : Delivery
  scheduled : Text → Text → Delivery

unfoldable pub send_admin_notification :
    (Text → Text → Text → Bool) → EventLoop → Settings → Text → Delivery
send_admin_notification sends loop settings message =
    let chat_id = settings.telegram_admin_chat_id in
    if is_empty settings.telegram_bot_token || is_empty chat_id then unconfigured else elim loop [
      | absent ↦ failed
      | running ↦ scheduled chat_id message
      | idle ↦ if sends settings.telegram_bot_token chat_id message then delivered else failed
    ]

pub data Command : Type 0 where
  start_command help_command plans_command buy_command status_command : Command

-- The handler that `run_bot` registers for a command, with `context.args`; `help_cmd` calls `start`.
unfoldable pub handle : Command → List Text → Act (List Text)
handle start_command args = pure start
handle help_command args = pure start
handle plans_command args = plans_cmd
handle buy_command args = buy_cmd args
handle status_command args = status_cmd args

-- The names under which the handlers are registered.
unfoldable pub handlers : List (Text × Command)
handlers =
    (codes "start", start_command)
    ∷ (codes "help", help_command)
    ∷ (codes "plans", plans_command)
    ∷ (codes "buy", buy_command)
    ∷ (codes "status", status_command)
    ∷ []

pub data BotRun : Type 0 where
  exits : ℕ → BotRun
  polls : Text → List (Text × Command) → BotRun

unfoldable pub run_bot : Settings → BotRun
unfolding handlers
run_bot settings =
    if is_empty settings.telegram_bot_token
    then exits 1
    else polls settings.telegram_bot_token handlers

-- Messages one after another; a handler that raises does not stop the bot.
unfoldable pub converse : List (Command × List Text) → Act (Unit {0})
unfolding handle
converse [] = pure tt
converse ((command, args) ∷ messages) = attempt (handle command args) >>= λ _. converse messages
