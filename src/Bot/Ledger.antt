-- ===== src/Bot/Ledger.antt =====
-- What the messages to the bot do to the accounts.
use ssh_panel_vpn.Common.{◌≡◌, refl, Bool, true, false, if◌then◌else◌, List, [], ◌∷◌}
use ssh_panel_vpn.Common.Text.{Text}
use ssh_panel_vpn.Models.{Account, Integer, Plan}
use ssh_panel_vpn.Effects.{
  Env, World, Exception, Act, err, account_error, synchronous_only_operation,
}
use ssh_panel_vpn.Effects.Keeps.{
  Keeps, Keeps-bind, Keeps-pure, Keeps-raise, Keeps-attempt, Keeps-gets, Keeps-on_result,
  Keeps-on_option, get_db-Keeps,
}
use ssh_panel_vpn.Database.Permit.{Permit, Evolves, unchanged}
use ssh_panel_vpn.Database.Steady.{read_now-Steady, server_of-Steady}
use ssh_panel_vpn.Services.Frame.{Frame, create_account-Keeps}
use ssh_panel_vpn.Connections.Permits.{nothing}
use ssh_panel_vpn.Connections.Ledger.{Grown-Frame}
use ssh_panel_vpn.Bot.{
  in_loop, plans_cmd, place_order, order_failed, buy_plan, buy_cmd, status_messages, found_status,
  status_cmd,
}
use ssh_panel_vpn.Bot.Run.{
  Command, start_command, help_command, plans_command, buy_command, status_command, handle,
  converse,
}

in_loop-Keeps : {A : Type 0} {P : World → Type 0} {m : Act A} → Keeps P m → Keeps P (in_loop m)
unfolding in_loop
in_loop-Keeps {P = P} {m} k = record { at = λ env w h. allowed env w env.async_unsafe h }
  where
    allowed :
        (env : Env) (w : World) (b : Bool)
        → P w
        → P (if b then m env w else (err synchronous_only_operation, w)).1
    allowed env w true h = k.at env w h
    allowed env w false h = h

module _ {may : Permit} {P Q : World → Type 0} (frame : Frame may P Q)
    (adds : may.adds ≡ true) where
  order_failed-Keeps : (e : Exception) → Keeps Q (order_failed e)
  unfolding order_failed
  order_failed-Keeps (account_error t) = Keeps-pure _
  order_failed-Keeps _ = Keeps-raise _

  place_order-Keeps : (username : Text) (plan : Plan) → Keeps Q (place_order username plan)
  unfolding place_order
  place_order-Keeps username plan =
      Keeps-bind _ _ (Keeps-attempt _ (in_loop-Keeps (create_account-Keeps frame adds _))) (λ r.
        Keeps-on_result r _ _
          (λ account.
            Keeps-bind _ _ (server_of-Steady frame.outside account) (λ server. Keeps-pure _))
          order_failed-Keeps)

  buy_plan-Keeps : (username : Text) (plan_id : Integer) → Keeps Q (buy_plan username plan_id)
  unfolding buy_plan
  buy_plan-Keeps username plan_id =
      Keeps-bind _ _ (in_loop-Keeps get_db-Keeps)
        (λ db. Keeps-on_option _ _ _ (Keeps-pure _) (place_order-Keeps username))

  buy_cmd-Keeps : (args : List Text) → Keeps Q (buy_cmd args)
  unfolding buy_cmd
  buy_cmd-Keeps [] = Keeps-pure _
  buy_cmd-Keeps (plan_id ∷ []) = Keeps-pure _
  buy_cmd-Keeps (plan_id ∷ name ∷ args) =
      Keeps-bind _ _ (Keeps-gets _)
        (λ username. Keeps-on_option _ _ _ (Keeps-pure _) (buy_plan-Keeps username))

  status_messages-Keeps : (l : List Account) → Keeps Q (status_messages l)
  unfolding status_messages
  status_messages-Keeps [] = Keeps-pure _
  status_messages-Keeps (acc ∷ l) = Keeps-bind _ _ (server_of-Steady frame.outside acc) λ server.
      Keeps-bind _ _ (read_now-Steady frame.outside)
        λ now. Keeps-bind _ _ (status_messages-Keeps l) λ rest. Keeps-pure _

  found_status-Keeps : (username : Text) (l : List Account) → Keeps Q (found_status username l)
  unfolding found_status
  found_status-Keeps username [] = Keeps-pure _
  found_status-Keeps username (acc ∷ l) = status_messages-Keeps (acc ∷ l)

  status_cmd-Keeps : (args : List Text) → Keeps Q (status_cmd args)
  unfolding status_cmd
  status_cmd-Keeps [] = Keeps-pure _
  status_cmd-Keeps (name ∷ args) =
      Keeps-bind _ _ (Keeps-gets _)
        λ username. Keeps-bind _ _ (in_loop-Keeps get_db-Keeps) λ db. found_status-Keeps username _

  handle-Keeps : (command : Command) (args : List Text) → Keeps Q (handle command args)
  unfolding handle plans_cmd
  handle-Keeps start_command args = Keeps-pure _
  handle-Keeps help_command args = Keeps-pure _
  handle-Keeps plans_command args = Keeps-bind _ _ (in_loop-Keeps get_db-Keeps) (λ db. Keeps-pure _)
  handle-Keeps buy_command args = buy_cmd-Keeps args
  handle-Keeps status_command args = status_cmd-Keeps args

  converse-Keeps : (messages : List (Command × List Text)) → Keeps Q (converse messages)
  unfolding converse
  converse-Keeps [] = Keeps-pure tt
  converse-Keeps ((command, args) ∷ messages) =
      Keeps-bind _ _ (Keeps-attempt _ (handle-Keeps command args)) (λ r. converse-Keeps messages)

abbrev pub adding : Permit
adding = record nothing { adds = true }

-- Any sequence of messages to the bot, from anyone and with any arguments, whether or not Django lets
-- the handlers run their queries, refines the ledger that only opens accounts: each new row is active,
-- fits its columns and clashes with none, and no row that was there is changed or lost.
pub converse-Evolves :
    (messages : List (Command × List Text)) (env : Env) (w : World)
    → Evolves adding w.db.accounts (converse messages env w).1.db.accounts
converse-Evolves messages env w =
    (converse-Keeps (Grown-Frame adding w.db.accounts) refl messages).at env w unchanged
