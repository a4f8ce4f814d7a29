-- ===== src/Api/Routes/Tidy.antt =====
-- The connections that requests open and close.
use ssh_panel_vpn.Common.{ℕ, not, Option, List, arith}
use ssh_panel_vpn.Common.Text.{Text}
use ssh_panel_vpn.Models.{Account, Db}
use ssh_panel_vpn.Effects.{Env, World, Manager, raise, data_error, integrity_error, modify}
use ssh_panel_vpn.Effects.Keeps.{Keeps, Keeps-bind, Keeps-pure, Keeps-raise, Keeps-if, get_db-Keeps}
use ssh_panel_vpn.Database.{fits_columns}
use ssh_panel_vpn.Database.Steady.{read_now-Steady}
use ssh_panel_vpn.Connections.Held.{IsHeld, IsTidy}
use ssh_panel_vpn.Connections.Tidy.{IsTidy-Frame}
use ssh_panel_vpn.Services.Frame.{Frame}
use ssh_panel_vpn.ShadowLink.Upload.{upload}
use ssh_panel_vpn.Api.Serializers.{UpdateRequest}
use ssh_panel_vpn.Api.Request.{User}
use ssh_panel_vpn.Api.Update.{clashes_elsewhere, save_whole, update_account_view}
use ssh_panel_vpn.Api.Routes.{Route, serve}
use ssh_panel_vpn.Api.Routes.Views.{
  everything, guarded-Keeps, get_account_or_404-Keeps, require_valid-Keeps,
}
use ssh_panel_vpn.Api.Routes.Changes.{new_expiry-Keeps, push_saved-Keeps}
use ssh_panel_vpn.Api.Routes.Frame.{serve-Keeps}

abbrev frame : Frame everything IsHeld IsTidy
frame = IsTidy-Frame everything

upload-IsHeld : (ssh : Manager) (path : Text) → Keeps IsHeld (upload ssh path)
unfolding upload
upload-IsHeld ssh path = record { at = λ env w h. ground (arith) }

modify-IsTidy : (f : Db → Db) → Keeps IsTidy (modify f)
unfolding modify
modify-IsTidy f = record { at = λ env w h. h }

save_whole-IsTidy : (a : Account) → Keeps IsTidy (save_whole a)
unfolding save_whole
save_whole-IsTidy a = Keeps-bind _ _ (read_now-Steady frame.outside) λ now.
    let saved : Account = record a { updated_at = now } in
    Keeps-bind _ _ get_db-Keeps λ db.
      Keeps-if (not (fits_columns saved)) (raise data_error) _ (Keeps-raise _) (
        Keeps-if (clashes_elsewhere saved db.accounts) (raise integrity_error) _ (Keeps-raise _)
          (Keeps-bind (modify _) _ (modify-IsTidy _) (λ _. Keeps-pure saved)))

update_account_view-IsTidy :
    (user : Option User) (pk : ℕ) (body : UpdateRequest)
    → Keeps IsTidy (update_account_view user pk body)
unfolding update_account_view
update_account_view-IsTidy user pk body = guarded-Keeps frame _ user _ (
    Keeps-bind _ _ (get_account_or_404-Keeps frame pk) λ acc.
      Keeps-bind _ _ (require_valid-Keeps frame _) λ _.
        Keeps-bind _ _ (new_expiry-Keeps frame acc _) λ date.
          Keeps-bind _ _ (save_whole-IsTidy _)
            λ saved. Keeps-bind _ _ (push_saved-Keeps frame _ saved) λ _. Keeps-pure _)

-- The web application leaks no connection either: after any sequence of requests to the routes that
-- change accounts and those that make, switch, check and deploy servers, by whomever, with whatever bodies, and whatever the nodes answer, as
-- many SSH connections were closed as were opened, if that was so before.
pub serve-IsTidy :
    (requests : List (Route × Option User)) (env : Env) (w : World)
    → IsTidy w
    → IsTidy (serve requests env w).1
serve-IsTidy requests env w h =
    (serve-Keeps frame upload-IsHeld update_account_view-IsTidy requests).at env w h
