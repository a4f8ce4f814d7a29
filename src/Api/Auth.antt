-- ===== src/Api/Auth.antt =====
-- `AuthLoginView`, `AuthLogoutView` and `AuthMeView`. `authenticate` of Django is a parameter; the
-- session is the user that the browser is logged in as.
pub mod Staff
use ssh_panel_vpn.Common.{ℕ, Bool, Option, none, some, [], if◌then◌else◌}
use ssh_panel_vpn.Common.Text.{Text, codes}
use ssh_panel_vpn.Effects.{Result, ok, err, permission_denied}
use ssh_panel_vpn.Services.Create.{given_or}

pub record StaffUser : Type 0 where
  pub id : ℕ
  pub username : Text
  pub email : Text
  pub is_staff : Bool
  pub is_superuser : Bool

abbrev pub Session : Type 0
Session = Option StaffUser

pub data LoginResponse : Type 0 where
  -- the user's fields; the CSRF token is left out
  welcome : StaffUser → LoginResponse
  rejected : ℕ → Text → LoginResponse

-- The rest of `post`, on what `authenticate` returned.
unfoldable pub admit : Option StaffUser → Session → LoginResponse × Session
admit none session = (rejected 401 (codes "Invalid credentials."), session)
admit (some user) session =
    if user.is_staff
    then (welcome user, some user)
    else (rejected 403 (codes "Access denied. Admin privileges required."), session)

unfoldable pub login_view :
    (Text → Text → Option StaffUser) → Option Text → Option Text → Session → LoginResponse × Session
unfolding admit
login_view authenticate username password =
    admit (authenticate (given_or username []) (given_or password []))

unfoldable pub logout_view : Session → Result Text × Session
logout_view none = (err permission_denied, none)
logout_view (some user) = (ok (codes "Logged out."), none)

unfoldable pub me_view : Session → Result StaffUser
me_view none = err permission_denied
me_view (some user) = ok user
