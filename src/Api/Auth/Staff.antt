-- ===== src/Api/Auth/Staff.antt =====
-- The sessions of a browser that logs in and out.
use ssh_panel_vpn.Common.{
  ◌≡◌, refl, Bool, true, false, Option, none, some, List, [], ◌∷◌, if◌then◌else◌,
}
use mathlib.Core.Path.{subst}
use ssh_panel_vpn.Common.Text.{Text}
use ssh_panel_vpn.Effects.{ok}
use ssh_panel_vpn.Services.Create.{given_or}
use ssh_panel_vpn.Api.Auth.{
  StaffUser, Session, LoginResponse, admit, login_view, logout_view, me_view,
}

pub data Visit : Type 0 where
  login : Option Text → Option Text → Visit
  logout : Visit

module _ (authenticate : Text → Text → Option StaffUser) where
  -- The session after a list of visits.
  unfoldable pub browse : List Visit → Session → Session
  browse [] session = session
  browse (login username password ∷ visits) session =
      browse visits (login_view authenticate username password session).1
  browse (logout ∷ visits) session = browse visits (logout_view session).1

  -- A user of the session is staff, and a password of theirs was given.
  abbrev pub IsStaffSession : Session → Type 0
  IsStaffSession none = Unit
  IsStaffSession (some user) =
      (user.is_staff ≡ true)
      × ((username : Text) × (password : Text) × (authenticate username password ≡ some user))

  -- The branch on `is_staff`.
  admitted-IsStaffSession :
      (user : StaffUser) (session : Session) (staff : Bool) (welcomed refused : LoginResponse)
      → user.is_staff ≡ staff
      → IsStaffSession session
      → ((username : Text) × (password : Text) × (authenticate username password ≡ some user))
      → IsStaffSession
          (if◌then◌else◌ {A = LoginResponse × Session} staff
            (welcomed, some user)
            (refused, session)).1
  admitted-IsStaffSession user session true welcomed refused e h given = (e, given)
  admitted-IsStaffSession user session false welcomed refused e h given = h

  admit-IsStaffSession :
      (username password : Text) (found : Option StaffUser) (session : Session)
      → authenticate username password ≡ found
      → IsStaffSession session
      → IsStaffSession (admit found session).1
  unfolding admit
  admit-IsStaffSession username password none session e h = h
  admit-IsStaffSession username password (some user) session e h =
      admitted-IsStaffSession user session user.is_staff _ _ refl h (username, password, e)

  browse-IsStaffSession :
      (visits : List Visit) (session : Session)
      → IsStaffSession session
      → IsStaffSession (browse visits session)
  unfolding browse login_view logout_view
  browse-IsStaffSession [] session h = h
  browse-IsStaffSession (login username password ∷ visits) session h =
      browse-IsStaffSession visits _
        (admit-IsStaffSession (given_or username []) (given_or password []) _ session refl h)
  browse-IsStaffSession (logout ∷ visits) none h = browse-IsStaffSession visits none tt
  browse-IsStaffSession (logout ∷ visits) (some user) h = browse-IsStaffSession visits none tt

  me_of :
      (session : Session) (user : StaffUser)
      → me_view session ≡ ok user
      → IsStaffSession session
      → IsStaffSession (some user)
  unfolding me_view
  me_of none user e h = absurd (cc)
  me_of (some other) user e h =
      let same : other ≡ user = cc in subst (λ u. IsStaffSession (some u)) same h

  -- Whatever a browser without a session sends to the login and logout views, the user that `me_view`
  -- then answers is staff, and `authenticate` accepted a username and a password for them.
  pub me_view_staff :
      (visits : List Visit) (user : StaffUser)
      → me_view (browse visits none) ≡ ok user
      → IsStaffSession (some user)
  me_view_staff visits user e =
      me_of (browse visits none) user e (browse-IsStaffSession visits none tt)
