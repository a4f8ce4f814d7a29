-- ===== src/Settings/Loaded.antt =====
-- What the settings say once they are loaded.
use ssh_panel_vpn.Common.{Bool, true, false, ◌≡◌, Option, none, some, is_some}
use ssh_panel_vpn.Common.Text.{Text}
use ssh_panel_vpn.Settings.{Hardening, Settings}

-- Nothing is hardened under DEBUG; otherwise the cookies are secure and HSTS is sent exactly with SSL.
abbrev pub IsHardened : Bool → Bool → Option Hardening → Type 0
IsHardened true use_ssl o = o ≡ none
IsHardened false use_ssl o =
    (h : Hardening) × (o ≡ some h)
    × (h.ssl_redirect ≡ false)
    × (h.session_cookie_secure ≡ use_ssl)
    × (h.csrf_cookie_secure ≡ use_ssl)
    × (is_some h.hsts ≡ use_ssl)
