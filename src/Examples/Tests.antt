-- ===== src/Examples/Tests.antt =====
-- Definitions of the development at concrete inputs.
use ssh_panel_vpn.Common.{◌≡◌, refl}
use ssh_panel_vpn.Common.Text.{codes}
use ssh_panel_vpn.Ssh.Quote.{q}
use ssh_panel_vpn.Services.Create.{token_text}

q_of_quote : q (codes "a'b") ≡ codes "'a'\\''b'"
unfolding q codes
q_of_quote = refl

token_text-digits :
    token_text 0x0123456789abcdef0123456789abcdef ≡ codes "01234567-89ab-cdef-0123-456789abcdef"
unfolding token_text codes
token_text-digits = refl
