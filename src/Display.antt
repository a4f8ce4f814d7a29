-- ===== src/Display.antt =====
-- accounts/utils.py: the text of the QR code, its data URI, and the SSH configuration snippet.
-- `qrcode` is a parameter, the bytes of the PNG image of a text.
use ssh_panel_vpn.Common.{ℕ, [], ◌∷◌, ◌++◌}
use ssh_panel_vpn.Common.Text.{Text, codes, concat, decimal}
use ssh_panel_vpn.Ssh.Limits.Base64.{b64encode}

unfoldable pub credentials_uri : Text → ℕ → Text → Text → Text
unfolding decimal concat
credentials_uri host port username password = concat (
    codes "ssh://"
    ∷ username
    ∷ codes ":"
    ∷ password
    ∷ codes "@"
    ∷ host
    ∷ codes ":"
    ∷ decimal port
    ∷ codes "#"
    ∷ username
    ∷ [])

unfoldable pub generate_credentials_qr : (Text → Text) → Text → ℕ → Text → Text → Text
unfolding credentials_uri b64encode
generate_credentials_qr png host port username password =
    codes "data:image/png;base64," ++ b64encode (png (credentials_uri host port username password))

unfoldable pub generate_config_text : Text → ℕ → Text → Text → Text
unfolding decimal concat
generate_config_text host port username password = concat (
    codes "Host vpn-"
    ∷ username
    ∷ codes "\n    HostName "
    ∷ host
    ∷ codes "\n    Port "
    ∷ decimal port
    ∷ codes "\n    User "
    ∷ username
    ∷ codes "\n    # Password: "
    ∷ password
    ∷ codes "\n"
    ∷ [])
