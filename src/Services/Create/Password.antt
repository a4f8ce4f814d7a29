-- ===== src/Services/Create/Password.antt =====
-- `generate_password` of accounts/models.py: characters drawn from letters and digits.
pub mod Chars
use ssh_panel_vpn.Common.{ℕ, zero, suc, ◌%◌, [], ◌∷◌, get_or}
use ssh_panel_vpn.Common.Text.{Text, codes}
use ssh_panel_vpn.Effects.{Act, draw, pure, ◌>>=◌}

-- `string.ascii_letters + string.digits`
unfoldable pub alphabet : Text
unfolding codes
alphabet = codes "abcdefghijklmnopqrstuvwxyzABCDEFGHIJKLMNOPQRSTUVWXYZ0123456789"

-- `secrets.choice(alphabet)`: a draw is an index into the 62 characters.
unfoldable pub choice : ℕ → ℕ
unfolding alphabet
choice n = get_or alphabet (n % 62) 97

unfoldable pub draw_chars : ℕ → Act Text
unfolding choice
draw_chars zero = pure []
draw_chars (suc n) = do c ← draw; rest ← draw_chars n; pure (choice c ∷ rest)

unfoldable pub generate_password : Act Text
unfolding draw_chars
generate_password = draw_chars 12
