-- ===== src/Ssh/Limits/Base64.antt =====
-- `base64.b64encode(script.encode()).decode()` of an ASCII text.
use ssh_panel_vpn.Common.{ℕ, ◌+◌, ◌-◌, ◌*◌, ◌/◌, ◌%◌, ◌≡◌, refl, [], ◌∷◌, ltb, ◌==◌, if◌then◌else◌}
use ssh_panel_vpn.Common.Text.{Text, codes}

-- The character of six bits.
b64_char : ℕ → ℕ
b64_char n =
    if ltb n 26
    then 65 + n
    else if ltb n 52
    then 97 + (n - 26)
    else if ltb n 62
    then 48 + (n - 52)
    else if n == 62
    then 43
    else 47

unfoldable pub b64encode : Text → Text
unfolding b64_char
b64encode [] = []
b64encode (a ∷ []) = b64_char (a / 4) ∷ b64_char (a % 4 * 16) ∷ 61 ∷ 61 ∷ []
b64encode (a ∷ b ∷ []) =
    b64_char (a / 4) ∷ b64_char (a % 4 * 16 + b / 16) ∷ b64_char (b % 16 * 4) ∷ 61 ∷ []
b64encode (a ∷ b ∷ c ∷ s) =
    b64_char (a / 4)
    ∷ b64_char (a % 4 * 16 + b / 16)
    ∷ b64_char (b % 16 * 4 + c / 64)
    ∷ b64_char (c % 64)
    ∷ b64encode s

b64encode-light : b64encode (codes "light wo") ≡ codes "bGlnaHQgd28="
unfolding b64encode codes
b64encode-light = refl
