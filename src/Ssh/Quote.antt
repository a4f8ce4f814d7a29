-- ===== src/Ssh/Quote.antt =====
-- `_q`: a value between single quotes, each quote in it written as `'\''`.
pub mod Shell
use ssh_panel_vpn.Common.{
  ℕ, ◌≡◌, refl, Bool, true, false, ◌||◌, Option, none, some, List, [], ◌∷◌, ◌++◌, ◌==◌,
  if◌then◌else◌, arith, Bool-cases,
}
use ssh_panel_vpn.Common.Text.{Text, codes}

-- `value.replace("'", "'\\''")`; 39 is the quote and 92 the backslash.
unfoldable pub escape_quotes : Text → Text
escape_quotes [] = []
escape_quotes (c ∷ s) = (if c == 39 then 39 ∷ 92 ∷ 39 ∷ 39 ∷ [] else c ∷ []) ++ escape_quotes s

unfoldable pub q : Text → Text
unfolding escape_quotes
q value = 39 ∷ escape_quotes value ++ 39 ∷ []
