-- ===== src/Ssh/Traffic.antt =====
-- `setup_traffic_accounting` and `get_user_bandwidth_bytes`: one iptables chain for each user.
use ssh_panel_vpn.Common.{
  ℕ, Bool, false, not, ◌||◌, none, some, List, [], ◌∷◌, ◌++◌, length, every, if◌then◌else◌,
}
use ssh_panel_vpn.Common.Text.{
  Text, codes, strip, is_digit, split_at_spaces, digits_value, is_empty,
}
use ssh_panel_vpn.Effects.{Act, Manager, CommandResult, pure, ◌>>=◌, ◌>>◌}
use ssh_panel_vpn.Ssh.Connection.{run, succeeded}
use ssh_panel_vpn.Ssh.Quote.{q}

-- `s.isdigit()` of ASCII text: not empty, and digits only.
unfoldable pub isdigit : Text → Bool
isdigit [] = false
isdigit (c ∷ s) = every is_digit (c ∷ s)

chain_of : Text → Text
chain_of username = codes "SSHVPN_" ++ username

unfoldable pub setup_traffic_accounting : Manager → Text → Act (Unit {0})
unfolding chain_of isdigit strip
setup_traffic_accounting ssh username = do
  result ← run ssh (codes "id -u " ++ q username)
  let uid = strip result.stdout
  let chain = chain_of username
  if not (isdigit uid) then pure tt else do
    exists ← run ssh (codes "iptables -L " ++ (chain ++ codes " -n 2>/dev/null"))
    if succeeded exists then pure tt else do
      run ssh (codes "iptables -N " ++ chain)
      run ssh (codes "iptables -A OUTPUT -m owner --uid-owner " ++ (uid ++ (codes " -j " ++ chain)))
      run ssh (codes "iptables -A " ++ (chain ++ codes " -j RETURN"))
      pure tt

-- The second word of the line, when it is a number.
unfoldable pub second_number : List Text → ℕ
unfolding isdigit digits_value
second_number [] = 0
second_number (a ∷ []) = 0
second_number (a ∷ b ∷ rest) =
    if isdigit b then elim (digits_value 0 b) [ none ↦ 0 | some n ↦ n ] else 0

unfoldable pub counted_bytes : CommandResult → ℕ
unfolding second_number strip split_at_spaces
counted_bytes result =
    let text = strip result.stdout in
    if not (succeeded result) || is_empty text
    then 0
    else second_number (split_at_spaces (length text) text)

unfoldable pub get_user_bandwidth_bytes : Manager → Text → Act ℕ
unfolding chain_of counted_bytes
get_user_bandwidth_bytes ssh username = do
  result ←
      run ssh (codes "iptables -L " ++ (chain_of username ++ codes " -nvx 2>/dev/null | tail -1"))
  pure (counted_bytes result)
