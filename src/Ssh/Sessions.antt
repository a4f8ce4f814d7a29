-- ===== src/Ssh/Sessions.antt =====
-- `get_active_sessions`: the lines of `ps`, the user of each `sshd:` process and its address.
mod Address
use ssh_panel_vpn.Common.{
  ℕ, ◌≡◌, refl, Bool, true, false, not, ◌||◌, ◌&&◌, Option, none, some, List, [], ◌∷◌, ◌++◌, ◌==◌,
  length, if◌then◌else◌,
}
use ssh_panel_vpn.Common.Text.{
  Text, codes, strip, text_eq, is_space, lstrip, split_at_spaces, splitlines, parse_int,
  starts_with, is_empty,
}
use ssh_panel_vpn.Effects.{
  Act, Manager, CommandResult, pure, or_raise, value_error, ◌>>=◌, on_result, on_option,
}
use ssh_panel_vpn.Ssh.Connection.{run, succeeded}
use Address.{peer_address, log_address}

-- One dictionary of the list that is returned.
pub record SessionInfo : Type 0 where
  pub user : Text
  pub pid : ℕ
  pub client_ip : Option Text

-- The characters after the first up to an `@` or the end, with no space before it.
take_user : Text → Option Text
take_user [] = some []
take_user (c ∷ s) =
    let more : Option Text = elim (take_user s) [ none ↦ none | some t ↦ some (c ∷ t) ] in
    if c == 64 then some [] else if is_space c then none else more

-- `\S+?(?:@|$)` where the spaces end
user_at : Text → Option Text
unfolding take_user is_space
user_at [] = none
user_at (c ∷ s) =
    if is_space c then none else elim (take_user s) [ none ↦ none | some t ↦ some (c ∷ t) ]

after_spaces : Text → Option Text
unfolding user_at lstrip
after_spaces [] = none
after_spaces (c ∷ s) = if is_space c then user_at (lstrip s) else none

-- `re.match(r"sshd:\s+(\S+?)(?:@|$)", args)`, the first group
unfoldable pub sshd_user : Text → Option Text
unfolding after_spaces starts_with codes
sshd_user args = elim (starts_with (codes "sshd:") args) [ none ↦ none | some s ↦ after_spaces s ]

-- `user in ("root", "sshd", "priv")`
unfoldable pub is_system_user : Text → Bool
unfolding text_eq codes
is_system_user user =
    text_eq user (codes "root") || text_eq user (codes "sshd") || text_eq user (codes "priv")

-- The two commands that look for the address of a process.
unfoldable pub address_in_log : Manager → Text → Act (Option Text)
unfolding log_address
address_in_log ssh pid = do
  who_result ←
      run ssh
        (codes "grep -a 'sshd.*" ++ (pid ++ codes "' /var/log/auth.log 2>/dev/null | tail -1"))
  pure (log_address who_result)

unfoldable pub find_address : Manager → Text → Act (Option Text)
unfolding peer_address
find_address ssh pid = do
  ss_result ←
      run ssh (codes "ss -tnp 2>/dev/null | grep 'pid=" ++ (pid ++ codes "' | awk '{print $5}'"))
  on_option (peer_address ss_result) (address_in_log ssh pid) (λ ip. pure (some ip))

-- One round of the loop; `none` is a `continue`.
unfoldable pub session_of_user : Manager → Text → Text → Act (Option SessionInfo)
unfolding is_system_user parse_int
session_of_user ssh pid user = if is_system_user user then pure none else do
  ip ← find_address ssh pid
  n ← or_raise value_error (parse_int pid)
  pure (some (record { user = user; pid = n; client_ip = ip }))

unfoldable pub session_of_parts : Manager → List Text → Act (Option SessionInfo)
unfolding sshd_user
session_of_parts ssh [] = pure none
session_of_parts ssh (pid ∷ []) = pure none
session_of_parts ssh (pid ∷ owner ∷ []) = pure none
session_of_parts ssh (pid ∷ owner ∷ args ∷ _) =
    on_option (sshd_user args) (pure none) (session_of_user ssh pid)

unfoldable pub session_of_line : Manager → Text → Act (Option SessionInfo)
unfolding strip split_at_spaces
session_of_line ssh line = session_of_parts ssh (split_at_spaces 2 (strip line))

abbrev add : Option SessionInfo → List SessionInfo → List SessionInfo
add none l = l
add (some s) l = s ∷ l

unfoldable pub sessions_of_lines : Manager → List Text → Act (List SessionInfo)
sessions_of_lines ssh [] = pure []
sessions_of_lines ssh (line ∷ lines) = do
  s ← session_of_line ssh line
  rest ← sessions_of_lines ssh lines
  pure (add s rest)

unfoldable pub get_active_sessions : Manager → Act (List SessionInfo)
unfolding splitlines
get_active_sessions ssh = do
  result ← run ssh (codes "ps -eo pid,user,args --no-headers | grep 'sshd:' | grep -v grep")
  if not (succeeded result) || is_empty result.stdout
      then pure []
      else sessions_of_lines ssh (splitlines result.stdout)

sshd_user-login : sshd_user (codes "sshd: alice@pts/0") ≡ some (codes "alice")
unfolding sshd_user codes
sshd_user-login = refl

sshd_user-monitor : sshd_user (codes "sshd: alice [priv]") ≡ none
unfolding sshd_user codes
sshd_user-monitor = refl
