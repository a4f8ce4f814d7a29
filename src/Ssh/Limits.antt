-- ===== src/Ssh/Limits.antt =====
-- `set_max_logins` and the PAM script that it installs.
pub mod Base64
use ssh_panel_vpn.Common.{
  ℕ, Bool, true, false, ◌||◌, ◌&&◌, List, [], ◌∷◌, ◌++◌, ◌==◌, if◌then◌else◌,
}
use ssh_panel_vpn.Common.Text.{Text, codes, decimal}
use ssh_panel_vpn.Effects.{Act, Manager, CommandResult, pure, ◌>>=◌, ◌>>◌}
use ssh_panel_vpn.Ssh.Connection.{run}
use ssh_panel_vpn.Ssh.Quote.{q}
use Base64.{b64encode}

-- `"ok" in check.stdout`
unfoldable pub says_ok : Text → Bool
says_ok [] = false
says_ok (c ∷ []) = false
says_ok (c ∷ d ∷ s) = (c == 111 && d == 107) || says_ok (d ∷ s)

maxlogin_script : Text
unfolding codes
maxlogin_script =
    codes "#!/bin/bash\n"
    ++ (codes "USER=\"${PAM_USER:-}\"\n"
        ++ (codes "[ -z \"$USER\" ] && exit 0\n"
            ++ (codes "UID_NUM=$(id -u \"$USER\" 2>/dev/null) || exit 0\n"
                ++ (codes "[ \"$UID_NUM\" -lt 1000 ] && exit 0\n"
                    ++ (codes
                          "MAX=$(awk -v u=\"$USER\" '$1==u && /maxlogins/{print $4}' /etc/security/limits.conf 2>/dev/null)\n"
                        ++ (codes "[ -z \"$MAX\" ] && exit 0\n"
                            ++ (codes "[ \"$MAX\" = \"0\" ] && exit 0\n"
                                ++ (codes
                                      "CURRENT=$(pgrep -cu \"$USER\" sshd 2>/dev/null) || exit 0\n"
                                    ++ (codes "[ \"$CURRENT\" -gt \"$MAX\" ] && exit 1\n"
                                        ++ codes "exit 0\n")))))))))

-- `_ensure_maxlogin_script`
unfoldable pub ensure_maxlogin_script : Manager → Act (Unit {0})
unfolding maxlogin_script b64encode says_ok
ensure_maxlogin_script ssh = do
  check ← run ssh (
      codes
        "test -f /etc/ssh/check_maxlogins.sh && grep -q 'pgrep.*sshd' /etc/ssh/check_maxlogins.sh && echo ok")
  if says_ok check.stdout then pure tt else do
    run ssh (
        codes "echo '"
        ++ (b64encode maxlogin_script ++ codes "' | base64 -d > /etc/ssh/check_maxlogins.sh"))
    run ssh (codes "chmod +x /etc/ssh/check_maxlogins.sh")
    run ssh (
        codes
          "grep -q 'check_maxlogins' /etc/pam.d/sshd || sed -i '/^@include common-auth/i auth required pam_exec.so quiet /etc/ssh/check_maxlogins.sh' /etc/pam.d/sshd")
    pure tt

-- The line of limits.conf. The username stands in it as it is.
unfoldable pub limits_line : Text → ℕ → Text
limits_line username max_logins = username ++ (codes "  hard  maxlogins  " ++ decimal max_logins)

unfoldable pub max_logins_command : Text → ℕ → Text
unfolding limits_line
max_logins_command username max_logins =
    codes "grep -q '^"
    ++ (q username
        ++ (codes "' /etc/security/limits.conf && sed -i '/^"
            ++ (q username
                ++ (codes "/c\\"
                    ++ (limits_line username max_logins
                        ++ (codes "' /etc/security/limits.conf || echo '"
                            ++ (limits_line username max_logins
                                ++ codes "' >> /etc/security/limits.conf")))))))

unfoldable pub set_max_logins : Manager → Text → ℕ → Act CommandResult
unfolding ensure_maxlogin_script max_logins_command
set_max_logins ssh username max_logins = do
  run ssh (max_logins_command username max_logins)
  ensure_maxlogin_script ssh
  pure (record { exit_code = 0; stdout = []; stderr = [] })
