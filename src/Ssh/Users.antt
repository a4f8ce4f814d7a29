-- ===== src/Ssh/Users.antt =====
-- The user management commands of `SSHManager`.
use ssh_panel_vpn.Common.{Bool, ◌++◌}
use ssh_panel_vpn.Common.Text.{Text, codes}
use ssh_panel_vpn.Effects.{Act, Manager, CommandResult, pure, ◌>>=◌, ◌>>◌}
use ssh_panel_vpn.Ssh.Connection.{run, succeeded}
use ssh_panel_vpn.Ssh.Quote.{q}

-- `a b`: pieces of a command side by side.
abbrev chpasswd : Text → Text → Text
chpasswd username password =
    codes "echo " ++ (q username ++ (codes ":" ++ (q password ++ codes " | chpasswd")))

unfoldable pub create_user : Manager → Text → Text → Act CommandResult
create_user ssh username password = do
  run ssh (codes "useradd -m -s /bin/false " ++ q username)
  run ssh (chpasswd username password)

unfoldable pub delete_user : Manager → Text → Act CommandResult
delete_user ssh username = do
  run ssh (codes "pkill -u " ++ (q username ++ codes " || true"))
  run ssh (codes "userdel -rf " ++ q username)

unfoldable pub lock_user : Manager → Text → Act CommandResult
lock_user ssh username = run ssh (codes "usermod -L " ++ q username)

unfoldable pub unlock_user : Manager → Text → Act CommandResult
unlock_user ssh username = run ssh (codes "usermod -U " ++ q username)

unfoldable pub set_expiry : Manager → Text → Text → Act CommandResult
set_expiry ssh username date_str =
    run ssh (codes "chage -E " ++ (q date_str ++ (codes " " ++ q username)))

unfoldable pub change_password : Manager → Text → Text → Act CommandResult
change_password ssh username password = run ssh (chpasswd username password)

unfoldable pub user_exists : Manager → Text → Act Bool
user_exists ssh username = do r ← run ssh (codes "id " ++ q username); pure (succeeded r)
