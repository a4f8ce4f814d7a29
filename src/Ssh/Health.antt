-- ===== src/Ssh/Health.antt =====
-- `get_health` and `_parse_float`.
use ssh_panel_vpn.Common.{none, some}
use ssh_panel_vpn.Common.Text.{Text, codes}
use ssh_panel_vpn.Models.{Float, Integer}
use ssh_panel_vpn.Effects.{Env, Act, Manager, gets, or_raise, value_error, ◌>>=◌}
use ssh_panel_vpn.Ssh.Connection.{run}

-- The dictionary that `get_health` returns.
pub record Health : Type 0 where
  pub cpu_usage : Float
  pub ram_usage : Float
  pub disk_usage : Float
  pub uptime_seconds : Integer

-- `_parse_float`: 0.0 for what is no number.
unfoldable pub parse_float : Env → Text → Float
parse_float env value = elim (env.parse_float value) [ none ↦ env.of_ℕ 0 | some x ↦ x ]

-- `int(x)` raises on an infinity or a NaN.
unfoldable pub get_health : Manager → Act Health
unfolding parse_float
get_health ssh = do
  cpu_out ← run ssh (codes "top -bn1 | grep 'Cpu(s)' | awk '{print $2+$4}'")
  ram_out ← run ssh (codes "free | awk '/Mem:/{printf \"%.1f\", $3/$2*100}'")
  disk_out ← run ssh (codes "df / | awk 'NR==2{print $5}' | tr -d '%'")
  uptime_out ← run ssh (codes "awk '{print int($1)}' /proc/uptime")
  uptime ← gets (λ env w. env.truncate (parse_float env uptime_out.stdout))
  seconds ← or_raise value_error uptime
  gets (λ env w. record {
    cpu_usage = parse_float env cpu_out.stdout;
    ram_usage = parse_float env ram_out.stdout;
    disk_usage = parse_float env disk_out.stdout;
    uptime_seconds = seconds;
  })
