-- ===== src/Examples/Data.antt =====
-- A small panel: two servers, two accounts, a plan, and an outside that answers every call.
use ssh_panel_vpn.Common.{true, false, none, some, List, [], ◌∷◌, length, ltb, ◌==◌, if◌then◌else◌}
use ssh_panel_vpn.Common.Text.{codes, parse_int}
use ssh_panel_vpn.Models.{Account, AccountStatus, pos, Plan, Protocol, Server, ServerStatus}
use ssh_panel_vpn.Effects.{Env, World, json}
use ssh_panel_vpn.Services.Create.{NewAccount}
use ssh_panel_vpn.Api.Serializers.{Payment, PaymentStatus}

-- An insertion sort by CPU usage.
unfoldable pub insert_server : Server → List Server → List Server
insert_server s [] = s ∷ []
insert_server s (t ∷ l) = if ltb t.cpu_usage s.cpu_usage then t ∷ insert_server s l else s ∷ t ∷ l

unfoldable pub sort_servers : List Server → List Server
unfolding insert_server
sort_servers [] = []
sort_servers (s ∷ l) = insert_server s (sort_servers l)

abbrev pub node_env : Env
node_env = record {
  loads_key = λ t k path. true;
  connects = λ t m k. true;
  answers = λ t m c. some (record { exit_code = 0; stdout = codes "1000"; stderr = [] });
  replies = λ t c. json [];
  now = λ t. 1000000;
  random = λ t. length t;
  uuid = λ t. length t;
  order_by_cpu = sort_servers;
  order_by_duration = λ l. l;
  uploads = λ t m f. true;
  clean_ip = λ t. some t;
  dump_yaml = λ y. [];
  lower = λ t. t;
  async_unsafe = false;
  parse_float = parse_int;
  truncate = λ x. some (pos x);
  float_lt = ltb;
  float_eq = ◌==◌;
  of_ℕ = λ n. n;
  gigabytes = λ n. n;
}

abbrev pub busy : Server
busy = record {
  id = 1;
  name = codes "busy";
  ip_address = codes "10.0.0.1";
  ssh_port = 22;
  ssh_user = codes "root";
  ssh_key_path = [];
  protocol_type = Protocol.ssh;
  status = ServerStatus.active;
  location = [];
  max_users = 100;
  shadowlink_port = 8443;
  shadowlink_ws_path = codes "/ws";
  shadowlink_domain = [];
  shadowlink_bridge_port = 9090;
  shadowlink_api_key = [];
  cpu_usage = 80;
  ram_usage = 10;
  disk_usage = 10;
  uptime_seconds = pos 100;
  last_health_check = none;
  created_at = 0;
  updated_at = 0;
}

abbrev pub calm : Server
calm = record busy { id = 2; name = codes "calm"; ip_address = codes "10.0.0.2"; cpu_usage = 5 }

abbrev pub monthly : Plan
monthly = record {
  id = 1;
  name = codes "Monthly";
  duration_days = 30;
  price = 500;
  currency = codes "USD";
  max_connections = 2;
  bandwidth_limit_gb = 0;
  is_active = true;
  description = [];
  created_at = 0;
}

abbrev pub alice : Account
alice = record {
  id = 1;
  username = codes "alice";
  password_display = [];
  server = 1;
  plan = some 1;
  protocol_type = Protocol.ssh;
  status = AccountStatus.active;
  expire_date = 500;
  max_connections = 2;
  bandwidth_limit_gb = 10;
  bandwidth_used_gb = 0;
  access_token = 11;
  auth_token = 12;
  created_by = none;
  note = [];
  created_at = 0;
  updated_at = 0;
}

abbrev pub bob : Account
bob = record alice {
  id = 2;
  username = codes "bob";
  server = 2;
  status = AccountStatus.expired;
  access_token = 21;
  auth_token = 22;
}

abbrev pub panel : World
panel = record {
  db = record {
    accounts = bob ∷ alice ∷ [];
    servers = calm ∷ busy ∷ [];
    plans = monthly ∷ [];
    sessions = [];
    logs = [];
  };
  next_id = 3;
  fail_counts = [];
  client = false;
  trace = [];
}

abbrev pub carol_args : NewAccount
carol_args = record {
  username = codes "carol";
  plan = monthly;
  server = none;
  password = none;
  admin_user = none;
  note = [];
  duration_days = none;
  bandwidth_limit_gb = none;
  max_connections = none;
  protocol_type = none;
}

abbrev pub order : Payment
order = record {
  order_id = codes "1";
  username = codes "carol";
  plan_id = 1;
  amount = 500;
  status = PaymentStatus.paid;
  signature = codes "x";
}
