-- ===== src/Admin/Pages.antt =====
-- The pages of the admin (accounts/admin.py, servers/admin.py, plans/admin.py) and the lists of
-- api/views.py, as the names of fields that they show, filter, search, order and edit.
pub mod Resolved
use ssh_panel_vpn.Common.{List, [], ◌∷◌}
use ssh_panel_vpn.Common.Text.{Text, codes}
use ssh_panel_vpn.Migrations.{
  ModelName, ssh_account, audit_log, active_session, plan_model, server_model,
}

-- `own` are the columns that the class or the model computes, and `other_fields` those of the form: the
-- read-only ones, the ones edited in the list, and the ones chosen by id.
pub record Page : Type 0 where
  pub model : ModelName
  pub own : List Text
  pub list_display : List Text
  pub list_filter : List Text
  pub search_fields : List Text
  pub other_fields : List Text

-- `SSHAccountResource`: the fields of an export
unfoldable pub account_resource : Page
account_resource = record {
  model = ssh_account;
  own = [];
  list_display =
      codes "id"
      ∷ codes "username"
      ∷ codes "server__ip_address"
      ∷ codes "plan__name"
      ∷ codes "status"
      ∷ codes "expire_date"
      ∷ codes "max_connections"
      ∷ codes "created_at"
      ∷ [];
  list_filter = [];
  search_fields = [];
  other_fields = [];
}

-- `SSHAccountAdmin`; `days_remaining` is a property of the model
unfoldable pub account_admin : Page
account_admin = record {
  model = ssh_account;
  own =
      codes "server_link"
      ∷ codes "protocol_badge"
      ∷ codes "status_badge"
      ∷ codes "days_remaining"
      ∷ [];
  list_display =
      codes "username"
      ∷ codes "server_link"
      ∷ codes "protocol_badge"
      ∷ codes "status_badge"
      ∷ codes "plan"
      ∷ codes "expire_date"
      ∷ codes "days_remaining"
      ∷ codes "max_connections"
      ∷ codes "created_at"
      ∷ [];
  list_filter =
      codes "status"
      ∷ codes "protocol_type"
      ∷ codes "server"
      ∷ codes "plan"
      ∷ codes "created_at"
      ∷ [];
  search_fields = codes "username" ∷ codes "note" ∷ codes "server__ip_address" ∷ [];
  other_fields =
      codes "password_display"
      ∷ codes "bandwidth_used_gb"
      ∷ codes "created_at"
      ∷ codes "updated_at"
      ∷ codes "server"
      ∷ codes "plan"
      ∷ codes "created_by"
      ∷ [];
}

-- `ActiveSessionAdmin`
unfoldable pub session_admin : Page
session_admin = record {
  model = active_session;
  own = [];
  list_display = codes "account" ∷ codes "pid" ∷ codes "client_ip" ∷ codes "connected_since" ∷ [];
  list_filter = codes "account__server" ∷ [];
  search_fields = codes "account__username" ∷ codes "client_ip" ∷ [];
  other_fields = [];
}

-- `AuditLogAdmin`
unfoldable pub log_admin : Page
log_admin = record {
  model = audit_log;
  own = codes "short_detail" ∷ [];
  list_display =
      codes "created_at"
      ∷ codes "action"
      ∷ codes "account"
      ∷ codes "admin_user"
      ∷ codes "short_detail"
      ∷ [];
  list_filter = codes "action" ∷ codes "created_at" ∷ [];
  search_fields = codes "detail" ∷ codes "account__username" ∷ [];
  other_fields =
      codes "action"
      ∷ codes "account"
      ∷ codes "admin_user"
      ∷ codes "detail"
      ∷ codes "created_at"
      ∷ [];
}

-- `ServerAdmin`, with the fields of its form
unfoldable pub server_admin : Page
server_admin = record {
  model = server_model;
  own =
      codes "protocol_badge"
      ∷ codes "status_badge"
      ∷ codes "user_count_display"
      ∷ codes "cpu_bar"
      ∷ codes "ram_bar"
      ∷ codes "disk_bar"
      ∷ [];
  list_display =
      codes "name"
      ∷ codes "ip_address"
      ∷ codes "protocol_badge"
      ∷ codes "ssh_port"
      ∷ codes "status_badge"
      ∷ codes "location"
      ∷ codes "user_count_display"
      ∷ codes "cpu_bar"
      ∷ codes "ram_bar"
      ∷ codes "disk_bar"
      ∷ codes "last_health_check"
      ∷ [];
  list_filter = codes "status" ∷ codes "location" ∷ codes "protocol_type" ∷ [];
  search_fields = codes "name" ∷ codes "ip_address" ∷ codes "location" ∷ [];
  other_fields =
      codes "cpu_usage"
      ∷ codes "ram_usage"
      ∷ codes "disk_usage"
      ∷ codes "uptime_seconds"
      ∷ codes "last_health_check"
      ∷ codes "created_at"
      ∷ codes "updated_at"
      ∷ codes "name"
      ∷ codes "ip_address"
      ∷ codes "protocol_type"
      ∷ codes "ssh_port"
      ∷ codes "ssh_user"
      ∷ codes "ssh_key_path"
      ∷ codes "status"
      ∷ codes "location"
      ∷ codes "max_users"
      ∷ codes "shadowlink_port"
      ∷ codes "shadowlink_ws_path"
      ∷ codes "shadowlink_domain"
      ∷ codes "shadowlink_bridge_port"
      ∷ codes "shadowlink_api_key"
      ∷ codes "cpu_usage"
      ∷ codes "ram_usage"
      ∷ codes "disk_usage"
      ∷ codes "uptime_seconds"
      ∷ codes "last_health_check"
      ∷ [];
}

-- `PlanAdmin`
unfoldable pub plan_admin : Page
plan_admin = record {
  model = plan_model;
  own = [];
  list_display =
      codes "name"
      ∷ codes "duration_days"
      ∷ codes "price"
      ∷ codes "currency"
      ∷ codes "max_connections"
      ∷ codes "bandwidth_limit_gb"
      ∷ codes "is_active"
      ∷ [];
  list_filter = codes "is_active" ∷ codes "currency" ∷ [];
  search_fields = codes "name" ∷ [];
  other_fields = codes "price" ∷ codes "is_active" ∷ [];
}

-- `AccountListView`: its filters, searches and orders
unfoldable pub account_list_page : Page
account_list_page = record {
  model = ssh_account;
  own = [];
  list_display = [];
  list_filter = codes "status" ∷ codes "server" ∷ codes "plan" ∷ [];
  search_fields = codes "username" ∷ codes "note" ∷ [];
  other_fields = codes "created_at" ∷ codes "expire_date" ∷ codes "username" ∷ [];
}

-- `ActiveSessionListView`
unfoldable pub session_list_page : Page
session_list_page = record {
  model = active_session;
  own = [];
  list_display = [];
  list_filter = codes "account__server" ∷ [];
  search_fields = [];
  other_fields = [];
}

-- `AuditLogListView`
unfoldable pub log_list_page : Page
log_list_page = record {
  model = audit_log;
  own = [];
  list_display = [];
  list_filter = codes "action" ∷ codes "admin_user" ∷ [];
  search_fields = codes "detail" ∷ codes "account__username" ∷ [];
  other_fields = [];
}

abbrev pub pages : List Page
pages =
    account_resource ∷ account_admin ∷ session_admin ∷ log_admin ∷ server_admin ∷ plan_admin
    ∷ account_list_page ∷ session_list_page ∷ log_list_page ∷ []
