-- ===== src/Migrations/Initial.antt =====
-- The first migration of each app.
use ssh_panel_vpn.Common.{true, [], ◌∷◌, none, some}
use ssh_panel_vpn.Common.Text.{codes}
use ssh_panel_vpn.Migrations.{
  ssh_account, audit_log, active_session, plan_model, server_model, user_model, protect, set_null,
  cascade, by_hand, on_create, on_save, integer_field, positive_integer_field, big_integer_field,
  float_field, text_field, boolean_field, ip_address_field, char_field, decimal_field,
  date_time_field, foreign_key, min_value, max_value, number_default, text_default, boolean_default,
  Model, create_model, schema, accounts_app, servers_app, plans_app, auth_app, Migration,
}
use ssh_panel_vpn.Migrations.Fields.{
  field, auto_id, with_default, is_unique, is_blank, is_null_blank, with_choices, with_validators,
  with_help,
}

unfoldable pub created_plan : Model
unfolding field auto_id
created_plan = record {
  name = plan_model;
  fields =
      auto_id
      ∷ is_unique (field (codes "name") (char_field 100))
      ∷ with_validators (min_value 1 ∷ []) (
          with_help (codes "Subscription length in days.")
            (field (codes "duration_days") positive_integer_field))
      ∷ with_validators (min_value 0 ∷ []) (field (codes "price") (decimal_field 10 2))
      ∷ with_default (text_default (codes "USD")) (field (codes "currency") (char_field 5))
      ∷ with_help (codes "Max concurrent SSH sessions per user.")
          (with_default (number_default 1) (field (codes "max_connections") positive_integer_field))
      ∷ with_help (codes "0 = unlimited.") (
          with_default (number_default 0)
            (field (codes "bandwidth_limit_gb") positive_integer_field))
      ∷ with_default (boolean_default true) (field (codes "is_active") boolean_field)
      ∷ is_blank (field (codes "description") text_field)
      ∷ field (codes "created_at") (date_time_field on_create)
      ∷ [];
  options = record { ordering = codes "duration_days" ∷ codes "price" ∷ []; unique_together = [] };
}

unfoldable pub plans_0001 : Migration
unfolding created_plan
plans_0001 = record {
  app = plans_app;
  number = 1;
  dependencies = [];
  operations = schema (create_model created_plan) ∷ [];
}

unfoldable pub created_server : Model
unfolding field auto_id
created_server = record {
  name = server_model;
  fields =
      auto_id
      ∷ is_unique (field (codes "name") (char_field 100))
      ∷ is_unique (field (codes "ip_address") ip_address_field)
      ∷ with_validators (min_value 1 ∷ max_value 65535 ∷ [])
          (with_default (number_default 22) (field (codes "ssh_port") positive_integer_field))
      ∷ with_default (text_default (codes "root")) (field (codes "ssh_user") (char_field 64))
      ∷ with_help (codes "Absolute path to private key on the panel server.")
          (field (codes "ssh_key_path") (char_field 500))
      ∷ with_default (text_default (codes "active")) (
          with_choices
            ((codes "active", codes "Active")
              ∷ (codes "maintenance", codes "Maintenance")
              ∷ (codes "full", codes "Full")
              ∷ (codes "down", codes "Down")
              ∷ [])
            (field (codes "status") (char_field 15)))
      ∷ with_help (codes "e.g. Frankfurt, DE")
          (is_blank (field (codes "location") (char_field 120)))
      ∷ with_default (number_default 100) (field (codes "max_users") positive_integer_field)
      ∷ with_help (codes "Percentage")
          (with_default (number_default 0) (field (codes "cpu_usage") float_field))
      ∷ with_help (codes "Percentage")
          (with_default (number_default 0) (field (codes "ram_usage") float_field))
      ∷ with_help (codes "Percentage")
          (with_default (number_default 0) (field (codes "disk_usage") float_field))
      ∷ with_default (number_default 0) (field (codes "uptime_seconds") big_integer_field)
      ∷ is_null_blank (field (codes "last_health_check") (date_time_field by_hand))
      ∷ field (codes "created_at") (date_time_field on_create)
      ∷ field (codes "updated_at") (date_time_field on_save)
      ∷ [];
  options = record { ordering = codes "name" ∷ []; unique_together = [] };
}

unfoldable pub servers_0001 : Migration
unfolding created_server
servers_0001 = record {
  app = servers_app;
  number = 1;
  dependencies = [];
  operations = schema (create_model created_server) ∷ [];
}

unfoldable pub created_account : Model
unfolding field auto_id
created_account = record {
  name = ssh_account;
  fields =
      auto_id
      ∷ field (codes "username") (char_field 32)
      ∷ with_help (codes "Shown once at creation, then cleared.")
          (is_blank (field (codes "password_display") (char_field 128)))
      ∷ with_default (text_default (codes "active")) (
          with_choices
            ((codes "active", codes "Active")
              ∷ (codes "suspended", codes "Suspended")
              ∷ (codes "expired", codes "Expired")
              ∷ (codes "deleted", codes "Deleted")
              ∷ [])
            (field (codes "status") (char_field 12)))
      ∷ field (codes "expire_date") (date_time_field by_hand)
      ∷ with_default (number_default 1) (field (codes "max_connections") positive_integer_field)
      ∷ with_default (number_default 0) (field (codes "bandwidth_limit_gb") positive_integer_field)
      ∷ with_default (number_default 0) (field (codes "bandwidth_used_gb") float_field)
      ∷ is_blank (field (codes "note") text_field)
      ∷ field (codes "created_at") (date_time_field on_create)
      ∷ field (codes "updated_at") (date_time_field on_save)
      ∷ is_null_blank (
          field (codes "created_by")
            (foreign_key user_model set_null (some (codes "created_accounts"))))
      ∷ is_null_blank
          (field (codes "plan") (foreign_key plan_model set_null (some (codes "accounts"))))
      ∷ field (codes "server") (foreign_key server_model protect (some (codes "ssh_accounts")))
      ∷ [];
  options = record {
    ordering = codes "-created_at" ∷ [];
    unique_together = codes "username" ∷ codes "server" ∷ [];
  };
}

unfoldable pub created_log : Model
unfolding field auto_id
created_log = record {
  name = audit_log;
  fields =
      auto_id
      ∷ with_choices
          ((codes "create", codes "Create")
            ∷ (codes "delete", codes "Delete")
            ∷ (codes "suspend", codes "Suspend")
            ∷ (codes "activate", codes "Activate")
            ∷ (codes "extend", codes "Extend")
            ∷ (codes "expire", codes "Expire")
            ∷ (codes "password_reset", codes "Password Reset")
            ∷ (codes "rebalance", codes "Rebalance")
            ∷ [])
          (field (codes "action") (char_field 20))
      ∷ is_blank (field (codes "detail") text_field)
      ∷ field (codes "created_at") (date_time_field on_create)
      ∷ is_null_blank (field (codes "admin_user") (foreign_key user_model set_null none))
      ∷ is_null_blank
          (field (codes "account") (foreign_key ssh_account set_null (some (codes "logs"))))
      ∷ [];
  options = record { ordering = codes "-created_at" ∷ []; unique_together = [] };
}

unfoldable pub created_session : Model
unfolding field auto_id
created_session = record {
  name = active_session;
  fields =
      auto_id
      ∷ field (codes "pid") integer_field
      ∷ is_null_blank (field (codes "client_ip") ip_address_field)
      ∷ field (codes "connected_since") (date_time_field on_create)
      ∷ field (codes "account") (foreign_key ssh_account cascade (some (codes "sessions")))
      ∷ [];
  options = record { ordering = []; unique_together = codes "account" ∷ codes "pid" ∷ [] };
}

unfoldable pub accounts_0001 : Migration
unfolding created_account created_log created_session
accounts_0001 = record {
  app = accounts_app;
  number = 1;
  dependencies = (plans_app, 1) ∷ (servers_app, 1) ∷ (auth_app, 1) ∷ [];
  operations =
      schema (create_model created_account)
      ∷ schema (create_model created_log)
      ∷ schema (create_model created_session)
      ∷ [];
}
