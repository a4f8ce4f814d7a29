-- ===== src/Migrations/Files.antt =====
-- The later migrations, and all of them in an order that their dependencies allow.
use ssh_panel_vpn.Common.{List, [], ◌∷◌}
use ssh_panel_vpn.Common.Text.{codes}
use ssh_panel_vpn.Migrations.{
  ssh_account, server_model, positive_integer_field, uuid_field, char_field, min_value, max_value,
  uuid4, number_default, text_default, add_field, alter_field, add_account_columns, populate_tokens,
  add_server_columns, schema, run_python, separate_database_and_state, accounts_app, servers_app,
  Migration,
}
use ssh_panel_vpn.Migrations.Fields.{
  field, with_default, is_unique, is_blank, is_null, not_editable, with_choices, with_validators,
  with_help,
}
use ssh_panel_vpn.Migrations.Initial.{plans_0001, servers_0001, accounts_0001}

unfoldable pub accounts_0002 : Migration
unfolding field
accounts_0002 = record {
  app = accounts_app;
  number = 2;
  dependencies = (accounts_app, 1) ∷ [];
  operations =
      schema (
        add_field ssh_account
          (not_editable (is_unique (with_default uuid4 (field (codes "access_token") uuid_field)))))
      ∷ [];
}

unfoldable pub accounts_0003 : Migration
unfolding field
accounts_0003 = record {
  app = accounts_app;
  number = 3;
  dependencies = (accounts_app, 2) ∷ [];
  operations =
      separate_database_and_state (add_account_columns ∷ []) (
        add_field ssh_account (is_null (field (codes "auth_token") uuid_field))
        ∷ add_field ssh_account (
            with_default (text_default (codes "ssh")) (
              with_choices
                ((codes "ssh", codes "SSH") ∷ (codes "shadowlink", codes "ShadowLink") ∷ [])
                (field (codes "protocol_type") (char_field 20))))
        ∷ [])
      ∷ [];
}

unfoldable pub accounts_0004 : Migration
unfolding field
accounts_0004 = record {
  app = accounts_app;
  number = 4;
  dependencies = (accounts_app, 3) ∷ [];
  operations = run_python populate_tokens ∷ [];
}

unfoldable pub accounts_0005 : Migration
unfolding field
accounts_0005 = record {
  app = accounts_app;
  number = 5;
  dependencies = (accounts_app, 4) ∷ [];
  operations =
      schema (
        alter_field ssh_account (
          with_help (codes "Authentication token for ShadowLink protocol.")
            (is_unique (with_default uuid4 (field (codes "auth_token") uuid_field)))))
      ∷ [];
}

unfoldable pub servers_0002 : Migration
unfolding field
servers_0002 = record {
  app = servers_app;
  number = 2;
  dependencies = (servers_app, 1) ∷ [];
  operations =
      separate_database_and_state (add_server_columns ∷ []) (
        add_field server_model (
          with_default (text_default (codes "ssh")) (
            with_choices
              ((codes "ssh", codes "SSH") ∷ (codes "shadowlink", codes "ShadowLink") ∷ [])
              (field (codes "protocol_type") (char_field 20))))
        ∷ add_field server_model (
            with_help (codes "API key for authenticating with the ShadowLink bridge.")
              (is_blank (field (codes "shadowlink_api_key") (char_field 128))))
        ∷ add_field server_model (
            with_validators (min_value 1 ∷ max_value 65535 ∷ []) (
              with_help (codes "Port for the ShadowLink bridge API (localhost only).") (
                with_default (number_default 9090)
                  (field (codes "shadowlink_bridge_port") positive_integer_field))))
        ∷ add_field server_model (
            with_help (codes "Domain pointing to this server (for TLS SNI and CDN).")
              (is_blank (field (codes "shadowlink_domain") (char_field 255))))
        ∷ add_field server_model (
            with_validators (min_value 1 ∷ max_value 65535 ∷ []) (
              with_help (codes "Port the ShadowLink Go server listens on.") (
                with_default (number_default 8443)
                  (field (codes "shadowlink_port") positive_integer_field))))
        ∷ add_field server_model (
            with_help (codes "WebSocket path for ShadowLink connections.") (
              with_default (text_default (codes "/ws"))
                (field (codes "shadowlink_ws_path") (char_field 100))))
        ∷ [])
      ∷ [];
}

abbrev pub migrations : List Migration
migrations =
    plans_0001 ∷ servers_0001 ∷ accounts_0001 ∷ accounts_0002 ∷ accounts_0003 ∷ accounts_0004
    ∷ accounts_0005 ∷ servers_0002 ∷ []
