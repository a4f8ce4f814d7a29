-- ===== src/Migrations/Columns.antt =====
-- `add_columns_if_missing` of servers/migrations/0002_add_shadowlink_fields.py and of
-- accounts/migrations/0003_add_auth_token_protocol_type.py. The table in the database is an interface
-- with what PostgreSQL documents of ADD COLUMN and of information_schema.columns.
pub mod Filled
pub mod Repair
use ssh_panel_vpn.Common.{
  is_some, then_some, Bool, true, false, ◌≡◌, Option, some, none, List, [], ◌∷◌, if◌then◌else◌,
}
use ssh_panel_vpn.Common.Text.{Text, text_eq, codes}

-- A column as the statement writes it: its type, whether it takes NULL, and its default.
pub record Column : Type 0 where
  pub name : Text
  pub sql_type : Text
  pub takes_null : Bool
  pub default : Option Text

pub record Catalog {ℓ} (T : Type ℓ) : Type ℓ where
  -- the column of a name, and `ALTER TABLE … ADD COLUMN`, which may fail
  pub column_of : T → Text → Option Column
  pub alter_table : Column → T → Option T
  pub taken : (t : T) (c d : Column) → column_of t c.name ≡ some d → alter_table c t ≡ none
  pub free :
      (t : T) (c : Column)
      → column_of t c.name ≡ none
      → (u : T) × (alter_table c t ≡ some u)
        × ((n : Text) → column_of u n ≡ (if text_eq c.name n then some c else column_of t n))

-- The columns that servers/migrations/0002 adds.
unfoldable pub server_columns : List Column
server_columns =
    record {
      name = codes "protocol_type";
      sql_type = codes "varchar(20)";
      takes_null = false;
      default = some (codes "'ssh'");
    }
    ∷ record {
      name = codes "shadowlink_api_key";
      sql_type = codes "varchar(128)";
      takes_null = false;
      default = some (codes "''");
    }
    ∷ record {
      name = codes "shadowlink_bridge_port";
      sql_type = codes "integer";
      takes_null = false;
      default = some (codes "9090");
    }
    ∷ record {
      name = codes "shadowlink_domain";
      sql_type = codes "varchar(255)";
      takes_null = false;
      default = some (codes "''");
    }
    ∷ record {
      name = codes "shadowlink_port";
      sql_type = codes "integer";
      takes_null = false;
      default = some (codes "8443");
    }
    ∷ record {
      name = codes "shadowlink_ws_path";
      sql_type = codes "varchar(100)";
      takes_null = false;
      default = some (codes "'/ws'");
    }
    ∷ []

unfoldable pub auth_token_column : Column
auth_token_column = record {
  name = codes "auth_token";
  sql_type = codes "uuid";
  takes_null = true;
  default = none;
}

unfoldable pub protocol_column : Column
protocol_column = record {
  name = codes "protocol_type";
  sql_type = codes "varchar(20)";
  takes_null = false;
  default = some (codes "'ssh'");
}

module _ {ℓ} {T : Type ℓ} (catalog : Catalog T) where
  -- `existing`, read before the first statement
  abbrev pub existing : T → Text → Bool
  existing t n = is_some (catalog.column_of t n)

  -- `if col_name not in existing: cursor.execute(sql)`
  unfoldable pub add_if_missing : (Text → Bool) → Column → T → Option T
  add_if_missing has c t = if has c.name then some t else catalog.alter_table c t

  unfoldable pub add_each : (Text → Bool) → List Column → T → Option T
  add_each has [] t = some t
  add_each has (c ∷ columns) t = then_some (add_if_missing has c t) (add_each has columns)

  unfoldable pub add_server_columns_if_missing : T → Option T
  add_server_columns_if_missing t = add_each (existing t) server_columns t

  unfoldable pub add_account_columns_if_missing : T → Option T
  add_account_columns_if_missing t =
      then_some (add_if_missing (existing t) auth_token_column t)
        (add_if_missing (existing t) protocol_column)
