-- ===== src/Migrations.antt =====
-- The schema migrations under accounts/migrations, servers/migrations and plans/migrations: Django's
-- fields and operations as data, as far as the migration files use them.
pub mod Fields
pub mod Initial
pub mod Files
pub mod State
pub mod Tokens
pub mod Columns
pub mod Agree
pub mod Declared
use ssh_panel_vpn.Common.{ℕ, Bool, List, Option}
use ssh_panel_vpn.Common.Text.{Text}

-- The models of the panel, and `settings.AUTH_USER_MODEL`.
pub data ModelName : Type 0 where
  ssh_account audit_log active_session plan_model server_model user_model : ModelName

pub data OnDelete : Type 0 where
  protect set_null cascade : OnDelete

-- `auto_now_add` and `auto_now` of a date.
pub data Stamp : Type 0 where
  by_hand on_create on_save : Stamp

pub data FieldKind : Type 0 where
  big_auto_field integer_field positive_integer_field big_integer_field float_field : FieldKind
  text_field boolean_field ip_address_field uuid_field : FieldKind
  char_field : ℕ → FieldKind
  decimal_field : ℕ → ℕ → FieldKind
  date_time_field : Stamp → FieldKind
  -- the model it points to, what a delete does, and the `related_name`
  foreign_key : ModelName → OnDelete → Option Text → FieldKind

pub data Validator : Type 0 where
  min_value max_value : ℕ → Validator

pub data Default : Type 0 where
  no_default uuid4 : Default
  number_default : ℕ → Default
  text_default : Text → Default
  boolean_default : Bool → Default

pub record Field : Type 0 where
  pub name : Text
  pub kind : FieldKind
  pub primary_key : Bool
  pub null : Bool
  pub blank : Bool
  pub unique : Bool
  pub is_editable : Bool
  pub default : Default
  pub choices : List (Text × Text)
  pub validators : List Validator
  pub help_text : Text

-- `options` of a model.
pub record Options : Type 0 where
  pub ordering : List Text
  pub unique_together : List Text

pub record Model : Type 0 where
  pub name : ModelName
  pub fields : List Field
  pub options : Options

-- The operations that change the project's state of models.
pub data StateOperation : Type 0 where
  create_model : Model → StateOperation
  add_field alter_field : ModelName → Field → StateOperation

-- The functions that the migrations hand to `RunPython`.
pub data Script : Type 0 where
  add_account_columns populate_tokens add_server_columns : Script

pub data MigrationStep : Type 0 where
  schema : StateOperation → MigrationStep
  run_python : Script → MigrationStep
  separate_database_and_state : List Script → List StateOperation → MigrationStep

pub data App : Type 0 where
  accounts_app servers_app plans_app auth_app : App

-- A migration is named by its app and its number.
pub record Migration : Type 0 where
  pub app : App
  pub number : ℕ
  pub dependencies : List (App × ℕ)
  pub operations : List MigrationStep
