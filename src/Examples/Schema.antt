-- ===== src/Examples/Schema.antt =====
-- The properties of the migrations, the pages of the admin, and the settings, each at an input
-- where its hypotheses hold.
use ssh_panel_vpn.Common.{
  true, Bool, is_some, ◌&&◌, ◌≡◌, refl, Option, none, some, List, [], ◌∷◌, All, if◌then◌else◌,
  arith,
}
use ssh_panel_vpn.Common.Text.{codes, Text, text_eq}
use ssh_panel_vpn.Effects.{ok}
use ssh_panel_vpn.Migrations.{
  ModelName, Field, Options, StateOperation, create_model, add_field, alter_field,
}
use ssh_panel_vpn.Migrations.State.{ProjectState, find_field, same_model}
use ssh_panel_vpn.Migrations.Declared.{declared_models}
use ssh_panel_vpn.Migrations.Agree.{IsReached, migrations_reach_models}
use ssh_panel_vpn.Migrations.Columns.{
  Column, Catalog, server_columns, auth_token_column, protocol_column,
  add_server_columns_if_missing, add_account_columns_if_missing,
}
use ssh_panel_vpn.Migrations.Columns.Filled.{listed}
use ssh_panel_vpn.Migrations.Columns.Repair.{IsRepair, add_columns_if_missing-Repair}
use ssh_panel_vpn.Migrations.Tokens.{
  retokened, HasDistinctTokens, populate_unique_auth_tokens_distinct,
}
use ssh_panel_vpn.Seeds.{populate_unique_auth_tokens}
use ssh_panel_vpn.Migrations.Agree.{migrated}
use ssh_panel_vpn.Admin.Pages.{Page, pages}
use ssh_panel_vpn.Admin.Pages.Resolved.{is_resolved, pages_resolved}
use ssh_panel_vpn.Settings.{Settings}
use ssh_panel_vpn.Examples.Data.{node_env, panel}

-- A state of models as two functions.
abbrev LookupState : Type 0
LookupState = (ModelName → Text → Option Field) × (ModelName → Option Options)

abbrev put_field : ModelName → Field → LookupState → LookupState
put_field m x (fields, options) =
    (λ n t. if same_model m n && text_eq x.name t then some x else fields n t, options)

abbrev apply_operation : StateOperation → LookupState → LookupState
apply_operation (create_model m) (fields, options) = (
  λ n t. if same_model m.name n then find_field t m.fields else fields n t,
  λ n. if same_model m.name n then some m.options else options n,
)
apply_operation (add_field m x) s = put_field m x s
apply_operation (alter_field m x) s = put_field m x s

abbrev lookup_state : ProjectState LookupState
lookup_state = record {
  empty = (λ n t. none, λ n. none);
  apply = apply_operation;
  field_of = λ s. s.0;
  options_of = λ s. s.1;
  no_fields = λ n t. refl;
  no_options = λ n. refl;
  created = λ s m n t. refl;
  added = λ s m x n t. refl;
  altered = λ s m x n t. refl;
  created_options = λ s m n. refl;
  added_options = λ s m x n. refl;
  altered_options = λ s m x n. refl;
}

migrations_reach_models_example : All (IsReached lookup_state) declared_models
migrations_reach_models_example = migrations_reach_models lookup_state

-- A table as the list of its columns.
abbrev listed_columns : List Column → Text → Option Column
listed_columns columns n = listed n columns

abbrev add_column : Column → List Column → Option (List Column)
add_column c columns = if is_some (listed c.name columns) then none else some (c ∷ columns)

abbrev list_catalog : Catalog (List Column)
list_catalog = record {
  column_of = listed_columns;
  alter_table = add_column;
  taken = λ t c d present. rw present refl;
  free = λ t c absent. (c ∷ t, rw absent refl, λ n. refl);
}

-- A table that a run before left with one of the columns.
abbrev half_migrated : List Column
half_migrated = protocol_column ∷ []

add_columns_if_missing-Repair_example :
    IsRepair list_catalog server_columns (add_server_columns_if_missing list_catalog) half_migrated
    × IsRepair list_catalog
        (auth_token_column ∷ protocol_column ∷ [])
        (add_account_columns_if_missing list_catalog)
        half_migrated
add_columns_if_missing-Repair_example = add_columns_if_missing-Repair list_catalog half_migrated

populate_unique_auth_tokens_distinct_example :
    ((populate_unique_auth_tokens node_env panel).0 ≡ ok tt)
    × ((populate_unique_auth_tokens node_env panel).1.db.accounts
        ≡ retokened node_env panel.trace panel.db.accounts)
    × HasDistinctTokens (populate_unique_auth_tokens node_env panel).1.db.accounts
populate_unique_auth_tokens_distinct_example =
    populate_unique_auth_tokens_distinct node_env panel ((refl, tt), (tt, tt))
      (λ t u longer same. omega arith)

pages_resolved_example :
    All
      (λ (page : Page). is_resolved (lookup_state.field_of (migrated lookup_state)) page ≡ true)
      pages
pages_resolved_example = pages_resolved lookup_state

-- An environment that sets ALLOWED_HOSTS to one host and USE_SSL to anything that reads as true.
abbrev deployed : Text → Option Text
deployed name =
    if text_eq name (codes "ALLOWED_HOSTS")
    then some (codes "vpn.example.org")
    else if text_eq name (codes "USE_SSL")
    then some (codes "1")
    else none

abbrev one_host : Text → List Text
one_host t = t ∷ []

abbrev set_is_true : Text → Option Bool
set_is_true t = some true
