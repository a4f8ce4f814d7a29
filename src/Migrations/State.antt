-- ===== src/Migrations/State.antt =====
-- The state of models that Django derives from the migration files (`ProjectState`), as an interface
-- with the documented effect of each operation on it, and that state after the files of the three
-- apps against what the models declare.
use ssh_panel_vpn.Common.{
  ℕ, Bool, true, false, ◌&&◌, ◌≡◌, refl, ◌∙◌, sym, Option, some, none, List, [], ◌∷◌, ◌++◌,
  if◌then◌else◌, ◌==◌,
}
use ssh_panel_vpn.Common.Text.{Text, text_eq}
use ssh_panel_vpn.Migrations.{
  ModelName, ssh_account, audit_log, active_session, plan_model, server_model, user_model, Field,
  Options, Model, StateOperation, create_model, add_field, alter_field, MigrationStep, schema,
  run_python, separate_database_and_state, Migration,
}

-- The number of a model, to compare names by.
abbrev number_of : ModelName → ℕ
number_of ssh_account = 0
number_of audit_log = 1
number_of active_session = 2
number_of plan_model = 3
number_of server_model = 4
number_of user_model = 5

unfoldable pub same_model : ModelName → ModelName → Bool
same_model m n = number_of m == number_of n

unfoldable pub find_field : Text → List Field → Option Field
find_field t [] = none
find_field t (x ∷ fields) = if text_eq x.name t then some x else find_field t fields

-- What Django's project state documents of itself.
pub record ProjectState {ℓ} (S : Type ℓ) : Type ℓ where
  pub empty : S
  pub apply : StateOperation → S → S
  pub field_of : S → ModelName → Text → Option Field
  pub options_of : S → ModelName → Option Options
  pub no_fields : (n : ModelName) (t : Text) → field_of empty n t ≡ none
  pub no_options : (n : ModelName) → options_of empty n ≡ none
  pub created :
      (s : S) (m : Model) (n : ModelName) (t : Text)
      → field_of (apply (create_model m) s) n t
        ≡ (if same_model m.name n then find_field t m.fields else field_of s n t)
  pub added :
      (s : S) (m : ModelName) (x : Field) (n : ModelName) (t : Text)
      → field_of (apply (add_field m x) s) n t
        ≡ (if same_model m n && text_eq x.name t then some x else field_of s n t)
  pub altered :
      (s : S) (m : ModelName) (x : Field) (n : ModelName) (t : Text)
      → field_of (apply (alter_field m x) s) n t
        ≡ (if same_model m n && text_eq x.name t then some x else field_of s n t)
  pub created_options :
      (s : S) (m : Model) (n : ModelName)
      → options_of (apply (create_model m) s) n
        ≡ (if same_model m.name n then some m.options else options_of s n)
  pub added_options :
      (s : S) (m : ModelName) (x : Field) (n : ModelName)
      → options_of (apply (add_field m x) s) n ≡ options_of s n
  pub altered_options :
      (s : S) (m : ModelName) (x : Field) (n : ModelName)
      → options_of (apply (alter_field m x) s) n ≡ options_of s n

-- The operations of a file that change the state; a script changes only the database.
abbrev step_operations : MigrationStep → List StateOperation
step_operations (schema op) = op ∷ []
step_operations (run_python script) = []
step_operations (separate_database_and_state scripts ops) = ops

abbrev file_operations : List MigrationStep → List StateOperation
file_operations [] = []
file_operations (s ∷ steps) = step_operations s ++ file_operations steps

unfoldable pub state_operations : List Migration → List StateOperation
state_operations [] = []
state_operations (m ∷ files) = file_operations m.operations ++ state_operations files

-- The fields of a model after a list of operations, the last written first.
unfoldable pub fields_after : ModelName → List StateOperation → List Field → List Field
unfolding same_model
fields_after n [] fields = fields
fields_after n (create_model m ∷ ops) fields =
    fields_after n ops (if same_model m.name n then m.fields else fields)
fields_after n (add_field m x ∷ ops) fields =
    fields_after n ops (if same_model m n then x ∷ fields else fields)
fields_after n (alter_field m x ∷ ops) fields =
    fields_after n ops (if same_model m n then x ∷ fields else fields)

unfoldable pub options_after : ModelName → List StateOperation → Option Options → Option Options
unfolding same_model
options_after n [] o = o
options_after n (create_model m ∷ ops) o =
    options_after n ops (if same_model m.name n then some m.options else o)
options_after n (add_field m x ∷ ops) o = options_after n ops o
options_after n (alter_field m x ∷ ops) o = options_after n ops o

find_field-if :
    (t : Text) (b : Bool) (x y : List Field)
    → find_field t (if b then x else y) ≡ (if b then find_field t x else find_field t y)
find_field-if t true x y = refl
find_field-if t false x y = refl

-- A field in front is found first.
find_field-put :
    (b : Bool) (x : Field) (t : Text) (fields : List Field) (o : Option Field)
    → o ≡ find_field t fields
    → (if b && text_eq x.name t then some x else o)
      ≡ find_field t (if b then x ∷ fields else fields)
unfolding find_field
find_field-put true x t fields o e = rw e refl
find_field-put false x t fields o e = e

module _ {ℓ} {S : Type ℓ} (state : ProjectState S) where
  abbrev pub replay : List StateOperation → S → S
  replay [] s = s
  replay (op ∷ ops) s = replay ops (state.apply op s)

  pub replay-fields :
      (n : ModelName) (t : Text) (ops : List StateOperation) (s : S) (fields : List Field)
      → state.field_of s n t ≡ find_field t fields
      → state.field_of (replay ops s) n t ≡ find_field t (fields_after n ops fields)
  unfolding fields_after
  replay-fields n t [] s fields e = e
  replay-fields n t (create_model m ∷ ops) s fields e =
      replay-fields n t ops _ _
        (state.created s m n t ∙ rw e (sym (find_field-if t (same_model m.name n) m.fields fields)))
  replay-fields n t (add_field m x ∷ ops) s fields e =
      replay-fields n t ops _ _
        (state.added s m x n t ∙ find_field-put (same_model m n) x t fields _ e)
  replay-fields n t (alter_field m x ∷ ops) s fields e =
      replay-fields n t ops _ _
        (state.altered s m x n t ∙ find_field-put (same_model m n) x t fields _ e)

  pub replay-options :
      (n : ModelName) (ops : List StateOperation) (s : S) (o : Option Options)
      → state.options_of s n ≡ o
      → state.options_of (replay ops s) n ≡ options_after n ops o
  unfolding options_after
  replay-options n [] s o e = e
  replay-options n (create_model m ∷ ops) s o e =
      replay-options n ops _ _ (state.created_options s m n ∙ rw e refl)
  replay-options n (add_field m x ∷ ops) s o e =
      replay-options n ops _ _ (state.added_options s m x n ∙ e)
  replay-options n (alter_field m x ∷ ops) s o e =
      replay-options n ops _ _ (state.altered_options s m x n ∙ e)
