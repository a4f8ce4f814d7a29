-- ===== src/Migrations/Agree.antt =====
-- The models that the migration files lead to against those of accounts/models.py,
-- servers/models.py and plans/models.py.
use ssh_panel_vpn.Common.{
  map, ◌≡◌, refl, ◌∙◌, sym, Option, some, none, List, [], ◌∷◌, All, All-map, Bool-cases, inl, inr,
  ◌⊎◌,
}
use ssh_panel_vpn.Common.Text.{Text, text_eq, text_eq_sound, codes}
use ssh_panel_vpn.Migrations.{Field, Model}
use ssh_panel_vpn.Migrations.Fields.{field, auto_id}
use ssh_panel_vpn.Migrations.Initial.{
  created_plan, plans_0001, created_server, servers_0001, created_account, created_log,
  created_session, accounts_0001,
}
use ssh_panel_vpn.Migrations.Files.{
  accounts_0002, accounts_0003, accounts_0004, accounts_0005, servers_0002, migrations,
}
use ssh_panel_vpn.Migrations.Declared.{
  account_model, session_model, log_model, node_model, subscription_model, declared_models,
}
use ssh_panel_vpn.Migrations.State.{
  ProjectState, find_field, state_operations, fields_after, options_after, replay, replay-fields,
  replay-options, same_model,
}

-- A property of the name of each field of a list holds of a name that is found there.
at_name :
    (Q : Text → Type 0) (t : Text) (fields : List Field)
    → All (λ (x : Field). Q x.name) fields
    → Q t ⊎ (find_field t fields ≡ none)
unfolding find_field
at_name Q t [] all = inr refl
at_name Q t (x ∷ fields) (first, rest) = elim (Bool-cases (text_eq x.name t)) [
  | inl same ↦ let e = text_eq_sound x.name t same in inl (rw e at first)
  | inr other ↦ rw other (at_name Q t fields rest)
]

abbrev SameAt : List Field → List Field → Text → Type 0
SameAt xs ys t = find_field t xs ≡ find_field t ys

-- What two functions give for each field of a list, as one equation.
pointwise :
    {B : Type 0} (f g : Field → B) (fields : List Field)
    → map f fields ≡ map g fields
    → All (λ (x : Field). f x ≡ g x) fields
pointwise f g [] e = tt
pointwise f g (x ∷ fields) e =
    let first : f x ≡ g x = cc in
    let rest : map f fields ≡ map g fields = cc in (first, pointwise f g fields rest)

abbrev found_in : List Field → Field → Option Field
found_in fields x = find_field x.name fields

-- Two lists that agree at the names of their fields agree at every name.
same_fields :
    (xs ys : List Field)
    → map (found_in xs) xs ≡ map (found_in ys) xs
    → map (found_in xs) ys ≡ map (found_in ys) ys
    → (t : Text) → SameAt xs ys t
same_fields xs ys at_xs at_ys t = elim (at_name (SameAt xs ys) t xs (pointwise _ _ xs at_xs)) [
  | inl same ↦ same
  | inr absent ↦ (elim (at_name (SameAt xs ys) t ys (pointwise _ _ ys at_ys)) [
    | inl same ↦ same
    | inr absent_too ↦ absent ∙ sym absent_too
  ])
]

abbrev migrated_fields : Model → List Field
migrated_fields m = fields_after m.name (state_operations migrations) []

nothing : (t : Text) → none ≡ find_field t []
unfolding find_field
nothing t = refl

-- The state after all the files.
abbrev pub migrated {ℓ} : {S : Type ℓ} → ProjectState S → S
migrated state = replay state (state_operations migrations) state.empty

-- What evaluation shows of a model: its fields and options after the files are those declared.
abbrev Agrees : Model → Type 0
Agrees m =
    (map (found_in (migrated_fields m)) (migrated_fields m)
      ≡ map (found_in m.fields) (migrated_fields m))
    × (map (found_in (migrated_fields m)) m.fields ≡ map (found_in m.fields) m.fields)
    × (options_after m.name (state_operations migrations) none ≡ some m.options)

declared_models-Agree : All Agrees declared_models
unfolding find_field fields_after options_after same_model state_operations text_eq codes field
    auto_id created_plan plans_0001 created_server servers_0001 created_account created_log
    created_session accounts_0001 accounts_0002 accounts_0003 accounts_0004 accounts_0005
    servers_0002 account_model session_model log_model node_model subscription_model
declared_models-Agree = (
  (refl, refl, refl),
  ((refl, refl, refl), ((refl, refl, refl), ((refl, refl, refl), ((refl, refl, refl), tt)))),
)

-- The model has the fields and the options that it declares.
abbrev pub IsReached {ℓ} : {S : Type ℓ} → ProjectState S → Model → Type 0
IsReached state m =
    ((t : Text) → state.field_of (migrated state) m.name t ≡ find_field t m.fields)
    × (state.options_of (migrated state) m.name ≡ some m.options)

-- Whatever represents the state of models by Django's documented rules: after the migration files of
-- the three apps each model of models.py has, under every name, the field that models.py declares
-- there or none where it declares none, and the options that models.py declares.
pub migrations_reach_models :
    {S : Type 0} (state : ProjectState S) → All (IsReached state) declared_models
migrations_reach_models state =
    All-map {P = Agrees} {Q = IsReached state}
      (λ m (at_migrated, at_declared, options). (
        λ t.
            replay-fields state m.name t (state_operations migrations) state.empty []
              (state.no_fields m.name t ∙ nothing t)
            ∙ same_fields (migrated_fields m) m.fields at_migrated at_declared t,
        replay-options state m.name (state_operations migrations) state.empty none
              (state.no_options m.name)
            ∙ options,
      ))
      declared_models declared_models-Agree
