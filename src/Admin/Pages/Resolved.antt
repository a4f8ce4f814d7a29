-- ===== src/Admin/Pages/Resolved.antt =====
-- The names on the pages against the state of models that the migrations lead to.
use ssh_panel_vpn.Common.{
  is_some, Bool, true, false, ◌&&◌, ◌≡◌, refl, ◌∙◌, Option, some, none, List, [], ◌∷◌, ◌++◌, exists,
  every, All, All-map, ap, ◌==◌, if◌then◌else◌,
}
use ssh_panel_vpn.Common.Text.{Text, text_eq, codes}
use ssh_panel_vpn.Migrations.{
  ModelName, ssh_account, audit_log, active_session, plan_model, server_model, user_model, Field,
  FieldKind, foreign_key,
}
use ssh_panel_vpn.Migrations.Fields.{field, auto_id}
use ssh_panel_vpn.Migrations.Declared.{
  account_model, session_model, log_model, node_model, subscription_model,
}
use ssh_panel_vpn.Migrations.State.{ProjectState, find_field}
use ssh_panel_vpn.Migrations.Agree.{migrated, migrations_reach_models}
use ssh_panel_vpn.Admin.Pages.{
  Page, account_resource, account_admin, session_admin, log_admin, server_admin, plan_admin,
  account_list_page, session_list_page, log_list_page, pages,
}

-- A name of a field, or a path through foreign keys: the parts between double underscores.
segments : Text → Text → List Text
segments part [] = part ∷ []
segments part (c ∷ []) = (part ++ c ∷ []) ∷ []
segments part (c ∷ d ∷ s) = elim (c == 95 && d == 95) [
  | true ↦ part ∷ segments [] s
  | false ↦ segments (part ++ c ∷ []) (d ∷ s)
]

abbrev Lookup : Type 0
Lookup = ModelName → Text → Option Field

abbrev is_user : ModelName → Bool
is_user user_model = true
is_user _ = false

-- The model that a foreign key points to; what the user model has is Django's.
target : FieldKind → Option ModelName
target (foreign_key user_model d r) = none
target (foreign_key m d r) = some m
target _ = none

points_to : Option Field → Option ModelName
unfolding target
points_to none = none
points_to (some x) = target x.kind

-- A path of names leads through foreign keys to a field.
unfoldable pub resolves : Lookup → Option ModelName → List Text → Bool
unfolding points_to
resolves f none path = false
resolves f (some m) [] = false
resolves f (some m) (t ∷ []) = is_some (f m t)
resolves f (some m) (t ∷ u ∷ path) = resolves f (points_to (f m t)) (u ∷ path)

-- A column is one that the class computes, or a path to a field.
unfoldable pub is_column : Lookup → Page → Text → Bool
unfolding segments
is_column f page t =
    let path = resolves f (some page.model) (segments [] t) in
    if exists (text_eq t) page.own then true else path

-- The columns, the filters, the searches and the form name what is there.
unfoldable pub is_resolved : Lookup → Page → Bool
unfolding is_column
is_resolved f page =
    every (is_column f page) page.list_display
    && (every (is_column f page) page.list_filter
        && (every (is_column f page) page.search_fields
            && every (is_column f page) page.other_fields))

unfoldable declared_field : Lookup
declared_field ssh_account t = find_field t account_model.fields
declared_field active_session t = find_field t session_model.fields
declared_field audit_log t = find_field t log_model.fields
declared_field server_model t = find_field t node_model.fields
declared_field plan_model t = find_field t subscription_model.fields
declared_field user_model t = none

pages_declared :
    All
      (λ (page : Page). (is_user page.model ≡ false) × (is_resolved declared_field page ≡ true))
      pages
unfolding declared_field is_resolved resolves find_field text_eq codes field auto_id account_model
    session_model log_model node_model subscription_model account_resource account_admin
    session_admin log_admin server_admin plan_admin account_list_page session_list_page
    log_list_page
pages_declared = (
  (refl, refl),
  (
    (refl, refl),
    (
      (refl, refl),
      (
        (refl, refl),
        ((refl, refl), ((refl, refl), ((refl, refl), ((refl, refl), ((refl, refl), tt))))),
      ),
    ),
  ),
)

abbrev IsOurs : Option ModelName → Type 0
IsOurs none = Unit
IsOurs (some m) = is_user m ≡ false

target-IsOurs : (k : FieldKind) → IsOurs (target k)
unfolding target
target-IsOurs (foreign_key user_model d r) = tt
target-IsOurs (foreign_key ssh_account d r) = refl
target-IsOurs (foreign_key audit_log d r) = refl
target-IsOurs (foreign_key active_session d r) = refl
target-IsOurs (foreign_key plan_model d r) = refl
target-IsOurs (foreign_key server_model d r) = refl
target-IsOurs _ = tt

points_to-IsOurs : (o : Option Field) → IsOurs (points_to o)
unfolding points_to
points_to-IsOurs none = tt
points_to-IsOurs (some x) = target-IsOurs x.kind

-- Lookups that agree on the panel's models resolve the same pages.
module _ (f g : Lookup)
    (same : (m : ModelName) (t : Text) → is_user m ≡ false → f m t ≡ g m t) where
  resolves-same :
      (o : Option ModelName) (path : List Text) → IsOurs o → resolves f o path ≡ resolves g o path
  unfolding resolves
  resolves-same none path ours = refl
  resolves-same (some m) [] ours = refl
  resolves-same (some m) (t ∷ []) ours = ap is_some (same m t ours)
  resolves-same (some m) (t ∷ u ∷ path) ours =
      ap (λ o. resolves f (points_to o) (u ∷ path)) (same m t ours)
      ∙ resolves-same (points_to (g m t)) (u ∷ path) (points_to-IsOurs (g m t))

  every-same :
      (page : Page) (l : List Text)
      → is_user page.model ≡ false
      → every (is_column f page) l ≡ every (is_column g page) l
  unfolding is_column
  every-same page [] ours = refl
  every-same page (t ∷ l) ours =
      rw (resolves-same (some page.model) (segments [] t) ours, every-same page l ours) refl

  is_resolved-same :
      (page : Page) → is_user page.model ≡ false → is_resolved f page ≡ is_resolved g page
  unfolding is_resolved
  is_resolved-same page ours =
      rw
        (
          every-same page page.list_display ours,
          every-same page page.list_filter ours,
          every-same page page.search_fields ours,
          every-same page page.other_fields ours,
        )
        refl

reached_field :
    {S : Type 0} (state : ProjectState S) (m : ModelName) (t : Text)
    → is_user m ≡ false
    → state.field_of (migrated state) m t ≡ declared_field m t
unfolding declared_field account_model session_model log_model node_model subscription_model
reached_field state ssh_account t ours = (migrations_reach_models state).0.0 t
reached_field state active_session t ours = (migrations_reach_models state).1.0.0 t
reached_field state audit_log t ours = (migrations_reach_models state).1.1.0.0 t
reached_field state server_model t ours = (migrations_reach_models state).1.1.1.0.0 t
reached_field state plan_model t ours = (migrations_reach_models state).1.1.1.1.0.0 t
reached_field state user_model t ours = absurd (cc)

-- Whatever represents the state of models by Django's documented rules: after the migration files every
-- page of the admin and every list of the API with filters shows, filters, searches, orders and edits
-- only what is there, a column that its class computes or a field, which a path of names reaches through
-- the foreign keys of the panel's models.
pub pages_resolved :
    {S : Type 0} (state : ProjectState S)
    → All (λ (page : Page). is_resolved (state.field_of (migrated state)) page ≡ true) pages
pages_resolved state =
    All-map
      {P = λ (page : Page). (is_user page.model ≡ false) × (is_resolved declared_field page ≡ true)}
      {Q = λ (page : Page). is_resolved (state.field_of (migrated state)) page ≡ true}
      (λ page (ours, resolved).
        is_resolved-same (state.field_of (migrated state)) declared_field (reached_field state) page
          ours
        ∙ resolved)
      pages pages_declared
