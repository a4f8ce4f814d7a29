-- ===== src/Migrations/Columns/Repair.antt =====
-- From any table, one that already has some of the columns included, `add_columns_if_missing` ends
-- without an error, and a second run finds nothing to do.
use ssh_panel_vpn.Common.{
  then_some, ◌≡◌, refl, ◌∙◌, sym, Option, some, none, List, [], ◌∷◌, Option-cases, inl, inr,
}
use ssh_panel_vpn.Common.Text.{text_eq, codes}
use ssh_panel_vpn.Migrations.Columns.{
  Column, Catalog, server_columns, auth_token_column, protocol_column, existing, add_if_missing,
  add_each, add_server_columns_if_missing, add_account_columns_if_missing,
}
use ssh_panel_vpn.Migrations.Columns.Filled.{
  Apart, are_apart, are_apart-Apart, IsFilled, add_each-Filled, existing-Known, add_each_full,
  filled_has,
}

module _ {ℓ} {T : Type ℓ} (catalog : Catalog T) where
  -- A run ends with the table filled, and a run on the table it leaves changes nothing.
  abbrev pub IsRepair : List Column → (T → Option T) → T → Type ℓ
  IsRepair columns script t =
      (u : T) × (script t ≡ some u) × IsFilled catalog columns t u × (script u ≡ some u)

  IsRepair-same :
      (columns : List Column) (f g : T → Option T)
      → ((t : T) → f t ≡ g t)
      → (t : T) → IsRepair columns g t
      → IsRepair columns f t
  IsRepair-same columns f g same t (u, run, filled, again) =
      (u, same t ∙ run, filled, same u ∙ again)

  add_each-Repair :
      (columns : List Column) (t : T)
      → Apart columns
      → IsRepair columns (λ v. add_each catalog (existing catalog v) columns v) t
  add_each-Repair columns t apart =
      let (u, run, filled) =
        add_each-Filled catalog (existing catalog t) columns t apart
          (existing-Known catalog columns t) in
      (
        u,
        run,
        filled,
        add_each_full catalog (existing catalog u) columns u
            (filled_has catalog columns t u filled),
      )

  then_some_each :
      (o : Option T) (f : T → Option T)
      → then_some o (λ t. then_some (f t) (λ u. some u)) ≡ then_some o f
  then_some_each none f = refl
  then_some_each (some a) f = elim (Option-cases (f a)) [
    | inl e ↦ rw e refl
    | inr (b, e) ↦ rw e refl
  ]

  -- The two statements of the accounts, one after the other, are the loop over the two columns.
  account_columns-each :
      (t : T)
      → add_account_columns_if_missing catalog t
        ≡ add_each catalog (existing catalog t) (auth_token_column ∷ protocol_column ∷ []) t
  unfolding add_account_columns_if_missing add_each
  account_columns-each t = sym (
      then_some_each (add_if_missing catalog (existing catalog t) auth_token_column t)
        (add_if_missing catalog (existing catalog t) protocol_column))

server_columns-Apart : Apart server_columns
unfolding are_apart server_columns text_eq codes
server_columns-Apart = are_apart-Apart server_columns refl

account_columns-Apart : Apart (auth_token_column ∷ protocol_column ∷ [])
unfolding auth_token_column protocol_column text_eq codes
account_columns-Apart = ((refl, tt), (tt, tt))

-- Whatever represents the columns of a table by what PostgreSQL documents: from any table, and so from
-- one that has some of the columns already, both versions of add_columns_if_missing end without an
-- error. The table has then under every name the column it had, or where it had none the one that the
-- script adds under that name, if any, and a second run on it changes nothing.
pub add_columns_if_missing-Repair {ℓ} :
    {T : Type ℓ} (catalog : Catalog T) (t : T)
    → IsRepair catalog server_columns (add_server_columns_if_missing catalog) t
      × IsRepair catalog
          (auth_token_column ∷ protocol_column ∷ [])
          (add_account_columns_if_missing catalog)
          t
unfolding add_server_columns_if_missing
add_columns_if_missing-Repair catalog t = (
  add_each-Repair catalog server_columns t server_columns-Apart,
  IsRepair-same catalog (auth_token_column ∷ protocol_column ∷ [])
      (add_account_columns_if_missing catalog) _ (account_columns-each catalog) t
      (add_each-Repair catalog (auth_token_column ∷ protocol_column ∷ []) t account_columns-Apart),
)
