-- ===== src/Seeds.antt =====
-- The `seedplans` command and the migration `0004_populate_auth_tokens` of accounts.
use ssh_panel_vpn.Common.{ℕ, Bool, List, [], ◌∷◌, exists, if◌then◌else◌}
use ssh_panel_vpn.Common.Text.{Text, codes, text_eq}
use ssh_panel_vpn.Models.{Account, Plan}
use ssh_panel_vpn.Effects.{Act, pure, ◌>>=◌, ◌>>◌, get_db, modify, new_uuid}
use ssh_panel_vpn.Database.{change_row}
use ssh_panel_vpn.Setup.Rows.{insert_plan}

-- A row of `defaults`, the price in hundredths.
pub record Seed : Type 0 where
  pub name : Text
  pub duration_days : ℕ
  pub price : ℕ
  pub max_connections : ℕ
  pub bandwidth_limit_gb : ℕ

unfoldable pub default_plans : List Seed
default_plans =
    record {
      name = codes "Trial";
      duration_days = 1;
      price = 50;
      max_connections = 1;
      bandwidth_limit_gb = 5;
    }
    ∷ record {
      name = codes "Weekly";
      duration_days = 7;
      price = 200;
      max_connections = 2;
      bandwidth_limit_gb = 50;
    }
    ∷ record {
      name = codes "Monthly";
      duration_days = 30;
      price = 500;
      max_connections = 2;
      bandwidth_limit_gb = 0;
    }
    ∷ record {
      name = codes "Quarterly";
      duration_days = 90;
      price = 1200;
      max_connections = 3;
      bandwidth_limit_gb = 0;
    }
    ∷ []

abbrev pub is_named : Text → Plan → Bool
is_named name p = text_eq p.name name

-- `Plan.objects.get_or_create(name=..., defaults=...)`
unfoldable pub seed_plan : Seed → Act (Unit {0})
seed_plan d = do
  db ← get_db
  if exists (is_named d.name) db.plans then pure tt else (do
    insert_plan d.name d.duration_days d.price d.max_connections d.bandwidth_limit_gb
    pure tt)

unfoldable pub seed_plans : List Seed → Act (Unit {0})
seed_plans [] = pure tt
seed_plans (d ∷ l) = seed_plan d >> seed_plans l

-- `Command.handle`
unfoldable pub seedplans : Act (Unit {0})
seedplans = seed_plans default_plans

-- `account.auth_token = uuid.uuid4()`, and the save of that column alone
unfoldable pub populate_one : Account → Act (Unit {0})
unfolding change_row
populate_one account = do
  token ← new_uuid
  modify (λ d. record d {
    accounts = change_row account.id (λ a. record a { auth_token = token }) d.accounts;
  })

unfoldable pub populate_rows : List Account → Act (Unit {0})
populate_rows [] = pure tt
populate_rows (a ∷ l) = populate_one a >> populate_rows l

unfoldable pub populate_unique_auth_tokens : Act (Unit {0})
populate_unique_auth_tokens = do db ← get_db; populate_rows db.accounts
