-- ===== src/Common/Yaml.antt =====
-- The values that `yaml.dump` is given: dictionaries of texts, numbers, Booleans and dictionaries.
use Prim.Native.Nat.{ℕ}
use mathlib.Core.Bool.{Bool}
use ssh_panel_vpn.Common.Text.{Text}

mutual
  pub data Yaml : Type 0 where
    str : Text → Yaml
    num : ℕ → Yaml
    bool : Bool → Yaml
    dict : Entries → Yaml

  pub data Entries : Type 0 where
    end : Entries
    entry : Text → Yaml → Entries → Entries
