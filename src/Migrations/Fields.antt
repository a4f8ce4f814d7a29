-- ===== src/Migrations/Fields.antt =====
-- What a field has when its keyword arguments are left out, and the choices and the validators that
-- several fields share.
use ssh_panel_vpn.Common.{true, false, List, []}
use ssh_panel_vpn.Common.Text.{Text, codes}
use ssh_panel_vpn.Migrations.{Field, FieldKind, big_auto_field, Default, Validator}

-- Django's defaults of the keyword arguments.
unfoldable pub field : Text → FieldKind → Field
field name kind = record {
  name = name;
  kind = kind;
  primary_key = false;
  null = false;
  blank = false;
  unique = false;
  is_editable = true;
  default = Default.no_default;
  choices = [];
  validators = [];
  help_text = [];
}

-- The primary key that DEFAULT_AUTO_FIELD of settings.py stands for.
unfoldable pub auto_id : Field
unfolding field
auto_id = record (field (codes "id") big_auto_field) { primary_key = true }

-- A keyword argument more.
abbrev pub with_default : Default → Field → Field
with_default d f = record f { default = d }

abbrev pub is_unique : Field → Field
is_unique f = record f { unique = true }

abbrev pub is_blank : Field → Field
is_blank f = record f { blank = true }

abbrev pub is_null : Field → Field
is_null f = record f { null = true }

abbrev pub is_null_blank : Field → Field
is_null_blank f = record f { null = true; blank = true }

abbrev pub not_editable : Field → Field
not_editable f = record f { is_editable = false }

abbrev pub with_choices : List (Text × Text) → Field → Field
with_choices l f = record f { choices = l }

abbrev pub with_validators : List Validator → Field → Field
with_validators l f = record f { validators = l }

abbrev pub with_help : Text → Field → Field
with_help t f = record f { help_text = t }
