-- ===== src/Migrations/Columns/Filled.antt =====
-- What the loop over the columns to add leaves in a table, and the columns that it finds there when it
-- runs again.
use ssh_panel_vpn.Common.{
  is_some, Bool, true, false, ◌≡◌, refl, ◌∙◌, sym, Option, some, none, List, [], ◌∷◌, All, arith,
  All-map, Bool-cases, Option-cases, inl, inr, if◌then◌else◌,
}
use ssh_panel_vpn.Common.Text.{Text, text_eq, text_eq_sound, text_eq_refl}
use ssh_panel_vpn.Migrations.Columns.{Column, Catalog, existing, add_if_missing, add_each}

-- The column of a list under a name.
abbrev pub listed : Text → List Column → Option Column
listed n [] = none
listed n (c ∷ columns) = if text_eq c.name n then some c else listed n columns

abbrev pub or_else {ℓ} : {A : Type ℓ} → Option A → Option A → Option A
or_else none o = o
or_else (some a) o = some a

-- No name twice.
abbrev pub Apart : List Column → Type 0
Apart [] = Unit
Apart (c ∷ columns) = All (λ (d : Column). text_eq c.name d.name ≡ false) columns × Apart columns

all_other : Column → List Column → Bool
all_other c [] = true
all_other c (d ∷ columns) = if text_eq c.name d.name then false else all_other c columns

unfoldable pub are_apart : List Column → Bool
unfolding all_other
are_apart [] = true
are_apart (c ∷ columns) = if all_other c columns then are_apart columns else false

all_other-All :
    (c : Column) (columns : List Column)
    → all_other c columns ≡ true
    → All (λ (d : Column). text_eq c.name d.name ≡ false) columns
unfolding all_other
all_other-All c [] e = tt
all_other-All c (d ∷ columns) e = elim (Bool-cases (text_eq c.name d.name)) [
  | inl same ↦ absurd (ground arith)
  | inr other ↦ (other, all_other-All c columns (ground arith))
]

pub are_apart-Apart : (columns : List Column) → are_apart columns ≡ true → Apart columns
unfolding are_apart
are_apart-Apart [] e = tt
are_apart-Apart (c ∷ columns) e = elim (Bool-cases (all_other c columns)) [
  | inl other ↦ (all_other-All c columns other, are_apart-Apart columns (ground arith))
  | inr same ↦ absurd (ground arith)
]

module _ {ℓ} {T : Type ℓ} (catalog : Catalog T) where
  -- What was read before the first statement still holds for the columns to come.
  abbrev pub Known : (Text → Bool) → List Column → T → Type 0
  Known has columns t =
      All (λ (c : Column). is_some (catalog.column_of t c.name) ≡ has c.name) columns

  -- A table after the statements: its own columns, and the listed ones where it had none.
  abbrev pub IsFilled : List Column → T → T → Type 0
  IsFilled columns t u =
      (n : Text) → catalog.column_of u n ≡ or_else (catalog.column_of t n) (listed n columns)

  Known-added :
      (has : Text → Bool) (c : Column) (columns : List Column) (t u : T)
      → ((n : Text)
          → catalog.column_of u n ≡ (if text_eq c.name n then some c else catalog.column_of t n))
      → All (λ (d : Column). text_eq c.name d.name ≡ false) columns
      → Known has columns t
      → Known has columns u
  Known-added has c [] t u at apart known = tt
  Known-added has c (d ∷ columns) t u at (other, apart) (same, known) =
      (rw (at d.name, other) same, Known-added has c columns t u at apart known)

  -- A column that the table lacks is added, one that it has is kept.
  IsFilled-added :
      (c : Column) (columns : List Column) (t u : T)
      → catalog.column_of t c.name ≡ none
      → ((n : Text)
          → catalog.column_of u n ≡ (if text_eq c.name n then some c else catalog.column_of t n))
      → (v : T) → IsFilled columns u v
      → IsFilled (c ∷ columns) t v
  IsFilled-added c columns t u absent at v filled n = elim (Bool-cases (text_eq c.name n)) [
    | inl same ↦
        let e = text_eq_sound c.name n same in
        let gone : catalog.column_of t n ≡ none = rw (sym e) absent in
        filled n ∙ rw (at n, same, gone) refl
    | inr other ↦ filled n ∙ rw (at n, other) refl
  ]

  IsFilled-kept :
      (c d : Column) (columns : List Column) (t : T)
      → catalog.column_of t c.name ≡ some d
      → (v : T) → IsFilled columns t v
      → IsFilled (c ∷ columns) t v
  IsFilled-kept c d columns t present v filled n = elim (Bool-cases (text_eq c.name n)) [
    | inl same ↦
        let e = text_eq_sound c.name n same in
        let there : catalog.column_of t n ≡ some d = rw (sym e) present in
        filled n ∙ rw (same, there) refl
    | inr other ↦ filled n ∙ rw other refl
  ]

  or_else-none : {A : Type 0} (o : Option A) → o ≡ or_else o none
  or_else-none none = refl
  or_else-none (some a) = refl

  pub add_each-Filled :
      (has : Text → Bool) (columns : List Column) (t : T)
      → Apart columns
      → Known has columns t
      → (u : T) × (add_each catalog has columns t ≡ some u) × IsFilled columns t u
  unfolding add_each add_if_missing
  add_each-Filled has [] t apart known = (t, refl, λ n. or_else-none (catalog.column_of t n))
  add_each-Filled has (c ∷ columns) t (other, apart) (same, known) =
      elim (Option-cases (catalog.column_of t c.name)) [
        | inl absent ↦
            let fresh : has c.name ≡ false = sym same ∙ rw absent refl in
            let (u, e, at) = catalog.free t c absent in
            let (v, run, filled) =
              add_each-Filled has columns u apart (Known-added has c columns t u at other known) in
            (v, rw (fresh, e) run, IsFilled-added c columns t u absent at v filled)
        | inr (d, present) ↦
            let kept : has c.name ≡ true = sym same ∙ rw present refl in
            let (v, run, filled) = add_each-Filled has columns t apart known in
            (v, rw kept run, IsFilled-kept c d columns t present v filled)
      ]

  pub existing-Known : (columns : List Column) (t : T) → Known (existing catalog t) columns t
  existing-Known [] t = tt
  existing-Known (c ∷ columns) t = (refl, existing-Known columns t)

  pub add_each_full :
      (has : Text → Bool) (columns : List Column) (t : T)
      → All (λ (c : Column). has c.name ≡ true) columns
      → add_each catalog has columns t ≡ some t
  unfolding add_each add_if_missing
  add_each_full has [] t all = refl
  add_each_full has (c ∷ columns) t (first, rest) = rw first (add_each_full has columns t rest)

  -- A column of the list is there in a filled table.
  listed_there :
      (columns : List Column) → All (λ (c : Column). is_some (listed c.name columns) ≡ true) columns
  listed_there [] = tt
  listed_there (c ∷ columns) = (
    rw (text_eq_refl c.name) refl,
    All-map {P = λ (d : Column). is_some (listed d.name columns) ≡ true}
        {Q = λ (d : Column). is_some (listed d.name (c ∷ columns)) ≡ true}
        (λ d there. elim (Bool-cases (text_eq c.name d.name)) [
          | inl same ↦ rw same refl
          | inr other ↦ rw other there
        ])
        columns (listed_there columns),
  )

  is_some-or_else : {A : Type 0} (o p : Option A) → is_some p ≡ true → is_some (or_else o p) ≡ true
  is_some-or_else none p there = there
  is_some-or_else (some a) p there = refl

  pub filled_has :
      (columns : List Column) (t u : T)
      → IsFilled columns t u
      → All (λ (c : Column). existing catalog u c.name ≡ true) columns
  filled_has columns t u filled =
      All-map {P = λ (c : Column). is_some (listed c.name columns) ≡ true}
        {Q = λ (c : Column). existing catalog u c.name ≡ true}
        (λ c there. rw (filled c.name) (is_some-or_else (catalog.column_of t c.name) _ there))
        columns (listed_there columns)
