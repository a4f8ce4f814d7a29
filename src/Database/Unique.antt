-- ===== src/Database/Unique.antt =====
-- The primary key and the unique columns of a table that evolves by permitted writes.
use ssh_panel_vpn.Common.{
  ℕ, ◌≡◌, refl, sym, ◌∙◌, Bool, true, false, not, ◌&&◌, inl, inr, List, [], ◌∷◌, exists, ◌==◌,
  arith, if◌then◌else◌,
}
use ssh_panel_vpn.Common.Text.{text_eq_comm}
use ssh_panel_vpn.Models.{Account}
use ssh_panel_vpn.Models.Queries.{same_login}
use ssh_panel_vpn.Database.{change_row, clashes, login_taken}
use ssh_panel_vpn.Database.Member.{Member, exists-false}
use ssh_panel_vpn.Database.Permit.{
  Permit, Writes, placed, Evolves, unchanged, opened, changed, moved,
}

-- No two rows share a primary key, a token, or a username on one server.
abbrev pub Unique : List Account → Type 0
Unique [] = Unit
Unique (a ∷ rows) = (exists (clashes a) rows ≡ false) × Unique rows

abbrev pub written : ℕ → (Account → Account) → Account → Account
written i f a = if a.id == i then f a else a

exists-change_row :
    (p : Account → Bool) (i : ℕ) (f : Account → Account) (rows : List Account)
    → ((b : Account) → Member b rows → p (written i f b) ≡ false)
    → exists p (change_row i f rows) ≡ false
unfolding change_row
exists-change_row p i f [] h = refl
exists-change_row p i f (c ∷ rows) h =
    rw (h c (inl refl)) (exists-change_row p i f rows (λ b m. h b (inr m)))

-- A write that makes no two rows clash keeps them unique.
change_row-Unique :
    (i : ℕ) (f : Account → Account) (rows : List Account)
    → ((a b : Account)
        → Member a rows
        → Member b rows
        → clashes a b ≡ false
        → clashes (written i f a) (written i f b) ≡ false)
    → Unique rows
    → Unique (change_row i f rows)
unfolding change_row
change_row-Unique i f [] step u = tt
change_row-Unique i f (a ∷ rows) step (apart, u) = (
  exists-change_row (clashes (written i f a)) i f rows
      (λ b m. step a b (inl refl) (inr m) (exists-false (clashes a) rows apart b m)),
  change_row-Unique i f rows (λ c d mc md. step c d (inr mc) (inr md)) u,
)

-- The columns that `clashes` compares.
abbrev pub SameKeys : Account → Account → Type 0
SameKeys a b =
    (b.id ≡ a.id)
    × (b.username ≡ a.username)
    × (b.server ≡ a.server)
    × (b.access_token ≡ a.access_token)
    × (b.auth_token ≡ a.auth_token)

clashes-SameKeys : (a b c d : Account) → SameKeys a c → SameKeys b d → clashes c d ≡ clashes a b
unfolding clashes
clashes-SameKeys a b c d (i, u, s, t, o) (i', u', s', t', o') =
    rw (i, u, s, t, o, i', u', s', t', o') refl

written-SameKeys :
    {may : Permit} (f : Account → Account)
    → Writes may f
    → (a : Account) (chosen : Bool) → SameKeys a (if chosen then f a else a)
written-SameKeys f writes a true =
    let w = writes a in
    let (i, u, protocol, t, o, creator, creation) = w.identity in (i, u, w.same_server, t, o)
written-SameKeys f writes a false = (refl, refl, refl, refl, refl)

pub change_row-Unique_write :
    {may : Permit} (i : ℕ) (f : Account → Account) (rows : List Account)
    → Writes may f
    → Unique rows
    → Unique (change_row i f rows)
change_row-Unique_write i f rows writes = change_row-Unique i f rows (λ a b ma mb apart.
    clashes-SameKeys a b _ _ (written-SameKeys f writes a (a.id == i))
      (written-SameKeys f writes b (b.id == i))
    ∙ apart)

-- Two rows of a table with one primary key are the same row.
same_row :
    (a b : Account) (rows : List Account)
    → Unique rows
    → Member a rows
    → Member b rows
    → (a.id == b.id) ≡ true
    → a ≡ b
unfolding clashes
same_row a b [] u ma mb same = elim ma [ ]
same_row a b (c ∷ rows) (apart, u) (inl e) (inl f) same = e ∙ sym f
same_row a b (c ∷ rows) (apart, u) (inl e) (inr mb) same =
    let free = exists-false (clashes c) rows apart b mb in
    let same_id : (c.id == b.id) ≡ true = rw (sym e) same in absurd (ground arith)
same_row a b (c ∷ rows) (apart, u) (inr ma) (inl f) same =
    let free = exists-false (clashes c) rows apart a ma in
    let same_id : (a.id == c.id) ≡ true = rw (sym f) same in absurd (ground arith)
same_row a b (c ∷ rows) (apart, u) (inr ma) (inr mb) same = same_row a b rows u ma mb same

whole-SameKeys :
    (acc saved a : Account)
    → SameKeys acc saved
    → ((a.id == acc.id) ≡ true → a ≡ acc)
    → (chosen : Bool) → (a.id == acc.id) ≡ chosen
    → SameKeys a (if chosen then saved else a)
whole-SameKeys acc saved a keys same true e = rw (same e) keys
whole-SameKeys acc saved a keys same false e = (refl, refl, refl, refl, refl)

-- A row of the table written as a whole, its keys as they were.
pub change_row-Unique_whole :
    (acc saved : Account) (rows : List Account)
    → Member acc rows
    → SameKeys acc saved
    → Unique rows
    → Unique (change_row acc.id (λ _. saved) rows)
change_row-Unique_whole acc saved rows there keys u =
    let kept : (a : Account) → Member a rows → SameKeys a (written acc.id (λ _. saved) a) = λ a ma.
      whole-SameKeys acc saved a keys (same_row a acc rows u ma there) (a.id == acc.id) refl in
    change_row-Unique acc.id (λ _. saved) rows
      (λ a b ma mb apart. clashes-SameKeys a b _ _ (kept a ma) (kept b mb) ∙ apart) u

-- No row of another id has the username of a row of id `i` on the server.
login_free :
    (i server : ℕ) (rows : List Account)
    → login_taken i server rows ≡ false
    → (a b : Account) → Member a rows
    → Member b rows
    → (a.id == i) ≡ true
    → (b.id == i) ≡ false
    → same_login a.username server b ≡ false
unfolding login_taken
login_free i server rows free a b ma mb same other =
    let pairs =
      exists-false
        (λ (c : Account).
          c.id == i
          && exists (λ (d : Account). not (d.id == i) && same_login c.username server d) rows)
        rows free a ma in
    let none : exists (λ (d : Account). not (d.id == i) && same_login a.username server d) rows
        ≡ false =
      rw same at pairs in
    let pair = exists-false _ rows none b mb in rw other at pair

move_apart :
    (i server t : ℕ) (a b : Account) (x y : Bool)
    → (a.id == i) ≡ x
    → (b.id == i) ≡ y
    → (x ≡ true → y ≡ false → same_login a.username server b ≡ false)
    → (x ≡ false → y ≡ true → same_login b.username server a ≡ false)
    → clashes a b ≡ false
    → clashes (if x then placed server t a else a) (if y then placed server t b else b) ≡ false
unfolding clashes
move_apart i server t a b true true e d l r apart = ground arith
move_apart i server t a b false false e d l r apart = apart
move_apart i server t a b true false e d l r apart = let free = l refl refl in ground arith
move_apart i server t a b false true e d l r apart =
    let free = r refl refl in let c = text_eq_comm a.username b.username in ground arith

pub change_row-Unique_move :
    (i server t : ℕ) (rows : List Account)
    → login_taken i server rows ≡ false
    → Unique rows
    → Unique (change_row i (placed server t) rows)
change_row-Unique_move i server t rows free =
    change_row-Unique i (placed server t) rows (λ a b ma mb.
      move_apart i server t a b (a.id == i) (b.id == i) refl refl
        (login_free i server rows free a b ma mb)
        (λ other same. login_free i server rows free b a mb ma same other))

-- Permitted writes keep a table unique.
pub Evolves-Unique :
    {may : Permit} {start rows : List Account} → Evolves may start rows → Unique start → Unique rows
Evolves-Unique unchanged u = u
Evolves-Unique (opened a h adds active fits free) u = (free, Evolves-Unique h u)
Evolves-Unique (changed i f h writes) u = change_row-Unique_write i f _ writes (Evolves-Unique h u)
Evolves-Unique (moved i server t h moves free) u =
    change_row-Unique_move i server t _ free (Evolves-Unique h u)
