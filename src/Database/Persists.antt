-- ===== src/Database/Persists.antt =====
-- What becomes of a row while a table evolves by permitted writes.
use ssh_panel_vpn.Common.{
  ℕ, ◌≡◌, refl, ap, ◌∙◌, Bool, true, false, ◌⊎◌, inl, inr, List, [], ◌∷◌, All, ◌==◌, if◌then◌else◌,
}
use ssh_panel_vpn.Models.{Account}
use ssh_panel_vpn.Database.{change_row}
use ssh_panel_vpn.Database.Permit.{
  Permit, SameIdentity, Writes, placed, Evolves, unchanged, opened, changed, moved,
}
use ssh_panel_vpn.Database.Member.{Member, All-Member}
use ssh_panel_vpn.Database.Unique.{written}

-- The row `b` is the row `a` later: its identity is that of `a`, and its status and its server are,
-- or were permitted to change.
abbrev pub Later : Permit → Account → Account → Type 0
Later may a b =
    SameIdentity a b
    × ((b.status ≡ a.status) ⊎ (may.sets b.status ≡ true))
    × ((b.server ≡ a.server) ⊎ (may.moves ≡ true))

-- The row `a` is still among `rows`.
abbrev pub Remains : Permit → Account → List Account → Type 0
Remains may a rows = (b : Account) × Member b rows × Later may a b

-- Every row of `start` is still among `rows`.
abbrev pub Persists : Permit → List Account → List Account → Type 0
Persists may start rows = All (λ a. Remains may a rows) start

Later-refl : (may : Permit) (a : Account) → Later may a a
Later-refl may a = ((refl, refl, refl, refl, refl, refl, refl), inl refl, inl refl)

-- Kept, or permitted, twice.
kept_trans :
    {A : Type 0} (permitted : A → Bool) (x y z : A)
    → (y ≡ x) ⊎ (permitted y ≡ true)
    → (z ≡ y) ⊎ (permitted z ≡ true)
    → (z ≡ x) ⊎ (permitted z ≡ true)
kept_trans permitted x y z before (inr p) = inr p
kept_trans permitted x y z (inl d) (inl e) = inl (e ∙ d)
kept_trans permitted x y z (inr p) (inl e) = inr (rw e p)

Later-trans : (may : Permit) (a b c : Account) → Later may a b → Later may b c → Later may a c
Later-trans may a b c ((i, u, p, t, o, k, n), s, v) ((i', u', p', t', o', k', n'), s', v') = (
  (i' ∙ i, u' ∙ u, p' ∙ p, t' ∙ t, o' ∙ o, k' ∙ k, n' ∙ n),
  kept_trans may.sets a.status b.status c.status s s',
  kept_trans (λ server. may.moves) a.server b.server c.server v v',
)

written-Later :
    (may : Permit) (f : Account → Account)
    → Writes may f
    → (a : Account) (chosen : Bool) → Later may a (if chosen then f a else a)
written-Later may f writes a true =
    let w = writes a in (w.identity, w.status_set, inl w.same_server)
written-Later may f writes a false = Later-refl may a

moved-Later :
    (may : Permit) (server t : ℕ)
    → may.moves ≡ true
    → (a : Account) (chosen : Bool) → Later may a (if chosen then placed server t a else a)
moved-Later may server t moves a true =
    ((refl, refl, refl, refl, refl, refl, refl), inl refl, inr moves)
moved-Later may server t moves a false = Later-refl may a

Member-change_row :
    (i : ℕ) (f : Account → Account) (b : Account) (rows : List Account)
    → Member b rows
    → Member (written i f b) (change_row i f rows)
unfolding change_row
Member-change_row i f b [] m = m
Member-change_row i f b (c ∷ rows) (inl e) = inl (ap (written i f) e)
Member-change_row i f b (c ∷ rows) (inr m) = inr (Member-change_row i f b rows m)

Remains-change_row :
    (may : Permit) (i : ℕ) (f : Account → Account) (a : Account) (rows : List Account)
    → ((b : Account) (chosen : Bool) → Later may b (if chosen then f b else b))
    → Remains may a rows
    → Remains may a (change_row i f rows)
Remains-change_row may i f a rows step (b, inside, later) = (
  written i f b,
  Member-change_row i f b rows inside,
  Later-trans may a b (written i f b) later (step b (b.id == i)),
)

-- A row of the start, in the table that it evolves to.
row-Remains :
    (may : Permit) (start rows : List Account)
    → Evolves may start rows
    → (a : Account) → Member a start
    → Remains may a rows
row-Remains may start _ unchanged a m = (a, m, Later-refl may a)
row-Remains may start _ (opened new h adds active fits free) a m =
    let (b, inside, later) = row-Remains may start _ h a m in (b, inr inside, later)
row-Remains may start _ (changed i f h writes) a m =
    Remains-change_row may i f a _ (written-Later may f writes) (row-Remains may start _ h a m)
row-Remains may start _ (moved i server t h moves free) a m =
    Remains-change_row may i (placed server t) a _ (moved-Later may server t moves)
      (row-Remains may start _ h a m)

pub Evolves-Persists :
    {may : Permit} {start rows : List Account} → Evolves may start rows → Persists may start rows
Evolves-Persists {may} {start} {rows} h =
    All-Member (λ a. Remains may a rows) start (row-Remains may start rows h)
