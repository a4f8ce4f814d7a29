-- ===== src/Database/Member.antt =====
-- Membership of a row in a table, and what it says of tests on the whole table.
use ssh_panel_vpn.Common.{
  ◌≡◌, refl, Bool, true, false, ◌⊎◌, inl, inr, List, [], ◌∷◌, select, exists, All, ◌==◌, arith,
  Bool-cases, ==_refl,
}
use ssh_panel_vpn.Models.{Account}
use ssh_panel_vpn.Database.{has_account}

abbrev pub Member : Account → List Account → Type 0
Member a [] = ⊥
Member a (b ∷ rows) = (a ≡ b) ⊎ Member a rows

pub exists-false :
    (p : Account → Bool) (rows : List Account)
    → exists p rows ≡ false
    → (b : Account) → Member b rows
    → p b ≡ false
exists-false p [] none b m = elim m [ ]
exists-false p (c ∷ rows) none b m = elim (Bool-cases (p c)) [
  | inl holds ↦ absurd (ground arith)
  | inr fails ↦
      let rest : exists p rows ≡ false = rw fails at none in
      elim m [ inl e ↦ rw e fails | inr inside ↦ exists-false p rows rest b inside ]
]

pub All-Member :
    (Q : Account → Type 0) (rows : List Account)
    → ((a : Account) → Member a rows → Q a)
    → All Q rows
All-Member Q [] q = tt
All-Member Q (a ∷ rows) q = (q a (inl refl), All-Member Q rows (λ b m. q b (inr m)))

pub exists-Member :
    (p : Account → Bool) (b : Account) (rows : List Account)
    → Member b rows
    → p b ≡ true
    → exists p rows ≡ true
exists-Member p b [] m holds = elim m [ ]
exists-Member p b (c ∷ rows) (inl e) holds = let first : p c ≡ true = rw e at holds in rw first refl
exists-Member p b (c ∷ rows) (inr m) holds = ground (arith, exists-Member p b rows m holds)

pub has_account-Member :
    (b : Account) (rows : List Account) → Member b rows → has_account b.id rows ≡ true
unfolding has_account
has_account-Member b [] m = elim m [ ]
has_account-Member b (c ∷ rows) (inl e) =
    let same : (c.id == b.id) ≡ true = rw e (==_refl c.id) in rw same refl
has_account-Member b (c ∷ rows) (inr m) = ground (arith, has_account-Member b rows m)

pub Member-select :
    (p : Account → Bool) (b : Account) (rows : List Account)
    → Member b rows
    → p b ≡ true
    → Member b (select p rows)
Member-select p b [] m holds = m
Member-select p b (c ∷ rows) (inl e) holds =
    let first : p c ≡ true = rw e at holds in rw first (inl e)
Member-select p b (c ∷ rows) (inr m) holds = elim (Bool-cases (p c)) [
  | inl kept ↦ rw kept (inr (Member-select p b rows m holds))
  | inr dropped ↦ rw dropped (Member-select p b rows m holds)
]

pub All-select :
    (Q : Account → Type 0) (p : Account → Bool) (rows : List Account)
    → All Q rows
    → All Q (select p rows)
All-select Q p [] h = tt
All-select Q p (c ∷ rows) (q, h) = elim (Bool-cases (p c)) [
  | inl kept ↦ rw kept (q, All-select Q p rows h)
  | inr dropped ↦ rw dropped (All-select Q p rows h)
]
