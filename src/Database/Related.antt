-- ===== src/Database/Related.antt =====
-- The rows before and after, each beside its own, under a relation that each write of a task extends.
use ssh_panel_vpn.Common.{
  ℕ, ◌≡◌, refl, Bool, true, false, Option, List, [], ◌∷◌, select, exists, All, ◌==◌, arith,
  if◌then◌else◌, Bool-cases, inl, inr, ==_iff,
}
use ssh_panel_vpn.Common.Text.{Text}
use ssh_panel_vpn.Models.{Account, Action, Server}
use ssh_panel_vpn.Effects.{World, Act, ◌>>=◌, get_db, read_now, modify}
use ssh_panel_vpn.Effects.Keeps.{Keeps, IsRemote, IsRemote-Keeps, OnTables}
use ssh_panel_vpn.Database.{save_account, create_log, change_row, change_server, has_account}

-- The same number of rows, each in the relation with the row in its place.
abbrev pub Related : {A : Type 0} → (A → A → Type 0) → List A → List A → Type 0
Related R [] [] = Unit
Related R (a ∷ before) (b ∷ after) = R a b × Related R before after
Related R _ _ = ⊥

-- The accounts of the world, related to those of the start.
abbrev pub IsRelated : (Account → Account → Type 0) → List Account → World → Type 0
IsRelated R start = OnTables (λ d _. Related R start d.accounts)

pub Related-refl :
    {A : Type 0} (R : A → A → Type 0) → ((a : A) → R a a) → (l : List A) → Related R l l
Related-refl R r [] = tt
Related-refl R r (a ∷ l) = (r a, Related-refl R r l)

pub change_server-Related :
    (R : Server → Server → Type 0) (i : ℕ) (f : Server → Server)
    → ((a b : Server) → b.id ≡ i → R a b → R a (f b))
    → (l m : List Server) → Related R l m
    → Related R l (change_server i f m)
unfolding change_server
change_server-Related R i f step [] [] h = h
change_server-Related R i f step [] (b ∷ m) h = elim h [ ]
change_server-Related R i f step (a ∷ l) [] h = elim h [ ]
change_server-Related R i f step (a ∷ l) (b ∷ m) h = elim (Bool-cases (b.id == i)) [
  | inl same ↦
      rw same (step a b ((==_iff b.id i).0 same) h.0, change_server-Related R i f step l m h.1)
  | inr other ↦ rw other (h.0, change_server-Related R i f step l m h.1)
]

module _ (R : Account → Account → Type 0) where
  change_row-Related :
      (i : ℕ) (f : Account → Account)
      → ((a b : Account) → b.id ≡ i → R a b → R a (f b))
      → (l m : List Account) → Related R l m
      → Related R l (change_row i f m)
  unfolding change_row
  change_row-Related i f step [] [] h = h
  change_row-Related i f step [] (b ∷ m) h = elim h [ ]
  change_row-Related i f step (a ∷ l) [] h = elim h [ ]
  change_row-Related i f step (a ∷ l) (b ∷ m) h = elim (Bool-cases (b.id == i)) [
    | inl same ↦
        rw same (step a b ((==_iff b.id i).0 same) h.0, change_row-Related i f step l m h.1)
    | inr other ↦ rw other (h.0, change_row-Related i f step l m h.1)
  ]

  module _ (start : List Account) where
    pub save_account-Related :
        (i : ℕ) (f : Account → Account)
        → ((t : ℕ) (a b : Account) → b.id ≡ i → R a b → R a (record (f b) { updated_at = t }))
        → Keeps (IsRelated R start) (save_account i f)
    unfolding save_account read_now get_db modify ◌>>=◌
    save_account-Related i f step = record {
      at = λ env w h. elim (Bool-cases (has_account i w.db.accounts)) [
        | inl found ↦ rw found (
            change_row-Related i (λ b. record (f b) { updated_at = env.now w.trace })
              (step (env.now w.trace)) start w.db.accounts h)
        | inr gone ↦ rw gone h
      ];
    }

    pub create_log-Related :
        (action : Action) (i : ℕ) (admin_user : Option ℕ) (text : Text)
        → Keeps (IsRelated R start) (create_log action i admin_user text)
    unfolding create_log read_now modify ◌>>=◌
    create_log-Related action i admin_user text = record { at = λ env w h. h }

    pub IsRemote-Related : {A : Type 0} (m : Act A) → IsRemote m → Keeps (IsRelated R start) m
    IsRemote-Related m = IsRemote-Keeps (λ d _. Related R start d.accounts) m

-- An account of a list that passes a test has this id.
abbrev pub HasOne : (Account → Bool) → List Account → ℕ → Type 0
HasOne p l i = exists (λ c. if p c then c.id == i else false) l ≡ true

All-HasOne_cons :
    (p : Account → Bool) (c : Account) (l m : List Account)
    → All (λ a. HasOne p l a.id × (p a ≡ true)) m
    → All (λ a. HasOne p (c ∷ l) a.id × (p a ≡ true)) m
All-HasOne_cons p c l [] h = tt
All-HasOne_cons p c l (a ∷ m) h = (ground (arith, h), All-HasOne_cons p c l m h.1)

All-chosen :
    (Q : Account → Type 0) (chosen : Bool) (c : Account) (m : List Account)
    → (chosen ≡ true → Q c)
    → All Q m
    → All Q (if chosen then c ∷ m else m)
All-chosen Q true c m q h = (q refl, h)
All-chosen Q false c m q h = h

pub select-HasOne :
    (p : Account → Bool) (l : List Account) → All (λ a. HasOne p l a.id × (p a ≡ true)) (select p l)
select-HasOne p [] = tt
select-HasOne p (c ∷ l) =
    All-chosen (λ a. HasOne p (c ∷ l) a.id × (p a ≡ true)) (p c) c (select p l)
      (λ chosen. ground arith) (All-HasOne_cons p c l (select p l) (select-HasOne p l))
