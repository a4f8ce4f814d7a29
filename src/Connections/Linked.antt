-- ===== src/Connections/Linked.antt =====
-- The foreign key of the accounts to the servers, under the calls that add and move no account.
use ssh_panel_vpn.Common.{
  ℕ, ◌≡◌, refl, sym, ◌∙◌, ap, true, false, Bool, Bool-cases, inl, inr, some, List, [], ◌∷◌, All,
  All-map, ◌==◌, if◌then◌else◌,
}
use ssh_panel_vpn.Models.{Account, Db, Server}
use ssh_panel_vpn.Models.Queries.{has_server, find_server}
use ssh_panel_vpn.Effects.{World}
use ssh_panel_vpn.Effects.Keeps.{IsRemote-Keeps}
use ssh_panel_vpn.Ssh.Tables.{run-IsRemote, with_ssh-Keeps}
use ssh_panel_vpn.Database.{change_row}
use ssh_panel_vpn.Database.Permit.{Permit, Writes}
use ssh_panel_vpn.Database.Steady.{Steady, ServersStay}
use ssh_panel_vpn.Services.Frame.{Frame}
use ssh_panel_vpn.Tasks.Expiry.Pending.{HasServers}
use mathlib.Core.Path.{subst}

-- The server of every account of a list is there.
abbrev LinkedIn : List Server → List Account → Type 0
LinkedIn servers = All (λ (a : Account). has_server a.server servers ≡ true)

abbrev pub IsLinked : Db → Type 0
IsLinked d = LinkedIn d.servers d.accounts

change_row-LinkedIn :
    {may : Permit} (servers : List Server) (i : ℕ) (f : Account → Account) (rows : List Account)
    → Writes may f
    → LinkedIn servers rows
    → LinkedIn servers (change_row i f rows)
unfolding change_row
change_row-LinkedIn servers i f [] writes linked = tt
change_row-LinkedIn servers i f (a ∷ rows) writes (first, rest) =
    (one a (a.id == i) first, change_row-LinkedIn servers i f rows writes rest)
  where
    one :
        (a : Account) (b : Bool)
        → has_server a.server servers ≡ true
        → has_server (if b then f a else a).server servers ≡ true
    one a true there = ap (λ j. has_server j servers) (writes a).same_server ∙ there
    one a false there = there

others-IsLinked :
    (d d' : Db) → d'.accounts ≡ d.accounts → ServersStay d d' → IsLinked d → IsLinked d'
others-IsLinked d d' same stay linked = subst (LinkedIn d'.servers) (sym same) (
    All-map {P = λ (a : Account). has_server a.server d.servers ≡ true}
      {Q = λ (a : Account). has_server a.server d'.servers ≡ true} (λ a there. stay a.server there)
      d.accounts linked)

module _ (may : Permit) (adds_none : may.adds ≡ false) (moves_none : may.moves ≡ false) where
  abbrev Linked : World → Type 0
  Linked w = IsLinked w.db

  IsLinked-Steady : Steady may Linked
  IsLinked-Steady = record {
    with_others = λ w d same stay h. others-IsLinked w.db d same stay h;
    restored = λ w w' h h'. h;
    inserted = λ w a adds active fits free h. absurd (cc);
    updated = λ w i f writes h. change_row-LinkedIn w.db.servers i f w.db.accounts writes h;
    relocated = λ w i server t moves free h. absurd (cc);
    with_id = λ w n h. h;
    with_counts = λ w l h. h;
    with_event = λ w e q h. h;
  }

  pub IsLinked-Frame : Frame may Linked Linked
  IsLinked-Frame = record {
    inside = IsLinked-Steady;
    outside = IsLinked-Steady;
    run_inside = λ ssh c. IsRemote-Keeps (λ d n. IsLinked d) _ (run-IsRemote ssh c);
    bracket = with_ssh-Keeps (λ d n. IsLinked d);
  }

find_server-has :
    (i : ℕ) (l : List Server) → has_server i l ≡ true → (s : Server) × (find_server i l ≡ some s)
unfolding has_server find_server
find_server-has i [] there = absurd (cc)
find_server-has i (s ∷ l) there = elim (Bool-cases (s.id == i)) [
  | inl same ↦ (s, rw same refl)
  | inr other ↦ let (t, found) = find_server-has i l (rw other at there) in (t, rw other found)
]

pub IsLinked-HasServers : (d : Db) → IsLinked d → HasServers d
IsLinked-HasServers d linked =
    All-map {P = λ (a : Account). has_server a.server d.servers ≡ true}
      {Q = λ (a : Account). (s : Server) × (find_server a.server d.servers ≡ some s)}
      (λ a there. find_server-has a.server d.servers there) d.accounts linked
