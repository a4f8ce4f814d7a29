-- ===== src/Ssh/Sessions/Address.antt =====
-- The address of a session: a peer in the output of `ss`, or the `from` of the last log line.
use ssh_panel_vpn.Common.{
  ℕ, zero, suc, ◌≡◌, refl, Bool, false, not, ◌||◌, Option, none, some, List, [], ◌∷◌, ◌++◌, ◌==◌,
  if◌then◌else◌,
}
use ssh_panel_vpn.Common.Text.{
  Text, codes, strip, text_eq, is_space, is_digit, lstrip, splitlines, starts_with,
}
use ssh_panel_vpn.Effects.{CommandResult}
use ssh_panel_vpn.Ssh.Connection.{succeeded}

-- `addr.rsplit(":", 1)[0]` where `addr` holds a colon: what stands before the last one.
before_last_colon : Text → Option Text
before_last_colon [] = none
before_last_colon (c ∷ s) = elim (before_last_colon s) [
  | some t ↦ some (c ∷ t)
  | none ↦ if c == 58 then some [] else none
]

usable : Text → Bool
unfolding text_eq codes
usable [] = false
usable (c ∷ s) = not (
    text_eq (c ∷ s) (codes "0.0.0.0")
    || text_eq (c ∷ s) (codes "127.0.0.1")
    || text_eq (c ∷ s) (codes "*"))

first_peer : List Text → Option Text
unfolding before_last_colon usable strip
first_peer [] = none
first_peer (line ∷ lines) =
    let later = first_peer lines in
    elim (before_last_colon (strip line)) [
      | none ↦ later
      | some candidate ↦ if usable candidate then some candidate else later
    ]

unfoldable pub peer_address : CommandResult → Option Text
unfolding first_peer splitlines
peer_address r = if succeeded r then first_peer (splitlines r.stdout) else none

-- The digits at the head, and the rest.
digit_run : Text → Text × Text
digit_run [] = ([], [])
digit_run (c ∷ s) = let (d, rest) = digit_run s in if is_digit c then (c ∷ d, rest) else ([], c ∷ s)

after_dot : Text → Option Text
after_dot [] = none
after_dot (c ∷ s) = if c == 46 then some s else none

-- A run of digits that is not empty, before a dot and the groups that follow it.
join_group : Text → Option Text → Option Text
join_group [] more = none
join_group (c ∷ d) none = none
join_group (c ∷ d) (some t) = some ((c ∷ d) ++ 46 ∷ t)

-- `\d+` and then `n` times `\.\d+`
dotted : ℕ → Text → Option Text
unfolding digit_run after_dot join_group
dotted zero s = elim (digit_run s).0 [ [] ↦ none | c ∷ d ↦ some (c ∷ d) ]
dotted (suc n) s = elim (after_dot (digit_run s).1) [
  | none ↦ none
  | some rest ↦ join_group (digit_run s).0 (dotted n rest)
]

after_from : Text → Option Text
unfolding dotted is_space lstrip
after_from [] = none
after_from (c ∷ s) = if is_space c then dotted 3 (lstrip s) else none

match_here : Text → Option Text
unfolding after_from starts_with codes
match_here s = elim (starts_with (codes "from") s) [ none ↦ none | some t ↦ after_from t ]

-- `re.search(r"from\s+(\d+\.\d+\.\d+\.\d+)", text)`, the first group
search_from : Text → Option Text
unfolding match_here
search_from [] = none
search_from (c ∷ s) =
    let later = search_from s in elim (match_here (c ∷ s)) [ some ip ↦ some ip | none ↦ later ]

unfoldable pub log_address : CommandResult → Option Text
unfolding search_from
log_address r = if succeeded r then search_from r.stdout else none

search_from-login : search_from (codes "x from  10.0.12.7 port 2") ≡ some (codes "10.0.12.7")
unfolding search_from codes
search_from-login = refl
