-- ===== src/Services/Server/Choice.antt =====
-- Which server `pick_best_server` returns.
use ssh_panel_vpn.Common.{
  ℕ, ◌≡◌, inl, inr, refl, sym, Bool, true, false, not, ◌&&◌, Option, none, some, List, [], ◌∷◌,
  length, select, every, arith, if◌then◌else◌, Bool-cases, Option-cases, and_true, some_eq, ◌∙◌,
}
use mathlib.Core.Path.{subst}
use ssh_panel_vpn.Models.{Db, Server}
use ssh_panel_vpn.Models.Queries.{is_available}
use ssh_panel_vpn.Effects.{Env, World, ◌>>=◌, on_option, get_db}
use ssh_panel_vpn.Effects.Outcome.{Ends}
use ssh_panel_vpn.Services.Server.{
  is_active, first_available, least_loaded, search_server, pick_best_server,
}

abbrev pub count : (Server → Bool) → List Server → ℕ
count p l = length (select p l)

-- `srv.cpu_usage` is below the one of `t`.
abbrev pub cpu_below : Env → Server → Server → Bool
cpu_below env s t = env.float_lt s.cpu_usage t.cpu_usage

-- No later server has a lower CPU usage.
abbrev pub IsOrdered : Env → List Server → Type 0
IsOrdered env [] = Unit
IsOrdered env (s ∷ l) = (every (λ t. not (cpu_below env t s)) l ≡ true) × IsOrdered env l

-- What PostgreSQL and IEEE 754 document: `ORDER BY cpu_usage` returns the same rows, the lower CPU
-- usage first, and no float is below itself.
pub record OrdersByCpu (env : Env) : Type 0 where
  pub same_rows : (p : Server → Bool) (l : List Server) → count p (env.order_by_cpu l) ≡ count p l
  pub ordered : (l : List Server) → IsOrdered env (env.order_by_cpu l)
  pub irreflexive : (x : ℕ) → env.float_lt x x ≡ false

-- A server that is available and less loaded than `s`.
abbrev pub is_better : Env → Db → Server → Server → Bool
is_better env db s t = is_available db t && cpu_below env t s

module _ (env : Env) (db : Db) where
  none_better :
      (s : Server) (l : List Server)
      → every (λ t. not (cpu_below env t s)) l ≡ true
      → count (is_better env db s) l ≡ 0
  none_better s [] h = refl
  none_better s (t ∷ l) h = ground (arith, none_better s l)

  abbrev IsBest : Server → List Server → Type 0
  IsBest s l = (is_available db s ≡ true) × (count (is_better env db s) l ≡ 0)

  first-IsBest :
      (irreflexive : (x : ℕ) → env.float_lt x x ≡ false) (t : Server) (l : List Server)
      → every (λ u. not (cpu_below env u t)) l ≡ true
      → is_available db t ≡ true
      → IsBest t (t ∷ l)
  first-IsBest irr t l o free = ground (arith, none_better t l o, irr t.cpu_usage)

  first_available-some :
      (irreflexive : (x : ℕ) → env.float_lt x x ≡ false) (s : Server) (l : List Server)
      → IsOrdered env l
      → first_available db l ≡ some s
      → IsBest s l
  unfolding first_available
  first_available-some irr s [] o h = cc
  first_available-some irr s (t ∷ l) o h = elim (Bool-cases (is_available db t)) [
    | inl free ↦
        (let e : t ≡ s = some_eq (rw free at h) in
          subst (λ u. IsBest u (t ∷ l)) e (first-IsBest irr t l o.0 free))
    | inr taken ↦
        (let ih = first_available-some irr s l o.1 (rw taken at h) in (ih.0, rw taken ih.1))
  ]

  first_available-none :
      (l : List Server) → first_available db l ≡ none → count (is_available db) l ≡ 0
  unfolding first_available
  first_available-none [] h = refl
  first_available-none (t ∷ l) h = ground (arith, first_available-none l)

  -- An available server is active, so the filter of the query loses none.
  available_active : (t : Server) → is_available db t ≡ true → is_active t ≡ true
  unfolding is_available
  available_active t h = ground arith

  count-is_active :
      (p : Server → Bool) (l : List Server)
      → ((t : Server) → p t ≡ true → is_active t ≡ true)
      → count p (select is_active l) ≡ count p l
  count-is_active p [] h = refl
  count-is_active p (t ∷ l) h = ground (arith, h t, count-is_active p l h)

-- What `least_loaded` finds for a server to be the choice.
module _ (env : Env) (db : Db) (orders : OrdersByCpu env) where
  abbrev candidates : List Server
  candidates = select is_active db.servers

  least_loaded-some : (s : Server) → least_loaded env db ≡ some s → IsBest env db s db.servers
  unfolding least_loaded
  least_loaded-some s h =
      let best =
        first_available-some env db orders.irreflexive s (env.order_by_cpu candidates)
          (orders.ordered candidates) h in
      (
        best.0,
        sym (
              count-is_active env db (is_better env db s) db.servers
                (λ t p. available_active env db t (and_true _ _ p).0))
            ∙ sym (orders.same_rows (is_better env db s) candidates)
            ∙ best.1,
      )

  least_loaded-none : least_loaded env db ≡ none → count (is_available db) db.servers ≡ 0
  unfolding least_loaded
  least_loaded-none h =
      sym (count-is_active env db (is_available db) db.servers (available_active env db))
      ∙ sym (orders.same_rows (is_available db) candidates)
      ∙ first_available-none env db (env.order_by_cpu candidates) h

-- The preferred server is given and available.
abbrev pub is_met : Db → Option Server → Bool
is_met db none = false
is_met db (some p) = is_available db p

-- The server that is returned: available, the preferred one wherever that is available, and else one
-- that no available server is less loaded than.
abbrev pub IsChoice : Env → Db → Option Server → Server → Type 0
IsChoice env db preferred s =
    (is_available db s ≡ true)
    × (if is_met db preferred
        then preferred ≡ some s
        else count (is_better env db s) db.servers ≡ 0)

search_server-Ends :
    (env : Env) (w : World)
    → OrdersByCpu env
    → Ends
        (λ s w'. IsBest env w.db s w.db.servers × (w' ≡ w))
        (λ w'. (count (is_available w.db) w.db.servers ≡ 0) × (w' ≡ w))
        (search_server env w)
unfolding search_server ◌>>=◌ on_option
search_server-Ends env w orders = elim (Option-cases (least_loaded env w.db)) [
  | inl none' ↦ rw (none', on_option) (least_loaded-none env w.db orders none', refl)
  | inr (s, e) ↦
      (let best = least_loaded-some env w.db orders s e in rw (e, on_option) (best, refl))
]

-- Where the database sorts by CPU usage, `pick_best_server` returns the preferred server if one is
-- given and available, and else an available server such that no available server has a lower CPU
-- usage; it raises exactly when it finds no available server at all. It changes nothing.
pub pick_best_server-IsChoice :
    (preferred : Option Server) (env : Env) (w : World)
    → OrdersByCpu env
    → Ends
        (λ s w'. IsChoice env w.db preferred s × (w' ≡ w))
        (λ w'. (count (is_available w.db) w.db.servers ≡ 0) × (w' ≡ w))
        (pick_best_server preferred env w)
unfolding pick_best_server get_db ◌>>=◌
pick_best_server-IsChoice none env w orders = search_server-Ends env w orders
pick_best_server-IsChoice (some p) env w orders = elim (Bool-cases (is_available w.db p)) [
  | inl free ↦ rw free ((free, refl), refl)
  | inr taken ↦ rw taken (search_server-Ends env w orders)
]
