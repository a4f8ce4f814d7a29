-- ===== src/Examples/Sorting.antt =====
-- The order of the example panel's servers is one that a database may return.
use ssh_panel_vpn.Common.{
  ◌≡◌, refl, ◌∙◌, Bool, true, false, not, List, [], ◌∷◌, every, ltb, arith, Bool-cases, inl, inr,
}
use ssh_panel_vpn.Models.{Server}
use ssh_panel_vpn.Services.Server.Choice.{count, cpu_below, IsOrdered, OrdersByCpu}
use ssh_panel_vpn.Examples.Data.{node_env, insert_server, sort_servers}

count-insert_server :
    (p : Server → Bool) (s : Server) (l : List Server)
    → count p (insert_server s l) ≡ count p (s ∷ l)
unfolding insert_server
count-insert_server p s [] = refl
count-insert_server p s (t ∷ l) = ground (arith, count-insert_server p s l)

count-sort_servers : (p : Server → Bool) (l : List Server) → count p (sort_servers l) ≡ count p l
unfolding sort_servers
count-sort_servers p [] = refl
count-sort_servers p (s ∷ l) =
    count-insert_server p s (sort_servers l) ∙ ground (arith, count-sort_servers p l)

abbrev none_below : Server → List Server → Bool
none_below s l = every (λ t. not (cpu_below node_env t s)) l

none_below_trans :
    (s t : Server) (l : List Server)
    → ltb t.cpu_usage s.cpu_usage ≡ false
    → none_below t l ≡ true
    → none_below s l ≡ true
none_below_trans s t [] st h = refl
none_below_trans s t (u ∷ l) st h = ground (arith, none_below_trans s t l st)

none_below-insert_server :
    (s t : Server) (l : List Server)
    → ltb s.cpu_usage t.cpu_usage ≡ false
    → none_below t l ≡ true
    → none_below t (insert_server s l) ≡ true
unfolding insert_server
none_below-insert_server s t [] st h = ground arith
none_below-insert_server s t (u ∷ l) st h = ground (arith, none_below-insert_server s t l st)

insert_server-IsOrdered :
    (s : Server) (l : List Server) → IsOrdered node_env l → IsOrdered node_env (insert_server s l)
unfolding insert_server
insert_server-IsOrdered s [] o = (refl, o)
insert_server-IsOrdered s (t ∷ l) o = elim (Bool-cases (ltb t.cpu_usage s.cpu_usage)) [
  | inl below ↦
      rw below (none_below-insert_server s t l (ground arith) o.0, insert_server-IsOrdered s l o.1)
  | inr above ↦ rw above (ground (arith, none_below_trans s t l above o.0), o)
]

sort_servers-IsOrdered : (l : List Server) → IsOrdered node_env (sort_servers l)
unfolding sort_servers
sort_servers-IsOrdered [] = tt
sort_servers-IsOrdered (s ∷ l) =
    insert_server-IsOrdered s (sort_servers l) (sort_servers-IsOrdered l)

pub node_env-OrdersByCpu : OrdersByCpu node_env
node_env-OrdersByCpu = record {
  same_rows = count-sort_servers;
  ordered = sort_servers-IsOrdered;
  irreflexive = λ x. ground arith;
}
