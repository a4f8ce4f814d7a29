-- ===== src/Tasks/Sessions/Excess/Bounds.antt =====
-- Which sessions are killed and which survive.
use ssh_panel_vpn.Common.{
  ℕ, zero, suc, ◌+◌, ◌-◌, ◌≤◌, ◌≡◌, refl, Bool, List, [], ◌∷◌, length, take, drop, select, All,
  arith, ◌∙◌,
}
use ssh_panel_vpn.Ssh.Sessions.{SessionInfo}
use ssh_panel_vpn.Tasks.Sessions.Excess.{insert_by_pid, sort_by_pid, excess}

-- How many sessions of a list pass a test.
abbrev pub count : (SessionInfo → Bool) → List SessionInfo → ℕ
count p l = length (select p l)

abbrev pub FromPid : ℕ → SessionInfo → Type 0
FromPid n s = n ≤ s.pid

-- Each process id is at most the ones behind it.
abbrev IsSorted : List SessionInfo → Type 0
IsSorted [] = Unit
IsSorted (s ∷ l) = All (FromPid s.pid) l × IsSorted l

count-insert_by_pid :
    (p : SessionInfo → Bool) (s : SessionInfo) (l : List SessionInfo)
    → count p (insert_by_pid s l) ≡ count p (s ∷ l)
unfolding insert_by_pid
count-insert_by_pid p s [] = refl
count-insert_by_pid p s (t ∷ l) = ground (arith, count-insert_by_pid p s l)

count-sort_by_pid :
    (p : SessionInfo → Bool) (l : List SessionInfo) → count p (sort_by_pid l) ≡ count p l
unfolding sort_by_pid
count-sort_by_pid p [] = refl
count-sort_by_pid p (s ∷ l) =
    ground (arith, count-insert_by_pid p s (sort_by_pid l), count-sort_by_pid p l)

length-insert_by_pid :
    (s : SessionInfo) (l : List SessionInfo) → length (insert_by_pid s l) ≡ suc (length l)
unfolding insert_by_pid
length-insert_by_pid s [] = refl
length-insert_by_pid s (t ∷ l) = ground (arith, length-insert_by_pid s l)

length-sort_by_pid : (l : List SessionInfo) → length (sort_by_pid l) ≡ length l
unfolding sort_by_pid
length-sort_by_pid [] = refl
length-sort_by_pid (s ∷ l) =
    omega (arith, length-insert_by_pid s (sort_by_pid l), length-sort_by_pid l)

FromPid-weaken : (m n : ℕ) (l : List SessionInfo) → m ≤ n → All (FromPid n) l → All (FromPid m) l
FromPid-weaken m n [] h a = tt
FromPid-weaken m n (s ∷ l) h a = (omega arith, FromPid-weaken m n l h a.1)

insert_by_pid-FromPid :
    (n : ℕ) (s : SessionInfo) (l : List SessionInfo)
    → n ≤ s.pid
    → All (FromPid n) l
    → All (FromPid n) (insert_by_pid s l)
unfolding insert_by_pid
insert_by_pid-FromPid n s [] h a = (h, tt)
insert_by_pid-FromPid n s (t ∷ l) h a = ground (arith, insert_by_pid-FromPid n s l h a.1)

insert_by_pid-IsSorted :
    (s : SessionInfo) (l : List SessionInfo) → IsSorted l → IsSorted (insert_by_pid s l)
unfolding insert_by_pid
insert_by_pid-IsSorted s [] h = (tt, tt)
insert_by_pid-IsSorted s (t ∷ l) h = ground (
  arith,
  insert_by_pid-IsSorted s l h.1,
  insert_by_pid-FromPid t.pid s l,
  FromPid-weaken s.pid t.pid l,
)

sort_by_pid-IsSorted : (l : List SessionInfo) → IsSorted (sort_by_pid l)
unfolding sort_by_pid
sort_by_pid-IsSorted [] = tt
sort_by_pid-IsSorted (s ∷ l) = insert_by_pid-IsSorted s (sort_by_pid l) (sort_by_pid-IsSorted l)

length-drop : (n : ℕ) (l : List SessionInfo) → length (drop n l) ≡ length l - n
length-drop zero l = omega arith
length-drop (suc n) [] = omega arith
length-drop (suc n) (s ∷ l) = omega (arith, length-drop n l)

count_cut :
    (p : SessionInfo → Bool) (n : ℕ) (l : List SessionInfo)
    → count p (take n l) + count p (drop n l) ≡ count p l
count_cut p zero l = omega arith
count_cut p (suc n) [] = omega arith
count_cut p (suc n) (s ∷ l) = ground (arith, count_cut p n l)

drop-FromPid : (m n : ℕ) (l : List SessionInfo) → All (FromPid m) l → All (FromPid m) (drop n l)
drop-FromPid m zero l a = a
drop-FromPid m (suc n) [] a = a
drop-FromPid m (suc n) (s ∷ l) a = drop-FromPid m n l a.1

take_below_drop :
    (n : ℕ) (l : List SessionInfo)
    → IsSorted l
    → All (λ s. All (FromPid s.pid) (drop n l)) (take n l)
take_below_drop zero l h = tt
take_below_drop (suc n) [] h = tt
take_below_drop (suc n) (s ∷ l) h = (drop-FromPid s.pid n l h.0, take_below_drop n l h.1)

-- The sessions that stay.
abbrev pub survivors : ℕ → List SessionInfo → List SessionInfo
survivors n l = take n (sort_by_pid l)

-- With a limit of `n`, exactly the sessions beyond `n` are killed; killed and surviving sessions
-- together are the sessions that were listed, each as often; and no survivor has a higher process
-- id than a killed session.
pub excess_exact :
    (n : ℕ) (l : List SessionInfo)
    → (length (excess n l) ≡ length l - n)
      × ((p : SessionInfo → Bool) → count p (survivors n l) + count p (excess n l) ≡ count p l)
      × All (λ s. All (FromPid s.pid) (excess n l)) (survivors n l)
unfolding excess
excess_exact n l = (
  omega (arith, length-drop n (sort_by_pid l), length-sort_by_pid l),
  λ p. count_cut p n (sort_by_pid l) ∙ count-sort_by_pid p l,
  take_below_drop n (sort_by_pid l) (sort_by_pid-IsSorted l),
)
