-- ===== src/Api/Routes/Rows.antt =====
-- The unique columns of the accounts under requests, the update of an account included, which writes
-- the whole row.
use ssh_panel_vpn.Common.{
  ℕ, Bool, ◌==◌, ◌≡◌, refl, Bool-cases, Option, none, some, inl, inr, List, [], ◌∷◌, some_eq, sym,
}
use ssh_panel_vpn.Common.Text.{Text}
use ssh_panel_vpn.Models.{Account}
use ssh_panel_vpn.Models.Queries.{find_account}
use ssh_panel_vpn.Effects.{
  http_404, Env, World, Act, Manager, pure, raise, or_raise, ◌>>=◌, get_db, read_now, modify,
}
use ssh_panel_vpn.Effects.Keeps.{
  Keeps, Keeps-bind, Keeps-pure, Keeps-raise, Keeps-if, IsRemote-Keeps,
}
use ssh_panel_vpn.Effects.Outcome.{
  Ends, Outcome, Outcome-bind, Keeps-Outcome, Outcome_weaken, ends_kept,
}
use ssh_panel_vpn.Ssh.Tables.{run-IsRemote, with_ssh-Keeps}
use ssh_panel_vpn.Database.{fits_columns, change_row}
use ssh_panel_vpn.Database.Member.{Member}
use ssh_panel_vpn.Database.Steady.{Steady}
use ssh_panel_vpn.Database.Unique.{
  Unique, SameKeys, change_row-Unique_write, change_row-Unique_move, change_row-Unique_whole,
}
use ssh_panel_vpn.Connections.Rows.{HasUniqueRows}
use ssh_panel_vpn.Services.Frame.{Frame}
use ssh_panel_vpn.Services.Create.{add_days}
use ssh_panel_vpn.ShadowLink.Upload.{upload}
use ssh_panel_vpn.Api.Serializers.{UpdateRequest}
use ssh_panel_vpn.Api.Request.{User, get_account_or_404, require_valid}
use ssh_panel_vpn.Api.Update.{
  new_expiry, apply_update, clashes_elsewhere, save_whole, update_handler, update_account_view,
}
use ssh_panel_vpn.Api.Routes.{Route, serve}
use ssh_panel_vpn.Api.Routes.Views.{everything, guarded-Keeps}
use ssh_panel_vpn.Api.Routes.Changes.{push_saved-Keeps}
use ssh_panel_vpn.Api.Routes.Frame.{serve-Keeps}
use mathlib.Core.Path.{subst}

HasUniqueRows-Steady : Steady everything HasUniqueRows
HasUniqueRows-Steady = record {
  with_others = λ w d same stay h. subst Unique (sym same) h;
  restored = λ w w' h h'. h;
  inserted = λ w a adds active fits free h. (free, h);
  updated = λ w i f writes h. change_row-Unique_write i f w.db.accounts writes h;
  relocated = λ w i server t moves free h. change_row-Unique_move i server t w.db.accounts free h;
  with_id = λ w n h. h;
  with_counts = λ w l h. h;
  with_event = λ w e q h. h;
}

abbrev frame : Frame everything HasUniqueRows HasUniqueRows
frame = record {
  inside = HasUniqueRows-Steady;
  outside = HasUniqueRows-Steady;
  run_inside = λ ssh c. IsRemote-Keeps (λ d n. Unique d.accounts) _ (run-IsRemote ssh c);
  bracket = with_ssh-Keeps (λ d n. Unique d.accounts);
}

upload-HasUniqueRows : (ssh : Manager) (path : Text) → Keeps HasUniqueRows (upload ssh path)
unfolding upload
upload-HasUniqueRows ssh path = record {
  at = λ env w h. elim (Bool-cases (env.uploads w.trace ssh path)) [
    | inl sent ↦ rw sent h
    | inr failed ↦ rw failed h
  ];
}

-- The row that a view holds is one of the table.
abbrev Holds : Account → World → Type 0
Holds acc w = HasUniqueRows w × Member acc w.db.accounts

find_account-Member :
    (pk : ℕ) (acc : Account) (rows : List Account)
    → find_account pk rows ≡ some acc
    → Member acc rows
unfolding find_account
find_account-Member pk acc [] e = absurd (cc)
find_account-Member pk acc (a ∷ rows) e = elim (Bool-cases (a.id == pk)) [
  | inl same ↦ let found : some a ≡ some acc = rw same at e in inl (sym (some_eq found))
  | inr other ↦ inr (find_account-Member pk acc rows (rw other at e))
]

found-Ends :
    (env : Env) (w : World) (pk : ℕ) (o : Option Account)
    → find_account pk w.db.accounts ≡ o
    → HasUniqueRows w
    → Ends Holds HasUniqueRows (or_raise http_404 o env w)
unfolding or_raise
found-Ends env w pk none e h = h
found-Ends env w pk (some acc) e h = (h, find_account-Member pk acc w.db.accounts e)

get_account_or_404-Holds :
    (env : Env) (pk : ℕ) → Outcome env HasUniqueRows (get_account_or_404 pk) Holds HasUniqueRows
unfolding get_account_or_404 get_db ◌>>=◌
get_account_or_404-Holds env pk = record {
  at = λ w h. found-Ends env w pk (find_account pk w.db.accounts) refl h;
}

read_now-Holds : (acc : Account) → Keeps (Holds acc) read_now
unfolding read_now
read_now-Holds acc = record { at = λ env w h. h }

new_expiry-Holds : (acc a : Account) (o : Option ℕ) → Keeps (Holds acc) (new_expiry a o)
unfolding new_expiry add_days
new_expiry-Holds acc a none = Keeps-pure _
new_expiry-Holds acc a (some days) =
    Keeps-bind _ _ (read_now-Holds acc) (λ now. Keeps-if _ _ _ (Keeps-pure _) (Keeps-raise _))

require_valid-Holds : (acc : Account) (b : Bool) → Keeps (Holds acc) (require_valid b)
unfolding require_valid
require_valid-Holds acc b = Keeps-if _ _ _ (Keeps-pure _) (Keeps-raise _)

save_whole-Ends :
    (env : Env) (acc saved : Account) (w : World)
    → SameKeys acc saved
    → Holds acc w
    → Ends (λ _. HasUniqueRows) HasUniqueRows (save_whole saved env w)
unfolding save_whole read_now get_db modify pure raise ◌>>=◌
save_whole-Ends env acc saved w keys (u, there) =
    let row : Account = record saved { updated_at = env.now w.trace } in
    elim (Bool-cases (fits_columns row)) [
      | inl fits ↦ (elim (Bool-cases (clashes_elsewhere row w.db.accounts)) [
        | inl taken ↦ rw (fits, taken) u
        | inr free ↦
            rw (fits, free)
              (subst (λ i. Unique (change_row i (λ _. row) w.db.accounts)) (sym keys.0)
                (change_row-Unique_whole acc row w.db.accounts there keys u))
      ])
      | inr large ↦ rw large u
    ]

-- The assignments of the view write none of the columns that make a row unique.
save_update-Holds :
    (env : Env) (acc : Account) (body : UpdateRequest) (date : ℕ)
    → Outcome env
        (Holds acc)
        (save_whole (apply_update body date acc))
        (λ _. HasUniqueRows)
        HasUniqueRows
unfolding apply_update
save_update-Holds env acc body date = record {
  at = λ w h. save_whole-Ends env acc _ w (refl, refl, refl, refl, refl) h;
}

update_handler-HasUniqueRows :
    (env : Env) (pk : ℕ) (body : UpdateRequest)
    → Outcome env HasUniqueRows (update_handler pk body) (λ _. HasUniqueRows) HasUniqueRows
update_handler-HasUniqueRows env pk body =
    Outcome-bind {R = Holds} (get_account_or_404-Holds env pk) λ acc.
      Outcome-bind {R = λ _. Holds acc} (kept (require_valid-Holds acc _)) λ _.
        Outcome-bind {R = λ _. Holds acc} (kept (new_expiry-Holds acc acc _)) λ date.
          Outcome-bind {R = λ _. HasUniqueRows} (save_update-Holds env acc _ date) λ saved.
            Keeps-Outcome (Keeps-bind _ _ (push_saved-Keeps frame _ saved) (λ _. Keeps-pure _))
  where
    kept :
        {A : Type 0} {acc : Account} {m : Act A}
        → Keeps (Holds acc) m
        → Outcome env (Holds acc) m (λ _. Holds acc) HasUniqueRows
    kept k = Outcome_weaken (λ a w h. h) (λ w h. h.0) (Keeps-Outcome k)

update_account_view-HasUniqueRows :
    (user : Option User) (pk : ℕ) (body : UpdateRequest)
    → Keeps HasUniqueRows (update_account_view user pk body)
unfolding update_account_view
update_account_view-HasUniqueRows user pk body = guarded-Keeps frame _ user _ (record {
  at = λ env w h. ends_kept HasUniqueRows _ ((update_handler-HasUniqueRows env pk body).at w h);
})

-- The constraints of the account table hold under requests too: if no two rows share a primary key, a
-- token, or a username on one server, then none do after any sequence of requests to the routes that
-- change accounts and those that make, switch, check and deploy servers, by whomever and with whatever
-- bodies, whatever the nodes answer and whichever requests fail.
pub serve-HasUniqueRows :
    (requests : List (Route × Option User)) (env : Env) (w : World)
    → HasUniqueRows w
    → HasUniqueRows (serve requests env w).1
serve-HasUniqueRows requests env w h =
    (serve-Keeps frame upload-HasUniqueRows update_account_view-HasUniqueRows requests).at env w h
