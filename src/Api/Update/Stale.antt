-- ===== src/Api/Update/Stale.antt =====
-- The save of `AccountUpdateView.patch` when the row changed after the view read it.
use ssh_panel_vpn.Common.{
  ℕ, ◌==◌, ==_refl, ◌≡◌, refl, true, Bool-cases, some, inl, inr, List, [], ◌∷◌,
}
use ssh_panel_vpn.Models.{Account}
use ssh_panel_vpn.Models.Queries.{find_account}
use ssh_panel_vpn.Effects.{Env, World, pure, raise, ◌>>=◌, read_now, get_db, modify}
use ssh_panel_vpn.Effects.Outcome.{Ends}
use ssh_panel_vpn.Database.{fits_columns, change_row, has_account}
use ssh_panel_vpn.Api.Serializers.{UpdateRequest}
use ssh_panel_vpn.Api.Update.{clashes_elsewhere, apply_update, save_whole}

find_account-change_row :
    (i : ℕ) (saved : Account) (rows : List Account)
    → saved.id ≡ i
    → has_account i rows ≡ true
    → find_account i (change_row i (λ _. saved) rows) ≡ some saved
unfolding find_account change_row has_account
find_account-change_row i saved [] e there = absurd (cc)
find_account-change_row i saved (a ∷ rows) e there = elim (Bool-cases (a.id == i)) [
  | inl same ↦ rw (same, e, ==_refl i) refl
  | inr other ↦ rw (other, other) (find_account-change_row i saved rows e (rw other at there))
]

-- Whatever a concurrent call made of the row after `acc` was read (a suspension, an expiry, a move to
-- another server, a usage that was recorded), the save of the update ends in one of two ways. It
-- raises and writes nothing, as where its login was taken since on the server that was read, or the row then is the object that the view holds, whose status, server,
-- plan and usage are those that were read: the concurrent write is undone.
pub save_whole-restores :
    (env : Env) (w : World) (acc : Account) (body : UpdateRequest) (date : ℕ)
    → has_account acc.id w.db.accounts ≡ true
    → Ends
        (λ saved w'.
          (find_account acc.id w'.db.accounts ≡ some saved)
          × (saved.status ≡ acc.status)
          × (saved.server ≡ acc.server)
          × (saved.plan ≡ acc.plan)
          × (saved.bandwidth_used_gb ≡ acc.bandwidth_used_gb))
        (λ w'. w'.db ≡ w.db)
        (save_whole (apply_update body date acc) env w)
unfolding save_whole apply_update read_now get_db modify pure raise ◌>>=◌
save_whole-restores env w acc body date there =
    let saved : Account = record (apply_update body date acc) { updated_at = env.now w.trace } in
    elim (Bool-cases (fits_columns saved)) [
      | inl fits ↦ (elim (Bool-cases (clashes_elsewhere saved w.db.accounts)) [
        | inl taken ↦ rw (fits, taken) refl
        | inr free ↦
            rw (fits, free)
              (
                find_account-change_row acc.id saved w.db.accounts refl there,
                refl,
                refl,
                refl,
                refl,
              )
      ])
      | inr large ↦ rw large refl
    ]
