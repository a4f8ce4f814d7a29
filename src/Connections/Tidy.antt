-- ===== src/Connections/Tidy.antt =====
-- Every connection that is opened is closed.
use ssh_panel_vpn.Common.{List, [], ◌∷◌}
use ssh_panel_vpn.Effects.{Env, World}
use ssh_panel_vpn.Effects.Keeps.{Keeps, Keeps-bind, Keeps-pure, Keeps-attempt}
use ssh_panel_vpn.Ssh.Bracket.{run_connected-Keeps, with_ssh_bracket}
use ssh_panel_vpn.Database.Permit.{Permit}
use ssh_panel_vpn.Services.Frame.{Frame}
use ssh_panel_vpn.Connections.{Operation, perform_all}
use ssh_panel_vpn.Connections.Permits.{perform-Keeps}
use ssh_panel_vpn.Connections.Held.{
  IsHeld, IsTidy, IsHeld-Steady, IsTidy-Steady, exec_command-IsHeld, disconnect-IsTidy,
  connect-IsHeld, connect-NoClient, unopened-IsTidy,
}

pub IsTidy-Frame : (may : Permit) → Frame may IsHeld IsTidy
IsTidy-Frame may = record {
  inside = IsHeld-Steady may;
  outside = IsTidy-Steady may;
  run_inside = λ ssh c. run_connected-Keeps connect-IsHeld ssh c (exec_command-IsHeld ssh c);
  bracket =
      with_ssh_bracket {P = IsHeld} {Q = IsTidy} (λ w h. h) connect-IsHeld disconnect-IsTidy
        (λ ssh env w e f h. unopened-IsTidy e _ (connect-NoClient ssh env w) f h);
}

perform_all-Keeps : (ops : List Operation) → Keeps IsTidy (perform_all ops)
unfolding perform_all
perform_all-Keeps [] = Keeps-pure tt
perform_all-Keeps (op ∷ ops) =
    Keeps-bind _ _ (Keeps-attempt _ (perform-Keeps op (IsTidy-Frame _)))
      (λ _. perform_all-Keeps ops)

-- No connection leaks: after any sequence of calls of the services and tasks, whatever the nodes
-- answer and whichever calls raise, as many SSH connections were closed as were opened, if that was
-- so before.
pub perform_all-IsTidy :
    (ops : List Operation) (env : Env) (w : World) → IsTidy w → IsTidy (perform_all ops env w).1
perform_all-IsTidy ops env w h = (perform_all-Keeps ops).at env w h
