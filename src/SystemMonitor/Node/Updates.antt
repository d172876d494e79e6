-- ===== src/SystemMonitor/Node/Updates.antt =====
-- The last loop of `run10Hz`: when it returns, and what it leaves alone.
use robot_framework_ros.Prelude.{
  ◌-◌, ◌≤◌, ◌≡◌, refl, sym, Bool, true, false, arith, Bool-cases, inl, inr, Option-cases,
}
use robot_framework_ros.Prelude.Run.{ok}
use robot_framework_ros.Prelude.Fallible.{chain_parts}
use robot_framework_ros.Prelude.Dict.{find, map_values}
use robot_framework_ros.Platform.{Doubles, CoreLib, Curses}
use robot_framework_ros.SystemMonitor.Window.{base_update, columns}
use robot_framework_ros.SystemMonitor.NodeInfo.{NodeInfoWindow, update}
use robot_framework_ros.SystemMonitor.Header.{
  HeaderWindow, header_fits, shown_header, update_header, update_header_window, update_header_lem,
}
use robot_framework_ros.SystemMonitor.Menu.{update_menu}
use robot_framework_ros.SystemMonitor.Message.{update_message}
use robot_framework_ros.SystemMonitor.Diagnostics.{
  DiagnosticWindow, age_all, update_diagnostic_window, update_diagnostics,
}
use robot_framework_ros.SystemMonitor.Diagnostics.Plain.{plain_rows, draw_types-plain}
use robot_framework_ros.SystemMonitor.Node.{MonitorNode, update_status, update_windows}

module _ {D : Type 0} ⦃fl : Doubles D⦄ ⦃core : CoreLib⦄ ⦃curses : Curses⦄ where
  -- A window that is wide enough is updated without an exception.
  pub update_diagnostics-returns :
      (now : D) (w : DiagnosticWindow D)
      → 3 ≤ columns w.base
      → (b : Bool) × (w' : DiagnosticWindow D) × (update_diagnostics now w ≡ ok (b, w'))
  unfolding update_diagnostics update_diagnostic_window base_update
  update_diagnostics-returns now w wide =
      let aged : DiagnosticWindow D = record w {
        base = base_update now w.base;
        node_diagnostic_monitors = map_values (age_all now) w.node_diagnostic_monitors;
      } in
      elim (Bool-cases w.base.has_win) [
        | inr closed ↦ (false, aged, ground (arith, closed))
        | inl set ↦
            elim (Option-cases
              (find w.node_to_monitor (map_values (age_all now) w.node_diagnostic_monitors))) [
                | inl unheard ↦ (true, aged, ground (arith, set, unheard))
                | inr (m, heard) ↦ (
                  true,
                  record aged {
                    drawn =
                        plain_rows (columns w.base) core.type_unknown
                          (core.type_end_of_list - core.type_unknown) m;
                  },
                  ground (
                    arith,
                    set,
                    heard,
                    draw_types-plain (columns w.base) core.type_unknown
                        (core.type_end_of_list - core.type_unknown) m wide,
                  ),
                )
              ]
      ]

  -- Whatever it draws, the update changes the window's time and the rows' age only.
  pub update_diagnostics-ok :
      (now : D) (w w' : DiagnosticWindow D) (b : Bool)
      → update_diagnostics now w ≡ ok (b, w')
      → (w'.base ≡ base_update now w.base) × (w'.node_to_monitor ≡ w.node_to_monitor)
  unfolding update_diagnostics update_diagnostic_window
  update_diagnostics-ok now w w' b e = ground (arith, e)

module _ {D : Type 0} ⦃fl : Doubles D⦄ ⦃core : CoreLib⦄ where
  update_header-returns :
      (now : D) (w : HeaderWindow D)
      → header_fits now w ≡ true
      → (b : Bool) × (w' : HeaderWindow D) × (update_header now w ≡ ok (b, w'))
  update_header-returns now w fits = elim (Bool-cases w.base.has_win) [
    | inl set ↦ (true, shown_header now w, rw (update_header_lem now w set, fits) refl)
    | inr closed ↦ (
      false,
      record w { base = base_update now w.base },
      unfold update_header update_header_window base_update in rw closed refl,
    )
  ]

  pub update_header-ok :
      (now : D) (w w' : HeaderWindow D) (b : Bool)
      → update_header now w ≡ ok (b, w')
      → (w'.base ≡ base_update now w.base) × (w'.latest_arm_command ≡ w.latest_arm_command)
  unfolding update_header update_header_window
  update_header-ok now w w' b e = ground (arith, e)

module _ {D : Type 0} ⦃fl : Doubles D⦄ ⦃core : CoreLib⦄ ⦃keys : Curses⦄ where
  -- The node that the loop leaves, with the three windows whose update may throw.
  abbrev pub with_updates :
      D → MonitorNode D → DiagnosticWindow D → HeaderWindow D → NodeInfoWindow D → MonitorNode D
  with_updates now n diagnostic header node_info = record n {
    diagnostic = diagnostic;
    header = header;
    menu = (update_menu now n.menu).1;
    message = (update_message now n.message).1;
    node_info = node_info;
    status = (update_status now n.status).1;
  }

  -- The three updates of a loop that returns.
  pub record Updated (now : D) (n n' : MonitorNode D) : Type 0 where
    pub diagnostic_answer : Bool
    pub header_answer : Bool
    pub node_info_answer : Bool
    pub diagnostic : update_diagnostics now n.diagnostic ≡ ok (diagnostic_answer, n'.diagnostic)
    pub header : update_header now n.header ≡ ok (header_answer, n'.header)
    pub node_info : update now n.node_info ≡ ok (node_info_answer, n'.node_info)
    pub whole : n' ≡ with_updates now n n'.diagnostic n'.header n'.node_info

  pub update_windows-ok :
      (now : D) (n n' : MonitorNode D) → update_windows now n ≡ ok n' → Updated now n n'
  unfolding update_windows
  update_windows-ok now n n' e =
      let ((b, d), e1, ed) = chain_parts _ (update_diagnostics now n.diagnostic) (sym e) in
      let ((c, h), e2, eh) = chain_parts _ (update_header now n.header) (sym e1) in
      let ((a, l), e3, el) = chain_parts _ (update now n.node_info) (sym e2) in
      record {
        diagnostic_answer = b;
        header_answer = c;
        node_info_answer = a;
        diagnostic = ground (arith, ed, e3);
        header = ground (arith, eh, e3);
        node_info = ground (arith, el, e3);
        whole = ground (arith, e3);
      }

  pub update_windows-returns :
      (now : D) (n : MonitorNode D) (b : Bool) (l : NodeInfoWindow D)
      → 3 ≤ columns n.diagnostic.base
      → header_fits now n.header ≡ true
      → update now n.node_info ≡ ok (b, l)
      → (n' : MonitorNode D) × (update_windows now n ≡ ok n')
        × (n'.node_info ≡ l)
        × (n'.diagnostic.node_to_monitor ≡ n.diagnostic.node_to_monitor)
        × (n'.selected_node ≡ n.selected_node)
  unfolding update_windows
  update_windows-returns now n b l wide fits el =
      let (_, d, ed) = update_diagnostics-returns now n.diagnostic wide in
      let (_, h, eh) = update_header-returns now n.header fits in
      (
        with_updates now n d h l,
        rw (ed, eh, el) refl,
        refl,
        (update_diagnostics-ok now n.diagnostic d _ ed).1,
        refl,
      )
