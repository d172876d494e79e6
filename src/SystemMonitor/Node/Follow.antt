-- ===== src/SystemMonitor/Node/Follow.antt =====
-- Which node the diagnostic window follows, from one run of `run10Hz` to the next.
use robot_framework_ros.Prelude.{
  ℕ, ◌-◌, ◌≤◌, ◌≡◌, refl, ap, ◌∙◌, Bool, true, List, [], ◌∷◌, All, ◌||◌, arith,
}
use robot_framework_ros.Prelude.Int.{ℤ, pos, pos_part, eq_ℤ}
use robot_framework_ros.Prelude.Run.{ok}
use robot_framework_ros.Platform.{Doubles, CoreLib, Curses}
use robot_framework_ros.SystemMonitor.Window.{
  MessageText, columns, decrement_selected_record, frame, increment_selected_record,
}
use robot_framework_ros.SystemMonitor.NodeInfo.{NodeInfoWindow}
use robot_framework_ros.SystemMonitor.NodeInfo.Keys.{request_level, focused_key, new_key_event}
use robot_framework_ros.SystemMonitor.NodeInfo.Refresh.{IsDrawable, update_nodes}
use robot_framework_ros.SystemMonitor.Diagnostics.{DiagnosticWindow, set_node_to_monitor}
use robot_framework_ros.SystemMonitor.Node.{MonitorNode, handle_key, show_messages, run10hz}
use robot_framework_ros.SystemMonitor.Header.{header_fits}
use robot_framework_ros.SystemMonitor.Node.Updates.{update_windows-returns}

-- A key leaves the nodes, their count, the selected node and the window's place as they are.
pub record Keeps {D : Type 0} (w w' : NodeInfoWindow D) : Type 0 where
  pub nodes : w'.nodes ≡ w.nodes
  pub selected_node : w'.selected_node ≡ w.selected_node
  pub has_win : w'.base.has_win ≡ w.base.has_win
  pub record_count : w'.base.record_count ≡ w.base.record_count
  pub frame : frame w'.base ≡ frame w.base

module _ {D : Type 0} ⦃fl : Doubles D⦄ ⦃core : CoreLib⦄ ⦃keys : Curses⦄ where
  request_level-Keeps :
      (v : ℕ) (available : Bool) (w : NodeInfoWindow D) → Keeps w (request_level v available w).1
  unfolding request_level
  request_level-Keeps v available w = ground arith

  pub new_key_event-Keeps :
      (key : ℤ) (available : Bool) (w : NodeInfoWindow D)
      → Keeps w (new_key_event key available w).1
  unfolding new_key_event focused_key decrement_selected_record increment_selected_record
  new_key_event-Keeps key available w =
      ground (arith, request_level-Keeps (pos_part key - b'0') available w)

  pub handled-Keeps :
      (key : ℤ) (available : Bool) (n : MonitorNode D)
      → let n' = (handle_key key available n).1 in
        Keeps n.node_info n'.node_info
        × (n'.selected_node ≡ n.node_info.selected_node)
        × (n'.diagnostic ≡ set_node_to_monitor n.selected_node n.diagnostic)
  unfolding handle_key
  handled-Keeps key available n = ground (arith, new_key_event-Keeps key available n.node_info)

  handled-header :
      (key : ℤ) (available : Bool) (n : MonitorNode D)
      → (handle_key key available n).1.header ≡ n.header
  unfolding handle_key
  handled-header key available n = ground arith

  pub show_messages_lem :
      (ms : List MessageText) (n : MonitorNode D)
      → ((show_messages ms n).node_info ≡ n.node_info)
        × ((show_messages ms n).selected_node ≡ n.selected_node)
        × ((show_messages ms n).diagnostic ≡ n.diagnostic)
  show_messages_lem [] n = (refl, refl, refl)
  show_messages_lem (m ∷ ms) n = (refl, refl, refl)

  pub show_messages-header :
      (ms : List MessageText) (n : MonitorNode D) → (show_messages ms n).header ≡ n.header
  show_messages-header [] n = refl
  show_messages-header (m ∷ ms) n = refl

  -- The node before the last loop of `run10Hz`.
  abbrev pub before_update : ℤ → Bool → MonitorNode D → MonitorNode D
  before_update key available n =
      let quit = eq_ℤ key (pos 113) || eq_ℤ key (pos 81) in
      let (ms, n1) = handle_key key available (record n { shut_down = n.shut_down || quit }) in
      show_messages ms n1

  -- What the loops before the last one leave alone.
  pub record Handled (n n' : MonitorNode D) : Type 0 where
    pub node_info : Keeps n.node_info n'.node_info
    pub selected_node : n'.selected_node ≡ n.node_info.selected_node
    pub diagnostic : n'.diagnostic ≡ set_node_to_monitor n.selected_node n.diagnostic
    pub header : n'.header ≡ n.header

  pub before_update-Handled :
      (key : ℤ) (available : Bool) (n : MonitorNode D) → Handled n (before_update key available n)
  before_update-Handled key available n =
      let n0 : MonitorNode D = record n {
        shut_down = n.shut_down || (eq_ℤ key (pos 113) || eq_ℤ key (pos 81));
      } in
      let (ms, n1) = handle_key key available n0 in
      let (keeps, selected, monitored) = handled-Keeps key available n0 in
      let (same, selected2, monitored2) = show_messages_lem ms n1 in
      record {
        node_info = record {
          nodes = ap (λ (w : NodeInfoWindow D). w.nodes) same ∙ keeps.nodes;
          selected_node = ap (λ (w : NodeInfoWindow D). w.selected_node) same ∙ keeps.selected_node;
          has_win = ap (λ (w : NodeInfoWindow D). w.base.has_win) same ∙ keeps.has_win;
          frame = ap (λ (w : NodeInfoWindow D). frame w.base) same ∙ keeps.frame;
          record_count =
              ap (λ (w : NodeInfoWindow D). w.base.record_count) same ∙ keeps.record_count;
        };
        selected_node = selected2 ∙ selected;
        diagnostic = monitored2 ∙ monitored;
        header = show_messages-header ms n1 ∙ handled-header key available n0;
      }

  -- With a node list and a header that can be drawn, and a diagnostic window of three columns or more,
  -- a run of the 10 Hz loop returns, whatever the key. It has the diagnostic window monitor the node
  -- that the loop before had read from the node list, and reads the list's selection as its last
  -- update left it: what the window shows is two runs old.
  pub run10hz_follows :
      (key : ℤ) (available : Bool) (now : D) (n : MonitorNode D)
      → n.node_info.base.has_win ≡ true
      → All (λ (j, d). IsDrawable d) n.node_info.nodes
      → header_fits now n.header ≡ true
      → 3 ≤ columns n.diagnostic.base
      → (n' : MonitorNode D) × (run10hz key available now n ≡ ok n')
        × (n'.diagnostic.node_to_monitor ≡ n.selected_node)
        × (n'.selected_node ≡ n.node_info.selected_node)
  unfolding run10hz set_node_to_monitor
  run10hz_follows key available now n set fits room wide =
      let n1 = before_update key available n in
      let h = before_update-Handled key available n in
      let (w', e, _, _) =
        update_nodes now n1.node_info (h.node_info.has_win ∙ set)
          (coe 1 0 (i. All (λ (j, d). IsDrawable d) (h.node_info.nodes i)) fits) in
      let (n', f, _, monitored, selected) =
        update_windows-returns now n1 true w' (coe 1 0 (i. 3 ≤ columns (h.diagnostic i).base) wide)
          (ap (header_fits now) h.header ∙ room) e in
      (
        n',
        f,
        monitored ∙ ap (λ (w : DiagnosticWindow D). w.node_to_monitor) h.diagnostic,
        selected ∙ h.selected_node,
      )
