-- ===== src/SystemMonitor/Dispatch/Visit.antt =====
-- The node with its windows in a map, and the first loop of `run10Hz` over it, window by window.
use robot_framework_ros.Prelude.{
  ◌≡◌, ap, ◌∙◌, Bool, Option, List, [], ◌∷◌, ◌++◌, arith, Bool-cases, inl, inr, if◌then◌else◌,
}
use robot_framework_ros.Prelude.Int.{ℤ}
use robot_framework_ros.Prelude.Run.{ok}
use robot_framework_ros.Prelude.Text.{Text, text, text_eq}
use robot_framework_ros.Prelude.Dict.{Dict}
use robot_framework_ros.Platform.{Doubles, CoreLib, Curses}
use robot_framework_ros.SystemMonitor.Window.{
  BaseWindow, ScreenCoordinatePixel, MessageText, no_event,
}
use robot_framework_ros.SystemMonitor.NodeInfo.{NodeInfoWindow}
use robot_framework_ros.SystemMonitor.NodeInfo.Keys
use robot_framework_ros.SystemMonitor.Header.{HeaderWindow}
use robot_framework_ros.SystemMonitor.Menu.{MenuWindow}
use robot_framework_ros.SystemMonitor.Message.{MessageWindow}
use robot_framework_ros.SystemMonitor.Diagnostics
use robot_framework_ros.SystemMonitor.Diagnostics.{DiagnosticWindow, update_diagnostics}
use robot_framework_ros.SystemMonitor.Node.{MonitorNode, handle_key}
use robot_framework_ros.SystemMonitor.Node.Follow.{new_key_event-Keeps}
use robot_framework_ros.SystemMonitor.Dispatch.{
  Window, a_diagnostic, a_header, a_menu, a_message, a_node_info, a_status, Monitor, get_name,
  has_focus, set_node_to_monitor, new_key_event, visit, visit_all,
}

module _ {D : Type 0} where
  abbrev pub windows_of : MonitorNode D → Dict (Window D)
  windows_of n =
      (text "diagnostic_window", a_diagnostic n.diagnostic)
      ∷ (text "header_window", a_header n.header)
      ∷ (text "menu_window", a_menu n.menu)
      ∷ (text "message_window", a_message n.message)
      ∷ (text "node_info_window", a_node_info n.node_info)
      ∷ (text "status_window", a_status n.status)
      ∷ []

  -- The node with its windows in a map.
  abbrev pub as_monitor : Option Text → MonitorNode D → Monitor D
  as_monitor sub n = record {
    windows = windows_of n;
    selected_node = n.selected_node;
    auto_subs = n.auto_subs;
    arm_command_sub = sub;
    shut_down = n.shut_down;
  }

  -- Each window has the name under which it stands in the map.
  pub record IsNamed (n : MonitorNode D) : Type 0 where
    pub diagnostic : n.diagnostic.base.name ≡ text "diagnostic_window"
    pub header : n.header.base.name ≡ text "header_window"
    pub menu : n.menu.base.name ≡ text "menu_window"
    pub message : n.message.base.name ≡ text "message_window"
    pub node_info : n.node_info.base.name ≡ text "node_info_window"
    pub status : n.status.name ≡ text "status_window"

module _ {D : Type 0} where
  -- What the key `q` changes leaves the names.
  pub keeps_names :
      {b : Bool} (n : MonitorNode D) → IsNamed n → IsNamed (record n { shut_down = b })
  keeps_names n names = record {
    diagnostic = names.diagnostic;
    header = names.header;
    menu = names.menu;
    message = names.message;
    node_info = names.node_info;
    status = names.status;
  }

module _ {D : Type 0} ⦃core : CoreLib⦄ ⦃keys : Curses⦄ (key : ℤ) (available : Bool) where
  visit_diagnostic :
      (w : DiagnosticWindow D) (ms : List MessageText) (selected : Text)
      → w.base.name ≡ text "diagnostic_window"
      → visit key available (a_diagnostic w) ms selected
        ≡ ok (a_diagnostic (Diagnostics.set_node_to_monitor selected w), ms, selected)
  unfolding visit get_name has_focus new_key_event set_node_to_monitor text_eq
  visit_diagnostic w ms selected e = ground (arith, e)

  visit_header :
      (w : HeaderWindow D) (ms : List MessageText) (selected : Text)
      → w.base.name ≡ text "header_window"
      → visit key available (a_header w) ms selected ≡ ok (a_header w, ms, selected)
  unfolding visit get_name has_focus new_key_event text_eq
  visit_header w ms selected e = ground (arith, e)

  visit_menu :
      (w : MenuWindow D) (ms : List MessageText) (selected : Text)
      → w.base.name ≡ text "menu_window"
      → visit key available (a_menu w) ms selected ≡ ok (a_menu w, ms, selected)
  unfolding visit get_name has_focus new_key_event text_eq
  visit_menu w ms selected e = ground (arith, e)

  visit_message :
      (w : MessageWindow D) (ms : List MessageText) (selected : Text)
      → w.base.name ≡ text "message_window"
      → visit key available (a_message w) ms selected ≡ ok (a_message w, ms, selected)
  unfolding visit get_name has_focus new_key_event text_eq
  visit_message w ms selected e = ground (arith, e)

  visit_status :
      (w : BaseWindow D) (ms : List MessageText) (selected : Text)
      → w.name ≡ text "status_window"
      → visit key available (a_status w) ms selected ≡ ok (a_status w, ms, selected)
  unfolding visit get_name has_focus new_key_event text_eq
  visit_status w ms selected e = ground (arith, e)

module _ {D : Type 0} ⦃fl : Doubles D⦄ ⦃core : CoreLib⦄ ⦃keys : Curses⦄ (key : ℤ)
    (available : Bool) where
  visit_node_info :
      (w : NodeInfoWindow D) (ms : List MessageText) (selected : Text)
      → w.base.name ≡ text "node_info_window"
      → let (event, w') =
          if w.base.focused then Keys.new_key_event key available w else (no_event, w) in
        visit key available (a_node_info w) ms selected
        ≡ ok (
          a_node_info w',
          (if text_eq event.message.text (text "") then ms else ms ++ event.message ∷ []),
          w'.selected_node,
        )
  unfolding visit get_name has_focus new_key_event text_eq
  visit_node_info w ms selected e = elim (Bool-cases w.base.focused) [
    | inr off ↦ ground (arith, e, off)
    | inl on ↦
        let (event, w') = Keys.new_key_event key available w in
        let named : w'.base.name ≡ text "node_info_window" =
          ap (λ (f : Text × ScreenCoordinatePixel × Bool). f.0)
            (new_key_event-Keeps key available w).frame
          ∙ e in
        ground (arith, on, named)
  ]

  -- The first loop makes the messages and the node that `handle_key` makes.
  pub visit_windows :
      (n : MonitorNode D)
      → IsNamed n
      → let (ms, n') = handle_key key available n in
        visit_all key available (windows_of n) [] n.selected_node
        ≡ ok (windows_of n', ms, n'.selected_node)
  unfolding visit_all handle_key
  visit_windows n names = ground (
    arith,
    visit_diagnostic key available n.diagnostic [] n.selected_node names.diagnostic,
    visit_header key available n.header [] n.selected_node names.header,
    visit_menu key available n.menu [] n.selected_node names.menu,
    visit_message key available n.message [] n.selected_node names.message,
    visit_node_info n.node_info [] n.selected_node names.node_info,
    visit_status key available n.status (handle_key key available n).0
        (handle_key key available n).1.selected_node names.status,
  )
