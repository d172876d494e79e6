-- ===== src/SystemMonitor/Dispatch.antt =====
-- The windows behind their interface, as the monitor's node keeps them: a `std::map` by name of
-- pointers to `IWindow` (Tools/Applications/SystemMonitor/include/IWindow.hpp), and the virtual
-- functions that each class overrides (include/Windows/). `fault` is the use of the null pointer that
-- a `dynamic_pointer_cast` to another class gives.
pub mod Visit
pub mod Agree
pub mod Screen
pub mod Pretty
use robot_framework_ros.Prelude.{
  Bool, true, false, Option, List, [], ◌∷◌, ◌++◌, ◌||◌, if◌then◌else◌,
}
use robot_framework_ros.Prelude.Int.{ℤ, pos, eq_ℤ}
use robot_framework_ros.Prelude.Run.{Result, ok, fault}
use robot_framework_ros.Prelude.Fallible.{◌>>=◌}
use robot_framework_ros.Prelude.Text.{Text, text, text_eq}
use robot_framework_ros.Prelude.Dict.{Dict, map_values}
use robot_framework_ros.Platform.{Doubles, CoreLib, Curses}
use robot_framework_ros.Messages.{Heartbeat, Diagnostic, ReadyToArm, ArmCommand}
use robot_framework_ros.Translate.Infrastructure.{arm_command_to_core}
use robot_framework_ros.SystemMonitor.Window.{BaseWindow, MessageText, KeyEventContainer, no_event}
use robot_framework_ros.SystemMonitor.NodeInfo
use robot_framework_ros.SystemMonitor.NodeInfo.{NodeInfoWindow}
use robot_framework_ros.SystemMonitor.NodeInfo.Keys
use robot_framework_ros.SystemMonitor.Message.{MessageWindow, new_message_text_list, update_message}
use robot_framework_ros.SystemMonitor.Diagnostics
use robot_framework_ros.SystemMonitor.Diagnostics.{DiagnosticWindow, update_diagnostics}
use robot_framework_ros.SystemMonitor.Header.{HeaderWindow, update_header}
use robot_framework_ros.SystemMonitor.Menu.{MenuWindow, update_menu}
use robot_framework_ros.SystemMonitor.Node.{
  TopicInfo, cut, update_status, scan_topics, keep_discovered,
}

pub data Window (D : Type 0) : Type 0 where
  a_diagnostic : DiagnosticWindow D → Window D
  a_header : HeaderWindow D → Window D
  a_menu : MenuWindow D → Window D
  a_message : MessageWindow D → Window D
  a_node_info : NodeInfoWindow D → Window D
  a_status : BaseWindow D → Window D

module _ {D : Type 0} where
  abbrev pub base_of : Window D → BaseWindow D
  base_of (a_diagnostic w) = w.base
  base_of (a_header w) = w.base
  base_of (a_menu w) = w.base
  base_of (a_message w) = w.base
  base_of (a_node_info w) = w.base
  base_of (a_status w) = w

  unfoldable pub get_name : Window D → Text
  get_name w = (base_of w).name

  unfoldable pub has_focus : Window D → Bool
  has_focus w = (base_of w).focused

  -- `get_m_selectedNode` and `setNodeToMonitor`, of the pointer that was cast.
  abbrev pub get_selected_node : Window D → Result Text
  get_selected_node (a_node_info w) = ok w.selected_node
  get_selected_node (a_diagnostic w) = fault
  get_selected_node (a_header w) = fault
  get_selected_node (a_menu w) = fault
  get_selected_node (a_message w) = fault
  get_selected_node (a_status w) = fault

  unfoldable pub set_node_to_monitor : Text → Window D → Result (Window D)
  unfolding Diagnostics.set_node_to_monitor
  set_node_to_monitor name (a_diagnostic w) =
      ok (a_diagnostic (Diagnostics.set_node_to_monitor name w))
  set_node_to_monitor name (a_header w) = fault
  set_node_to_monitor name (a_menu w) = fault
  set_node_to_monitor name (a_message w) = fault
  set_node_to_monitor name (a_node_info w) = fault
  set_node_to_monitor name (a_status w) = fault

  unfoldable pub new_arm_command_msg : ArmCommand → Window D → Window D
  new_arm_command_msg msg (a_header w) =
      a_header (record w { latest_arm_command = arm_command_to_core msg })
  new_arm_command_msg msg (a_diagnostic w) = a_diagnostic w
  new_arm_command_msg msg (a_menu w) = a_menu w
  new_arm_command_msg msg (a_message w) = a_message w
  new_arm_command_msg msg (a_node_info w) = a_node_info w
  new_arm_command_msg msg (a_status w) = a_status w

module _ {D : Type 0} ⦃fl : Doubles D⦄ where
  unfoldable pub new_heartbeat_msg : Heartbeat → Window D → Window D
  unfolding NodeInfo.new_heartbeat_msg
  new_heartbeat_msg msg (a_node_info w) = a_node_info (NodeInfo.new_heartbeat_msg msg w)
  new_heartbeat_msg msg (a_diagnostic w) = a_diagnostic w
  new_heartbeat_msg msg (a_header w) = a_header w
  new_heartbeat_msg msg (a_menu w) = a_menu w
  new_heartbeat_msg msg (a_message w) = a_message w
  new_heartbeat_msg msg (a_status w) = a_status w

  unfoldable pub new_ready_to_arm_msg : ReadyToArm → Window D → Window D
  unfolding NodeInfo.new_ready_to_arm_msg
  new_ready_to_arm_msg msg (a_node_info w) = a_node_info (NodeInfo.new_ready_to_arm_msg msg w)
  new_ready_to_arm_msg msg (a_diagnostic w) = a_diagnostic w
  new_ready_to_arm_msg msg (a_header w) = a_header w
  new_ready_to_arm_msg msg (a_menu w) = a_menu w
  new_ready_to_arm_msg msg (a_message w) = a_message w
  new_ready_to_arm_msg msg (a_status w) = a_status w

  unfoldable pub new_diagnostic_msg : Diagnostic → Window D → Window D
  unfolding Diagnostics.new_diagnostic_msg
  new_diagnostic_msg msg (a_diagnostic w) = a_diagnostic (Diagnostics.new_diagnostic_msg msg w)
  new_diagnostic_msg msg (a_header w) = a_header w
  new_diagnostic_msg msg (a_menu w) = a_menu w
  new_diagnostic_msg msg (a_message w) = a_message w
  new_diagnostic_msg msg (a_node_info w) = a_node_info w
  new_diagnostic_msg msg (a_status w) = a_status w

module _ {D : Type 0} ⦃core : CoreLib⦄ ⦃keys : Curses⦄ where
  unfoldable pub new_key_event : ℤ → Bool → Window D → KeyEventContainer × Window D
  unfolding Keys.new_key_event
  new_key_event key available (a_node_info w) =
      let (event, w') = Keys.new_key_event key available w in (event, a_node_info w')
  new_key_event key available (a_diagnostic w) = (no_event, a_diagnostic w)
  new_key_event key available (a_header w) = (no_event, a_header w)
  new_key_event key available (a_menu w) = (no_event, a_menu w)
  new_key_event key available (a_message w) = (no_event, a_message w)
  new_key_event key available (a_status w) = (no_event, a_status w)

module _ {D : Type 0} ⦃fl : Doubles D⦄ ⦃core : CoreLib⦄ ⦃curses : Curses⦄ where
  unfoldable pub update : D → Window D → Result (Bool × Window D)
  update now (a_diagnostic w) = update_diagnostics now w >>= λ r. ok (r.0, a_diagnostic r.1)
  update now (a_header w) = update_header now w >>= λ r. ok (r.0, a_header r.1)
  update now (a_menu w) = let r = update_menu now w in ok (r.0, a_menu r.1)
  update now (a_message w) = let r = update_message now w in ok (r.0, a_message r.1)
  update now (a_node_info w) = NodeInfo.update now w >>= λ r. ok (r.0, a_node_info r.1)
  update now (a_status w) = let r = update_status now w in ok (r.0, a_status r.1)

-- The members of `SystemMonitorNode`. The subscription to arm commands is null or one of a topic;
-- `auto_subs` gives the type of each topic that has a subscription; `shut_down` is whether
-- `rclcpp::shutdown` has been called.
pub record Monitor (D : Type 0) : Type 0 where
  pub windows : Dict (Window D)
  pub selected_node : Text
  pub auto_subs : Dict Text
  pub arm_command_sub : Option Text
  pub shut_down : Bool

module _ {D : Type 0} where
  -- A loop over all windows that cannot fail.
  abbrev pub tell_all : (Window D → Window D) → Monitor D → Monitor D
  tell_all tell m = record m { windows = map_values tell m.windows }

  unfoldable pub arm_command_callback : ArmCommand → Monitor D → Monitor D
  unfolding new_arm_command_msg
  arm_command_callback msg = tell_all (new_arm_command_msg msg)

module _ {D : Type 0} ⦃fl : Doubles D⦄ where
  unfoldable pub heartbeat_callback : Heartbeat → Text → Monitor D → Monitor D
  unfolding new_heartbeat_msg cut
  heartbeat_callback msg topic =
      tell_all (new_heartbeat_msg (record msg { nodename = cut 10 topic }))

  unfoldable pub diagnostic_callback : Diagnostic → Text → Monitor D → Monitor D
  unfolding new_diagnostic_msg cut
  diagnostic_callback msg topic =
      tell_all (new_diagnostic_msg (record msg { node_name = cut 11 topic }))

  unfoldable pub ready_to_arm_callback : ReadyToArm → Text → Monitor D → Monitor D
  unfolding new_ready_to_arm_msg cut
  ready_to_arm_callback msg topic =
      tell_all (new_ready_to_arm_msg (record msg { nodename = cut 13 topic }))

module _ {D : Type 0} ⦃core : CoreLib⦄ ⦃keys : Curses⦄ where
  -- The body of the first loop of `run10Hz`, with the messages and the selected node so far.
  unfoldable pub visit :
      ℤ → Bool → Window D → List MessageText → Text → Result (Window D × List MessageText × Text)
  unfolding get_name has_focus new_key_event set_node_to_monitor
  visit key available w messages selected =
      let (event, w1) = if has_focus w then new_key_event key available w else (no_event, w) in
      let messages1 =
        if text_eq event.message.text (text "") then messages else messages ++ event.message ∷ [] in
      let read =
        if text_eq (get_name w1) (text "node_info_window")
        then get_selected_node w1
        else ok selected in
      do
        selected1 ← read
        w2 ←
            if text_eq (get_name w1) (text "diagnostic_window")
            then set_node_to_monitor selected1 w1
            else ok w1
        ok (w2, messages1, selected1)

  unfoldable pub visit_all :
      ℤ
      → Bool
      → Dict (Window D)
      → List MessageText
      → Text
      → Result (Dict (Window D) × List MessageText × Text)
  unfolding visit
  visit_all key available [] messages selected = ok ([], messages, selected)
  visit_all key available ((name, w) ∷ ws) messages selected =
      visit key available w messages selected >>= λ (w', messages1, selected1).
      visit_all key available ws messages1 selected1 >>= λ (ws', messages2, selected2).
      ok ((name, w') ∷ ws', messages2, selected2)

module _ {D : Type 0} ⦃fl : Doubles D⦄ ⦃core : CoreLib⦄ where
  -- The body of the second loop: what a window of the class `MessageWindow` is given.
  unfoldable pub give_messages : List MessageText → Window D → Window D
  give_messages messages (a_message w) = a_message (new_message_text_list messages w).1
  give_messages messages (a_diagnostic w) = a_diagnostic w
  give_messages messages (a_header w) = a_header w
  give_messages messages (a_menu w) = a_menu w
  give_messages messages (a_node_info w) = a_node_info w
  give_messages messages (a_status w) = a_status w

  abbrev pub give_all : List MessageText → Dict (Window D) → Dict (Window D)
  give_all [] ws = ws
  give_all (m ∷ ms) ws = map_values (give_messages (m ∷ ms)) ws

module _ {D : Type 0} ⦃fl : Doubles D⦄ ⦃core : CoreLib⦄ ⦃curses : Curses⦄ where
  -- The last loop; the answers of `update` are not looked at.
  unfoldable pub update_all : D → Dict (Window D) → Result (Dict (Window D))
  unfolding update
  update_all now [] = ok []
  update_all now ((name, w) ∷ ws) =
      update now w >>= λ r. update_all now ws >>= λ ws'. ok ((name, r.1) ∷ ws')

  -- `run10Hz`, with the key that `getch` gives.
  unfoldable pub run10hz : ℤ → Bool → D → Monitor D → Result (Monitor D)
  unfolding visit_all give_messages update_all
  run10hz key available now m =
      let quit = eq_ℤ key (pos 113) || eq_ℤ key (pos 81) in
      visit_all key available m.windows [] m.selected_node >>= λ (ws, messages, selected).
      update_all now (give_all messages ws) >>= λ ws'.
      ok (record m { windows = ws'; selected_node = selected; shut_down = m.shut_down || quit })

module _ {D : Type 0} where
  unfoldable pub rescan_ros_network : Text → Text → List (Text × TopicInfo) → Monitor D → Monitor D
  unfolding scan_topics keep_discovered
  rescan_ros_network name namespace topics m =
      let (found, subs) = scan_topics name namespace topics m.auto_subs in
      record m { auto_subs = keep_discovered found subs }
