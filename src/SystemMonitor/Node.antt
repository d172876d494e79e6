-- ===== src/SystemMonitor/Node.antt =====
-- The monitor's node: Tools/Applications/SystemMonitor/node/SystemMonitorNode.cpp and its header,
-- and the status window. The windows are a `std::map` by name, so that they are
-- visited in the order diagnostic, header, menu, message, node_info, status. The status
-- window holds nothing but its base.
pub mod Names
pub mod Scan
pub mod Follow
pub mod Screen
pub mod Reach
pub mod Frames
pub mod Updates
pub mod Armed
use robot_framework_ros.Prelude.{
  ℕ, ◌-◌, Bool, true, false, Option, none, some, List, [], ◌∷◌, length, take, leb, ◌||◌,
  if◌then◌else◌,
}
use robot_framework_ros.Prelude.Int.{ℤ, pos, eq_ℤ}
use robot_framework_ros.Prelude.Run.{Result, ok}
use robot_framework_ros.Prelude.Text.{Text, text, text_eq}
use robot_framework_ros.Prelude.Dict.{Dict, find, insert}
use robot_framework_ros.Platform.{Doubles, CoreLib, Curses}
use robot_framework_ros.Messages.{Heartbeat, Diagnostic, ReadyToArm, ArmCommand}
use robot_framework_ros.Translate.Infrastructure.{arm_command_to_core}
use robot_framework_ros.SystemMonitor.Window.{BaseWindow, base_update, MessageText, no_event}
use robot_framework_ros.SystemMonitor.Header.{HeaderWindow, update_header}
use robot_framework_ros.SystemMonitor.Menu.{MenuWindow, update_menu}
use robot_framework_ros.Prelude.Fallible.{◌>>=◌}
use robot_framework_ros.SystemMonitor.NodeInfo.{
  NodeInfoWindow, new_heartbeat_msg, new_ready_to_arm_msg, update,
}
use robot_framework_ros.SystemMonitor.NodeInfo.Keys.{new_key_event}
use robot_framework_ros.SystemMonitor.Message.{MessageWindow, new_message_text_list, update_message}
use robot_framework_ros.SystemMonitor.Diagnostics.{
  DiagnosticWindow, set_node_to_monitor, new_diagnostic_msg, update_diagnostics,
}

module _ {D : Type 0} where
  -- `StatusWindow::update`, and its `updateWindow`, which draws the frame only.
  unfoldable pub update_status : D → BaseWindow D → Bool × BaseWindow D
  unfolding base_update
  update_status now w = (w.has_win, base_update now w)

-- `auto_subs` gives the type of each topic that has a subscription; `shut_down` is whether
-- `rclcpp::shutdown` has been called.
pub record MonitorNode (D : Type 0) : Type 0 where
  pub diagnostic : DiagnosticWindow D
  pub header : HeaderWindow D
  pub menu : MenuWindow D
  pub message : MessageWindow D
  pub node_info : NodeInfoWindow D
  pub status : BaseWindow D
  pub selected_node : Text
  pub auto_subs : Dict Text
  pub shut_down : Bool

-- `topicName.substr(0, topicName.length() - count)`, with the subtraction on `size_t`.
unfoldable pub cut : ℕ → Text → Text
cut count topic = if leb count (length topic) then take (length topic - count) topic else topic

module _ {D : Type 0} ⦃fl : Doubles D⦄ where
  unfoldable pub arm_command_callback : ArmCommand → MonitorNode D → MonitorNode D
  arm_command_callback msg n = record n {
    header = record n.header { latest_arm_command = arm_command_to_core msg };
  }

  unfoldable pub heartbeat_callback : Heartbeat → Text → MonitorNode D → MonitorNode D
  unfolding cut
  heartbeat_callback msg topic n = record n {
    node_info = new_heartbeat_msg (record msg { nodename = cut 10 topic }) n.node_info;
  }

  unfoldable pub diagnostic_callback : Diagnostic → Text → MonitorNode D → MonitorNode D
  unfolding cut
  diagnostic_callback msg topic n = record n {
    diagnostic = new_diagnostic_msg (record msg { node_name = cut 11 topic }) n.diagnostic;
  }

  unfoldable pub ready_to_arm_callback : ReadyToArm → Text → MonitorNode D → MonitorNode D
  unfolding cut
  ready_to_arm_callback msg topic n = record n {
    node_info = new_ready_to_arm_msg (record msg { nodename = cut 13 topic }) n.node_info;
  }

module _ {D : Type 0} ⦃fl : Doubles D⦄ ⦃core : CoreLib⦄ ⦃keys : Curses⦄ where
  -- The first loop of `run10Hz`: the keys, the messages they make, and the selected node.
  unfoldable pub handle_key : ℤ → Bool → MonitorNode D → List MessageText × MonitorNode D
  handle_key key available n =
      let diagnostic = set_node_to_monitor n.selected_node n.diagnostic in
      let (event, node_info) =
        if n.node_info.base.focused
        then new_key_event key available n.node_info
        else (no_event, n.node_info) in
      (
        if text_eq event.message.text (text "") then [] else event.message ∷ [],
        record n {
          diagnostic = diagnostic;
          node_info = node_info;
          selected_node = node_info.selected_node;
        },
      )

  abbrev pub show_messages : List MessageText → MonitorNode D → MonitorNode D
  show_messages [] n = n
  show_messages (m ∷ ms) n = record n { message = (new_message_text_list (m ∷ ms) n.message).1 }

  -- The last loop of `run10Hz`; the answers of `update` are not looked at.
  unfoldable pub update_windows : D → MonitorNode D → Result (MonitorNode D)
  update_windows now n = do
    diagnostic ← update_diagnostics now n.diagnostic
    header ← update_header now n.header
    node_info ← update now n.node_info
    ok (record n {
      diagnostic = diagnostic.1;
      header = header.1;
      menu = (update_menu now n.menu).1;
      message = (update_message now n.message).1;
      node_info = node_info.1;
      status = (update_status now n.status).1;
    })

  -- `run10Hz`, with the key that `getch` gives.
  unfoldable pub run10hz : ℤ → Bool → D → MonitorNode D → Result (MonitorNode D)
  run10hz key available now n =
      let quit = eq_ℤ key (pos 113) || eq_ℤ key (pos 81) in
      let (messages, n1) =
        handle_key key available (record n { shut_down = n.shut_down || quit }) in
      update_windows now (show_messages messages n1)

-- A topic of the graph: its types, and the names and namespaces of its publishers.
pub record TopicInfo : Type 0 where
  pub types : List Text
  pub publishers : List (Text × Text)

unfoldable pub is_scanned : Text → Bool
is_scanned type =
    text_eq type (text "robot_framework_ros2/msg/Heartbeat")
    || text_eq type (text "robot_framework_ros2/msg/Diagnostic")
    || text_eq type (text "robot_framework_ros2/msg/ReadyToArm")

abbrev pub published_by : Text → Text → List (Text × Text) → Bool
published_by name namespace [] = false
published_by name namespace ((a, b) ∷ pubs) =
    if (if text_eq a name then text_eq b namespace else false)
    then true
    else published_by name namespace pubs

-- The inner loop of `rescanROSNetwork`: the first type of the topic that is scanned for, unless the
-- node itself publishes the topic.
abbrev pub target_type : Bool → List Text → Option Text
target_type by_self [] = none
target_type by_self (t ∷ ts) =
    if is_scanned t
    then (if by_self then target_type by_self ts else some t)
    else target_type by_self ts

-- `subscribeToTopic`; `find` of a topic that is there is left alone by the caller.
unfoldable pub subscribe_to_topic : Text → Text → Dict Text → Dict Text
subscribe_to_topic name type subs = if is_scanned type then insert name type subs else subs

unfoldable pub subscribe_if_new : Text → Text → Dict Text → Dict Text
unfolding subscribe_to_topic
subscribe_if_new name type subs = elim (find name subs) [
  | none ↦ subscribe_to_topic name type subs
  | some old ↦ subs
]

-- The outer loop: the topics discovered, with their types, and the subscriptions.
unfoldable pub scan_topics :
    Text → Text → List (Text × TopicInfo) → Dict Text → List (Text × Text) × Dict Text
unfolding subscribe_if_new
scan_topics name namespace [] subs = ([], subs)
scan_topics name namespace ((topic, info) ∷ topics) subs =
    elim (target_type (published_by name namespace info.publishers) info.types) [
      | none ↦ scan_topics name namespace topics subs
      | some type ↦
          let (found, subs') =
            scan_topics name namespace topics (subscribe_if_new topic type subs) in
          ((topic, type) ∷ found, subs')
    ]

-- The last loop: what was not discovered is erased.
unfoldable pub keep_discovered : List (Text × Text) → Dict Text → Dict Text
keep_discovered found [] = []
keep_discovered found ((topic, type) ∷ subs) = elim (find topic found) [
  | none ↦ keep_discovered found subs
  | some t ↦ (topic, type) ∷ keep_discovered found subs
]

module _ {D : Type 0} where
  unfoldable pub rescan_ros_network :
      Text → Text → List (Text × TopicInfo) → MonitorNode D → MonitorNode D
  unfolding scan_topics keep_discovered
  rescan_ros_network name namespace topics n =
      let (found, subs) = scan_topics name namespace topics n.auto_subs in
      record n { auto_subs = keep_discovered found subs }
