-- ===== src/Examples/Windows.antt =====
-- The other windows of the system monitor, and its node, at concrete inputs.
use robot_framework_ros.Prelude.{
  ◌≡◌, refl, true, false, none, some, [], ◌∷◌, ◌++◌, List, length, ◌<◌, arith, if◌then◌else◌,
}
use robot_framework_ros.Prelude.Int.{ℤ, pos, negsuc}
use robot_framework_ros.Prelude.Run.{ok}
use robot_framework_ros.Prelude.Text.{Text, text}
use robot_framework_ros.Prelude.Dict.{find}
use robot_framework_ros.Platform.Toy.{toy_doubles, toy_core, toy_curses}
use robot_framework_ros.Messages.{Diagnostic, no_stamp}
use robot_framework_ros.SystemMonitor.Window.{columns, no_color, red_color}
use robot_framework_ros.SystemMonitor.NodeInfo.{new_heartbeat_msg, new_ready_to_arm_msg}
use robot_framework_ros.SystemMonitor.Message.{MessageWindow}
use robot_framework_ros.SystemMonitor.Diagnostics.{
  DiagnosticWindow, new_diagnostic_msg, update_diagnostics,
}
use robot_framework_ros.SystemMonitor.Diagnostics.Reading.{level_color, reading}
use robot_framework_ros.SystemMonitor.Diagnostics.Plain.{row_at, clipped}
use robot_framework_ros.SystemMonitor.Diagnostics.Rows.{diagnostic_row}
use robot_framework_ros.SystemMonitor.Menu.{node}
use robot_framework_ros.SystemMonitor.Node.{
  MonitorNode, TopicInfo, heartbeat_callback, diagnostic_callback, ready_to_arm_callback, run10hz,
  rescan_ros_network,
}
use robot_framework_ros.SystemMonitor.Node.Names.{callback_names}
use robot_framework_ros.SystemMonitor.Node.Scan.{or_else, rescan_ros_network_lem}
use robot_framework_ros.SystemMonitor.Node.Scan.Targets.{targets}
use robot_framework_ros.SystemMonitor.Node.Follow.{run10hz_follows}
use robot_framework_ros.Examples.Monitor.{window}
use robot_framework_ros.Examples.NodeList.{one_node, beat, unready}

abbrev messages : MessageWindow ℤ
messages = record {
  base = window;
  timer_showing_message_in_window_sec = pos 7000;
  message_text = text "old";
  message_text_color = no_color;
}

abbrev diagnostics : DiagnosticWindow ℤ
diagnostics = record {
  base = window;
  node_diagnostic_monitors = [];
  node_to_monitor = text "/imu";
  drawn = [];
}

abbrev slow_imu : Diagnostic
slow_imu = record {
  timestamp = no_stamp;
  node_name = text "/imu";
  system_id = 1;
  subsystem_id = 2;
  process_id = 3;
  diagnostic_type = 9;
  level = 5;
  diagnostic_message = 3;
  description = text "slow";
}

diagnostic_row_example :
    let shown = clipped (columns diagnostics.base) (reading ℤ 9 slow_imu) in
    (w' : DiagnosticWindow ℤ) × (update_diagnostics
        (pos 3000)
        (new_diagnostic_msg slow_imu diagnostics)
      ≡ ok (true, w'))
    × (row_at 9 w'.drawn
        ≡ some (record {
          color =
              if toy_doubles.lt
                (toy_doubles.lit 5 0)
                (toy_doubles.sub (pos 3000) diagnostics.base.current_time_sec)
              then red_color
              else level_color 5;
          text = shown;
        }))
    × (length shown < columns diagnostics.base)
diagnostic_row_example =
    diagnostic_row slow_imu (pos 3000) diagnostics refl (omega arith) refl (omega arith)
      (omega arith) (omega arith) refl

abbrev monitor : MonitorNode ℤ
monitor = record {
  diagnostic = diagnostics;
  header = record { base = window; latest_arm_command = record { armed_state = 0 }; drawn = [] };
  menu = record { base = window; instruction_mode = node; drawn = [] };
  message = messages;
  node_info = one_node;
  status = window;
  selected_node = [];
  auto_subs = (text "/imu/heartbeat", text "robot_framework_ros2/msg/Heartbeat") ∷ [];
  shut_down = false;
}

callback_names_example :
    (heartbeat_callback (beat (text "imu")) (text "/imu" ++ text "/heartbeat") monitor
      ≡ record monitor {
        node_info =
            new_heartbeat_msg
              (record (beat (text "imu")) { nodename = text "/imu" })
              monitor.node_info;
      })
    × (diagnostic_callback slow_imu (text "/imu" ++ text "/diagnostic") monitor ≡ record monitor {
      diagnostic =
          new_diagnostic_msg (record slow_imu { node_name = text "/imu" }) monitor.diagnostic;
    })
    × (ready_to_arm_callback unready (text "/imu" ++ text "/ready_to_arm") monitor
        ≡ record monitor {
          node_info =
              new_ready_to_arm_msg (record unready { nodename = text "/imu" }) monitor.node_info;
        })
callback_names_example = callback_names (text "/imu") (beat (text "imu")) slow_imu unready monitor

run10hz_follows_example :
    (n' : MonitorNode ℤ) × (run10hz (negsuc 0) true (pos 2000) monitor ≡ ok n')
    × (n'.diagnostic.node_to_monitor ≡ monitor.selected_node)
    × (n'.selected_node ≡ monitor.node_info.selected_node)
run10hz_follows_example =
    run10hz_follows (negsuc 0) true (pos 2000) monitor refl ((omega arith, omega arith), tt) refl
      (omega arith)

abbrev graph : List (Text × TopicInfo)
graph =
    (
      text "/servo/heartbeat",
      record {
        types = text "robot_framework_ros2/msg/Heartbeat" ∷ [];
        publishers = (text "servo", text "/") ∷ [];
      },
    )
    ∷ []

rescan_ros_network_lem_example :
    find
      (text "/imu/heartbeat")
      (rescan_ros_network (text "monitor") (text "/") graph monitor).auto_subs
    ≡ elim (find (text "/imu/heartbeat") (targets (text "monitor") (text "/") graph)) [
      | none ↦ none
      | some type ↦ or_else (find (text "/imu/heartbeat") monitor.auto_subs) (some type)
    ]
rescan_ros_network_lem_example =
    rescan_ros_network_lem (text "/imu/heartbeat") (text "monitor") (text "/") graph monitor
