-- ===== src/Examples/Reach.antt =====
-- Runs of the system monitor at concrete inputs.
use robot_framework_ros.Prelude.{ℕ, ◌≡◌, ◌≤◌, refl, true, List, [], ◌∷◌, length, arith}
use robot_framework_ros.Prelude.Int.{ℤ, pos, negsuc}
use robot_framework_ros.Prelude.Run.{ok}
use robot_framework_ros.Prelude.Text.{text}
use robot_framework_ros.Prelude.Dict.{find, insert}
use robot_framework_ros.Platform.Toy.{toy_doubles, toy_core, toy_curses}
use robot_framework_ros.SystemMonitor.Window.{columns, convert_coordinate}
use robot_framework_ros.SystemMonitor.NodeInfo.{new_heartbeat_msg, insert_node}
use robot_framework_ros.SystemMonitor.NodeInfo.Abstract.{
  NodeMessage, heartbeat, ready, known, message_steps, hear_all, hear_all_refines,
}
use robot_framework_ros.SystemMonitor.Node.{MonitorNode, heartbeat_callback, run10hz}
use robot_framework_ros.SystemMonitor.Node.Screen.{shown_windows, init_windows, init_windows_lem}
use robot_framework_ros.SystemMonitor.Node.Reach.{
  here, next, hears_heartbeat, monitor_keeps_running,
}
use robot_framework_ros.Examples.NodeList.{one_node, beat, unready}

abbrev messages : List NodeMessage
messages = heartbeat (beat (text "/servo")) ∷ ready unready ∷ heartbeat (beat (text "/imu")) ∷ []

hear_all_refines_example :
    known (hear_all messages one_node)
    ≡ message_steps one_node.base.current_time_sec messages (known one_node)
hear_all_refines_example = hear_all_refines messages one_node

-- The windows on a screen of that width.
abbrev shown : ℕ → MonitorNode ℤ
shown width = shown_windows (pos 0) 24 width (record { armed_state = 0 })

shown_lem : init_windows (pos 0) 24 80 (record { armed_state = 0 }) ≡ ok (shown 80)
unfolding convert_coordinate
shown_lem = init_windows_lem (pos 0) 24 80 (record { armed_state = 0 })

abbrev after_beat : MonitorNode ℤ
after_beat = heartbeat_callback (beat (text "imu")) (text "/imu/heartbeat") (shown 80)

one_listed : length after_beat.node_info.nodes ≤ 10000
unfolding heartbeat_callback new_heartbeat_msg insert_node find insert
one_listed = omega arith

wide : 3 ≤ columns (shown 80).diagnostic.base
unfolding convert_coordinate
wide = omega arith

monitor_keeps_running_example :
    (n' : MonitorNode ℤ) × (run10hz (negsuc 0) true (pos 2000) after_beat ≡ ok n')
    × (after_beat.node_info.base.record_count ≡ length after_beat.node_info.nodes)
    × (length n'.node_info.nodes ≡ length after_beat.node_info.nodes)
monitor_keeps_running_example =
    monitor_keeps_running (pos 0) 24 80 (record { armed_state = 0 }) (shown 80) after_beat
      (negsuc 0) true (pos 2000) refl shown_lem wide
      (next here (hears_heartbeat (beat (text "imu")) (text "/imu/heartbeat") (shown 80)))
      one_listed (omega arith) (omega arith)
