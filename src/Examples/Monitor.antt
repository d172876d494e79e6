-- ===== src/Examples/Monitor.antt =====
-- The windows of the system monitor at concrete inputs.
use Prim.Native.Nat.{min}
use robot_framework_ros.Prelude.{◌≡◌, refl, ◌↔◌, true, ◌+◌, ◌-◌, arith}
use robot_framework_ros.Prelude.Int.{ℤ, pos}
use robot_framework_ros.Prelude.Text.{text}
use robot_framework_ros.BaseNode.Topic.{get_namespaced_topic, load_robot_namespace}
use robot_framework_ros.SystemMonitor.ArmTopic.{arm_command_topic, arm_command_topic_agrees}
use robot_framework_ros.SystemMonitor.Window.{
  BaseWindow, decrement_selected_record, increment_selected_record,
}
use robot_framework_ros.SystemMonitor.Window.Selection.{moves_in_range}

arm_command_topic_agrees_example :
    (arm_command_topic (load_robot_namespace (text "robot1"))
      ≡ get_namespaced_topic (load_robot_namespace (text "robot1")) (text "arm_command"))
    ↔ (load_robot_namespace (text "robot1") ≡ text "/")
arm_command_topic_agrees_example = arm_command_topic_agrees (text "robot1")

-- The second of three records is selected.
abbrev pub window : BaseWindow ℤ
window = record {
  name = text "node_info_window";
  has_win = true;
  tab_order = pos 0;
  coord_perc = record {
    start_x_perc = pos 0;
    start_y_perc = pos 0;
    width_perc = pos 0;
    height_perc = pos 0;
  };
  coord_pixel = record { start_x_pix = 0; start_y_pix = 0; width_pix = 80; height_pix = 24 };
  main_window_height = 24;
  main_window_width = 80;
  focused = true;
  current_time_sec = pos 0;
  record_selected = pos 1;
  record_count = 3;
}

moves_in_range_example :
    (increment_selected_record window
      ≡ record window { record_selected = pos (min (1 + 1) (window.record_count - 1)) })
    × (decrement_selected_record window ≡ record window { record_selected = pos (1 - 1) })
moves_in_range_example = moves_in_range window 1 refl (omega arith) (omega arith)

abbrev pub empty_window : BaseWindow ℤ
empty_window = record window { record_selected = pos 0; record_count = 0 }
