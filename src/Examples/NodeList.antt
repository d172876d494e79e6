-- ===== src/Examples/NodeList.antt =====
-- The node list of the system monitor at concrete inputs.
use robot_framework_ros.Prelude.{
  ◌≡◌, refl, true, false, none, some, [], ◌∷◌, length, arith, if◌then◌else◌,
}
use robot_framework_ros.Prelude.Int.{ℤ, pos, negsuc}
use robot_framework_ros.Prelude.Run.{ok}
use robot_framework_ros.Prelude.Text.{Text, text}
use robot_framework_ros.Prelude.Dict.{find}
use robot_framework_ros.Platform.Toy.{toy_doubles, toy_core, toy_curses}
use robot_framework_ros.Messages.{Heartbeat, ReadyToArm, no_stamp}
use robot_framework_ros.BaseNode.State.{state_unknown}
use robot_framework_ros.SystemMonitor.Window.{base_update}
use robot_framework_ros.SystemMonitor.NodeInfo.{fast, NodeData, NodeInfoWindow, update}
use robot_framework_ros.SystemMonitor.NodeInfo.Row.{get_node_info, get_window_header}
use robot_framework_ros.SystemMonitor.NodeInfo.Width.{row_aligned, row_throws}
use robot_framework_ros.SystemMonitor.NodeInfo.Refresh.{update_times_out}
use robot_framework_ros.Examples.Monitor.{empty_window}

row_aligned_example :
    (row : Text) × (get_node_info 12
        (text "host")
        (text "/robot1/host_imu")
        3
        (text "TRUE")
        (pos 2000)
        true
      ≡ some row)
    × (length row ≡ length (get_window_header 200))
row_aligned_example =
    row_aligned 12 (text "host") (text "/robot1/host_imu") 3 (text "TRUE") (pos 2000) true 200
      (omega arith) (omega arith) (omega arith) (omega arith)

row_throws_example :
    get_node_info 12345 (text "host") (text "/imu") 3 (text "TRUE") (pos 2000) false ≡ none
row_throws_example =
    row_throws 12345 (text "host") (text "/imu") 3 (text "TRUE") (pos 2000) false (omega arith)

abbrev imu : NodeData ℤ
imu = record {
  id = 0;
  node_state = 3;
  type = fast;
  pid = 0;
  host_device = text "host";
  base_node_name = text "imu_node";
  node_name = text "/imu";
  ready_to_arm = text "TRUE";
  last_heartbeat = pos 1000;
  last_heartbeat_delta = pos 0;
  restart_count = 0;
}

abbrev empty_list : NodeInfoWindow ℤ
empty_list = record {
  base = empty_window;
  previous_key = negsuc 0;
  selected_node = [];
  nodes = [];
  drawn = [];
  requests = [];
}

-- One node, which is selected, and the key `l` pressed before.
abbrev pub one_node : NodeInfoWindow ℤ
one_node = record empty_list {
  base = record empty_window { record_count = 1 };
  previous_key = pos b'l';
  selected_node = text "/imu";
  nodes = (text "/imu", imu) ∷ [];
}

abbrev pub beat : Text → Heartbeat
beat name = record {
  timestamp = no_stamp;
  hostname = text "host";
  base_nodename = text "some_node";
  nodename = name;
  node_state = 4;
}

abbrev pub unready : ReadyToArm
unready = record {
  nodename = text "/imu";
  system_id = 0;
  subsystem_id = 1;
  process_id = 1;
  ready_to_arm = true;
}

update_times_out_example :
    (w' : NodeInfoWindow ℤ) × (update (pos 9000) one_node ≡ ok (true, w'))
    × (find (text "/imu") w'.nodes ≡ elim (find (text "/imu") one_node.nodes) [
      | none ↦ none
      | some n ↦ some (
          if toy_doubles.lt (toy_doubles.lit 5 0) (toy_doubles.sub (pos 9000) n.last_heartbeat)
          then record n {
            last_heartbeat_delta = toy_doubles.sub (pos 9000) n.last_heartbeat;
            node_state = state_unknown;
            ready_to_arm = text "UNKNOWN";
          }
          else record n { last_heartbeat_delta = toy_doubles.sub (pos 9000) n.last_heartbeat })
    ])
    × (w'.base ≡ base_update (pos 9000) one_node.base)
    × (length w'.nodes ≡ length one_node.nodes)
    × (length w'.drawn ≡ length one_node.nodes)
update_times_out_example =
    update_times_out (pos 9000) (text "/imu") one_node refl ((omega arith, omega arith), tt)
