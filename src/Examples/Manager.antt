-- ===== src/Examples/Manager.antt =====
-- The armed state manager at concrete inputs.
use robot_framework_ros.Prelude.{
  ℕ, ◌+◌, ◌%◌, ◌≡◌, refl, true, none, some, List, [], ◌∷◌, map, length, if◌then◌else◌,
}
use robot_framework_ros.Prelude.Int.{ℤ, pos}
use robot_framework_ros.Prelude.Run.{ok}
use robot_framework_ros.Prelude.Text.{Text, text, text_eq}
use robot_framework_ros.Platform.Toy.{toy_doubles, toy_core, toy_params, ToyParams}
use robot_framework_ros.Messages.{no_ready_to_arm}
use robot_framework_ros.BaseNode.Object.{Node, Reads, Shared, construct, set_ready_to_arm}
use robot_framework_ros.BaseNode.Topic.{get_namespaced_topic}
use robot_framework_ros.BaseNode.Timing.{tick10hz, tick_loop1, tick_loop2}
use robot_framework_ros.Systems.Host.{Host}
use robot_framework_ros.Systems.Host.Kickoff.{user_init}
use robot_framework_ros.Systems.Host.Follow.{Event, timer, message, replay, node_view, run_events}
use robot_framework_ros.Systems.ArmedStateManager.{
  ArmedStateManagerProcess, ArmedStateManager, monitor_list_param, armed_state_manager,
}
use robot_framework_ros.Systems.ArmedStateManager.Arming.{
  ManagerParams, ManagerMessage, ready, request, monitor_topic, receive, manager_step,
  manager_starts, manager_follows,
}
use robot_framework_ros.Examples.Toy.{at}
use robot_framework_ros.Examples.Systems.{counting, after}

abbrev manager : ArmedStateManagerProcess ℤ ℕ
manager = record {
  base = counting;
  set_config = λ n s. (true, n);
  new_ready_to_arm_status = λ msg s. (true, s + 10);
  request_armstate_change =
      λ req s. (record { current_armed_state = 2; request_approved = true }, s + 100);
  get_arm_command = λ s. record { armed_state = 2 };
}

abbrev list_name : Text
list_name = text "/ns.armed_state_manager_node.nodes_to_monitor"

abbrev listed : ToyParams
listed = record {
  declared = [];
  texts = λ k. some (text "arm_command");
  doubles = λ k. none;
  text_lists = λ k. if text_eq k list_name then some (text "imu" ∷ text "servo" ∷ []) else none;
  double_lists = λ k. none;
}

abbrev seen_by : Reads ℤ
seen_by = record {
  base_node_name = text "armed_state_manager_node";
  node_name = text "/robot1/manager";
  robot_namespace = text "/robot1";
  node_config_namespace = text "/ns";
  seconds = pos 1000;
}

abbrev shared : Shared ToyParams
shared = record {
  system_id = 0;
  subsystem_id = 0;
  process_id = 0;
  ready_to_arm = no_ready_to_arm;
  diagnostics = [];
  params = listed;
}

abbrev empty : ArmedStateManager
empty = record {
  nodes_to_monitor = [];
  ready_to_arm_subs = [];
  arm_command_pub = none;
  arm_state_change_srv_server = none;
  published = [];
  responses = [];
}

given : ManagerParams toy_params (monitor_list_param seen_by) listed
unfolding text_eq
given = record {
  nodes = text "imu" ∷ text "servo" ∷ [];
  arm_topic = text "arm_command";
  p1 = after listed (list_name ∷ []);
  p2 = after listed (list_name ∷ text "topic_arm_command" ∷ []);
  nodes_given = refl;
  arm_topic_given = refl;
}

manager_starts_example :
    let members : ArmedStateManager = record empty {
      nodes_to_monitor = given.nodes;
      ready_to_arm_subs = map (monitor_topic (text "/robot1")) given.nodes;
      arm_command_pub = some (get_namespaced_topic (text "/robot1") given.arm_topic);
      arm_state_change_srv_server =
          some (get_namespaced_topic (text "/robot1") (text "ready_to_arm"));
    } in
    let s' = record shared { params = given.p2 } in
    user_init
      (armed_state_manager manager)
      seen_by
      (shared, record { process = 0; members = empty })
    ≡ ok (
      true,
      (if true
          then (
            set_ready_to_arm (counting.get_ready_to_arm (length given.nodes % 256 + 1)) s',
            record { process = length given.nodes % 256 + 1; members = members },
          )
          else (s', record { process = length given.nodes % 256; members = members })),
    )
manager_starts_example =
    manager_starts manager seen_by shared 0 empty true (length given.nodes % 256) given refl refl

abbrev manager_node : Node ℤ ToyParams (Host ℕ ArmedStateManager)
manager_node =
    record (construct (text "armed_state_manager_node") (text "/robot1/manager") listed (record {
      process = 2;
      members = record empty { arm_command_pub = some (text "/robot1/arm_command") };
    })) { has_publishers = true }

abbrev events : List (Event ℤ ManagerMessage)
events =
    timer (at 1) (tick_loop1 (pos 0))
    ∷ message (ready no_ready_to_arm)
    ∷ message (request (record { requested_armed_state = 2 }))
    ∷ timer (at 2) (tick_loop2 (pos 0))
    ∷ timer (at 3) (tick10hz (pos 0))
    ∷ []

manager_follows_example :
    (m : Node ℤ ToyParams (Host ℕ ArmedStateManager)) × (run_events
        (armed_state_manager manager)
        (receive manager)
        events
        manager_node
      ≡ ok (tt, m))
    × (node_view m ≡ replay counting (manager_step manager) events (node_view manager_node))
manager_follows_example =
    manager_follows manager events manager_node refl (text "/robot1/arm_command", refl)
