-- ===== src/Examples/BaseNode.antt =====
-- The node's states, topics and messages at concrete inputs.
use robot_framework_ros.Prelude.{
  ◌≡◌, refl, ◌↔◌, ◌⊎◌, true, false, [], ◌∷◌, ◌++◌, if◌then◌else◌, arith,
}
use robot_framework_ros.Prelude.Text.{text}
use robot_framework_ros.Messages.{DiagnosticMsg, no_stamp}
use robot_framework_ros.BaseNode.State.{
  state_initializing, state_starting, state_running, state_paused, state_finished,
  request_state_change,
}
use robot_framework_ros.BaseNode.State.Transitions.{
  Transition, request_state_change_iff, run_requests, new_node_runs, IsSubsequence,
}
use robot_framework_ros.BaseNode.Topic.{starts_slash, get_namespaced_topic, load_robot_namespace}
use robot_framework_ros.BaseNode.Topic.Joined.{
  get_namespaced_topic_absolute, get_namespaced_topic_joined,
}
use robot_framework_ros.Translate.Infrastructure.{diagnostic_to_core, diagnostic_to_ros}
use robot_framework_ros.Translate.Infrastructure.RoundTrip.{diagnostic_from_core}

request_state_change_iff_example :
    (((request_state_change state_running state_starting false).0 ≡ true)
      ↔ ((state_running ≡ state_starting) ⊎ Transition state_running state_starting))
    × ((request_state_change state_running state_starting false).1 ≡ (
        if (request_state_change state_running state_starting false).0
        then state_starting
        else state_running))
    × (request_state_change state_running state_paused false ≡ (false, state_running))
    × (request_state_change state_paused state_running false ≡ (false, state_paused))
    × (request_state_change state_running state_finished false ≡ (false, state_running))
request_state_change_iff_example = request_state_change_iff state_running state_starting

new_node_runs_example :
    IsSubsequence
      (state_initializing ∷ state_starting ∷ state_running ∷ [])
      (state_initializing ∷ state_paused ∷ state_starting ∷ state_running ∷ [])
unfolding run_requests request_state_change
new_node_runs_example =
    new_node_runs
      ((state_initializing, false)
        ∷ (state_paused, false)
        ∷ (state_starting, false)
        ∷ (state_running, false)
        ∷ [])
      refl

get_namespaced_topic_absolute_example :
    starts_slash (get_namespaced_topic (load_robot_namespace (text "robot1")) (text "imu")) ≡ true
get_namespaced_topic_absolute_example = get_namespaced_topic_absolute (text "robot1") (text "imu")

get_namespaced_topic_joined_example :
    get_namespaced_topic (text "/robot1") (text "imu") ≡ text "/robot1" ++ text "/" ++ text "imu"
get_namespaced_topic_joined_example =
    get_namespaced_topic_joined (text "/robot1") (text "imu") refl refl refl refl

abbrev battery : DiagnosticMsg
battery = record {
  system_id = 1;
  subsystem_id = 2;
  process_id = 3;
  diagnostic_type = 4;
  level = 5;
  diagnostic_message = 6;
  description = text "low";
}

diagnostic_from_core_example :
    (diagnostic_to_core (diagnostic_to_ros battery) ≡ battery)
    × (diagnostic_to_core
          (record (diagnostic_to_ros battery) { timestamp = no_stamp; node_name = text "imu" })
        ≡ battery)
diagnostic_from_core_example =
    diagnostic_from_core battery no_stamp (text "imu") (omega arith, omega arith, omega arith)
