-- ===== src/Examples/Systems.antt =====
-- The nodes of Systems/ at concrete inputs, over a process that counts its updates.
use robot_framework_ros.Prelude.{
  ℕ, ◌+◌, ◌≡◌, refl, true, none, some, List, [], ◌∷◌, ◌++◌, if◌then◌else◌,
}
use robot_framework_ros.Prelude.Int.{ℤ, pos}
use robot_framework_ros.Prelude.Run.{ok, modify}
use robot_framework_ros.Prelude.Text.{Text, text, text_eq}
use robot_framework_ros.Platform.Toy.{toy_doubles, toy_core, toy_params, ToyParams}
use robot_framework_ros.Messages.{ReadyToArm, ReadyToArmStatusMsg, DiagnosticMsg}
use robot_framework_ros.Translate.Infrastructure.{ready_to_arm_to_core}
use robot_framework_ros.BaseNode.Topic.{load_robot_namespace}
use robot_framework_ros.BaseNode.Object.{Node, construct, ready_to_arm_out, diagnostic_out}
use robot_framework_ros.BaseNode.Lifecycle.{level_of}
use robot_framework_ros.BaseNode.Timing.{
  tick10hz, tick1hz, tick_loop1, stamped, timing_report, base_run1hz,
}
use robot_framework_ros.BaseNode.Timing.Report.{sent}
use robot_framework_ros.Systems.Host.{Process, Host}
use robot_framework_ros.Systems.Host.Kickoff.{BaseConfig, LoopRates}
use robot_framework_ros.Systems.Host.Follow.{Event, timer, message, replay, node_view, run_events}
use robot_framework_ros.Systems.Host.Seen.{run_events_report}
use robot_framework_ros.Systems.ServoHat.{
  ServoHatDriverProcess, ServoHat, ServoMessage, left, receive, servo_stages, servo_hat,
}
use robot_framework_ros.Systems.ServoHat.Drive.{servo_step, receive-Receives, servo_loop2-Follows}
use robot_framework_ros.Systems.ServoHat.Start.{ServoTopics, subscribed, IsStarted, servo_hat_main}
use robot_framework_ros.Examples.Toy.{at, declared}

abbrev toy_status : ReadyToArmStatusMsg
toy_status = record { system_id = 1; subsystem_id = 2; process_id = 3; ready_to_arm = true }

abbrev slow : DiagnosticMsg
slow = record {
  system_id = 1;
  subsystem_id = 2;
  process_id = 3;
  diagnostic_type = 4;
  level = 5;
  diagnostic_message = 6;
  description = text "slow";
}

-- The updates and the servo values that the process has seen are added up.
abbrev pub counting : Process ℤ ℕ
counting = record {
  update = λ t s. s + 1;
  get_ready_to_arm = λ s. toy_status;
  get_diagnostics = λ s. slow ∷ [];
}

abbrev servo : ServoHatDriverProcess ℤ ℕ
servo = record {
  base = counting;
  init = λ s. (true, s);
  update_robot_arm_command = λ c s. s;
  set_servo_value = λ channel value s. (true, s + value);
}

abbrev no_subs : Host ℕ ServoHat
no_subs = record {
  process = 0;
  members = record { arm_command_sub = none; left_drive_sub = none; right_drive_sub = none };
}

-- The robot is `robot1`; each topic has the name of its parameter.
abbrev pub topics : ToyParams
topics = record {
  declared = [];
  texts = λ k.
      if text_eq k (text "robot_namespace")
      then some (text "/robot1")
      else if text_eq k (text "verbosity_level")
      then none
      else if text_eq k (text "node_namespace")
      then some (text "/robot1/servo")
      else some k;
  doubles = λ k. none;
  text_lists = λ k. none;
  double_lists = λ k. none;
}

abbrev servo_node : Node ℤ ToyParams (Host ℕ ServoHat)
servo_node = construct (text "servo_hat_node") (text "/robot1/servo") topics no_subs

abbrev ready_node : Node ℤ ToyParams (Host ℕ ServoHat)
ready_node = record servo_node { has_publishers = true }

abbrev events : List (Event ℤ (ServoMessage ℤ))
events =
    timer (at 1) (tick_loop1 (pos 0))
    ∷ message (left (pos 7000))
    ∷ timer (at 2) (tick10hz (pos 0))
    ∷ timer (at 2) (tick1hz (pos 0))
    ∷ []

run_events_report_example :
    let v = replay counting (servo_step servo) events (node_view ready_node) in
    (m m' : Node ℤ ToyParams (Host ℕ ServoHat)) × (status : ReadyToArm) × (run_events
        (servo_hat servo)
        (λ x. modify (receive servo x))
        events
        ready_node
      ≡ ok (tt, m))
    × (m.user.process ≡ v.process)
    × (base_run1hz (at 3) m ≡ ok (tt, m'))
    × (m'.outputs
        ≡ m.outputs
          ++ sent (at 3) m.node_name v.diagnostics
          ++ diagnostic_out (stamped (at 3) m.node_name (timing_report m))
            ∷ ready_to_arm_out status
            ∷ [])
    × (ready_to_arm_to_core status ≡ v.status)
unfolding servo_hat
run_events_report_example =
    run_events_report counting (λ e. Unit {0}) (servo_stages servo) (λ x. modify (receive servo x))
      (servo_step servo) events (at 3) ready_node (servo_loop2-Follows servo)
      (receive-Receives servo) refl tt

abbrev pub after : ToyParams → List Text → ToyParams
after p [] = p
after p (k ∷ ks) = after (declared p k) ks

abbrev pub base_given : ToyParams
base_given =
    after topics (text "verbosity_level" ∷ text "robot_namespace" ∷ text "node_namespace" ∷ [])

unfoldable pub config : BaseConfig toy_params topics (text "/robot1/servo")
unfolding text_eq level_of
config = record {
  verbosity = text "NOTICE";
  robot = text "/robot1";
  config = text "/robot1/servo";
  level = 4;
  p1 = after topics (text "verbosity_level" ∷ []);
  p2 = after topics (text "verbosity_level" ∷ text "robot_namespace" ∷ []);
  p3 = base_given;
  verbosity_given = refl;
  level_known = refl;
  logger_starts = refl;
  robot_given = refl;
  config_given = refl;
}

abbrev pub minus_one : ℤ
minus_one = toy_doubles.neg (toy_doubles.lit 1 0)

abbrev servo_given : ToyParams
servo_given =
    after base_given
      (text "topic_arm_command" ∷ text "topic_left_drive" ∷ text "topic_right_drive" ∷ [])

servo_topics : ServoTopics toy_params config.p3
unfolding config text_eq
servo_topics = record {
  arm = text "topic_arm_command";
  left = text "topic_left_drive";
  right = text "topic_right_drive";
  p1 = after base_given (text "topic_arm_command" ∷ []);
  p2 = after base_given (text "topic_arm_command" ∷ text "topic_left_drive" ∷ []);
  p3 = servo_given;
  arm_given = refl;
  left_given = refl;
  right_given = refl;
}

rates : LoopRates toy_params servo_topics.p3
unfolding servo_topics text_eq
rates = record {
  rate1 = minus_one;
  rate2 = minus_one;
  rate3 = minus_one;
  p1 = after servo_given (text "loop1_rate" ∷ []);
  p2 = after servo_given (text "loop1_rate" ∷ text "loop2_rate" ∷ []);
  p3 = after servo_given (text "loop1_rate" ∷ text "loop2_rate" ∷ text "loop3_rate" ∷ []);
  rate1_given = refl;
  rate2_given = refl;
  rate3_given = refl;
  possible = refl;
}

servo_hat_main_example :
    IsStarted servo none
      (at 1)
      servo_node
      (subscribed (load_robot_namespace config.robot) servo_topics)
      (true, 0)
servo_hat_main_example =
    servo_hat_main servo none (at 1) servo_node config servo_topics rates refl refl
