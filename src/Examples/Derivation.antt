-- ===== src/Examples/Derivation.antt =====
-- The system monitor with its `BaseNode`, at concrete inputs: a screen of 80 columns and 24 lines.
use robot_framework_ros.Prelude.{
  ◌≡◌, refl, true, none, some, List, [], ◌∷◌, ◌++◌, length, leb, ◌&&◌, arith, if◌then◌else◌,
}
use robot_framework_ros.Prelude.Int.{ℤ, pos, negsuc}
use robot_framework_ros.Prelude.Run.{ok, threw}
use robot_framework_ros.Prelude.Text.{text, text_eq}
use robot_framework_ros.Prelude.Dict.{find, insert}
use robot_framework_ros.Platform.Toy.{toy_doubles, toy_core, toy_curses, toy_params, ToyParams}
use robot_framework_ros.BaseNode.Topic.{load_robot_namespace}
use robot_framework_ros.BaseNode.Object.{Node, construct}
use robot_framework_ros.BaseNode.Timing.{tick10hz, tick1hz}
use robot_framework_ros.Systems.Host.Kickoff.{LoopRates}
use robot_framework_ros.SystemMonitor.Window.{white_color, convert_coordinate}
use robot_framework_ros.SystemMonitor.NodeInfo.{new_heartbeat_msg, insert_node}
use robot_framework_ros.Messages.{ArmCommand}
use robot_framework_ros.SystemMonitor.Header.{update_header}
use robot_framework_ros.SystemMonitor.Node
use robot_framework_ros.SystemMonitor.Node.{MonitorNode}
use robot_framework_ros.SystemMonitor.Node.Armed.{filled, state_color, arm_command_shown}
use robot_framework_ros.SystemMonitor.Node.Screen.{shown_windows, init_windows_lem}
use robot_framework_ros.SystemMonitor.Dispatch.{Monitor}
use robot_framework_ros.SystemMonitor.Dispatch.Visit.{as_monitor}
use robot_framework_ros.SystemMonitor.Dispatch.Screen.{shown_windows-IsNamed}
use robot_framework_ros.SystemMonitor.Derivation.{Around}
use robot_framework_ros.SystemMonitor.Derivation.Start.{IsStarted, no_room, monitor_main}
use robot_framework_ros.SystemMonitor.Derivation.Events.{
  MonitorEvent, timer, hears_heartbeat, on_event, run_events, event_step, replay, Shows, Answers,
}
use robot_framework_ros.SystemMonitor.Derivation.Follow.{run_events_refines}
use robot_framework_ros.SystemMonitor.Derivation.Safe.{Made, Roomy, monitor_stays_up}
use robot_framework_ros.Examples.Toy.{at}
use robot_framework_ros.Examples.Systems.{topics, config, base_given, after, minus_one}
use robot_framework_ros.Examples.NodeList.{beat}

abbrev around : Around ℤ
around = record {
  height = 24;
  width = 80;
  unset = pos 0;
  latest = record { armed_state = 0 };
  key = negsuc 0;
  available = true;
  name_space = text "/";
  topics = [];
}

rates : LoopRates toy_params config.p3
unfolding config text_eq
rates = record {
  rate1 = minus_one;
  rate2 = minus_one;
  rate3 = minus_one;
  p1 = after base_given (text "loop1_rate" ∷ []);
  p2 = after base_given (text "loop1_rate" ∷ text "loop2_rate" ∷ []);
  p3 = after base_given (text "loop1_rate" ∷ text "loop2_rate" ∷ text "loop3_rate" ∷ []);
  rate1_given = refl;
  rate2_given = refl;
  rate3_given = refl;
  possible = refl;
}

monitor_main_example :
    IsStarted around none
      (at 1)
      (text "system_monitor")
      (text "/robot1/servo")
      topics
      (load_robot_namespace config.robot)
      true
      (no_room around)
monitor_main_example =
    monitor_main around none (at 1) (text "system_monitor") (text "/robot1/servo") topics config
      rates

abbrev shown : MonitorNode ℤ
shown = shown_windows (pos 0) 24 80 (record { armed_state = 0 })

abbrev node : Node ℤ ToyParams (Monitor ℤ)
node =
    record (construct (text "system_monitor") (text "/monitor") topics
      (as_monitor (some (text "/robot1arm_command")) shown)) { has_publishers = true }

node-Shows : Shows (text "/monitor") (some (text "/robot1arm_command")) shown node
node-Shows = record {
  user = refl;
  publishers = refl;
  node_name = refl;
  named = shown_windows-IsNamed (pos 0) 24 80 (record { armed_state = 0 });
}

abbrev events : List (MonitorEvent ℤ)
events =
    hears_heartbeat (beat (text "imu")) (text "/imu/heartbeat")
    ∷ timer around (at 1) (tick1hz (pos 0))
    ∷ []

run_events_refines_example :
    Answers
      (text "/monitor")
      (some (text "/robot1arm_command"))
      (replay (text "/monitor") events shown)
      (run_events events node)
run_events_refines_example = run_events_refines events shown node node-Shows

abbrev heard : MonitorNode ℤ
heard = Node.heartbeat_callback (beat (text "imu")) (text "/imu/heartbeat") shown

shown-Made : Made around shown
unfolding convert_coordinate
shown-Made = record {
  opened = refl;
  made = init_windows_lem (pos 0) 24 80 (record { armed_state = 0 });
  wide = omega arith;
}

heard-Roomy : Roomy heard
unfolding Node.heartbeat_callback new_heartbeat_msg insert_node find insert
heard-Roomy = record { nodes = omega arith; armed = omega arith }

monitor_stays_up_example :
    (m m' : Node ℤ ToyParams (Monitor ℤ)) × (k' : MonitorNode ℤ) × (run_events events node
      ≡ ok (tt, m))
    × Shows (text "/monitor") (some (text "/robot1arm_command")) heard m
    × (event_step (text "/monitor") (timer around (at 2) (tick10hz (pos 0))) heard ≡ ok k')
    × (on_event (timer around (at 2) (tick10hz (pos 0))) m ≡ ok (tt, m'))
    × Shows (text "/monitor") (some (text "/robot1arm_command")) k' m'
monitor_stays_up_example =
    monitor_stays_up around shown heard node events (timer around (at 2) (tick10hz (pos 0)))
      shown-Made node-Shows refl heard-Roomy (omega arith)

abbrev armed_command : ArmCommand
armed_command = record { armed_state = toy_core.armed_state_armed }

arm_command_shown_example :
    let time = text "Time: " ++ toy_doubles.to_text (pos 2000) in
    let state = text "Armed State: " ++ toy_core.pretty_armed_state toy_core.armed_state_armed in
    update_header (pos 2000) (Node.arm_command_callback armed_command shown).header ≡ (
      if leb (length time) 40 && leb (length state) 40
      then ok (
        true,
        record shown.header {
          base = record shown.header.base { current_time_sec = pos 2000 };
          latest_arm_command = record { armed_state = toy_core.armed_state_armed };
          drawn =
              (white_color, filled time)
              ∷ (state_color toy_core.armed_state_armed, filled state)
              ∷ [];
        },
      )
      else threw)
arm_command_shown_example = arm_command_shown armed_command (pos 2000) shown refl
