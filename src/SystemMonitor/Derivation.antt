-- ===== src/SystemMonitor/Derivation.antt =====
-- `SystemMonitorNode` as a class derived from `BaseNode`: the functions that it overrides
-- (Tools/Applications/SystemMonitor/node/SystemMonitorNode.cpp).
pub mod Start
pub mod Safe
pub mod Refine
pub mod Follow
pub mod Events
use robot_framework_ros.Prelude.{ℕ, Bool, true, false, Option, none, some, List, []}
use robot_framework_ros.Prelude.Int.{ℤ}
use robot_framework_ros.Prelude.Run.{ok, threw, fault, Run}
use robot_framework_ros.Prelude.Fallible.{with_value}
use robot_framework_ros.Prelude.Text.{Text}
use robot_framework_ros.Platform.{Doubles, CoreLib, Curses}
use robot_framework_ros.Messages.{ArmCommandMsg}
use robot_framework_ros.BaseNode.Object.{Hook, Derived}
use robot_framework_ros.Systems.Host.{idle, agree}
use robot_framework_ros.SystemMonitor.ArmTopic.{arm_command_topic}
use robot_framework_ros.SystemMonitor.Node.{TopicInfo}
use robot_framework_ros.SystemMonitor.Dispatch.{Monitor, run10hz, rescan_ros_network}
use robot_framework_ros.SystemMonitor.Dispatch.Screen.{init_screen}

-- What a call finds outside of the node: the size of the screen, the key that `getch` gives, whether
-- the service that is asked for is there, and the topics of the graph. `name_space` is what
-- `get_namespace()` gives, `unset` what stands in a member without an initializer, and `latest` a new
-- arm command message of the core library.
pub record Around (D : Type 0) : Type 0 where
  pub height : ℕ
  pub width : ℕ
  pub unset : D
  pub latest : ArmCommandMsg
  pub key : ℤ
  pub available : Bool
  pub name_space : Text
  pub topics : List (Text × TopicInfo)

-- A new node's members.
abbrev pub new_monitor : {D : Type 0} → Monitor D
new_monitor = record {
  windows = [];
  selected_node = [];
  auto_subs = [];
  arm_command_sub = none;
  shut_down = false;
}

module _ {D P : Type 0} where
  unfoldable pub init_pub_subs : Hook D P (Monitor D) Bool
  unfolding arm_command_topic
  init_pub_subs r (s, m) =
      ok (true, (s, record m { arm_command_sub = some (arm_command_topic r.robot_namespace) }))

module _ {D P : Type 0} ⦃fl : Doubles D⦄ ⦃curses : Curses⦄ where
  unfoldable pub init_data : Around D → Hook D P (Monitor D) Bool
  unfolding init_screen
  init_data a r (s, m) =
      with_value (init_screen a.unset a.height a.width a.latest m)
        (λ (b, m') (s', _). ok (b, (s', m'))) (s, m)

module _ {D P : Type 0} ⦃fl : Doubles D⦄ ⦃core : CoreLib⦄ ⦃curses : Curses⦄ where
  unfoldable pub call_run10hz : Around D → Hook D P (Monitor D) (Unit {0})
  unfolding run10hz
  call_run10hz a r (s, m) =
      with_value (run10hz a.key a.available r.seconds m) (λ m' (s', _). ok (tt, (s', m'))) (s, m)

module _ {D P : Type 0} where
  unfoldable pub call_run01hz : Around D → Hook D P (Monitor D) (Unit {0})
  unfolding rescan_ros_network
  call_run01hz a r (s, m) = ok (tt, (s, rescan_ros_network r.node_name a.name_space a.topics m))

module _ {D P : Type 0} ⦃fl : Doubles D⦄ ⦃core : CoreLib⦄ ⦃curses : Curses⦄ where
  unfoldable pub system_monitor : Around D → Derived D P (Monitor D)
  unfolding init_pub_subs init_data call_run10hz call_run01hz
  system_monitor a = record {
    load_config = agree;
    init_pub_subs = init_pub_subs;
    init_services = agree;
    init_diagnostics = agree;
    init_data = init_data a;
    run100hz = idle;
    run10hz = call_run10hz a;
    run1hz = idle;
    run01hz = call_run01hz a;
    run001hz = idle;
    run_loop1 = idle;
    run_loop2 = idle;
    run_loop3 = idle;
  }
