-- ===== src/Systems/ServoHat.antt =====
-- Systems/BaseMachine/Subsystems/BaseMachine/Nodes/ServoHatNode/ServoHatNode.cpp.
pub mod Drive
pub mod Start
use robot_framework_ros.Prelude.{ℕ, Bool, Option, none, some}
use robot_framework_ros.Prelude.Run.{pure, modify, ◌>>=◌, ◌>>◌, Run}
use robot_framework_ros.Prelude.Text.{Text, text}
use robot_framework_ros.Platform.{Doubles, Params}
use robot_framework_ros.Messages.{ArmCommand, ArmCommandMsg}
use robot_framework_ros.Translate.Infrastructure.{arm_command_to_core}
use robot_framework_ros.BaseNode.Object.{Shared, Reads, Hook, Derived}
use robot_framework_ros.BaseNode.Topic.{get_namespaced_topic}
use robot_framework_ros.Systems.Host.{
  Process, Host, Stages, node_around, idle, agree, update_members, require_text, report_ready,
  report_diagnostics, update_process, kick_off_if,
}

-- `ServoHatDriverProcess`.
pub record ServoHatDriverProcess (D S : Type 0) : Type 0 where
  pub base : Process D S
  pub init : S → Bool × S
  pub update_robot_arm_command : ArmCommandMsg → S → S
  pub set_servo_value : ℕ → ℕ → S → Bool × S

-- The subscriptions, each null or one of a topic.
pub record ServoHat : Type 0 where
  pub arm_command_sub : Option Text
  pub left_drive_sub : Option Text
  pub right_drive_sub : Option Text

module _ {D S : Type 0} (proc : ServoHatDriverProcess D S) where
  unfoldable pub robot_arm_command_callback : ArmCommand → Host S ServoHat → Host S ServoHat
  robot_arm_command_callback msg u = record u {
    process = proc.update_robot_arm_command (arm_command_to_core msg) u.process;
  }

module _ {D S : Type 0} ⦃fl : Doubles D⦄ (proc : ServoHatDriverProcess D S) where
  -- What `setServoValue` answers is only logged.
  unfoldable pub drive_callback : ℕ → D → Host S ServoHat → Host S ServoHat
  drive_callback channel msg u = record u {
    process = (proc.set_servo_value channel (fl.to_u16 msg) u.process).1;
  }

-- What the three subscriptions receive, and the callback of each.
pub data ServoMessage (D : Type 0) : Type 0 where
  arm : ArmCommand → ServoMessage D
  left : D → ServoMessage D
  right : D → ServoMessage D

module _ {D S : Type 0} ⦃fl : Doubles D⦄ (proc : ServoHatDriverProcess D S) where
  unfoldable pub receive : ServoMessage D → Host S ServoHat → Host S ServoHat
  unfolding robot_arm_command_callback drive_callback
  receive (arm msg) u = robot_arm_command_callback proc msg u
  receive (left msg) u = drive_callback proc 0 msg u
  receive (right msg) u = drive_callback proc 1 msg u

module _ {D P S : Type 0} ⦃params : Params D P⦄ where
  unfoldable pub init_pub_subs : Hook D P (Host S ServoHat) Bool
  init_pub_subs r = do
    arm_topic ← require_text (text "topic_arm_command") r
    update_members (λ e. record e {
      arm_command_sub = some (get_namespaced_topic r.robot_namespace arm_topic);
    })
    left_topic ← require_text (text "topic_left_drive") r
    update_members (λ e. record e {
      left_drive_sub = some (get_namespaced_topic r.robot_namespace left_topic);
    })
    right_topic ← require_text (text "topic_right_drive") r
    update_members (λ e. record e {
      right_drive_sub = some (get_namespaced_topic r.robot_namespace right_topic);
    })
    agree r

module _ {D P S : Type 0} ⦃params : Params D P⦄ (proc : ServoHatDriverProcess D S) where
  unfoldable pub init_data : Hook D P (Host S ServoHat) Bool
  init_data r (s, u) = kick_off_if proc.base (proc.init u.process) r (s, u)

  abbrev pub servo_stages : Stages D P (Host S ServoHat)
  servo_stages = record {
    load_config = agree;
    init_pub_subs = init_pub_subs;
    init_services = agree;
    init_data = init_data;
    run_loop2 = idle;
  }

  unfoldable pub servo_hat : Derived D P (Host S ServoHat)
  unfolding init_pub_subs init_data
  servo_hat = node_around proc.base servo_stages
