-- ===== src/Systems/ServoHat/Drive.antt =====
-- What the servo hat's process is told, and how its node starts.
use robot_framework_ros.Prelude.{refl}
use robot_framework_ros.Prelude.Run.{modify}
use robot_framework_ros.Platform.{Doubles, Params}
use robot_framework_ros.Translate.Infrastructure.{arm_command_to_core}
use robot_framework_ros.Systems.Host.Follow.{Follows, Receives, idle-Follows}
use robot_framework_ros.Systems.ServoHat.{
  ServoHatDriverProcess, ServoMessage, arm, left, right, receive, servo_stages,
}

module _ {D S : Type 0} ⦃fl : Doubles D⦄ (proc : ServoHatDriverProcess D S) where
  -- The abstract effect of a message: the armed state is passed on as it is, the left drive is channel
  -- 0 and the right one channel 1, each with its value as a `uint16_t`.
  abbrev pub servo_step : ServoMessage D → S → S
  servo_step (arm c) p = proc.update_robot_arm_command (record { armed_state = c.armed_state }) p
  servo_step (left x) p = (proc.set_servo_value 0 (fl.to_u16 x) p).1
  servo_step (right x) p = (proc.set_servo_value 1 (fl.to_u16 x) p).1

  pub receive-Receives : Receives (λ e. Unit {0}) (λ m. modify (receive proc m)) servo_step
  unfolding receive arm_command_to_core
  receive-Receives (arm c) u i = (_, refl, refl, tt)
  receive-Receives (left x) u i = (_, refl, refl, tt)
  receive-Receives (right x) u i = (_, refl, refl, tt)

module _ {D P S : Type 0} ⦃params : Params D P⦄ (proc : ServoHatDriverProcess D S) where
  -- The second user loop of the servo hat has nothing to do.
  pub servo_loop2-Follows : Follows {P = P} (λ e. Unit {0}) (servo_stages proc).run_loop2 (λ t v. v)
  servo_loop2-Follows = idle-Follows proc.base _
