-- ===== src/Systems/InertialSensorFuser.antt =====
-- Systems/Pose/Subsystems/LocalPose/Nodes/InertialSensorFuserNode/InertialSensorFuserNode.cpp.
pub mod Relay
pub mod Start
use robot_framework_ros.Prelude.{ℕ, Bool, Option, none, some, List, [], ◌∷◌, ◌++◌}
use robot_framework_ros.Prelude.Run.{ok, fault, pure, ◌>>=◌, ◌>>◌, Run}
use robot_framework_ros.Prelude.Text.{Text, text}
use robot_framework_ros.Prelude.Fallible.{with_value}
use robot_framework_ros.Platform.{Doubles, Params, RosMath}
use robot_framework_ros.BaseNode.Object.{Shared, Hook, Derived}
use robot_framework_ros.BaseNode.Topic.{get_namespaced_topic}
use robot_framework_ros.Translate.Sensor.{Imu, ImuMsg, imu_to_core, imu_to_ros}
use robot_framework_ros.Systems.Host.{
  Process, Host, node_around, idle, agree, update_members, require_text, kick_off,
}

-- `BasicInertialSensorFuserProcess`, behind a pointer that the constructor sets.
pub record InertialSensorFuserProcess (D S : Type 0) : Type 0 where
  pub base : Process D S
  pub init : ℕ → S → Bool × S
  pub new_imu_data : ℕ → ImuMsg D → S → S
  pub get_machine_inertial_data : S → Option (ImuMsg D)

pub record InertialSensorFuser (D : Type 0) : Type 0 where
  pub fused_imu_pub : Option Text
  pub imu_subs : List Text
  pub published : List (Imu D)

module _ {D S : Type 0} where
  abbrev publish : Option Text → Imu D → Run (Host S (InertialSensorFuser D)) (Unit {0})
  publish none msg u = fault
  publish (some topic) msg u =
      ok (
        tt,
        record u { members = record u.members { published = u.members.published ++ msg ∷ [] } },
      )

module _ {D S : Type 0} ⦃fl : Doubles D⦄ ⦃rm : RosMath D⦄ (old : List D) where
  -- The branch of `imuCallback` behind `get_machine_inertial_data`.
  publish_fused : Text → Option (ImuMsg D) → Run (Host S (InertialSensorFuser D)) (Unit {0})
  publish_fused frame none u = ok (tt, u)
  publish_fused frame (some fused) u =
      with_value (imu_to_ros old fused)
        (λ converted u.
          publish u.members.fused_imu_pub
            (record converted { header = record converted.header { frame_id = frame } }) u)
        u

  unfoldable pub imu_callback :
      InertialSensorFuserProcess D S → Imu D → Run (Host S (InertialSensorFuser D)) (Unit {0})
  unfolding publish_fused
  imu_callback proc msg u =
      with_value (imu_to_core msg)
        (λ core u.
          let p = proc.new_imu_data 0 core u.process in
          publish_fused msg.header.frame_id (proc.get_machine_inertial_data p)
            (record u { process = p }))
        u

module _ {D P S : Type 0} ⦃params : Params D P⦄ where
  unfoldable pub init_pub_subs : Hook D P (Host S (InertialSensorFuser D)) Bool
  init_pub_subs r = do
    input_topic ← require_text (text "imu1_input_topic") r
    update_members (λ e. record e {
      imu_subs = e.imu_subs ++ get_namespaced_topic r.robot_namespace input_topic ∷ [];
    })
    fused_topic ← require_text (text "fused_imu_output_topic") r
    update_members (λ e. record e {
      fused_imu_pub = some (get_namespaced_topic r.robot_namespace fused_topic);
    })
    agree r

module _ {D P S : Type 0} (proc : InertialSensorFuserProcess D S) where
  -- What `init` answers is only logged.
  unfoldable pub init_data : Hook D P (Host S (InertialSensorFuser D)) Bool
  init_data r (s, u) = kick_off proc.base r (s, record u { process = (proc.init 1 u.process).1 })

module _ {D P S : Type 0} ⦃params : Params D P⦄ (proc : InertialSensorFuserProcess D S) where
  unfoldable pub inertial_sensor_fuser : Derived D P (Host S (InertialSensorFuser D))
  unfolding init_pub_subs init_data
  inertial_sensor_fuser = node_around proc.base (record {
    load_config = agree;
    init_pub_subs = init_pub_subs;
    init_services = agree;
    init_data = init_data proc;
    run_loop2 = idle;
  })
