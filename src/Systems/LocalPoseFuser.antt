-- ===== src/Systems/LocalPoseFuser.antt =====
-- Systems/Pose/Subsystems/LocalPose/Nodes/LocalPoseFuserNode/LocalPoseFuserNode.cpp.
pub mod Poses
use robot_framework_ros.Prelude.{ℕ, Bool, Option, none, some, List, [], ◌∷◌, ◌++◌}
use robot_framework_ros.Prelude.Run.{ok, fault, pure, ◌>>=◌, ◌>>◌, Run}
use robot_framework_ros.Prelude.Text.{Text, text}
use robot_framework_ros.Prelude.Fallible.{with_value}
use robot_framework_ros.Platform.{Doubles, Params, RosMath}
use robot_framework_ros.BaseNode.Object.{Shared, Hook, Derived}
use robot_framework_ros.BaseNode.Topic.{get_namespaced_topic}
use robot_framework_ros.Translate.Geometry.{
  Odometry, OdomMsg, AccelWithCovarianceStamped, AccelWithCovarianceMsg, odom_to_ros,
  accel_covariance_to_ros,
}
use robot_framework_ros.Translate.Sensor.{Imu, ImuMsg, imu_to_core}
use robot_framework_ros.Systems.Host.{
  Process, Host, node_around, idle, agree, update_members, require_text, kick_off_if,
}

pub record LocalPoseFuserProcess (D S : Type 0) : Type 0 where
  pub base : Process D S
  pub init : S → Bool × S
  pub new_machine_inertial_data : ImuMsg D → S → S
  pub get_local_pose : S → Option (OdomMsg D × AccelWithCovarianceMsg D)

-- What the node has published, in order.
pub data PoseOutput (D : Type 0) : Type 0 where
  pose_out : Odometry D → PoseOutput D
  angular_accel_out : AccelWithCovarianceStamped D → PoseOutput D

pub record LocalPoseFuser (D : Type 0) : Type 0 where
  pub machine_inertial_sub : Option Text
  pub local_pose_pub : Option Text
  pub local_pose_angular_accel_pub : Option Text
  pub published : List (PoseOutput D)

module _ {D S : Type 0} where
  abbrev publish : Option Text → PoseOutput D → Run (Host S (LocalPoseFuser D)) (Unit {0})
  publish none out u = fault
  publish (some topic) out u =
      ok (
        tt,
        record u { members = record u.members { published = u.members.published ++ out ∷ [] } },
      )

module _ {D S : Type 0} ⦃fl : Doubles D⦄ ⦃rm : RosMath D⦄ (old : List D) where
  publish_local_pose : Text → OdomMsg D → Run (Host S (LocalPoseFuser D)) (Unit {0})
  publish_local_pose frame pose u =
      with_value (odom_to_ros old pose)
        (λ converted u.
          publish u.members.local_pose_pub
            (pose_out (record converted { header = record converted.header { frame_id = frame } }))
            u)
        u

  publish_angular_accel :
      Text → AccelWithCovarianceMsg D → Run (Host S (LocalPoseFuser D)) (Unit {0})
  publish_angular_accel frame accel u =
      with_value (accel_covariance_to_ros old accel)
        (λ converted u.
          publish u.members.local_pose_angular_accel_pub
            (angular_accel_out
              (record converted { header = record converted.header { frame_id = frame } }))
            u)
        u

  -- The branch of `machineInertialCallback` behind `get_local_pose`.
  publish_poses :
      Text
      → Option (OdomMsg D × AccelWithCovarianceMsg D)
      → Run (Host S (LocalPoseFuser D)) (Unit {0})
  unfolding publish_local_pose publish_angular_accel
  publish_poses frame none u = ok (tt, u)
  publish_poses frame (some (pose, accel)) u =
      (publish_local_pose frame pose >> publish_angular_accel frame accel) u

  unfoldable pub machine_inertial_callback :
      LocalPoseFuserProcess D S → Imu D → Run (Host S (LocalPoseFuser D)) (Unit {0})
  unfolding publish_poses
  machine_inertial_callback proc msg u =
      with_value (imu_to_core msg)
        (λ core u.
          let p = proc.new_machine_inertial_data core u.process in
          publish_poses msg.header.frame_id (proc.get_local_pose p) (record u { process = p }))
        u

module _ {D P S : Type 0} ⦃params : Params D P⦄ where
  unfoldable pub init_pub_subs : Hook D P (Host S (LocalPoseFuser D)) Bool
  init_pub_subs r = do
    inertial_topic ← require_text (text "machine_inertial_input_topic") r
    update_members (λ e. record e {
      machine_inertial_sub = some (get_namespaced_topic r.robot_namespace inertial_topic);
    })
    pose_topic ← require_text (text "local_pose_output_topic") r
    update_members (λ e. record e {
      local_pose_pub = some (get_namespaced_topic r.robot_namespace pose_topic);
    })
    accel_topic ← require_text (text "local_pose_angular_accel_output_topic") r
    update_members (λ e. record e {
      local_pose_angular_accel_pub = some (get_namespaced_topic r.robot_namespace accel_topic);
    })
    agree r

module _ {D P S : Type 0} (proc : LocalPoseFuserProcess D S) where
  unfoldable pub init_data : Hook D P (Host S (LocalPoseFuser D)) Bool
  init_data r (s, u) = kick_off_if proc.base (proc.init u.process) r (s, u)

module _ {D P S : Type 0} ⦃params : Params D P⦄ (proc : LocalPoseFuserProcess D S) where
  unfoldable pub local_pose_fuser : Derived D P (Host S (LocalPoseFuser D))
  unfolding init_pub_subs init_data
  local_pose_fuser = node_around proc.base (record {
    load_config = agree;
    init_pub_subs = init_pub_subs;
    init_services = agree;
    init_data = init_data proc;
    run_loop2 = idle;
  })
