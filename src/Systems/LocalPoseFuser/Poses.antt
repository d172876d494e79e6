-- ===== src/Systems/LocalPoseFuser/Poses.antt =====
-- What the fuser of local poses publishes.
use robot_framework_ros.Prelude.{◌≡◌, refl, some, List, [], ◌∷◌, ◌++◌, length, replicate, arith}
use robot_framework_ros.Prelude.Run.{ok}
use robot_framework_ros.Prelude.Text.{Text}
use robot_framework_ros.Platform.{Doubles, RosMath}
use robot_framework_ros.Translate.Geometry.{
  Odometry, OdomMsg, AccelWithCovarianceStamped, AccelWithCovarianceMsg, odom_to_core,
  accel_covariance_to_core,
}
use robot_framework_ros.Translate.Geometry.Trips.{
  IsKeptTime, IsKeptOrientation, odom_trip, accel_covariance_trip,
}
use robot_framework_ros.Translate.Sensor.{Imu, ImuMsg, imu_to_core}
use robot_framework_ros.Systems.Host.{Host}
use robot_framework_ros.Systems.LocalPoseFuser.{
  LocalPoseFuserProcess, LocalPoseFuser, pose_out, angular_accel_out, machine_inertial_callback,
}

-- The two publishers are made.
pub record HasPublishers {D : Type 0} (e : LocalPoseFuser D) : Type 0 where
  pub pose_topic : Text
  pub accel_topic : Text
  pub pose : e.local_pose_pub ≡ some pose_topic
  pub accel : e.local_pose_angular_accel_pub ≡ some accel_topic

-- Stamps keep the times of the pose and the acceleration, tf2 keeps the angles, and the covariances
-- have the size of the array.
pub record FitsPose {D : Type 0} ⦃fl : Doubles D⦄ ⦃rm : RosMath D⦄ (old : List D) (pose : OdomMsg D)
    (accel : AccelWithCovarianceMsg D) : Type 0 where
  pub pose_size : length old ≡ length pose.pose.covariance
  pub accel_size : length old ≡ length accel.covariance
  pub pose_time : IsKeptTime pose.time_stamp
  pub accel_time : IsKeptTime accel.time_stamp
  pub angles : IsKeptOrientation pose.pose.pose.orientation

module _ {D S : Type 0} ⦃fl : Doubles D⦄ ⦃rm : RosMath D⦄ (old new_covariance : List D)
    (proc : LocalPoseFuserProcess D S) where
  -- On a message whose stamp can be read, the node gives its data to the process. If the process then
  -- has a local pose that fits, the node publishes the pose and then the angular acceleration, both in
  -- the frame of the message that came in. The core library reads the acceleration unchanged, and so
  -- the pose, but for the covariance of its twist: it goes out as zeros, and is read as a new message
  -- of the core library has it.
  pub machine_inertial_callback_publishes :
      (msg : Imu D) (core : ImuMsg D) (pose : OdomMsg D) (accel : AccelWithCovarianceMsg D)
      → (u : Host S (LocalPoseFuser D)) → HasPublishers u.members
      → imu_to_core msg ≡ ok core
      → proc.get_local_pose (proc.new_machine_inertial_data core u.process) ≡ some (pose, accel)
      → FitsPose old pose accel
      → (odom : Odometry D) × (out : AccelWithCovarianceStamped D) × (machine_inertial_callback old
            proc msg u
          ≡ ok (
            tt,
            record {
              process = proc.new_machine_inertial_data core u.process;
              members = record u.members {
                published =
                    (u.members.published ++ pose_out odom ∷ []) ++ angular_accel_out out ∷ [];
              };
            },
          ))
        × (odom.header.frame_id ≡ msg.header.frame_id)
        × (out.header.frame_id ≡ msg.header.frame_id)
        × (odom.twist_covariance ≡ replicate 36 (fl.lit 0 0))
        × (odom_to_core new_covariance odom
            ≡ ok (record pose { twist_covariance = new_covariance }))
        × (accel_covariance_to_core out ≡ ok accel)
  unfolding machine_inertial_callback odom_to_core accel_covariance_to_core
  machine_inertial_callback_publishes msg core pose accel u has read gives fits =
      let (m, e, z, d) =
        odom_trip old new_covariance pose fits.pose_size fits.pose_time fits.angles in
      let (a, f, g) = accel_covariance_trip old accel fits.accel_size fits.accel_time in
      (
        record m { header = record m.header { frame_id = msg.header.frame_id } },
        record a { header = record a.header { frame_id = msg.header.frame_id } },
        ground (arith, has.pose, has.accel, read, gives, e, f),
        refl,
        refl,
        z,
        d,
        g,
      )
