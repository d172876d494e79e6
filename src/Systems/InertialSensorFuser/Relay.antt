-- ===== src/Systems/InertialSensorFuser/Relay.antt =====
-- What the fuser of inertial sensors publishes.
use robot_framework_ros.Prelude.{◌≡◌, refl, false, some, List, [], ◌∷◌, ◌++◌, arith}
use robot_framework_ros.Prelude.Run.{ok}
use robot_framework_ros.Prelude.Text.{Text}
use robot_framework_ros.Platform.{Doubles, RosMath}
use robot_framework_ros.Translate.Geometry.Trips.{IsKeptTime, IsKeptOrientation}
use robot_framework_ros.Translate.Sensor.{Imu, ImuMsg, imu_to_core}
use robot_framework_ros.Translate.Sensor.Trips.{FitsImu, imu_trip}
use robot_framework_ros.Systems.Host.{Host}
use robot_framework_ros.Systems.InertialSensorFuser.{
  InertialSensorFuserProcess, InertialSensorFuser, imu_callback,
}

module _ {D S : Type 0} ⦃fl : Doubles D⦄ ⦃rm : RosMath D⦄ (old : List D)
    (proc : InertialSensorFuserProcess D S) where
  -- On a message whose stamp can be read, the node gives its data to the process. If the process then
  -- has fused data of a time that is not negative and that its stamp keeps, with angles that tf2 keeps
  -- and covariances of the arrays' size, the node publishes one message: it is in the frame of the
  -- message that came in, and the core library reads the fused data from it, unchanged.
  pub imu_callback_relays :
      (msg : Imu D) (core fused : ImuMsg D) (topic : Text) (u : Host S (InertialSensorFuser D))
      → u.members.fused_imu_pub ≡ some topic
      → imu_to_core msg ≡ ok core
      → proc.get_machine_inertial_data (proc.new_imu_data 0 core u.process) ≡ some fused
      → FitsImu old fused
      → fl.lt fused.time_stamp (fl.lit 0 0) ≡ false
      → IsKeptTime fused.time_stamp
      → IsKeptOrientation fused.orientation
      → (out : Imu D) × (imu_callback old proc msg u
          ≡ ok (
            tt,
            record {
              process = proc.new_imu_data 0 core u.process;
              members = record u.members { published = u.members.published ++ out ∷ [] };
            },
          ))
        × (out.header.frame_id ≡ msg.header.frame_id)
        × (imu_to_core out ≡ ok fused)
  unfolding imu_callback imu_to_core
  imu_callback_relays msg core fused topic u has read gives fits later t o =
      let (m, e, d) = imu_trip old fused fits later t o in
      (
        record m { header = record m.header { frame_id = msg.header.frame_id } },
        ground (arith, has, read, gives, e),
        refl,
        d,
      )
