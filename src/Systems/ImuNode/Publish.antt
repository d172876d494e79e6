-- ===== src/Systems/ImuNode/Publish.antt =====
-- What the IMU's node publishes.
use robot_framework_ros.Prelude.{◌≡◌, false, some, List, [], ◌∷◌, ◌++◌, arith, if◌then◌else◌}
use robot_framework_ros.Prelude.Run.{ok}
use robot_framework_ros.Prelude.Text.{Text}
use robot_framework_ros.Platform.{Doubles, RosMath}
use robot_framework_ros.BaseNode.Object.{Shared, Reads}
use robot_framework_ros.Translate.Sensor.{
  Imu, ImuMsg, MagneticField, MagneticFieldMsg, imu_to_ros, magnetic_to_ros, no_imu,
  no_magnetic_field, no_vector,
}
use robot_framework_ros.Translate.Sensor.Trips.{
  overruns, imu_overruns, imu_message, magnetic_message, imu_to_ros_lem, magnetic_to_ros_lem,
}
use robot_framework_ros.Systems.Host.{Host}
use robot_framework_ros.Systems.ImuNode.{
  ImuProcess, ImuNode, imu_out, accel_out, magnetic_out, AccelStamped, publish_imu,
  publish_magnetic, run_loop2,
}

-- The three publishers are made.
pub record HasPublishers {D : Type 0} (e : ImuNode D) : Type 0 where
  pub imu_topic : Text
  pub accel_topic : Text
  pub magnetic_topic : Text
  pub imu : e.imu_pub ≡ some imu_topic
  pub accel : e.imu_accel_pub ≡ some accel_topic
  pub magnetic : e.imu_magnetic_pub ≡ some magnetic_topic

module _ {D : Type 0} ⦃fl : Doubles D⦄ ⦃rm : RosMath D⦄ where
  -- The messages, with the frame of the sensor: empty ones for data of a negative time.
  abbrev pub framed_imu : Text → List D → ImuMsg D → Imu D
  framed_imu frame old msg =
      let m : Imu D = if fl.lt msg.time_stamp (fl.lit 0 0) then no_imu else imu_message old msg in
      record m { header = record m.header { frame_id = frame } }

  abbrev pub framed_magnetic : Text → List D → MagneticFieldMsg D → MagneticField D
  framed_magnetic frame old msg =
      let m : MagneticField D =
        if fl.lt msg.time_stamp (fl.lit 0 0) then no_magnetic_field else magnetic_message old msg in
      record m { header = record m.header { frame_id = frame } }

  abbrev pub accel_of : Imu D → AccelStamped D
  accel_of m = record {
    header = m.header;
    accel = record { linear = m.linear_acceleration; angular = no_vector };
  }

  imu_to_ros-fits :
      (old : List D) (msg : ImuMsg D)
      → imu_overruns old msg ≡ false
      → imu_to_ros old msg
        ≡ ok (if fl.lt msg.time_stamp (fl.lit 0 0) then no_imu else imu_message old msg)
  imu_to_ros-fits old msg fits = ground (arith, imu_to_ros_lem old msg, fits)

  magnetic_to_ros-fits :
      (old : List D) (msg : MagneticFieldMsg D)
      → overruns old msg.magnetic_field_covariance ≡ false
      → magnetic_to_ros old msg
        ≡ ok (
            if fl.lt msg.time_stamp (fl.lit 0 0)
            then no_magnetic_field
            else magnetic_message old msg)
  magnetic_to_ros-fits old msg fits = ground (arith, magnetic_to_ros_lem old msg, fits)

module _ {D P S : Type 0} ⦃fl : Doubles D⦄ ⦃rm : RosMath D⦄ (old : List D)
    (proc : ImuProcess D S) where
  -- With its publishers made and data of both kinds whose covariances fit the arrays, the second user
  -- loop publishes, in this order: the measurement; an acceleration with the header and the linear
  -- acceleration of that message and no angular one; and the magnetic field. All carry the sensor's
  -- frame. Data of a negative time is not held back: the empty message is published for it.
  pub run_loop2_publishes :
      (r : Reads D) (s : Shared P) (u : Host S (ImuNode D)) (imu : ImuMsg D)
      → (field : MagneticFieldMsg D) → HasPublishers u.members
      → proc.get_imu_data u.process ≡ some imu
      → proc.get_magnetic_data u.process ≡ some field
      → imu_overruns old imu ≡ false
      → overruns old field.magnetic_field_covariance ≡ false
      → let frame = u.members.imu_frame in
        let m = framed_imu frame old imu in
        run_loop2 old proc r (s, u)
        ≡ ok (
          tt,
          (
            s,
            record u {
              members = record u.members {
                published =
                    ((u.members.published ++ imu_out m ∷ []) ++ accel_out (accel_of m) ∷ [])
                    ++ magnetic_out (framed_magnetic frame old field) ∷ [];
              };
            },
          ),
        )
  unfolding run_loop2 publish_imu publish_magnetic
  run_loop2_publishes r s u imu field has has_imu has_field fits fits' = ground (
    arith,
    has.imu,
    has.accel,
    has.magnetic,
    has_imu,
    has_field,
    imu_to_ros-fits old imu fits,
    magnetic_to_ros-fits old field fits',
  )
