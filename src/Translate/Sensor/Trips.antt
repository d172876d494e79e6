-- ===== src/Translate/Sensor/Trips.antt =====
-- Sensor messages that go out to ROS: those that come back, those of a negative time, and those that
-- cannot be converted.
use robot_framework_ros.Prelude.{
  ◌≡◌, Bool, false, List, length, drop, ◌++◌, ltb, ◌||◌, arith, if◌then◌else◌,
}
use robot_framework_ros.Prelude.Run.{ok, fault}
use robot_framework_ros.Prelude.Fallible.{◌>>=◌}
use robot_framework_ros.Platform.{Doubles, RosMath}
use robot_framework_ros.Translate.Standard.{
  covariance_to_core, covariance_to_ros_lem, covariance_round_trip, vector_to_core, vector_to_ros,
}
use robot_framework_ros.Translate.Geometry.Trips.{IsKeptTime, IsKeptOrientation}
use robot_framework_ros.Translate.Geometry.{orientation_to_ros, header_at}
use robot_framework_ros.Translate.Sensor.{
  Imu, ImuMsg, MagneticField, MagneticFieldMsg, imu_to_core, imu_to_ros, magnetic_to_ros, no_imu,
  no_magnetic_field,
}

-- An array is written from its front, and its rest is kept; a covariance that is longer overruns it.
abbrev pub overruns : {D : Type 0} → List D → List D → Bool
overruns old covariance = ltb (length old) (length covariance)

abbrev pub over : {D : Type 0} → List D → List D → List D
over old covariance = covariance ++ drop (length covariance) old

abbrev pub imu_overruns : {D : Type 0} → List D → ImuMsg D → Bool
imu_overruns old msg =
    overruns old msg.orientation_covariance
    || overruns old msg.angular_velocity_covariance
    || overruns old msg.linear_acceleration_covariance

module _ {D : Type 0} ⦃fl : Doubles D⦄ ⦃rm : RosMath D⦄ where
  -- The messages of measurements whose covariances do not overrun the array.
  abbrev pub imu_message : List D → ImuMsg D → Imu D
  imu_message old msg = record {
    header = header_at msg.time_stamp;
    orientation = orientation_to_ros msg.orientation;
    orientation_covariance = over old msg.orientation_covariance;
    angular_velocity = vector_to_ros msg.angular_velocity;
    angular_velocity_covariance = over old msg.angular_velocity_covariance;
    linear_acceleration = vector_to_ros msg.linear_acceleration;
    linear_acceleration_covariance = over old msg.linear_acceleration_covariance;
  }

  abbrev pub magnetic_message : List D → MagneticFieldMsg D → MagneticField D
  magnetic_message old msg = record {
    header = header_at msg.time_stamp;
    magnetic_field = vector_to_ros msg.magnetic_field;
    magnetic_field_covariance = over old msg.magnetic_field_covariance;
  }

-- The numbers of the three covariances.
pub record FitsImu {D : Type 0} (old : List D) (msg : ImuMsg D) : Type 0 where
  pub orientation : length old ≡ length msg.orientation_covariance
  pub angular : length old ≡ length msg.angular_velocity_covariance
  pub linear : length old ≡ length msg.linear_acceleration_covariance

module _ {D : Type 0} ⦃fl : Doubles D⦄ ⦃rm : RosMath D⦄ where
  pub imu_trip :
      (old : List D) (msg : ImuMsg D)
      → FitsImu old msg
      → fl.lt msg.time_stamp (fl.lit 0 0) ≡ false
      → IsKeptTime msg.time_stamp
      → IsKeptOrientation msg.orientation
      → (m : Imu D) × (imu_to_ros old msg ≡ ok m) × (imu_to_core m ≡ ok msg)
  unfolding imu_to_ros imu_to_core vector_to_core vector_to_ros covariance_to_core
  imu_trip old msg fits later t o = (
    record {
      header = header_at msg.time_stamp;
      orientation = orientation_to_ros msg.orientation;
      orientation_covariance = msg.orientation_covariance;
      angular_velocity = vector_to_ros msg.angular_velocity;
      angular_velocity_covariance = msg.angular_velocity_covariance;
      linear_acceleration = vector_to_ros msg.linear_acceleration;
      linear_acceleration_covariance = msg.linear_acceleration_covariance;
    },
    ground (
      arith,
      later,
      covariance_round_trip old msg.orientation_covariance fits.orientation,
      covariance_round_trip old msg.angular_velocity_covariance fits.angular,
      covariance_round_trip old msg.linear_acceleration_covariance fits.linear,
    ),
    ground (arith, t, o),
  )

  -- An inertial measurement of a time that is not negative and that its stamp keeps, with angles that
  -- tf2 keeps and covariances of the arrays' size, comes back from ROS unchanged.
  pub imu_round_trip :
      (old : List D) (msg : ImuMsg D)
      → FitsImu old msg
      → fl.lt msg.time_stamp (fl.lit 0 0) ≡ false
      → IsKeptTime msg.time_stamp
      → IsKeptOrientation msg.orientation
      → (imu_to_ros old msg >>= imu_to_core) ≡ ok msg
  imu_round_trip old msg fits later t o = let (m, e, d) = imu_trip old msg fits later t o in rw e d

  -- What `imu_to_ros` gives. An inertial measurement of a negative time becomes the empty message. One
  -- of another time runs past the end of an array if one of its covariances is longer than the array,
  -- and is converted otherwise; behind a covariance that is shorter stands what was in the array.
  pub imu_to_ros_lem :
      (old : List D) (msg : ImuMsg D)
      → imu_to_ros old msg ≡ (
          if fl.lt msg.time_stamp (fl.lit 0 0)
          then ok no_imu
          else if overruns old msg.orientation_covariance
              || overruns old msg.angular_velocity_covariance
              || overruns old msg.linear_acceleration_covariance
          then fault
          else ok (imu_message old msg))
  unfolding imu_to_ros
  imu_to_ros_lem old msg = ground (
    arith,
    covariance_to_ros_lem old msg.orientation_covariance,
    covariance_to_ros_lem old msg.angular_velocity_covariance,
    covariance_to_ros_lem old msg.linear_acceleration_covariance,
  )

  -- The same of a magnetic field, which has one covariance.
  pub magnetic_to_ros_lem :
      (old : List D) (msg : MagneticFieldMsg D)
      → magnetic_to_ros old msg ≡ (
          if fl.lt msg.time_stamp (fl.lit 0 0)
          then ok no_magnetic_field
          else if overruns old msg.magnetic_field_covariance
          then fault
          else ok (magnetic_message old msg))
  unfolding magnetic_to_ros
  magnetic_to_ros_lem old msg =
      ground (arith, covariance_to_ros_lem old msg.magnetic_field_covariance)
