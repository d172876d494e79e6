-- ===== src/Translate/Sensor.antt =====
-- core/utils/TranslateUtility/TranslateUtilitySensorMsgs.cpp: joysticks, inertial measurements, magnetic
-- fields and point clouds. The arrays of the stack that a function writes covariances into are its
-- first arguments.
pub mod Trips
use robot_framework_ros.Prelude.{ℕ, Option, none, some, List, replicate, if◌then◌else◌}
use robot_framework_ros.Prelude.Run.{Result, ok, threw, fault}
use robot_framework_ros.Prelude.Fallible.{or_threw, or_fault, ◌>>=◌}
use robot_framework_ros.Prelude.Int.{ℤ}
use robot_framework_ros.Platform.{Doubles, RosMath, Pcl}
use robot_framework_ros.Messages.{Header, no_header}
use robot_framework_ros.Translate.Standard.{
  Vector3, Vector3dMsg, vector_to_core, vector_to_ros, covariance_to_core, covariance_to_ros,
}
use robot_framework_ros.Translate.Geometry.{
  Quaternion, OrientationMsg, orientation_to_core, orientation_to_ros, stamp_at, header_at,
}

-- The axes are numbers of `F`, `float`.
pub record Joy (F : Type 0) : Type 0 where
  pub header : Header
  pub axes : List F
  pub buttons : List ℤ

pub record JoyMsg (D F : Type 0) : Type 0 where
  pub time_stamp : D
  pub axes : List F
  pub buttons : List ℤ

pub record Imu (D : Type 0) : Type 0 where
  pub header : Header
  pub orientation : Quaternion D
  pub orientation_covariance : List D
  pub angular_velocity : Vector3 D
  pub angular_velocity_covariance : List D
  pub linear_acceleration : Vector3 D
  pub linear_acceleration_covariance : List D

pub record ImuMsg (D : Type 0) : Type 0 where
  pub time_stamp : D
  pub orientation : OrientationMsg D
  pub orientation_covariance : List D
  pub angular_velocity : Vector3dMsg D
  pub angular_velocity_covariance : List D
  pub linear_acceleration : Vector3dMsg D
  pub linear_acceleration_covariance : List D

pub record MagneticField (D : Type 0) : Type 0 where
  pub header : Header
  pub magnetic_field : Vector3 D
  pub magnetic_field_covariance : List D

pub record MagneticFieldMsg (D : Type 0) : Type 0 where
  pub time_stamp : D
  pub magnetic_field : Vector3dMsg D
  pub magnetic_field_covariance : List D

-- A `PointCloud2`, with the fields other than its header in one.
pub record PointCloud2 (B : Type 0) : Type 0 where
  pub header : Header
  pub body : B

-- The cloud is behind a pointer, which may be null.
pub record PointCloudMsg (D C : Type 0) : Type 0 where
  pub time_stamp : D
  pub point_cloud : Option C

module _ {D : Type 0} ⦃fl : Doubles D⦄ where
  -- Messages as their constructors leave them.
  abbrev pub no_vector : Vector3 D
  no_vector = record { x = fl.lit 0 0; y = fl.lit 0 0; z = fl.lit 0 0 }

  abbrev pub no_imu : Imu D
  no_imu = record {
    header = no_header;
    orientation = record { x = fl.lit 0 0; y = fl.lit 0 0; z = fl.lit 0 0; w = fl.lit 1 0 };
    orientation_covariance = replicate 9 (fl.lit 0 0);
    angular_velocity = no_vector;
    angular_velocity_covariance = replicate 9 (fl.lit 0 0);
    linear_acceleration = no_vector;
    linear_acceleration_covariance = replicate 9 (fl.lit 0 0);
  }

  abbrev pub no_magnetic_field : MagneticField D
  no_magnetic_field = record {
    header = no_header;
    magnetic_field = no_vector;
    magnetic_field_covariance = replicate 9 (fl.lit 0 0);
  }

module _ {D F : Type 0} ⦃fl : Doubles D⦄ ⦃rm : RosMath D⦄ where
  unfoldable pub joy_to_core : Joy F → Result (JoyMsg D F)
  joy_to_core msg = do
    time ← or_threw (rm.seconds msg.header.stamp)
    ok (record { time_stamp = time; axes = msg.axes; buttons = msg.buttons })

  unfoldable pub joy_to_ros : JoyMsg D F → Joy F
  joy_to_ros msg = record {
    header = header_at msg.time_stamp;
    axes = msg.axes;
    buttons = msg.buttons;
  }

module _ {D : Type 0} ⦃fl : Doubles D⦄ ⦃rm : RosMath D⦄ where
  unfoldable pub imu_to_core : Imu D → Result (ImuMsg D)
  imu_to_core msg = do
    time ← or_threw (rm.seconds msg.header.stamp)
    ok (record {
      time_stamp = time;
      orientation = orientation_to_core msg.orientation;
      orientation_covariance = covariance_to_core msg.orientation_covariance;
      angular_velocity = vector_to_core msg.angular_velocity;
      angular_velocity_covariance = covariance_to_core msg.angular_velocity_covariance;
      linear_acceleration = vector_to_core msg.linear_acceleration;
      linear_acceleration_covariance = covariance_to_core msg.linear_acceleration_covariance;
    })

  -- The part behind the test of the time.
  timed_imu_to_ros : List D → ImuMsg D → Result (Imu D)
  timed_imu_to_ros old msg = do
    orientation ← or_fault (covariance_to_ros old msg.orientation_covariance)
    angular ← or_fault (covariance_to_ros old msg.angular_velocity_covariance)
    linear ← or_fault (covariance_to_ros old msg.linear_acceleration_covariance)
    ok (record {
      header = header_at msg.time_stamp;
      orientation = orientation_to_ros msg.orientation;
      orientation_covariance = orientation;
      angular_velocity = vector_to_ros msg.angular_velocity;
      angular_velocity_covariance = angular;
      linear_acceleration = vector_to_ros msg.linear_acceleration;
      linear_acceleration_covariance = linear;
    })

  unfoldable pub imu_to_ros : List D → ImuMsg D → Result (Imu D)
  unfolding timed_imu_to_ros
  imu_to_ros old msg =
      if fl.lt msg.time_stamp (fl.lit 0 0) then ok no_imu else timed_imu_to_ros old msg

  unfoldable pub magnetic_to_core : MagneticField D → Result (MagneticFieldMsg D)
  magnetic_to_core msg = do
    time ← or_threw (rm.seconds msg.header.stamp)
    ok (record {
      time_stamp = time;
      magnetic_field = vector_to_core msg.magnetic_field;
      magnetic_field_covariance = covariance_to_core msg.magnetic_field_covariance;
    })

  timed_magnetic_to_ros : List D → MagneticFieldMsg D → Result (MagneticField D)
  timed_magnetic_to_ros old msg = do
    covariance ← or_fault (covariance_to_ros old msg.magnetic_field_covariance)
    ok (record {
      header = header_at msg.time_stamp;
      magnetic_field = vector_to_ros msg.magnetic_field;
      magnetic_field_covariance = covariance;
    })

  unfoldable pub magnetic_to_ros : List D → MagneticFieldMsg D → Result (MagneticField D)
  unfolding timed_magnetic_to_ros
  magnetic_to_ros old msg =
      if fl.lt msg.time_stamp (fl.lit 0 0)
      then ok no_magnetic_field
      else timed_magnetic_to_ros old msg

module _ {D C B : Type 0} ⦃fl : Doubles D⦄ ⦃rm : RosMath D⦄ ⦃pcl : Pcl C B⦄ where
  -- `*msg.point_cloud` is undefined if a new message holds no cloud.
  unfoldable pub cloud_to_core : PointCloud2 B → Result (PointCloudMsg D C)
  cloud_to_core msg = do
    time ← or_threw (rm.seconds msg.header.stamp)
    cloud ← or_fault pcl.new_cloud
    ok (record {
      time_stamp = time;
      point_cloud = some (pcl.from_ros_msg msg.header msg.body cloud);
    })

  -- The part behind the test of the time: the stamp is set behind `toROSMsg`, which sets the header.
  timed_cloud_to_ros : D → Option C → Result (PointCloud2 B)
  timed_cloud_to_ros time none = threw
  timed_cloud_to_ros time (some cloud) =
      let (header, body) = pcl.to_ros_msg cloud in
      ok (record { header = record header { stamp = stamp_at time }; body = body })

  unfoldable pub cloud_to_ros : PointCloudMsg D C → Result (PointCloud2 B)
  unfolding timed_cloud_to_ros
  cloud_to_ros msg =
      if fl.lt msg.time_stamp (fl.lit 0 0)
      then ok (record { header = no_header; body = pcl.no_body })
      else timed_cloud_to_ros msg.time_stamp msg.point_cloud
