-- ===== src/Translate/Geometry.antt =====
-- core/utils/TranslateUtility/TranslateUtilityGeometryMsgs.cpp: orientations, poses, accelerations with
-- covariance, odometry and bounding boxes. A stamp is read through `rclcpp::Time`, which may throw; a
-- covariance is written into an array of the stack, `old`, and may run past its end.
pub mod Trips
use robot_framework_ros.Prelude.{List, replicate}
use robot_framework_ros.Prelude.Run.{Result, ok}
use robot_framework_ros.Prelude.Fallible.{or_threw, or_fault, ◌>>=◌}
use robot_framework_ros.Platform.{Doubles, RosMath}
use robot_framework_ros.Messages.{Stamp, Header, no_header}
use robot_framework_ros.Translate.Standard.{
  Vector3, Vector3dMsg, Point, PointMsg, Motion, MotionMsg, vector_to_core, vector_to_ros,
  point_to_core, point_to_ros, accel_to_core, accel_to_ros, twist_to_core, twist_to_ros,
  covariance_to_core, covariance_to_ros,
}

pub record Quaternion (D : Type 0) : Type 0 where
  pub x : D
  pub y : D
  pub z : D
  pub w : D

pub record OrientationMsg (D : Type 0) : Type 0 where
  pub roll : D
  pub pitch : D
  pub yaw : D

pub record Pose (D : Type 0) : Type 0 where
  pub position : Point D
  pub orientation : Quaternion D

pub record PoseMsg (D : Type 0) : Type 0 where
  pub position : PointMsg D
  pub orientation : OrientationMsg D

pub record PoseWithCovariance (D : Type 0) : Type 0 where
  pub pose : Pose D
  pub covariance : List D

pub record PoseWithCovarianceMsg (D : Type 0) : Type 0 where
  pub pose : PoseMsg D
  pub covariance : List D

pub record AccelWithCovarianceStamped (D : Type 0) : Type 0 where
  pub header : Header
  pub accel : Motion D
  pub covariance : List D

pub record AccelWithCovarianceMsg (D : Type 0) : Type 0 where
  pub time_stamp : D
  pub accel : MotionMsg D
  pub covariance : List D

-- `nav_msgs/Odometry` without its `child_frame_id`, which no conversion reads or writes.
pub record Odometry (D : Type 0) : Type 0 where
  pub header : Header
  pub pose : PoseWithCovariance D
  pub twist : Motion D
  pub twist_covariance : List D

pub record OdomMsg (D : Type 0) : Type 0 where
  pub time_stamp : D
  pub pose : PoseWithCovarianceMsg D
  pub twist : MotionMsg D
  pub twist_covariance : List D

pub record BoundingBox3d (D : Type 0) : Type 0 where
  pub center : Pose D
  pub size : Vector3 D

pub record BoundingBox3dMsg (D : Type 0) : Type 0 where
  pub center : PoseMsg D
  pub size : Vector3dMsg D

-- `rclcpp::Time(static_cast<int64_t>(t * 1e9))`, in a header.
module _ {D : Type 0} ⦃fl : Doubles D⦄ ⦃rm : RosMath D⦄ where
  abbrev pub stamp_at : D → Stamp
  stamp_at t = rm.stamp_of (fl.to_i64 (fl.mul t (fl.lit 1000000000 0)))

  abbrev pub header_at : D → Header
  header_at t = record no_header { stamp = stamp_at t }

module _ {D : Type 0} ⦃rm : RosMath D⦄ where
  unfoldable pub orientation_to_core : Quaternion D → OrientationMsg D
  orientation_to_core q =
      let (roll, pitch, yaw) = rm.rpy_of q.x q.y q.z q.w in
      record { roll = roll; pitch = pitch; yaw = yaw }

  unfoldable pub orientation_to_ros : OrientationMsg D → Quaternion D
  orientation_to_ros o =
      let (x, y, z, w) = rm.of_rpy o.roll o.pitch o.yaw in record { x = x; y = y; z = z; w = w }

  unfoldable pub pose_to_core : Pose D → PoseMsg D
  pose_to_core msg = record {
    position = point_to_core msg.position;
    orientation = orientation_to_core msg.orientation;
  }

  unfoldable pub pose_to_ros : PoseMsg D → Pose D
  pose_to_ros msg = record {
    position = point_to_ros msg.position;
    orientation = orientation_to_ros msg.orientation;
  }

  unfoldable pub pose_covariance_to_core : PoseWithCovariance D → PoseWithCovarianceMsg D
  pose_covariance_to_core msg = record {
    pose = pose_to_core msg.pose;
    covariance = covariance_to_core msg.covariance;
  }

  unfoldable pub pose_covariance_to_ros :
      List D → PoseWithCovarianceMsg D → Result (PoseWithCovariance D)
  pose_covariance_to_ros old msg = do
    covariance ← or_fault (covariance_to_ros old msg.covariance)
    ok (record { pose = pose_to_ros msg.pose; covariance = covariance })

  unfoldable pub box_to_core : BoundingBox3d D → BoundingBox3dMsg D
  box_to_core msg = record { center = pose_to_core msg.center; size = vector_to_core msg.size }

  unfoldable pub box_to_ros : BoundingBox3dMsg D → BoundingBox3d D
  box_to_ros msg = record { center = pose_to_ros msg.center; size = vector_to_ros msg.size }

  unfoldable pub accel_covariance_to_core :
      AccelWithCovarianceStamped D → Result (AccelWithCovarianceMsg D)
  accel_covariance_to_core msg = do
    time ← or_threw (rm.seconds msg.header.stamp)
    ok (record {
      time_stamp = time;
      accel = accel_to_core msg.accel;
      covariance = covariance_to_core msg.covariance;
    })

  -- The covariance of the twist is left as the constructor of `OdomMsg` sets it, to `new_covariance`.
  unfoldable pub odom_to_core : List D → Odometry D → Result (OdomMsg D)
  odom_to_core new_covariance msg = do
    time ← or_threw (rm.seconds msg.header.stamp)
    ok (record {
      time_stamp = time;
      pose = pose_covariance_to_core msg.pose;
      twist = twist_to_core msg.twist;
      twist_covariance = new_covariance;
    })

module _ {D : Type 0} ⦃fl : Doubles D⦄ ⦃rm : RosMath D⦄ where
  unfoldable pub accel_covariance_to_ros :
      List D → AccelWithCovarianceMsg D → Result (AccelWithCovarianceStamped D)
  accel_covariance_to_ros old msg = do
    covariance ← or_fault (covariance_to_ros old msg.covariance)
    ok (record {
      header = header_at msg.time_stamp;
      accel = accel_to_ros msg.accel;
      covariance = covariance;
    })

  -- The covariance of the twist is left as the message's constructor sets it: 36 zeros.
  unfoldable pub odom_to_ros : List D → OdomMsg D → Result (Odometry D)
  odom_to_ros old msg = do
    pose ← pose_covariance_to_ros old msg.pose
    ok (record {
      header = header_at msg.time_stamp;
      pose = pose;
      twist = twist_to_ros msg.twist;
      twist_covariance = replicate 36 (fl.lit 0 0);
    })
