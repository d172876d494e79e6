-- ===== src/Translate/Geometry/Trips.antt =====
-- Core messages that go out as ROS messages and come back.
use robot_framework_ros.Translate.Geometry.{
  OdomMsg, Odometry, AccelWithCovarianceStamped, PoseWithCovarianceMsg, PoseWithCovariance,
  header_at, odom_to_core, odom_to_ros, pose_covariance_to_core, pose_covariance_to_ros,
}
use robot_framework_ros.Prelude.{refl, replicate, ◌≡◌, ap, List, length, arith, some}
use robot_framework_ros.Prelude.Run.{ok}
use robot_framework_ros.Platform.{Doubles, RosMath}
use robot_framework_ros.Translate.Standard.{
  covariance_to_core, covariance_round_trip, accel_to_core, accel_to_ros, twist_to_core,
  twist_to_ros, point_to_core, point_to_ros, vector_to_core, vector_to_ros,
}
use robot_framework_ros.Translate.Geometry.{
  OrientationMsg, PoseMsg, AccelWithCovarianceMsg, BoundingBox3dMsg, stamp_at, orientation_to_core,
  orientation_to_ros, pose_to_core, pose_to_ros, accel_covariance_to_core, accel_covariance_to_ros,
  box_to_core, box_to_ros,
}

-- The time `t` is kept by the stamp that is made of it.
abbrev pub IsKeptTime : {D : Type 0} ⦃fl : Doubles D⦄ ⦃rm : RosMath D⦄ → D → Type 0
IsKeptTime ⦃rm = rm⦄ t = rm.seconds (stamp_at t) ≡ some t

-- tf2 gives the angles back.
abbrev pub IsKeptOrientation : {D : Type 0} ⦃rm : RosMath D⦄ → OrientationMsg D → Type 0
IsKeptOrientation o = orientation_to_core (orientation_to_ros o) ≡ o

module _ {D : Type 0} ⦃rm : RosMath D⦄ where
  pub pose_round_trip :
      (p : PoseMsg D) → IsKeptOrientation p.orientation → pose_to_core (pose_to_ros p) ≡ p
  unfolding pose_to_core pose_to_ros point_to_core point_to_ros
  pose_round_trip p h = ap (λ (o : OrientationMsg D). record p { orientation = o }) h

  pub box_round_trip :
      (b : BoundingBox3dMsg D)
      → IsKeptOrientation b.center.orientation
      → box_to_core (box_to_ros b) ≡ b
  unfolding box_to_core box_to_ros vector_to_core vector_to_ros
  box_round_trip b h = ap (λ (c : PoseMsg D). record b { center = c }) (pose_round_trip b.center h)

  pub pose_covariance_round_trip :
      (old : List D) (p : PoseWithCovarianceMsg D)
      → IsKeptOrientation p.pose.orientation
      → length old ≡ length p.covariance
      → (q : PoseWithCovariance D) × (pose_covariance_to_ros old p ≡ ok q)
        × (pose_covariance_to_core q ≡ p)
  unfolding pose_covariance_to_ros pose_covariance_to_core covariance_to_core
  pose_covariance_round_trip old p o h = (
    record { pose = pose_to_ros p.pose; covariance = p.covariance },
    ground (arith, covariance_round_trip old p.covariance h),
    ap (λ x. record p { pose = x }) (pose_round_trip p.pose o),
  )

module _ {D : Type 0} ⦃fl : Doubles D⦄ ⦃rm : RosMath D⦄ where
  -- An acceleration with a covariance of the array's size.
  pub accel_covariance_trip :
      (old : List D) (a : AccelWithCovarianceMsg D)
      → length old ≡ length a.covariance
      → IsKeptTime a.time_stamp
      → (m : AccelWithCovarianceStamped D) × (accel_covariance_to_ros old a ≡ ok m)
        × (accel_covariance_to_core m ≡ ok a)
  unfolding accel_covariance_to_ros accel_covariance_to_core accel_to_core accel_to_ros
      vector_to_core vector_to_ros covariance_to_core
  accel_covariance_trip old a h t = (
    record {
      header = header_at a.time_stamp;
      accel = accel_to_ros a.accel;
      covariance = a.covariance;
    },
    ground (arith, covariance_round_trip old a.covariance h),
    ground (arith, t),
  )

  -- An odometry, which loses the covariance of its twist on both ways.
  pub odom_trip :
      (old new_covariance : List D) (o : OdomMsg D)
      → length old ≡ length o.pose.covariance
      → IsKeptTime o.time_stamp
      → IsKeptOrientation o.pose.pose.orientation
      → (m : Odometry D) × (odom_to_ros old o ≡ ok m)
        × (m.twist_covariance ≡ replicate 36 (fl.lit 0 0))
        × (odom_to_core new_covariance m ≡ ok (record o { twist_covariance = new_covariance }))
  unfolding odom_to_ros odom_to_core twist_to_core twist_to_ros vector_to_core vector_to_ros
  odom_trip old new_covariance o h t q =
      let (p, e, d) = pose_covariance_round_trip old o.pose q h in
      (
        record {
          header = header_at o.time_stamp;
          pose = p;
          twist = twist_to_ros o.twist;
          twist_covariance = replicate 36 (fl.lit 0 0);
        },
        rw e refl,
        refl,
        ground (arith, d, t),
      )
