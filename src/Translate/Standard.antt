-- ===== src/Translate/Standard.antt =====
-- core/utils/TranslateUtility/TranslateUtilityStandardMsgs.cpp, and the conversions of
-- TranslateUtilityGeometryMsgs.cpp that are made of it alone: accelerations, twists and points.
use robot_framework_ros.Prelude.{
  ◌≡◌, refl, Option, none, some, List, [], ◌∷◌, ◌++◌, length, drop, leb, arith, if◌then◌else◌,
}

-- `geometry_msgs/Vector3` and `Point`, and the core library's messages, over the doubles `D`.
pub record Vector3 (D : Type 0) : Type 0 where
  pub x : D
  pub y : D
  pub z : D

pub record Vector3dMsg (D : Type 0) : Type 0 where
  pub x : D
  pub y : D
  pub z : D

pub record Point (D : Type 0) : Type 0 where
  pub x : D
  pub y : D
  pub z : D

pub record PointMsg (D : Type 0) : Type 0 where
  pub x : D
  pub y : D
  pub z : D

-- `geometry_msgs/Accel` and `Twist` have the same two fields, and so have `AccelMsg` and `TwistMsg`.
pub record Motion (D : Type 0) : Type 0 where
  pub linear : Vector3 D
  pub angular : Vector3 D

pub record MotionMsg (D : Type 0) : Type 0 where
  pub linear : Vector3dMsg D
  pub angular : Vector3dMsg D

module _ {D : Type 0} where
  unfoldable pub vector_to_core : Vector3 D → Vector3dMsg D
  vector_to_core msg = record { x = msg.x; y = msg.y; z = msg.z }

  unfoldable pub vector_to_ros : Vector3dMsg D → Vector3 D
  vector_to_ros msg = record { x = msg.x; y = msg.y; z = msg.z }

  unfoldable pub point_to_core : Point D → PointMsg D
  point_to_core msg = record { x = msg.x; y = msg.y; z = msg.z }

  unfoldable pub point_to_ros : PointMsg D → Point D
  point_to_ros msg = record { x = msg.x; y = msg.y; z = msg.z }

  unfoldable pub accel_to_core : Motion D → MotionMsg D
  unfolding vector_to_core
  accel_to_core msg = record {
    linear = vector_to_core msg.linear;
    angular = vector_to_core msg.angular;
  }

  unfoldable pub accel_to_ros : MotionMsg D → Motion D
  unfolding vector_to_ros
  accel_to_ros msg = record {
    linear = vector_to_ros msg.linear;
    angular = vector_to_ros msg.angular;
  }

  unfoldable pub twist_to_core : Motion D → MotionMsg D
  unfolding vector_to_core
  twist_to_core msg = record {
    linear = vector_to_core msg.linear;
    angular = vector_to_core msg.angular;
  }

  unfoldable pub twist_to_ros : MotionMsg D → Motion D
  unfolding vector_to_ros
  twist_to_ros msg = record {
    linear = vector_to_ros msg.linear;
    angular = vector_to_ros msg.angular;
  }

  -- `convert_covariance3D` and `convert_covariance6D`: an array into a vector.
  unfoldable pub covariance_to_core : List D → List D
  covariance_to_core covariance = covariance

  -- And a vector into an array, which is not initialized before: `old` is what stands in it. `none` is
  -- the write behind its end.
  unfoldable pub covariance_to_ros : List D → List D → Option (List D)
  covariance_to_ros old [] = some old
  covariance_to_ros [] (c ∷ cs) = none
  covariance_to_ros (o ∷ os) (c ∷ cs) = elim (covariance_to_ros os cs) [
    | none ↦ none
    | some rest ↦ some (c ∷ rest)
  ]

  -- A covariance that the array can hold is copied to its front, and what stood behind it is kept; one
  -- that is longer is written past the end.
  pub covariance_to_ros_lem :
      (old covariance : List D)
      → covariance_to_ros old covariance ≡ (
          if leb (length covariance) (length old)
          then some (covariance ++ drop (length covariance) old)
          else none)
  unfolding covariance_to_ros
  covariance_to_ros_lem old [] = ground arith
  covariance_to_ros_lem [] (c ∷ cs) = ground arith
  covariance_to_ros_lem (o ∷ os) (c ∷ cs) = ground (arith, covariance_to_ros_lem os cs)

  -- An array's covariance comes back from the core library unchanged, whatever stood in the array of
  -- that size that it is written to.
  pub covariance_round_trip :
      (old covariance : List D)
      → length old ≡ length covariance
      → covariance_to_ros old (covariance_to_core covariance) ≡ some covariance
  unfolding covariance_to_ros covariance_to_core
  covariance_round_trip [] [] h = refl
  covariance_round_trip (o ∷ os) [] h = absurd (omega (arith, h))
  covariance_round_trip [] (c ∷ cs) h = absurd (omega (arith, h))
  covariance_round_trip (o ∷ os) (c ∷ cs) h = ground (arith, covariance_round_trip os cs)

  -- Accelerations, twists and points come back from the core library, and from ROS, unchanged.
  pub geometry_round_trips :
      (m : Motion D) (n : MotionMsg D) (p : Point D) (q : PointMsg D)
      → (accel_to_ros (accel_to_core m) ≡ m)
        × (accel_to_core (accel_to_ros n) ≡ n)
        × (twist_to_ros (twist_to_core m) ≡ m)
        × (twist_to_core (twist_to_ros n) ≡ n)
        × (point_to_ros (point_to_core p) ≡ p)
        × (point_to_core (point_to_ros q) ≡ q)
  unfolding accel_to_ros accel_to_core twist_to_ros twist_to_core point_to_ros point_to_core
  geometry_round_trips m n p q = (refl, refl, refl, refl, refl, refl)
