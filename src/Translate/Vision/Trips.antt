-- ===== src/Translate/Vision/Trips.antt =====
-- Detections that go out as ROS messages and come back.
use robot_framework_ros.Translate.Geometry.{header_at, box_to_ros}
use robot_framework_ros.Prelude.{◌≡◌, refl, ap, List, length, All, arith}
use robot_framework_ros.Prelude.Run.{ok}
use robot_framework_ros.Prelude.Fallible.{◌>>=◌, map_result-map_result}
use robot_framework_ros.Platform.{Doubles, RosMath}
use robot_framework_ros.Translate.Geometry.{PoseWithCovarianceMsg}
use robot_framework_ros.Translate.Geometry.Trips.{
  IsKeptTime, IsKeptOrientation, pose_covariance_round_trip, box_round_trip,
}
use robot_framework_ros.Translate.Vision.{
  ObjectHypothesisWithPose, ObjectHypothesisWithPoseMsg, Detection3d, Detection3dMsg,
  hypothesis_to_core, hypothesis_to_ros, detection_to_core, detection_to_ros,
}

-- tf2 keeps the angles of the hypothesis, and its covariance has the size of the array.
abbrev pub FitsPose :
    {D : Type 0} ⦃rm : RosMath D⦄ → List D → ObjectHypothesisWithPoseMsg D → Type 0
FitsPose old m = IsKeptOrientation m.pose.pose.orientation × (length old ≡ length m.pose.covariance)

module _ {D : Type 0} ⦃rm : RosMath D⦄ where
  hypothesis_round_trip :
      (old : List D) (m : ObjectHypothesisWithPoseMsg D)
      → FitsPose old m
      → (r : ObjectHypothesisWithPose D) × (hypothesis_to_ros old m ≡ ok r)
        × (ok (hypothesis_to_core r) ≡ ok m)
  unfolding hypothesis_to_ros hypothesis_to_core
  hypothesis_round_trip old m (o, h) =
      let (q, e, d) = pose_covariance_round_trip old m.pose o h in
      (
        record { score = m.score; class_id = m.classification_id; pose = q },
        rw e refl,
        ap (λ (x : PoseWithCovarianceMsg D). ok (record m { pose = x })) d,
      )

-- The same of a detection's box and of each hypothesis, and its stamp keeps its time.
abbrev pub FitsDetection :
    {D : Type 0} ⦃fl : Doubles D⦄ ⦃rm : RosMath D⦄ → List D → Detection3dMsg D → Type 0
FitsDetection old m =
    IsKeptTime m.time_stamp
    × IsKeptOrientation m.bbox.center.orientation
    × All (FitsPose old) m.results

module _ {D : Type 0} ⦃fl : Doubles D⦄ ⦃rm : RosMath D⦄ where
  pub detection_trip :
      (old : List D) (m : Detection3dMsg D)
      → FitsDetection old m
      → (d : Detection3d D) × (detection_to_ros old m ≡ ok d) × (detection_to_core d ≡ ok m)
  unfolding detection_to_ros detection_to_core
  detection_trip old m (t, o, fits) =
      let (rs, e, d) =
        map_result-map_result (hypothesis_to_ros old) (λ r. ok (hypothesis_to_core r))
          (FitsPose old) (hypothesis_round_trip old) m.results fits in
      (
        record { header = header_at m.time_stamp; results = rs; bbox = box_to_ros m.bbox },
        rw e refl,
        ground (arith, d, t, box_round_trip m.bbox o),
      )

  -- A detection of a time that its stamp keeps, with a box and hypotheses whose angles tf2 keeps and
  -- whose covariances have the array's size, comes back from ROS unchanged, its hypotheses in order.
  pub detection_round_trip :
      (old : List D) (m : Detection3dMsg D)
      → FitsDetection old m
      → (detection_to_ros old m >>= detection_to_core) ≡ ok m
  detection_round_trip old m fits = let (d, e, f) = detection_trip old m fits in rw e f
