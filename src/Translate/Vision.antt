-- ===== src/Translate/Vision.antt =====
-- core/utils/TranslateUtility/TranslateUtilityVisionMsgs.cpp: detections and their hypotheses.
pub mod Trips
use robot_framework_ros.Prelude.{List}
use robot_framework_ros.Prelude.Run.{Result, ok}
use robot_framework_ros.Prelude.Text.{Text}
use robot_framework_ros.Prelude.Fallible.{or_threw, ◌>>=◌, map_result}
use robot_framework_ros.Platform.{Doubles, RosMath}
use robot_framework_ros.Messages.{Header}
use robot_framework_ros.Translate.Geometry.{
  PoseWithCovariance, PoseWithCovarianceMsg, BoundingBox3d, BoundingBox3dMsg, header_at,
  pose_covariance_to_core, pose_covariance_to_ros, box_to_core, box_to_ros,
}

pub record ObjectHypothesisWithPose (D : Type 0) : Type 0 where
  pub class_id : Text
  pub score : D
  pub pose : PoseWithCovariance D

pub record ObjectHypothesisWithPoseMsg (D : Type 0) : Type 0 where
  pub classification_id : Text
  pub score : D
  pub pose : PoseWithCovarianceMsg D

-- `vision_msgs/Detection3D` without its `id`, which no conversion reads or writes.
pub record Detection3d (D : Type 0) : Type 0 where
  pub header : Header
  pub results : List (ObjectHypothesisWithPose D)
  pub bbox : BoundingBox3d D

pub record Detection3dMsg (D : Type 0) : Type 0 where
  pub time_stamp : D
  pub results : List (ObjectHypothesisWithPoseMsg D)
  pub bbox : BoundingBox3dMsg D

module _ {D : Type 0} ⦃rm : RosMath D⦄ where
  unfoldable pub hypothesis_to_core : ObjectHypothesisWithPose D → ObjectHypothesisWithPoseMsg D
  hypothesis_to_core msg = record {
    score = msg.score;
    classification_id = msg.class_id;
    pose = pose_covariance_to_core msg.pose;
  }

  unfoldable pub hypothesis_to_ros :
      List D → ObjectHypothesisWithPoseMsg D → Result (ObjectHypothesisWithPose D)
  hypothesis_to_ros old msg = do
    pose ← pose_covariance_to_ros old msg.pose
    ok (record { score = msg.score; class_id = msg.classification_id; pose = pose })

  unfoldable pub detection_to_core : Detection3d D → Result (Detection3dMsg D)
  unfolding hypothesis_to_core
  detection_to_core msg = do
    time ← or_threw (rm.seconds msg.header.stamp)
    results ← map_result (λ r. ok (hypothesis_to_core r)) msg.results
    ok (record { time_stamp = time; bbox = box_to_core msg.bbox; results = results })

module _ {D : Type 0} ⦃fl : Doubles D⦄ ⦃rm : RosMath D⦄ where
  -- `old` is what stands in the array of each hypothesis's covariance before it is written.
  unfoldable pub detection_to_ros : List D → Detection3dMsg D → Result (Detection3d D)
  unfolding hypothesis_to_ros
  detection_to_ros old msg = do
    results ← map_result (hypothesis_to_ros old) msg.results
    ok (record { header = header_at msg.time_stamp; bbox = box_to_ros msg.bbox; results = results })
