-- ===== src/Systems/DepthCamera/Pipeline.antt =====
-- What the depth camera's node publishes, and when it cannot.
use robot_framework_ros.Prelude.{◌≡◌, refl, false, none, some, List, [], ◌∷◌, ◌++◌, All, arith}
use robot_framework_ros.Prelude.Run.{ok, threw}
use robot_framework_ros.Prelude.Text.{Text}
use robot_framework_ros.Prelude.Fallible.{map_result, map_result-map_result}
use robot_framework_ros.Platform.{Doubles, RosMath, Pcl}
use robot_framework_ros.Messages.{no_header}
use robot_framework_ros.BaseNode.Object.{Shared, Reads}
use robot_framework_ros.Translate.Geometry.{stamp_at}
use robot_framework_ros.Translate.Sensor.{PointCloud2, cloud_to_ros}
use robot_framework_ros.Translate.Vision.{detection_to_core, detection_to_ros}
use robot_framework_ros.Translate.Vision.Trips.{FitsDetection, detection_trip}
use robot_framework_ros.Systems.Host.{Host}
use robot_framework_ros.Systems.DepthCamera.{
  PipelineSubsystem, Detection3dArray, DepthCamera, feature_cloud_out, detections_out,
  publish_cloud, publish_detections, run_loop2,
}

-- The two publishers are made.
pub record HasPublishers {D B : Type 0} (e : DepthCamera D B) : Type 0 where
  pub cloud_topic : Text
  pub detections_topic : Text
  pub cloud : e.feature_cloud_pub ≡ some cloud_topic
  pub detections : e.detections_pub ≡ some detections_topic

module _ {D P C B S : Type 0} ⦃fl : Doubles D⦄ ⦃rm : RosMath D⦄ ⦃pcl : Pcl C B⦄ (old : List D)
    (subsystem : PipelineSubsystem D C S) (r : Reads D) (s : Shared P)
    (u : Host S (DepthCamera D B)) where
  -- With its publishers made, a feature cloud of a time that is not negative and detections that fit,
  -- the second user loop publishes the cloud and then one array of detections, both in the target
  -- frame. The cloud carries its time, and the core library reads the detections from the array
  -- unchanged and in order.
  pub run_loop2_publishes_pipeline :
      (cloud : C)
      → HasPublishers u.members
      → (let output = subsystem.get_output u.process in
          (output.latest_feature_cloud.point_cloud ≡ some cloud)
          × (fl.lt output.latest_feature_cloud.time_stamp (fl.lit 0 0) ≡ false)
          × All (FitsDetection old) output.latest_detections)
      → (out : PointCloud2 B) × (array : Detection3dArray D) × (run_loop2 old subsystem r (s, u)
          ≡ ok (
            tt,
            (
              s,
              record u {
                members = record u.members {
                  published =
                      (u.members.published ++ feature_cloud_out out ∷ [])
                      ++ detections_out array ∷ [];
                };
              },
            ),
          ))
        × (out.header.frame_id ≡ u.members.target_frame)
        × (out.header.stamp
            ≡ stamp_at (subsystem.get_output u.process).latest_feature_cloud.time_stamp)
        × (array.header.frame_id ≡ u.members.target_frame)
        × (map_result detection_to_core array.detections
            ≡ ok (subsystem.get_output u.process).latest_detections)
  unfolding run_loop2 publish_cloud publish_detections cloud_to_ros
  run_loop2_publishes_pipeline cloud has (there, later, fits) =
      let output = subsystem.get_output u.process in
      let (ds, e, d) =
        map_result-map_result (detection_to_ros old) detection_to_core (FitsDetection old)
          (detection_trip old) output.latest_detections fits in
      let (header, body) = pcl.to_ros_msg cloud in
      (
        record {
          header = record header {
            stamp = stamp_at output.latest_feature_cloud.time_stamp;
            frame_id = u.members.target_frame;
          };
          body = body;
        },
        record { header = record no_header { frame_id = u.members.target_frame }; detections = ds },
        ground (arith, has.cloud, has.detections, there, later, e),
        refl,
        refl,
        refl,
        d,
      )

  -- With no feature cloud and a time that is not negative, the second user loop throws, and publishes
  -- nothing.
  pub run_loop2_throws :
      (subsystem.get_output u.process).latest_feature_cloud.point_cloud ≡ none
      → fl.lt (subsystem.get_output u.process).latest_feature_cloud.time_stamp (fl.lit 0 0) ≡ false
      → run_loop2 old subsystem r (s, u) ≡ threw
  unfolding run_loop2 publish_cloud cloud_to_ros
  run_loop2_throws missing later = ground (arith, missing, later)
