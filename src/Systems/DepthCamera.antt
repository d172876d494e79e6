-- ===== src/Systems/DepthCamera.antt =====
-- Systems/Perception/Subsystems/DepthCameraPipeline/Nodes/DepthCameraPipelineNode/
-- DepthCameraPipelineNode.cpp.
pub mod Pipeline
use robot_framework_ros.Prelude.{ℕ, Bool, true, false, Option, none, some, List, [], ◌∷◌, ◌++◌}
use robot_framework_ros.Prelude.Run.{ok, fault, pure, ◌>>=◌, ◌>>◌, Run}
use robot_framework_ros.Prelude.Text.{Text, text}
use robot_framework_ros.Prelude.Fallible.{with_value, map_result}
use robot_framework_ros.Platform.{Doubles, Params, RosMath, Pcl}
use robot_framework_ros.Messages.{Header, no_header}
use robot_framework_ros.BaseNode.Object.{Shared, Hook, Derived, set_ready_to_arm}
use robot_framework_ros.BaseNode.Topic.{get_namespaced_topic}
use robot_framework_ros.Translate.Sensor.{PointCloud2, PointCloudMsg, cloud_to_core, cloud_to_ros}
use robot_framework_ros.Translate.Vision.{Detection3d, Detection3dMsg, detection_to_ros}
use robot_framework_ros.Systems.Host.{
  Process, Host, node_around, agree, update_members, require_text,
}

pub record PipelineOutput (D C : Type 0) : Type 0 where
  pub latest_feature_cloud : PointCloudMsg D C
  pub latest_detections : List (Detection3dMsg D)

-- `DepthCameraPipelineSubsystem` of the core library.
pub record PipelineSubsystem (D C S : Type 0) : Type 0 where
  pub base : Process D S
  pub init : S → Bool × S
  pub add_signal_to_monitor : Text → Text → D → D → S → S
  pub new_point_cloud : PointCloudMsg D C → Text → S → S
  pub get_output : S → PipelineOutput D C

-- `vision_msgs/Detection3DArray`.
pub record Detection3dArray (D : Type 0) : Type 0 where
  pub header : Header
  pub detections : List (Detection3d D)

-- What the node has published, in order.
pub data DepthOutput (D B : Type 0) : Type 0 where
  feature_cloud_out : PointCloud2 B → DepthOutput D B
  detections_out : Detection3dArray D → DepthOutput D B

pub record DepthCamera (D B : Type 0) : Type 0 where
  pub sensor_point_cloud_sub : Option Text
  pub feature_cloud_pub : Option Text
  pub detections_pub : Option Text
  pub target_frame : Text
  pub published : List (DepthOutput D B)

module _ {D C B S : Type 0} ⦃fl : Doubles D⦄ ⦃rm : RosMath D⦄ ⦃pcl : Pcl C B⦄ where
  unfoldable pub point_cloud_callback :
      PipelineSubsystem D C S → Text → PointCloud2 B → Run (Host S (DepthCamera D B)) (Unit {0})
  point_cloud_callback subsystem topic_name msg u =
      with_value (cloud_to_core msg)
        (λ converted u.
          ok (tt, record u { process = subsystem.new_point_cloud converted topic_name u.process }))
        u

module _ {D P B S : Type 0} ⦃params : Params D P⦄ where
  unfoldable pub load_config : Hook D P (Host S (DepthCamera D B)) Bool
  load_config r = do
    frame ← require_text (text "target_frame") r
    update_members (λ e. record e { target_frame = frame })
    agree r

module _ {D P C B S : Type 0} ⦃fl : Doubles D⦄ ⦃params : Params D P⦄
    (subsystem : PipelineSubsystem D C S) where
  abbrev monitor_signal : Text → Run (Shared P × Host S (DepthCamera D B)) (Unit {0})
  monitor_signal topic (s, u) = ok (
    tt,
    (
      s,
      record u {
        process =
            subsystem.add_signal_to_monitor topic (text "sensor_msgs/msg/PointCloud2") (fl.lit 20 0)
              (fl.lit 50 0) u.process;
      },
    ),
  )

  unfoldable pub init_pub_subs : Hook D P (Host S (DepthCamera D B)) Bool
  init_pub_subs r = do
    sensor1_topic ← require_text (text "sensor1_depthcamera_topic") r
    feature_topic ← require_text (text "feature_pointcloud_topic") r
    detections_topic ← require_text (text "objectdetections_depthcamera_topic") r
    monitor_signal sensor1_topic
    update_members (λ e. record e {
      sensor_point_cloud_sub = some (get_namespaced_topic r.robot_namespace sensor1_topic);
      feature_cloud_pub = some (get_namespaced_topic r.robot_namespace feature_topic);
      detections_pub = some (get_namespaced_topic r.robot_namespace detections_topic);
    })
    agree r

module _ {D P C B S : Type 0} (subsystem : PipelineSubsystem D C S) where
  -- The status is set if `init` answers true.
  abbrev after_init : Bool × S → Hook D P (Host S (DepthCamera D B)) Bool
  after_init (true, p) r (s, u) =
      ok (true, (set_ready_to_arm (subsystem.base.get_ready_to_arm p) s, record u { process = p }))
  after_init (false, p) r (s, u) = ok (false, (s, record u { process = p }))

  unfoldable pub init_data : Hook D P (Host S (DepthCamera D B)) Bool
  init_data r (s, u) = after_init (subsystem.init u.process) r (s, u)

module _ {D P B S : Type 0} where
  -- `publish` is undefined behaviour on a null publisher.
  abbrev publish :
      Option Text → DepthOutput D B → Run (Shared P × Host S (DepthCamera D B)) (Unit {0})
  publish none out x = fault
  publish (some topic) out x =
      update_members (λ e. record e { published = e.published ++ out ∷ [] }) x

module _ {D P B S : Type 0} ⦃fl : Doubles D⦄ ⦃rm : RosMath D⦄ (old : List D) where
  -- The second block of `runLoop2`.
  unfoldable pub publish_detections :
      List (Detection3dMsg D) → Run (Shared P × Host S (DepthCamera D B)) (Unit {0})
  publish_detections detections x =
      with_value (map_result (detection_to_ros old) detections)
        (λ converted x.
          publish x.1.members.detections_pub
            (detections_out (record {
              header = record no_header { frame_id = x.1.members.target_frame };
              detections = converted;
            }))
            x)
        x

module _ {D P C B S : Type 0} ⦃fl : Doubles D⦄ ⦃rm : RosMath D⦄ ⦃pcl : Pcl C B⦄ where
  -- The first block of `runLoop2`.
  unfoldable pub publish_cloud :
      PointCloudMsg D C → Run (Shared P × Host S (DepthCamera D B)) (Unit {0})
  publish_cloud cloud x =
      with_value (cloud_to_ros cloud)
        (λ converted x.
          publish x.1.members.feature_cloud_pub
            (feature_cloud_out (record converted {
              header = record converted.header { frame_id = x.1.members.target_frame };
            }))
            x)
        x

module _ {D P C B S : Type 0} ⦃fl : Doubles D⦄ ⦃rm : RosMath D⦄ ⦃pcl : Pcl C B⦄ (old : List D) where
  unfoldable pub run_loop2 :
      PipelineSubsystem D C S → Hook D P (Host S (DepthCamera D B)) (Unit {0})
  unfolding publish_cloud publish_detections
  run_loop2 subsystem r (s, u) =
      let output = subsystem.get_output u.process in
      (publish_cloud output.latest_feature_cloud >> publish_detections old output.latest_detections)
        (s, u)

module _ {D P C B S : Type 0} ⦃fl : Doubles D⦄ ⦃rm : RosMath D⦄ ⦃pcl : Pcl C B⦄
    ⦃params : Params D P⦄ (old : List D) (subsystem : PipelineSubsystem D C S) where
  unfoldable pub depth_camera : Derived D P (Host S (DepthCamera D B))
  unfolding load_config init_pub_subs init_data run_loop2
  depth_camera = node_around subsystem.base (record {
    load_config = load_config;
    init_pub_subs = init_pub_subs subsystem;
    init_services = agree;
    init_data = init_data subsystem;
    run_loop2 = run_loop2 old subsystem;
  })
