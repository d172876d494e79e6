-- ===== src/Examples/Sensors.antt =====
-- The sensor and vision messages, and the nodes that publish them, at concrete inputs.
use robot_framework_ros.Prelude.{
  ℕ, ◌+◌, ◌≡◌, refl, true, false, none, some, List, [], ◌∷◌, ◌++◌, replicate, if◌then◌else◌,
}
use robot_framework_ros.Prelude.Int.{ℤ, pos}
use robot_framework_ros.Prelude.Run.{ok, fault}
use robot_framework_ros.Prelude.Text.{text, text_eq}
use robot_framework_ros.Prelude.Fallible.{◌>>=◌, map_result}
use robot_framework_ros.Platform.Toy.{
  toy_doubles, toy_core, toy_params, toy_math, toy_pcl, ToyParams,
}
use robot_framework_ros.Messages.{no_ready_to_arm}
use robot_framework_ros.BaseNode.State.{state_running}
use robot_framework_ros.BaseNode.Topic.{load_robot_namespace}
use robot_framework_ros.BaseNode.Object.{Node, Reads, Shared, construct}
use robot_framework_ros.BaseNode.Lifecycle.{main, spins}
use robot_framework_ros.BaseNode.Lifecycle.Start.{AllArmed}
use robot_framework_ros.Translate.Standard.{
  Vector3dMsg, MotionMsg, vector_to_core, covariance_to_core,
}
use robot_framework_ros.Translate.Geometry.{
  Odometry, OdomMsg, AccelWithCovarianceMsg, AccelWithCovarianceStamped, PoseMsg,
  orientation_to_core, orientation_to_ros, odom_to_core, accel_covariance_to_core, stamp_at,
}
use robot_framework_ros.Translate.Sensor.{
  Imu, ImuMsg, MagneticFieldMsg, PointCloud2, imu_to_core, imu_to_ros, no_imu,
}
use robot_framework_ros.Translate.Sensor.Trips.{imu_message, imu_overruns, imu_to_ros_lem}
use robot_framework_ros.Translate.Vision.{Detection3dMsg, detection_to_core, detection_to_ros}
use robot_framework_ros.Translate.Vision.Trips.{FitsDetection, detection_round_trip}
use robot_framework_ros.Systems.Host.{Host}
use robot_framework_ros.Systems.Host.Kickoff.{LoopRates}
use robot_framework_ros.Systems.ImuNode.{
  ImuProcess, ImuNode, imu_out, accel_out, magnetic_out, run_loop2,
}
use robot_framework_ros.Systems.ImuNode.Publish.{
  framed_imu, framed_magnetic, accel_of, run_loop2_publishes,
}
use robot_framework_ros.Systems.InertialSensorFuser.{
  InertialSensorFuserProcess, InertialSensorFuser, imu_callback, inertial_sensor_fuser,
}
use robot_framework_ros.Systems.InertialSensorFuser.Relay.{imu_callback_relays}
use robot_framework_ros.Systems.InertialSensorFuser.Start.{FuserTopics, fuser_members, fuser_main}
use robot_framework_ros.Systems.LocalPoseFuser.{
  LocalPoseFuserProcess, LocalPoseFuser, pose_out, angular_accel_out, machine_inertial_callback,
}
use robot_framework_ros.Systems.LocalPoseFuser.Poses.{machine_inertial_callback_publishes}
use robot_framework_ros.Systems.DepthCamera as Depth
use robot_framework_ros.Systems.DepthCamera.{
  PipelineSubsystem, Detection3dArray, DepthCamera, feature_cloud_out, detections_out,
}
use robot_framework_ros.Systems.DepthCamera.Pipeline.{run_loop2_publishes_pipeline}
use robot_framework_ros.Examples.Toy.{at}
use robot_framework_ros.Examples.Systems.{counting, after, topics, config, base_given}

abbrev old : List ℤ
old = replicate 9 (pos 7)

abbrev zeros : List ℤ
zeros = replicate 9 (pos 0)

abbrev vector : Vector3dMsg ℤ
vector = record { x = pos 1; y = pos 2; z = pos 3 }

-- A measurement of the second 2, and the message of it.
abbrev fused : ImuMsg ℤ
fused = record {
  time_stamp = pos 2000;
  orientation = record { roll = pos 1; pitch = pos 2; yaw = pos 3 };
  orientation_covariance = zeros;
  angular_velocity = vector;
  angular_velocity_covariance = zeros;
  linear_acceleration = vector;
  linear_acceleration_covariance = zeros;
}

abbrev heard : Imu ℤ
heard = record {
  header = record { stamp = record { sec = pos 2; nanosec = 0 }; frame_id = text "imu" };
  orientation = record { x = pos 1; y = pos 2; z = pos 3; w = pos 1000 };
  orientation_covariance = zeros;
  angular_velocity = record { x = pos 1; y = pos 2; z = pos 3 };
  angular_velocity_covariance = zeros;
  linear_acceleration = record { x = pos 1; y = pos 2; z = pos 3 };
  linear_acceleration_covariance = zeros;
}

abbrev short_imu : ImuMsg ℤ
short_imu = record fused { orientation_covariance = [] }

imu_to_ros_lem_example : imu_to_ros old short_imu ≡ (
    if toy_doubles.lt (pos 2000) (toy_doubles.lit 0 0)
    then ok no_imu
    else if imu_overruns old short_imu
    then fault
    else ok (imu_message old short_imu))
imu_to_ros_lem_example = imu_to_ros_lem old short_imu

abbrev pose : PoseMsg ℤ
pose = record {
  position = record { x = pos 1; y = pos 2; z = pos 3 };
  orientation = record { roll = pos 1; pitch = pos 2; yaw = pos 3 };
}

abbrev detection : Detection3dMsg ℤ
detection = record {
  time_stamp = pos 2000;
  results =
      record {
        classification_id = text "person";
        score = pos 900;
        pose = record { pose = pose; covariance = zeros };
      }
      ∷ [];
  bbox = record { center = pose; size = vector };
}

detection_fits : FitsDetection old detection
unfolding orientation_to_core orientation_to_ros
detection_fits = (refl, refl, ((refl, refl), tt))

detection_round_trip_example : (detection_to_ros old detection >>= detection_to_core) ≡ ok detection
detection_round_trip_example = detection_round_trip old detection detection_fits

abbrev field : MagneticFieldMsg ℤ
field = record { time_stamp = pos 0; magnetic_field = vector; magnetic_field_covariance = zeros }

abbrev imu : ImuProcess ℤ ℕ
imu = record {
  base = counting;
  convert_name = λ s. 1;
  init = λ c s. (true, s);
  get_imu_data = λ s. some fused;
  get_magnetic_data = λ s. some field;
}

abbrev seen_by : Reads ℤ
seen_by = record {
  base_node_name = text "node";
  node_name = text "/robot1/node";
  robot_namespace = text "/robot1";
  node_config_namespace = text "/ns";
  seconds = pos 1000;
}

abbrev shared : Shared ToyParams
shared = record {
  system_id = 0;
  subsystem_id = 0;
  process_id = 0;
  ready_to_arm = no_ready_to_arm;
  diagnostics = [];
  params = topics;
}

abbrev imu_members : ImuNode ℤ
imu_members = record {
  imu_frame = text "base";
  imu_accel_pub = some (text "/accel");
  imu_pub = some (text "/imu");
  imu_magnetic_pub = some (text "/magnetic");
  imu_config = record {
    high_packet_dropped_rate_threshold = pos 0;
    low_packet_rx_rate_threshold = pos 0;
    imu_type = 1;
    imu_device_name = [];
    linear_accelerometer_covariance = zeros;
    gyro_covariance = zeros;
    magnetometer_covariance = zeros;
    orientation_covariance = zeros;
  };
  published = [];
}

run_loop2_publishes_example :
    let m = framed_imu (text "base") old fused in
    run_loop2 old imu seen_by (shared, record { process = 0; members = imu_members })
    ≡ ok (
      tt,
      (
        shared,
        record {
          process = 0;
          members = record imu_members {
            published =
                (([] ++ imu_out m ∷ []) ++ accel_out (accel_of m) ∷ [])
                ++ magnetic_out (framed_magnetic (text "base") old field) ∷ [];
          };
        },
      ),
    )
run_loop2_publishes_example =
    run_loop2_publishes old imu seen_by shared (record { process = 0; members = imu_members }) fused
      field
      (record {
        imu_topic = text "/imu";
        accel_topic = text "/accel";
        magnetic_topic = text "/magnetic";
        imu = refl;
        accel = refl;
        magnetic = refl;
      })
      refl refl refl refl

-- It hands on what it was told last, which is always the same here, and does not initialize.
abbrev fuser : InertialSensorFuserProcess ℤ ℕ
fuser = record {
  base = counting;
  init = λ n s. (false, s);
  new_imu_data = λ i msg s. s + 10;
  get_machine_inertial_data = λ s. some fused;
}

abbrev fuser_host : Host ℕ (InertialSensorFuser ℤ)
fuser_host = record {
  process = 0;
  members = record { fused_imu_pub = some (text "/fused"); imu_subs = []; published = [] };
}

imu_callback_relays_example :
    (out : Imu ℤ) × (imu_callback old fuser heard fuser_host
      ≡ ok (
        tt,
        record { process = 10; members = record fuser_host.members { published = [] ++ out ∷ [] } },
      ))
    × (out.header.frame_id ≡ text "imu")
    × (imu_to_core out ≡ ok fused)
unfolding imu_to_core orientation_to_core orientation_to_ros vector_to_core covariance_to_core
imu_callback_relays_example =
    imu_callback_relays old fuser heard fused fused (text "/fused") fuser_host refl refl refl
      (record { orientation = refl; angular = refl; linear = refl }) refl refl refl

abbrev fuser_node : Node ℤ ToyParams (Host ℕ (InertialSensorFuser ℤ))
fuser_node = construct (text "inertial_sensor_fuser_node") (text "/robot1/servo") topics fuser_host

abbrev fuser_given : ToyParams
fuser_given = after base_given (text "imu1_input_topic" ∷ text "fused_imu_output_topic" ∷ [])

fuser_topics : FuserTopics toy_params config.p3
unfolding config text_eq
fuser_topics = record {
  input = text "imu1_input_topic";
  fused = text "fused_imu_output_topic";
  p1 = after base_given (text "imu1_input_topic" ∷ []);
  p2 = fuser_given;
  input_given = refl;
  fused_given = refl;
}

abbrev minus_one : ℤ
minus_one = toy_doubles.neg (toy_doubles.lit 1 0)

rates : LoopRates toy_params fuser_topics.p2
unfolding fuser_topics text_eq
rates = record {
  rate1 = minus_one;
  rate2 = minus_one;
  rate3 = minus_one;
  p1 = after fuser_given (text "loop1_rate" ∷ []);
  p2 = after fuser_given (text "loop1_rate" ∷ text "loop2_rate" ∷ []);
  p3 = after fuser_given (text "loop1_rate" ∷ text "loop2_rate" ∷ text "loop3_rate" ∷ []);
  rate1_given = refl;
  rate2_given = refl;
  rate3_given = refl;
  possible = refl;
}

fuser_main_example :
    (m : Node ℤ ToyParams (Host ℕ (InertialSensorFuser ℤ))) × (main
        (inertial_sensor_fuser fuser)
        none
        (at 1)
        fuser_node
      ≡ spins m)
    × (m.node_state ≡ state_running)
    × AllArmed m.timers
    × (m.user ≡ record {
      process = 1;
      members = fuser_members (load_robot_namespace config.robot) fuser_topics fuser_host.members;
    })
fuser_main_example = fuser_main fuser none (at 1) fuser_node config fuser_topics rates refl refl

abbrev motion : MotionMsg ℤ
motion = record { linear = vector; angular = vector }

abbrev odom : OdomMsg ℤ
odom = record {
  time_stamp = pos 2000;
  pose = record { pose = pose; covariance = zeros };
  twist = motion;
  twist_covariance = pos 9000 ∷ [];
}

abbrev accel : AccelWithCovarianceMsg ℤ
accel = record { time_stamp = pos 2000; accel = motion; covariance = zeros }

abbrev posing : LocalPoseFuserProcess ℤ ℕ
posing = record {
  base = counting;
  init = λ s. (true, s);
  new_machine_inertial_data = λ msg s. s + 10;
  get_local_pose = λ s. some (odom, accel);
}

abbrev posing_host : Host ℕ (LocalPoseFuser ℤ)
posing_host = record {
  process = 0;
  members = record {
    machine_inertial_sub = some (text "/imu");
    local_pose_pub = some (text "/pose");
    local_pose_angular_accel_pub = some (text "/accel");
    published = [];
  };
}

machine_inertial_callback_publishes_example :
    (o : Odometry ℤ) × (out : AccelWithCovarianceStamped ℤ) × (machine_inertial_callback old posing
        heard posing_host
      ≡ ok (
        tt,
        record {
          process = 10;
          members = record posing_host.members {
            published = ([] ++ pose_out o ∷ []) ++ angular_accel_out out ∷ [];
          };
        },
      ))
    × (o.header.frame_id ≡ text "imu")
    × (out.header.frame_id ≡ text "imu")
    × (o.twist_covariance ≡ replicate 36 (pos 0))
    × (odom_to_core zeros o ≡ ok (record odom { twist_covariance = zeros }))
    × (accel_covariance_to_core out ≡ ok accel)
unfolding imu_to_core orientation_to_core orientation_to_ros vector_to_core covariance_to_core
machine_inertial_callback_publishes_example =
    machine_inertial_callback_publishes old zeros posing heard fused odom accel posing_host
      (record { pose_topic = text "/pose"; accel_topic = text "/accel"; pose = refl; accel = refl })
      refl refl
      (record {
        pose_size = refl;
        accel_size = refl;
        pose_time = refl;
        accel_time = refl;
        angles = refl;
      })

abbrev pipeline : PipelineSubsystem ℤ (List ℕ) ℕ
pipeline = record {
  base = counting;
  init = λ s. (true, s);
  add_signal_to_monitor = λ topic type low high s. s;
  new_point_cloud = λ msg topic s. s;
  get_output = λ s. record {
    latest_feature_cloud = record { time_stamp = pos 2000; point_cloud = some (1 ∷ 2 ∷ []) };
    latest_detections = detection ∷ [];
  };
}

abbrev depth_members : DepthCamera ℤ (List ℕ)
depth_members = record {
  sensor_point_cloud_sub = some (text "/points");
  feature_cloud_pub = some (text "/features");
  detections_pub = some (text "/detections");
  target_frame = text "base";
  published = [];
}

run_loop2_publishes_pipeline_example :
    (out : PointCloud2 (List ℕ)) × (array : Detection3dArray ℤ) × (Depth.run_loop2 old pipeline
        seen_by
        (shared, record { process = 0; members = depth_members })
      ≡ ok (
        tt,
        (
          shared,
          record {
            process = 0;
            members = record depth_members {
              published = ([] ++ feature_cloud_out out ∷ []) ++ detections_out array ∷ [];
            };
          },
        ),
      ))
    × (out.header.frame_id ≡ text "base")
    × (out.header.stamp ≡ stamp_at (pos 2000))
    × (array.header.frame_id ≡ text "base")
    × (map_result detection_to_core array.detections ≡ ok (detection ∷ []))
run_loop2_publishes_pipeline_example =
    run_loop2_publishes_pipeline old pipeline seen_by shared
      (record { process = 0; members = depth_members }) (1 ∷ 2 ∷ [])
      (record {
        cloud_topic = text "/features";
        detections_topic = text "/detections";
        cloud = refl;
        detections = refl;
      })
      (refl, refl, (detection_fits, tt))
