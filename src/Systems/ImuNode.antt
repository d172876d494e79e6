-- ===== src/Systems/ImuNode.antt =====
-- Systems/Pose/Subsystems/InertialSensor/Nodes/IMUNode/IMUNode.cpp.
pub mod Publish
use robot_framework_ros.Prelude.{ℕ, Bool, Option, none, some, List, [], ◌∷◌, ◌++◌}
use robot_framework_ros.Prelude.Run.{ok, fault, pure, ◌>>=◌, ◌>>◌, Run}
use robot_framework_ros.Prelude.Text.{Text, text}
use robot_framework_ros.Prelude.Fallible.{with_value}
use robot_framework_ros.Platform.{Doubles, Params, RosMath}
use robot_framework_ros.Messages.{Header}
use robot_framework_ros.BaseNode.Object.{Shared, Reads, Hook, Derived}
use robot_framework_ros.BaseNode.Topic.{get_namespaced_topic}
use robot_framework_ros.Translate.Standard.{Motion}
use robot_framework_ros.Translate.Sensor.{
  Imu, ImuMsg, MagneticField, MagneticFieldMsg, imu_to_ros, magnetic_to_ros, no_vector,
}
use robot_framework_ros.Systems.Host.{
  Process, Host, node_around, agree, update_members, require_text, require_double, require_doubles,
  declare_text, kick_off_if,
}

-- `IIMUProcess::IMUConfig`, with the fields that the node sets; a type of IMU is its number.
pub record ImuConfig (D : Type 0) : Type 0 where
  pub high_packet_dropped_rate_threshold : D
  pub low_packet_rx_rate_threshold : D
  pub imu_type : ℕ
  pub imu_device_name : Text
  pub linear_accelerometer_covariance : List D
  pub gyro_covariance : List D
  pub magnetometer_covariance : List D
  pub orientation_covariance : List D

-- `IMUProcess`, and `IIMUDriver::convert_name`.
pub record ImuProcess (D S : Type 0) : Type 0 where
  pub base : Process D S
  pub convert_name : Text → ℕ
  pub init : ImuConfig D → S → Bool × S
  pub get_imu_data : S → Option (ImuMsg D)
  pub get_magnetic_data : S → Option (MagneticFieldMsg D)

-- `geometry_msgs/AccelStamped`.
pub record AccelStamped (D : Type 0) : Type 0 where
  pub header : Header
  pub accel : Motion D

-- What the node has published, in order.
pub data ImuOutput (D : Type 0) : Type 0 where
  imu_out : Imu D → ImuOutput D
  accel_out : AccelStamped D → ImuOutput D
  magnetic_out : MagneticField D → ImuOutput D

pub record ImuNode (D : Type 0) : Type 0 where
  pub imu_frame : Text
  pub imu_accel_pub : Option Text
  pub imu_pub : Option Text
  pub imu_magnetic_pub : Option Text
  pub imu_config : ImuConfig D
  pub published : List (ImuOutput D)

-- The name of a parameter of the node's configuration.
abbrev pub config_param : {D : Type 0} → Reads D → Text → Text
config_param r name = r.node_config_namespace ++ text "." ++ r.base_node_name ++ name

module _ {D P S : Type 0} where
  abbrev set_config : (ImuConfig D → ImuConfig D) → Run (Shared P × Host S (ImuNode D)) (Unit {0})
  set_config f = update_members (λ e. record e { imu_config = f e.imu_config })

  -- `publish` is undefined behaviour on a null publisher.
  abbrev publish : Option Text → ImuOutput D → Run (Shared P × Host S (ImuNode D)) (Unit {0})
  publish none out x = fault
  publish (some topic) out x =
      update_members (λ e. record e { published = e.published ++ out ∷ [] }) x

module _ {D P S : Type 0} ⦃params : Params D P⦄ (proc : ImuProcess D S) where
  unfoldable pub load_config : Hook D P (Host S (ImuNode D)) Bool
  load_config r = do
    high ← require_double (config_param r (text ".high_packet_dropped_rate_threshold")) r
    set_config (λ c. record c { high_packet_dropped_rate_threshold = high })
    low ← require_double (config_param r (text ".low_packet_rx_rate_threshold")) r
    set_config (λ c. record c { low_packet_rx_rate_threshold = low })
    imu_name ← require_text (text "sensor") r
    frame ← require_text (text "target_frame") r
    update_members (λ e. record e { imu_frame = frame })
    imu_type ← require_text (text "info.type") r
    set_config (λ c. record c { imu_type = proc.convert_name imu_type })
    device ← declare_text (text "info.device_name") (text "") r
    set_config (λ c. record c { imu_device_name = device })
    linear ← require_doubles (text "linear_accel_covariance_matrix") r
    set_config (λ c. record c { linear_accelerometer_covariance = linear })
    gyro ← require_doubles (text "gyro_covariance_matrix") r
    set_config (λ c. record c { gyro_covariance = gyro })
    magnetic ← require_doubles (text "magnetic_covariance_matrix") r
    set_config (λ c. record c { magnetometer_covariance = magnetic })
    orientation ← require_doubles (text "orientation_covariance_matrix") r
    set_config (λ c. record c { orientation_covariance = orientation })
    agree r

module _ {D P S : Type 0} ⦃params : Params D P⦄ where
  unfoldable pub init_pub_subs : Hook D P (Host S (ImuNode D)) Bool
  init_pub_subs r = do
    imu_topic ← require_text (text "imu_topic") r
    accel_topic ← require_text (text "accel_topic") r
    magnetic_topic ← require_text (text "magnetic_topic") r
    update_members (λ e. record e {
      imu_accel_pub = some (get_namespaced_topic r.robot_namespace accel_topic);
      imu_pub = some (get_namespaced_topic r.robot_namespace imu_topic);
      imu_magnetic_pub = some (get_namespaced_topic r.robot_namespace magnetic_topic);
    })
    agree r

module _ {D P S : Type 0} (proc : ImuProcess D S) where
  unfoldable pub init_data : Hook D P (Host S (ImuNode D)) Bool
  init_data r (s, u) = kick_off_if proc.base (proc.init u.members.imu_config u.process) r (s, u)

module _ {D P S : Type 0} ⦃fl : Doubles D⦄ ⦃rm : RosMath D⦄ (old : List D) where
  -- The two blocks of `runLoop2`, with the data that the process gives; `old` is what stands in an
  -- array of the stack.
  unfoldable pub publish_imu : Option (ImuMsg D) → Run (Shared P × Host S (ImuNode D)) (Unit {0})
  publish_imu none x = ok (tt, x)
  publish_imu (some msg) x =
      with_value (imu_to_ros old msg)
        (λ converted x.
          let imu = record converted {
            header = record converted.header { frame_id = x.1.members.imu_frame };
          } in
          let accel : AccelStamped D = record {
            header = imu.header;
            accel = record { linear = imu.linear_acceleration; angular = no_vector };
          } in
          (publish x.1.members.imu_pub (imu_out imu)
              >> publish x.1.members.imu_accel_pub (accel_out accel))
            x)
        x

  unfoldable pub publish_magnetic :
      Option (MagneticFieldMsg D) → Run (Shared P × Host S (ImuNode D)) (Unit {0})
  publish_magnetic none x = ok (tt, x)
  publish_magnetic (some msg) x =
      with_value (magnetic_to_ros old msg)
        (λ converted x.
          publish x.1.members.imu_magnetic_pub
            (magnetic_out (record converted {
              header = record converted.header { frame_id = x.1.members.imu_frame };
            }))
            x)
        x

module _ {D P S : Type 0} ⦃fl : Doubles D⦄ ⦃rm : RosMath D⦄ (old : List D)
    (proc : ImuProcess D S) where
  unfoldable pub run_loop2 : Hook D P (Host S (ImuNode D)) (Unit {0})
  unfolding publish_imu publish_magnetic
  run_loop2 r (s, u) =
      (publish_imu old (proc.get_imu_data u.process)
          >> publish_magnetic old (proc.get_magnetic_data u.process))
        (s, u)

module _ {D P S : Type 0} ⦃fl : Doubles D⦄ ⦃rm : RosMath D⦄ ⦃params : Params D P⦄ (old : List D)
    (proc : ImuProcess D S) where
  unfoldable pub imu_node : Derived D P (Host S (ImuNode D))
  unfolding load_config init_pub_subs init_data run_loop2
  imu_node = node_around proc.base (record {
    load_config = load_config proc;
    init_pub_subs = init_pub_subs;
    init_services = agree;
    init_data = init_data proc;
    run_loop2 = run_loop2 old proc;
  })
