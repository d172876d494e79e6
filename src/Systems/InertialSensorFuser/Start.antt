-- ===== src/Systems/InertialSensorFuser/Start.antt =====
-- How the fuser of inertial sensors starts.
use robot_framework_ros.Prelude.{◌≡◌, true, Option, some, [], ◌∷◌, ◌++◌, arith}
use robot_framework_ros.Prelude.Run.{ok}
use robot_framework_ros.Prelude.Text.{Text, text}
use robot_framework_ros.Platform.{Doubles, CoreLib, Params}
use robot_framework_ros.BaseNode.State.{state_unknown, state_running}
use robot_framework_ros.BaseNode.Topic.{get_namespaced_topic, load_robot_namespace}
use robot_framework_ros.BaseNode.Object.{Shared, Reads, Now, Node, no_timers, set_ready_to_arm}
use robot_framework_ros.BaseNode.Lifecycle.{main, spins}
use robot_framework_ros.BaseNode.Lifecycle.Start.{AllArmed}
use robot_framework_ros.Systems.Host.{Host}
use robot_framework_ros.Systems.Host.Kickoff.{BaseConfig, LoopRates, user_init, main_runs}
use robot_framework_ros.Systems.InertialSensorFuser.{
  InertialSensorFuserProcess, InertialSensorFuser, init_pub_subs, init_data, inertial_sensor_fuser,
}

-- The two topics, declared from `p` on.
pub record FuserTopics {D P : Type 0} (params : Params D P) (p : P) : Type 0 where
  pub input : Text
  pub fused : Text
  pub p1 : P
  pub p2 : P
  pub input_given : params.require_text p (text "imu1_input_topic") ≡ some (input, p1)
  pub fused_given : params.require_text p1 (text "fused_imu_output_topic") ≡ some (fused, p2)

module _ {D P : Type 0} ⦃params : Params D P⦄ where
  -- The subscription and the publisher in the namespace.
  abbrev pub fuser_members :
      {p : P} → Text → FuserTopics params p → InertialSensorFuser D → InertialSensorFuser D
  fuser_members ns t e = record e {
    imu_subs = e.imu_subs ++ get_namespaced_topic ns t.input ∷ [];
    fused_imu_pub = some (get_namespaced_topic ns t.fused);
  }

module _ {D P S : Type 0} ⦃params : Params D P⦄ (proc : InertialSensorFuserProcess D S) where
  fuser_starts :
      (r : Reads D) (s : Shared P) (u : Host S (InertialSensorFuser D))
      → (t : FuserTopics params s.params)
      → let q = proc.base.update r.seconds (proc.init 1 u.process).1 in
        user_init (inertial_sensor_fuser proc) r (s, u)
        ≡ ok (
          true,
          (
            set_ready_to_arm (proc.base.get_ready_to_arm q) (record s { params = t.p2 }),
            record { process = q; members = fuser_members r.robot_namespace t u.members },
          ),
        )
  unfolding inertial_sensor_fuser init_pub_subs init_data
  fuser_starts r s u t = ground (arith, t.input_given, t.fused_given)

module _ {D P S : Type 0} ⦃fl : Doubles D⦄ ⦃core : CoreLib⦄ ⦃params : Params D P⦄
    (proc : InertialSensorFuserProcess D S) (host : Option Text) (now : Now D)
    (n : Node D P (Host S (InertialSensorFuser D))) where
  -- A new fuser of inertial sensors with its parameters given, among them rates of its user loops whose
  -- periods rclcpp takes, is spun, RUNNING and with its timers running, whatever its process answers
  -- to `init`. It has its subscription and its publisher in the robot's namespace, and its process has
  -- been updated once, with the time of the start.
  pub fuser_main :
      (c : BaseConfig params n.shared.params n.node_name) (t : FuserTopics params c.p3)
      → LoopRates params t.p2
      → n.node_state ≡ state_unknown
      → n.timers ≡ no_timers
      → (m : Node D P (Host S (InertialSensorFuser D))) × (main
            (inertial_sensor_fuser proc)
            host
            now
            n
          ≡ spins m)
        × (m.node_state ≡ state_running)
        × AllArmed m.timers
        × (m.user ≡ record {
          process = proc.base.update now.seconds (proc.init 1 n.user.process).1;
          members = fuser_members (load_robot_namespace c.robot) t n.user.members;
        })
  unfolding set_ready_to_arm
  fuser_main c t rates unknown fresh =
      main_runs (inertial_sensor_fuser proc) host now n _ _ c unknown fresh
        (fuser_starts proc _ _ _ t) rates
