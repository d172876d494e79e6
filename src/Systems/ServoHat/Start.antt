-- ===== src/Systems/ServoHat/Start.antt =====
-- How the servo hat's node starts.
use robot_framework_ros.Prelude.{◌≡◌, refl, Bool, true, false, Option, some, arith}
use robot_framework_ros.Prelude.Run.{ok}
use robot_framework_ros.Prelude.Text.{Text, text}
use robot_framework_ros.Platform.{Doubles, CoreLib, Params}
use robot_framework_ros.BaseNode.State.{state_unknown, state_running}
use robot_framework_ros.BaseNode.Topic.{get_namespaced_topic, load_robot_namespace}
use robot_framework_ros.BaseNode.Object.{Shared, Reads, Now, Node, no_timers, set_ready_to_arm}
use robot_framework_ros.BaseNode.Lifecycle.{main, spins, exits}
use robot_framework_ros.BaseNode.Lifecycle.Start.{AllArmed}
use robot_framework_ros.Systems.Host.{Host}
use robot_framework_ros.Systems.Host.Kickoff.{
  BaseConfig, LoopRates, user_init, main_runs, main_gives_up,
}
use robot_framework_ros.Systems.ServoHat.{
  ServoHatDriverProcess, ServoHat, init_pub_subs, init_data, servo_hat,
}

-- The three topics, declared from `p` on.
pub record ServoTopics {D P : Type 0} (params : Params D P) (p : P) : Type 0 where
  pub arm : Text
  pub left : Text
  pub right : Text
  pub p1 : P
  pub p2 : P
  pub p3 : P
  pub arm_given : params.require_text p (text "topic_arm_command") ≡ some (arm, p1)
  pub left_given : params.require_text p1 (text "topic_left_drive") ≡ some (left, p2)
  pub right_given : params.require_text p2 (text "topic_right_drive") ≡ some (right, p3)

module _ {D P : Type 0} ⦃params : Params D P⦄ where
  -- The subscriptions in the namespace.
  abbrev pub subscribed : {p : P} → Text → ServoTopics params p → ServoHat
  subscribed ns t = record {
    arm_command_sub = some (get_namespaced_topic ns t.arm);
    left_drive_sub = some (get_namespaced_topic ns t.left);
    right_drive_sub = some (get_namespaced_topic ns t.right);
  }

module _ {D P S : Type 0} ⦃params : Params D P⦄ (proc : ServoHatDriverProcess D S) where
  servo_hat_starts :
      (r : Reads D) (s : Shared P) (u : Host S ServoHat) (t : ServoTopics params s.params) (p : S)
      → proc.init u.process ≡ (true, p)
      → let q = proc.base.update r.seconds p in
        user_init (servo_hat proc) r (s, u)
        ≡ ok (
          true,
          (
            set_ready_to_arm (proc.base.get_ready_to_arm q) (record s { params = t.p3 }),
            record { process = q; members = subscribed r.robot_namespace t },
          ),
        )
  unfolding servo_hat init_pub_subs init_data
  servo_hat_starts r s u t p e = ground (arith, t.arm_given, t.left_given, t.right_given, e)

  servo_hat_refuses :
      (r : Reads D) (s : Shared P) (u : Host S ServoHat) (t : ServoTopics params s.params) (p : S)
      → proc.init u.process ≡ (false, p)
      → user_init (servo_hat proc) r (s, u)
        ≡ ok (
          false,
          (
            record s { params = t.p3 },
            record { process = p; members = subscribed r.robot_namespace t },
          ),
        )
  unfolding servo_hat init_pub_subs init_data
  servo_hat_refuses r s u t p e = ground (arith, t.arm_given, t.left_given, t.right_given, e)

module _ {D P S : Type 0} ⦃fl : Doubles D⦄ ⦃core : CoreLib⦄ ⦃params : Params D P⦄
    (proc : ServoHatDriverProcess D S) (host : Option Text) (now : Now D)
    (n : Node D P (Host S ServoHat)) where
  -- What `main` does after the process has answered to `init`: the members of the node that it spins.
  abbrev pub IsStarted : ServoHat → Bool × S → Type 0
  IsStarted members (true, p) =
      (m : Node D P (Host S ServoHat)) × (main (servo_hat proc) host now n ≡ spins m)
      × (m.node_state ≡ state_running)
      × AllArmed m.timers
      × (m.user ≡ record { process = proc.base.update now.seconds p; members = members })
  IsStarted members (false, p) = main (servo_hat proc) host now n ≡ exits 1

  -- A new servo hat node with its parameters given, among them rates of its user loops whose periods
  -- rclcpp takes, is spun, RUNNING and with its timers running, if its process initializes: it then
  -- has its three subscriptions in the robot's namespace, and its process is initialized and updated
  -- once, with the time of the start. If its process does not initialize, `main` returns 1.
  pub servo_hat_main :
      (c : BaseConfig params n.shared.params n.node_name) (t : ServoTopics params c.p3)
      → LoopRates params t.p3
      → n.node_state ≡ state_unknown
      → n.timers ≡ no_timers
      → IsStarted (subscribed (load_robot_namespace c.robot) t) (proc.init n.user.process)
  unfolding set_ready_to_arm
  servo_hat_main c t rates unknown fresh = go (proc.init n.user.process) refl
    where
      go :
          (b : Bool × S)
          → proc.init n.user.process ≡ b
          → IsStarted (subscribed (load_robot_namespace c.robot) t) b
      go (true, p) e =
          main_runs (servo_hat proc) host now n _ _ c unknown fresh
            (servo_hat_starts proc _ _ _ t p e) rates
      go (false, p) e =
          main_gives_up (servo_hat proc) host now n _ _ c unknown
            (servo_hat_refuses proc _ _ _ t p e)
