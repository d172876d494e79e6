-- ===== src/BaseNode/Lifecycle.antt =====
-- `BaseNode::baseLoadConfig` and the other stages of `init`, and `init`, `start`, `reset` and `main`
-- (core/BaseNode/BaseNode.cpp). Log lines are left out; they change no state.
pub mod Start
pub mod Reset
pub mod Init
pub mod Spin
use robot_framework_ros.Prelude.{ℕ, Bool, true, false, Option, none, some, if◌then◌else◌}
use robot_framework_ros.Prelude.Run.{
  Result, ok, threw, fault, Run, pure, modify, ◌>>=◌, ◌>>◌, ◌and_then◌, when_true,
}
use robot_framework_ros.Prelude.Text.{Text, text, text_eq}
use robot_framework_ros.Platform.{Doubles, CoreLib, Params}
use robot_framework_ros.BaseNode.State
use robot_framework_ros.BaseNode.Topic.{load_robot_namespace, load_node_config_namespace}
use robot_framework_ros.BaseNode.Object.{
  Timer, null, armed, cancelled, Timers, Shared, Now, Node, Derived, call,
  request_node_state_change,
}

-- `m_timer->cancel()`: undefined behaviour on a null pointer.
abbrev pub cancel : {D : Type 0} → Timer D → Option (Timer D)
cancel null = none
cancel (armed p) = some (cancelled p)
cancel (cancelled p) = some (cancelled p)

abbrev pub reset_timer : {D : Type 0} → Timer D → Option (Timer D)
reset_timer null = none
reset_timer (armed p) = some (armed p)
reset_timer (cancelled p) = some (armed p)

-- `if (m_timer) m_timer->cancel();`
abbrev pub cancel_if_set : {D : Type 0} → Timer D → Timer D
cancel_if_set null = null
cancel_if_set (armed p) = cancelled p
cancel_if_set (cancelled p) = cancelled p

abbrev pub reset_if_set : {D : Type 0} → Timer D → Timer D
reset_if_set null = null
reset_if_set (armed p) = armed p
reset_if_set (cancelled p) = armed p

-- What a timer call makes of the timers, put back into the node; `none` is a fault.
module _ {D P U : Type 0} where
  abbrev pub set_timers : Option (Timers D) → Run (Node D P U) (Unit {0})
  set_timers none n = fault
  set_timers (some t) n = ok (tt, record n { timers = t })

infixl 10 ◌>>?◌
abbrev ◌>>?◌ : {A B : Type 0} → Option A → (A → Option B) → Option B
none >>? f = none
some a >>? f = f a

-- The eight calls in `reset` that stop the timers, and the eight that start them again.
unfoldable pub cancel_all : {D : Type 0} → Timers D → Option (Timers D)
cancel_all t = cancel t.timer100hz >>? λ a. cancel t.timer10hz >>? λ b. cancel t.timer1hz >>? λ c.
    cancel t.timer01hz >>? λ d. cancel t.timer001hz >>? λ e. some (record {
      timer100hz = a;
      timer10hz = b;
      timer1hz = c;
      timer01hz = d;
      timer001hz = e;
      timer_loop1 = cancel_if_set t.timer_loop1;
      timer_loop2 = cancel_if_set t.timer_loop2;
      timer_loop3 = cancel_if_set t.timer_loop3;
    })

unfoldable pub reset_all : {D : Type 0} → Timers D → Option (Timers D)
reset_all t = reset_timer t.timer100hz >>? λ a. reset_timer t.timer10hz >>? λ b.
    reset_timer t.timer1hz >>? λ c. reset_timer t.timer01hz >>? λ d.
    reset_timer t.timer001hz >>? λ e. some (record {
      timer100hz = a;
      timer10hz = b;
      timer1hz = c;
      timer01hz = d;
      timer001hz = e;
      timer_loop1 = reset_if_set t.timer_loop1;
      timer_loop2 = reset_if_set t.timer_loop2;
      timer_loop3 = reset_if_set t.timer_loop3;
    })

module _ {D : Type 0} ⦃fl : Doubles D⦄ where
  unfoldable pub create_timers : Timers D → Timers D
  create_timers t = record t {
    timer100hz = armed (fl.lit 10 3);
    timer10hz = armed (fl.lit 100 3);
    timer1hz = armed (fl.lit 1 0);
    timer01hz = armed (fl.lit 10 0);
    timer001hz = armed (fl.lit 100 0);
  }

-- The ladder in `baseLoadConfig` that reads `verbosity_level`.
module _ ⦃core : CoreLib⦄ where
  unfoldable pub level_of : Text → Option ℕ
  level_of s =
      if text_eq s (text "DEBUG")
      then some core.level_debug
      else if text_eq s (text "INFO")
      then some core.level_info
      else if text_eq s (text "NOTICE")
      then some core.level_notice
      else if text_eq s (text "WARN")
      then some core.level_warn
      else if text_eq s (text "ERROR")
      then some core.level_error
      else if text_eq s (text "FATAL")
      then some core.level_fatal
      else none

-- `getHostName`, of what `gethostname` gives.
unfoldable pub get_host_name : Option Text → Text
get_host_name none = text ""
get_host_name (some name) = name

module _ {D P U : Type 0} ⦃params : Params D P⦄ where
  abbrev set_params : {A : Type 0} → Option (A × P) → Run (Node D P U) A
  set_params none n = threw
  set_params (some (a, p)) n = ok (a, record n { shared = record n.shared { params = p } })

  abbrev pub declare_text : Text → Text → Run (Node D P U) Text
  declare_text name default n = set_params (params.declare_text n.shared.params name default) n

  abbrev pub declare_double : Text → D → Run (Node D P U) D
  declare_double name default n = set_params (params.declare_double n.shared.params name default) n

module _ {D P U : Type 0} ⦃core : CoreLib⦄ ⦃params : Params D P⦄ where
  load_namespaces : Run (Node D P U) Bool
  load_namespaces = do
    robot ← declare_text (text "robot_namespace") (text "")
    modify (λ n. record n { robot_namespace = load_robot_namespace robot })
    config ← declare_text (text "node_namespace") (text "")
    modify (λ n. record n { node_config_namespace = load_node_config_namespace config })
    pure true

  start_logger : Option ℕ → Run (Node D P U) Bool
  start_logger none n = ok (false, n)
  start_logger (some level) n =
      if core.logger_init level n.node_name then load_namespaces n else ok (false, n)

  unfoldable pub base_load_config : Run (Node D P U) Bool
  unfolding load_namespaces start_logger level_of
  base_load_config = do
    verbosity ← declare_text (text "verbosity_level") (text "NOTICE")
    start_logger (level_of verbosity)

module _ {D P U : Type 0} where
  unfoldable pub base_init_pub_subs : Run (Node D P U) Bool
  base_init_pub_subs = do modify (λ n. record n { has_publishers = true }); pure true

  unfoldable pub base_init_services : Run (Node D P U) Bool
  base_init_services = do modify (λ n. record n { has_services = true }); pure true

  unfoldable pub base_init_diagnostics : Run (Node D P U) Bool
  base_init_diagnostics = pure true

  -- `host` is what `gethostname` gives.
  unfoldable pub base_init_data : Option Text → Run (Node D P U) Bool
  base_init_data host = do
    modify (λ n. record n {
      heartbeat = record n.heartbeat {
        hostname = get_host_name host;
        base_nodename = n.base_node_name;
        nodename = n.node_name;
      };
      shared = record n.shared {
        ready_to_arm = record n.shared.ready_to_arm { nodename = n.node_name };
      };
    })
    pure true

module _ {D P U : Type 0} ⦃core : CoreLib⦄ ⦃params : Params D P⦄ where
  -- The ten stages of `init`, behind its state change.
  init_stages : Derived D P U → Option Text → Now D → Run (Node D P U) Bool
  init_stages user host now =
      base_load_config
      and_then base_init_pub_subs
      and_then base_init_services
      and_then base_init_diagnostics
      and_then base_init_data host
      and_then call user.load_config now
      and_then call user.init_pub_subs now
      and_then call user.init_services now
      and_then call user.init_diagnostics now
      and_then call user.init_data now

  unfoldable pub init : Derived D P U → Option Text → Now D → Run (Node D P U) Bool
  unfolding init_stages
  init user host now =
      request_node_state_change State.state_initializing false and_then init_stages user host now

module _ {D : Type 0} ⦃fl : Doubles D⦄ where
  -- The timers with that of a user loop, which is made if the rate is positive.
  unfoldable pub loop_timers :
      {P : Type 0} → Params D P → D → (Timer D → Timers D → Timers D) → Timers D → Option (Timers D)
  loop_timers params rate put t =
      if fl.le rate (fl.lit 0 0)
      then some t
      else if params.takes_period (fl.div (fl.lit 1 0) rate)
      then some (put (armed (fl.div (fl.lit 1 0) rate)) t)
      else none

module _ {D P U : Type 0} ⦃fl : Doubles D⦄ ⦃params : Params D P⦄ where
  abbrev keep_timers : Option (Timers D) → Run (Node D P U) (Unit {0})
  keep_timers none n = threw
  keep_timers (some t) n = ok (tt, record n { timers = t })

  abbrev arm_loop : D → (Timer D → Timers D → Timers D) → Run (Node D P U) (Unit {0})
  arm_loop rate put n = keep_timers (loop_timers params rate put n.timers) n

  unfoldable pub start_loops : Run (Node D P U) Bool
  unfolding loop_timers
  start_loops = do
    rate1 ← declare_double (text "loop1_rate") (fl.neg (fl.lit 1 0))
    modify (λ n. record n { loop1_rate = rate1 })
    arm_loop rate1 (λ made t. record t { timer_loop1 = made })
    rate2 ← declare_double (text "loop2_rate") (fl.neg (fl.lit 1 0))
    modify (λ n. record n { loop2_rate = rate2 })
    arm_loop rate2 (λ made t. record t { timer_loop2 = made })
    rate3 ← declare_double (text "loop3_rate") (fl.neg (fl.lit 1 0))
    modify (λ n. record n { loop3_rate = if fl.le rate3 (fl.lit 0 0) then n.loop3_rate else rate3 })
    arm_loop rate3 (λ made t. record t { timer_loop3 = made })
    request_node_state_change State.state_running false

  unfoldable pub start : Run (Node D P U) Bool
  unfolding start_loops
  start =
      request_node_state_change State.state_starting false
      and_then (modify (λ n. record n { timers = create_timers n.timers }) >> start_loops)

module _ {D P U : Type 0} where
  restart_timers : Run (Node D P U) Bool
  restart_timers n = (set_timers (reset_all n.timers) >> pure true) n

  reinitialize : Derived D P U → Now D → Run (Node D P U) Bool
  unfolding restart_timers
  reinitialize user now =
      call user.init_diagnostics now
      and_then call user.init_data now
      and_then request_node_state_change State.state_running false
      and_then restart_timers

  stop_timers : Run (Node D P U) (Unit {0})
  stop_timers n = set_timers (cancel_all n.timers) n

  unfoldable pub reset : Derived D P U → Now D → Run (Node D P U) Bool
  unfolding reinitialize stop_timers
  reset user now =
      request_node_state_change State.state_starting false
      and_then (stop_timers >> reinitialize user now)

-- `main`, up to `rclcpp::spin`: it returns 1, it spins the node, or it ends by an exception or a fault.
pub data Outcome (D P U : Type 0) : Type 0 where
  exits : ℕ → Outcome D P U
  spins : Node D P U → Outcome D P U
  dies : Outcome D P U

module _ {D P U : Type 0} where
  abbrev spun : Result (Bool × Node D P U) → Outcome D P U
  spun (ok (true, n)) = spins n
  spun (ok (false, n)) = exits 1
  spun threw = dies
  spun fault = dies

  abbrev started : Result (Bool × Node D P U) → Run (Node D P U) Bool → Outcome D P U
  started (ok (true, n)) next = spun (next n)
  started (ok (false, n)) next = exits 1
  started threw next = dies
  started fault next = dies

module _ {D P U : Type 0} ⦃fl : Doubles D⦄ ⦃core : CoreLib⦄ ⦃params : Params D P⦄ where
  unfoldable pub main : Derived D P U → Option Text → Now D → Node D P U → Outcome D P U
  main user host now n = started (init user host now n) start
