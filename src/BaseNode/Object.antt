-- ===== src/BaseNode/Object.antt =====
-- The data members of `BaseNode` (include/robot_framework_ros2/BaseNode.hpp), its constructor and its
-- setters, and how it calls the member functions that a derived class overrides.
use robot_framework_ros.Prelude.{◌≡◌, ℕ, Bool, true, false, List, []}
use robot_framework_ros.Prelude.Run.{ok, threw, fault, Run}
use robot_framework_ros.Prelude.Text.{Text, text}
use robot_framework_ros.Platform.{Doubles, CoreLib}
use robot_framework_ros.Messages.{
  Stamp, Heartbeat, Diagnostic, ReadyToArm, DiagnosticMsg, ReadyToArmStatusMsg, no_heartbeat,
  no_ready_to_arm,
}
use robot_framework_ros.BaseNode.State
use robot_framework_ros.BaseNode.State.{request_state_change}

-- A `TimerBase::SharedPtr`: null, or a timer with its period in seconds that runs or is cancelled.
pub data Timer (D : Type 0) : Type 0 where
  null : Timer D
  armed : D → Timer D
  cancelled : D → Timer D

pub record Timers (D : Type 0) : Type 0 where
  pub timer100hz : Timer D
  pub timer10hz : Timer D
  pub timer1hz : Timer D
  pub timer01hz : Timer D
  pub timer001hz : Timer D
  pub timer_loop1 : Timer D
  pub timer_loop2 : Timer D
  pub timer_loop3 : Timer D

-- `m_loop100HzOk` and its like.
pub record LoopsOk : Type 0 where
  pub loop100hz : Bool
  pub loop10hz : Bool
  pub loop1hz : Bool
  pub loop01hz : Bool
  pub loop001hz : Bool
  pub loop1 : Bool
  pub loop2 : Bool
  pub loop3 : Bool

-- What a node hands to its publishers and to the diagnostic log, in order.
pub data Output : Type 0 where
  heartbeat_out : Heartbeat → Output
  diagnostic_out : Diagnostic → Output
  ready_to_arm_out : ReadyToArm → Output
  diagnostic_log : DiagnosticMsg → Output

-- The members that a derived class changes, through `setDiagnostics`, `setReadyToArm` and
-- `declare_parameter`. The others are private to `BaseNode`.
pub record Shared (P : Type 0) : Type 0 where
  pub system_id : ℕ
  pub subsystem_id : ℕ
  pub process_id : ℕ
  pub ready_to_arm : ReadyToArm
  pub diagnostics : List DiagnosticMsg
  pub params : P

-- What a derived class reads: the getters, `get_name()`, and the clock's time in seconds.
pub record Reads (D : Type 0) : Type 0 where
  pub base_node_name : Text
  pub node_name : Text
  pub robot_namespace : Text
  pub node_config_namespace : Text
  pub seconds : D

-- The clock, read once for each call into the node.
pub record Now (D : Type 0) : Type 0 where
  pub stamp : Stamp
  pub seconds : D

pub record Node (D P U : Type 0) : Type 0 where
  pub base_node_name : Text
  pub node_name : Text
  pub node_state : ℕ
  pub heartbeat : Heartbeat
  pub loops : LoopsOk
  pub timers : Timers D
  pub loop1_rate : D
  pub loop2_rate : D
  pub loop3_rate : D
  pub robot_namespace : Text
  pub node_config_namespace : Text
  pub timing_diagnostic : DiagnosticMsg
  pub has_publishers : Bool
  pub has_services : Bool
  pub outputs : List Output
  pub shared : Shared P
  pub user : U

-- A member function of the derived class, over the shared members and its own.
abbrev pub Hook : Type 0 → Type 0 → Type 0 → Type 0 → Type 0
Hook D P U A = Reads D → Run (Shared P × U) A

pub record Derived (D P U : Type 0) : Type 0 where
  pub load_config : Hook D P U Bool
  pub init_pub_subs : Hook D P U Bool
  pub init_services : Hook D P U Bool
  pub init_diagnostics : Hook D P U Bool
  pub init_data : Hook D P U Bool
  pub run100hz : Hook D P U (Unit {0})
  pub run10hz : Hook D P U (Unit {0})
  pub run1hz : Hook D P U (Unit {0})
  pub run01hz : Hook D P U (Unit {0})
  pub run001hz : Hook D P U (Unit {0})
  pub run_loop1 : Hook D P U (Unit {0})
  pub run_loop2 : Hook D P U (Unit {0})
  pub run_loop3 : Hook D P U (Unit {0})

module _ {D P U : Type 0} where
  abbrev pub reads : Now D → Node D P U → Reads D
  reads now n = record {
    base_node_name = n.base_node_name;
    node_name = n.node_name;
    robot_namespace = n.robot_namespace;
    node_config_namespace = n.node_config_namespace;
    seconds = now.seconds;
  }

module _ {D P U A : Type 0} where
  -- A call of a virtual function.
  abbrev pub call : Hook D P U A → Now D → Run (Node D P U) A
  call hook now n = elim (hook (reads now n) (n.shared, n.user)) [
    | ok (a, (s, u)) ↦ ok (a, record n { shared = s; user = u })
    | threw ↦ threw
    | fault ↦ fault
  ]

module _ {D P U A : Type 0} where
  pub call-ok :
      (hook : Hook D P U A) (now : Now D) (n : Node D P U) {a : A} {s : Shared P} {u : U}
      → hook (reads now n) (n.shared, n.user) ≡ ok (a, (s, u))
      → call hook now n ≡ ok (a, record n { shared = s; user = u })
  call-ok hook now n e = rw (e, call)

  pub call-threw :
      (hook : Hook D P U A) (now : Now D) (n : Node D P U)
      → hook (reads now n) (n.shared, n.user) ≡ threw
      → call hook now n ≡ threw
  call-threw hook now n e = rw (e, call)

  pub call-fault :
      (hook : Hook D P U A) (now : Now D) (n : Node D P U)
      → hook (reads now n) (n.shared, n.user) ≡ fault
      → call hook now n ≡ fault
  call-fault hook now n e = rw (e, call)

module _ {P : Type 0} where
  unfoldable pub set_diagnostics : List DiagnosticMsg → Shared P → Shared P
  set_diagnostics ds s = record s { diagnostics = ds }

  unfoldable pub set_ready_to_arm : ReadyToArmStatusMsg → Shared P → Shared P
  set_ready_to_arm r s = record s {
    system_id = r.system_id;
    subsystem_id = r.subsystem_id;
    process_id = r.process_id;
    ready_to_arm = record s.ready_to_arm {
      system_id = r.system_id;
      subsystem_id = r.subsystem_id;
      process_id = r.process_id;
      ready_to_arm = r.ready_to_arm;
    };
  }

module _ {D P U : Type 0} where
  unfoldable pub request_node_state_change : ℕ → Bool → Run (Node D P U) Bool
  unfolding request_state_change
  request_node_state_change new override n =
      let (granted, state) = request_state_change n.node_state new override in
      ok (granted, record n { node_state = state })

abbrev pub no_timers : {D : Type 0} → Timers D
no_timers = record {
  timer100hz = null;
  timer10hz = null;
  timer1hz = null;
  timer01hz = null;
  timer001hz = null;
  timer_loop1 = null;
  timer_loop2 = null;
  timer_loop3 = null;
}

abbrev pub all_ok : LoopsOk
all_ok = record {
  loop100hz = true;
  loop10hz = true;
  loop1hz = true;
  loop01hz = true;
  loop001hz = true;
  loop1 = true;
  loop2 = true;
  loop3 = true;
}

module _ {D P U : Type 0} ⦃fl : Doubles D⦄ ⦃core : CoreLib⦄ where
  -- The constructor, with the name that rclcpp gives the node, its parameters, and the members of the
  -- derived class.
  abbrev pub construct : Text → Text → P → U → Node D P U
  construct base_node_name node_name params user = record {
    base_node_name = base_node_name;
    node_name = node_name;
    node_state = State.state_unknown;
    heartbeat = no_heartbeat;
    loops = all_ok;
    timers = no_timers;
    loop1_rate = fl.neg (fl.lit 1 0);
    loop2_rate = fl.neg (fl.lit 1 0);
    loop3_rate = fl.neg (fl.lit 1 0);
    robot_namespace = [];
    node_config_namespace = [];
    timing_diagnostic = record {
      system_id = 0;
      subsystem_id = 0;
      process_id = 0;
      diagnostic_type = core.type_timing;
      level = core.level_info;
      diagnostic_message = core.message_initializing;
      description = text "Initializing Diagnostic";
    };
    has_publishers = false;
    has_services = false;
    outputs = [];
    shared = record {
      system_id = 0;
      subsystem_id = 0;
      process_id = 0;
      ready_to_arm = no_ready_to_arm;
      diagnostics = [];
      params = params;
    };
    user = user;
  }
