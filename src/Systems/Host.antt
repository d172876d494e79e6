-- ===== src/Systems/Host.antt =====
-- What the nodes of Systems/ have in common: a process of the core library among their members, which
-- `runLoop1` updates and whose ready status and diagnostics `run10Hz` and `run1Hz` hand to `BaseNode`.
-- The log lines of `run01Hz` are left out; they change no state.
pub mod Follow
pub mod Seen
pub mod Kickoff
use robot_framework_ros.Prelude.{Bool, true, false, Option, none, some, List, [], ◌∷◌, ◌++◌}
use robot_framework_ros.Prelude.Run.{ok, threw, fault, Run}
use robot_framework_ros.Prelude.Text.{Text}
use robot_framework_ros.Platform.{Params}
use robot_framework_ros.Messages.{DiagnosticMsg, ReadyToArmStatusMsg}
use robot_framework_ros.BaseNode.Object.{
  Shared, Reads, Hook, Derived, set_diagnostics, set_ready_to_arm,
}

-- What every process of the core library offers, over its states `S`.
pub record Process (D S : Type 0) : Type 0 where
  pub update : D → S → S
  pub get_ready_to_arm : S → ReadyToArmStatusMsg
  pub get_diagnostics : S → List DiagnosticMsg

-- The members of a node: its process and the others.
pub record Host (S E : Type 0) : Type 0 where
  pub process : S
  pub members : E

module _ {P U : Type 0} where
  -- A function that has nothing to do, and one that only answers true.
  abbrev pub idle : {D : Type 0} → Hook D P U (Unit {0})
  idle r x = ok (tt, x)

  abbrev pub agree : {D : Type 0} → Hook D P U Bool
  agree r x = ok (true, x)

module _ {P S E : Type 0} where
  abbrev pub update_members : (E → E) → Run (Shared P × Host S E) (Unit {0})
  update_members f (s, u) = ok (tt, (s, record u { members = f u.members }))

module _ {P U A : Type 0} where
  abbrev put_params : Option (A × P) → Run (Shared P × U) A
  put_params none x = threw
  put_params (some (a, p)) (s, u) = ok (a, (record s { params = p }, u))

module _ {D P U : Type 0} ⦃params : Params D P⦄ where
  -- `declare_parameter` of a derived class.
  abbrev pub require_text : Text → Hook D P U Text
  require_text name r (s, u) = put_params (params.require_text s.params name) (s, u)

  abbrev pub require_double : Text → Hook D P U D
  require_double name r (s, u) = put_params (params.require_double s.params name) (s, u)

  abbrev pub require_texts : Text → Hook D P U (List Text)
  require_texts name r (s, u) = put_params (params.require_texts s.params name) (s, u)

  abbrev pub require_doubles : Text → Hook D P U (List D)
  require_doubles name r (s, u) = put_params (params.require_doubles s.params name) (s, u)

  abbrev pub declare_text : Text → Text → Hook D P U Text
  declare_text name default r (s, u) = put_params (params.declare_text s.params name default) (s, u)

module _ {D P S E : Type 0} (proc : Process D S) where
  -- `run10Hz`, `run1Hz` and `runLoop1`.
  abbrev pub report_ready : Hook D P (Host S E) (Unit {0})
  report_ready r (s, u) = ok (tt, (set_ready_to_arm (proc.get_ready_to_arm u.process) s, u))

  abbrev pub report_diagnostics : Hook D P (Host S E) (Unit {0})
  report_diagnostics r (s, u) = ok (tt, (set_diagnostics (proc.get_diagnostics u.process) s, u))

  abbrev pub update_process : Hook D P (Host S E) (Unit {0})
  update_process r (s, u) = ok (tt, (s, record u { process = proc.update r.seconds u.process }))

  -- The end of `initData`: the first update, and the ready status.
  abbrev pub kick_off : Hook D P (Host S E) Bool
  kick_off r (s, u) =
      let p = proc.update r.seconds u.process in
      ok (true, (set_ready_to_arm (proc.get_ready_to_arm p) s, record u { process = p }))

  -- `initData` of most nodes: `init` of the process, and `kick_off` if it answers true.
  abbrev pub kick_off_if : Bool × S → Hook D P (Host S E) Bool
  kick_off_if (true, p) r (s, u) = kick_off r (s, record u { process = p })
  kick_off_if (false, p) r (s, u) = ok (false, (s, record u { process = p }))

-- The functions in which the nodes differ.
pub record Stages (D P U : Type 0) : Type 0 where
  pub load_config : Hook D P U Bool
  pub init_pub_subs : Hook D P U Bool
  pub init_services : Hook D P U Bool
  pub init_data : Hook D P U Bool
  pub run_loop2 : Hook D P U (Unit {0})

module _ {D P S E : Type 0} (proc : Process D S) where
  -- A node of Systems/: the other functions are the same in all of them.
  abbrev pub node_around : Stages D P (Host S E) → Derived D P (Host S E)
  node_around stages = record {
    load_config = stages.load_config;
    init_pub_subs = stages.init_pub_subs;
    init_services = stages.init_services;
    init_diagnostics = agree;
    init_data = stages.init_data;
    run100hz = idle;
    run10hz = report_ready proc;
    run1hz = report_diagnostics proc;
    run01hz = idle;
    run001hz = idle;
    run_loop1 = update_process proc;
    run_loop2 = stages.run_loop2;
    run_loop3 = idle;
  }
