-- ===== src/BaseNode/Lifecycle/Init.antt =====
-- What `BaseNode::init` leaves behind, and what `main` spins.
use robot_framework_ros.Prelude.{ℕ, ◌≡◌, refl, Bool, true, Option, some, arith}
use robot_framework_ros.Prelude.Run.{ok, ◌and_then◌, and_then-ok}
use robot_framework_ros.Prelude.Text.{Text, text}
use robot_framework_ros.Platform.{CoreLib, Params}
use robot_framework_ros.BaseNode.State.{state_unknown, state_initializing}
use robot_framework_ros.BaseNode.Topic.{load_robot_namespace, load_node_config_namespace}
use robot_framework_ros.BaseNode.Object.{
  Shared, Reads, Now, Node, Hook, Derived, call, call-ok, reads, request_node_state_change,
}
use robot_framework_ros.BaseNode.Lifecycle.{
  level_of, base_load_config, base_init_pub_subs, base_init_services, base_init_diagnostics,
  base_init_data, get_host_name, init,
}

-- Each of the five functions that `init` calls answers true, wherever it is called.
abbrev pub Succeeds : {D P U : Type 0} → Hook D P U Bool → Type 0
Succeeds {D} {P} {U} hook =
    (r : Reads D) (s : Shared P × U) → (s' : Shared P × U) × (hook r s ≡ ok (true, s'))

pub record AllSucceed {D P U : Type 0} (user : Derived D P U) : Type 0 where
  pub load_config : Succeeds user.load_config
  pub init_pub_subs : Succeeds user.init_pub_subs
  pub init_services : Succeeds user.init_services
  pub init_diagnostics : Succeeds user.init_diagnostics
  pub init_data : Succeeds user.init_data

module _ {D P U : Type 0} where
  call-Succeeds :
      (hook : Hook D P U Bool) (now : Now D) (n : Node D P U)
      → Succeeds hook
      → (s : Shared P) × (u : U) × (call hook now n ≡ ok (true, record n { shared = s; user = u }))
  call-Succeeds hook now n h =
      let ((s, u), e) = h (reads now n) (n.shared, n.user) in (s, u, call-ok hook now n e)

  user_stages :
      (user : Derived D P U) (now : Now D) (n : Node D P U)
      → AllSucceed user
      → (s : Shared P) × (u : U) × ((call user.load_config now
              and_then call user.init_pub_subs now
              and_then call user.init_services now
              and_then call user.init_diagnostics now
              and_then call user.init_data now)
            n
          ≡ ok (true, record n { shared = s; user = u }))
  user_stages user now n h =
      let (s1, u1, e1) = call-Succeeds user.load_config now n h.load_config in
      let n1 : Node D P U = record n { shared = s1; user = u1 } in
      let (s2, u2, e2) = call-Succeeds user.init_pub_subs now n1 h.init_pub_subs in
      let n2 : Node D P U = record n { shared = s2; user = u2 } in
      let (s3, u3, e3) = call-Succeeds user.init_services now n2 h.init_services in
      let n3 : Node D P U = record n { shared = s3; user = u3 } in
      let (s4, u4, e4) = call-Succeeds user.init_diagnostics now n3 h.init_diagnostics in
      let n4 : Node D P U = record n { shared = s4; user = u4 } in
      let (s5, u5, e5) = call-Succeeds user.init_data now n4 h.init_data in
      (
        s5,
        u5,
        rw (and_then-ok (call user.load_config now) _ n e1) (
            rw (and_then-ok (call user.init_pub_subs now) _ n1 e2) (
              rw (and_then-ok (call user.init_services now) _ n2 e3)
                (rw (and_then-ok (call user.init_diagnostics now) _ n3 e4) e5))),
      )

module _ {D P U : Type 0} ⦃core : CoreLib⦄ ⦃params : Params D P⦄ where
  pub config_loads :
      (n : Node D P U) (verbosity robot config : Text) (level : ℕ) (p1 p2 p3 : P)
      → params.declare_text n.shared.params (text "verbosity_level") (text "NOTICE")
        ≡ some (verbosity, p1)
      → level_of verbosity ≡ some level
      → core.logger_init level n.node_name ≡ true
      → params.declare_text p1 (text "robot_namespace") (text "") ≡ some (robot, p2)
      → params.declare_text p2 (text "node_namespace") (text "") ≡ some (config, p3)
      → base_load_config n
        ≡ ok (
          true,
          record n {
            robot_namespace = load_robot_namespace robot;
            node_config_namespace = load_node_config_namespace config;
            shared = record n.shared { params = p3 };
          },
        )
  unfolding base_load_config
  config_loads n v r c l p1 p2 p3 d1 known logger d2 d3 = ground arith

  -- From UNKNOWN, with the parameters declared, a verbosity level that is known, a logger that starts
  -- and a derived class whose functions answer true, `init` answers true. It leaves the node
  -- INITIALIZING, with its publishers and services, with the two namespaces that the parameters give,
  -- with its names in its heartbeat, and with its timers as they were.
  pub init_runs :
      (user : Derived D P U) (host : Option Text) (now : Now D) (n : Node D P U)
      → (verbosity robot config : Text) (level : ℕ) (p1 p2 p3 : P) → AllSucceed user
      → n.node_state ≡ state_unknown
      → params.declare_text n.shared.params (text "verbosity_level") (text "NOTICE")
        ≡ some (verbosity, p1)
      → level_of verbosity ≡ some level
      → core.logger_init level n.node_name ≡ true
      → params.declare_text p1 (text "robot_namespace") (text "") ≡ some (robot, p2)
      → params.declare_text p2 (text "node_namespace") (text "") ≡ some (config, p3)
      → (m : Node D P U) × (init user host now n ≡ ok (true, m))
        × (m.node_state ≡ state_initializing)
        × (m.has_publishers ≡ true)
        × (m.has_services ≡ true)
        × (m.robot_namespace ≡ load_robot_namespace robot)
        × (m.node_config_namespace ≡ load_node_config_namespace config)
        × (m.heartbeat ≡ record n.heartbeat {
          hostname = get_host_name host;
          base_nodename = n.base_node_name;
          nodename = n.node_name;
        })
        × (m.timers ≡ n.timers)
  unfolding init request_node_state_change base_load_config base_init_pub_subs base_init_services
      base_init_diagnostics base_init_data
  init_runs user host now n v r c l p1 p2 p3 good s d1 known logger d2 d3 =
      let base : Node D P U = record n {
        node_state = state_initializing;
        has_publishers = true;
        has_services = true;
        robot_namespace = load_robot_namespace r;
        node_config_namespace = load_node_config_namespace c;
        heartbeat = record n.heartbeat {
          hostname = get_host_name host;
          base_nodename = n.base_node_name;
          nodename = n.node_name;
        };
        shared = record n.shared {
          params = p3;
          ready_to_arm = record n.shared.ready_to_arm { nodename = n.node_name };
        };
      } in
      let (shared, u, e) = user_stages user now base good in
      (
        record base { shared = shared; user = u },
        rw
            (
              s,
              and_then-ok base_load_config _ (record n { node_state = state_initializing })
                  (config_loads (record n { node_state = state_initializing }) v r c l p1 p2 p3 d1
                    known logger d2 d3),
            )
            e,
        refl,
        refl,
        refl,
        refl,
        refl,
        refl,
        refl,
      )
