-- ===== src/Systems/Host/Kickoff.antt =====
-- `main` of a derived class whose five functions have a known outcome together.
use robot_framework_ros.Prelude.{ℕ, ◌≡◌, refl, ◌∙◌, Bool, true, false, Option, some, arith}
use robot_framework_ros.Prelude.Run.{Result, ok, threw, fault, Run, ◌and_then◌, and_then-ok, ◌>>=◌}
use robot_framework_ros.Prelude.Text.{Text, text}
use robot_framework_ros.Platform.{Doubles, CoreLib, Params}
use robot_framework_ros.BaseNode.State.{state_unknown, state_initializing, state_running}
use robot_framework_ros.BaseNode.Topic.{load_robot_namespace, load_node_config_namespace}
use robot_framework_ros.BaseNode.Object.{
  Shared, Now, Node, Hook, Derived, call, call-ok, call-threw, reads, no_timers,
  request_node_state_change,
}
use robot_framework_ros.BaseNode.Lifecycle.{
  level_of, base_load_config, base_init_pub_subs, base_init_services, base_init_diagnostics,
  base_init_data, get_host_name, init, start, start_loops, loop_timers, main, spins, exits, dies,
  create_timers,
}
use robot_framework_ros.BaseNode.Lifecycle.Init.{config_loads}
use robot_framework_ros.BaseNode.Lifecycle.Start.{AllArmed, Starts, are_possible, start_runs}

-- The parameters that `baseLoadConfig` declares, from `p` on, for the node of that name.
pub record BaseConfig {D P : Type 0} ⦃core : CoreLib⦄ (params : Params D P) (p : P)
    (node_name : Text) : Type 0 where
  pub verbosity : Text
  pub robot : Text
  pub config : Text
  pub level : ℕ
  pub p1 : P
  pub p2 : P
  pub p3 : P
  pub verbosity_given :
      params.declare_text p (text "verbosity_level") (text "NOTICE") ≡ some (verbosity, p1)
  pub level_known : level_of verbosity ≡ some level
  pub logger_starts : core.logger_init level node_name ≡ true
  pub robot_given : params.declare_text p1 (text "robot_namespace") (text "") ≡ some (robot, p2)
  pub config_given : params.declare_text p2 (text "node_namespace") (text "") ≡ some (config, p3)

-- The rates that `start` declares, from `p` on. rclcpp takes the periods of the timers for them.
pub record LoopRates {D P : Type 0} ⦃fl : Doubles D⦄ (params : Params D P) (p : P) : Type 0 where
  pub rate1 : D
  pub rate2 : D
  pub rate3 : D
  pub p1 : P
  pub p2 : P
  pub p3 : P
  pub rate1_given :
      params.declare_double p (text "loop1_rate") (fl.neg (fl.lit 1 0)) ≡ some (rate1, p1)
  pub rate2_given :
      params.declare_double p1 (text "loop2_rate") (fl.neg (fl.lit 1 0)) ≡ some (rate2, p2)
  pub rate3_given :
      params.declare_double p2 (text "loop3_rate") (fl.neg (fl.lit 1 0)) ≡ some (rate3, p3)
  pub possible : are_possible params rate1 rate2 rate3 ≡ true

module _ {D P U : Type 0} where
  infixr 8 ◌and_call◌
  abbrev ◌and_call◌ : Hook D P U Bool → Hook D P U Bool → Hook D P U Bool
  (h and_call k) r = h r and_then k r

  -- The five functions of a derived class, as `init` calls them.
  abbrev pub user_init : Derived D P U → Hook D P U Bool
  user_init user =
      user.load_config and_call user.init_pub_subs and_call user.init_services
      and_call user.init_diagnostics and_call user.init_data

  call-and_then :
      (h k : Hook D P U Bool) (rest : Run (Node D P U) Bool) (now : Now D)
      → ((m : Node D P U) → rest m ≡ call k now m)
      → (n : Node D P U) → (call h now and_then rest) n ≡ call (h and_call k) now n
  call-and_then h k rest now same n = go (h (reads now n) (n.shared, n.user)) refl
    where
      go :
          (r : Result (Bool × (Shared P × U)))
          → h (reads now n) (n.shared, n.user) ≡ r
          → (call h now and_then rest) n ≡ call (h and_call k) now n
      go (ok (true, (s, u))) e =
          rw (e, call, ◌and_then◌, ◌>>=◌) (same (record n { shared = s; user = u }))
      go (ok (false, (s, u))) e = rw (e, call, ◌and_then◌, ◌>>=◌)
      go threw e = rw (e, call, ◌and_then◌, ◌>>=◌)
      go fault e = rw (e, call, ◌and_then◌, ◌>>=◌)

  calls-user_init :
      (user : Derived D P U) (now : Now D) (n : Node D P U)
      → (call user.load_config now
            and_then call user.init_pub_subs now
            and_then call user.init_services now
            and_then call user.init_diagnostics now
            and_then call user.init_data now)
          n
        ≡ call (user_init user) now n
  calls-user_init user now n =
      let k3 = user.init_diagnostics and_call user.init_data in
      let k2 = user.init_services and_call k3 in
      let k1 = user.init_pub_subs and_call k2 in
      call-and_then user.load_config k1 _ now
        (call-and_then user.init_pub_subs k2 _ now (
          call-and_then user.init_services k3 _ now (
            call-and_then user.init_diagnostics user.init_data (call user.init_data now) now
              (λ m. refl))))
        n

module _ {D P U : Type 0} ⦃core : CoreLib⦄ ⦃params : Params D P⦄ where
  -- The node behind the five functions of `BaseNode`.
  abbrev pub base_loaded :
      Option Text → (n : Node D P U) → BaseConfig params n.shared.params n.node_name → Node D P U
  base_loaded host n c = record n {
    node_state = state_initializing;
    has_publishers = true;
    has_services = true;
    robot_namespace = load_robot_namespace c.robot;
    node_config_namespace = load_node_config_namespace c.config;
    heartbeat = record n.heartbeat {
      hostname = get_host_name host;
      base_nodename = n.base_node_name;
      nodename = n.node_name;
    };
    shared = record n.shared {
      params = c.p3;
      ready_to_arm = record n.shared.ready_to_arm { nodename = n.node_name };
    };
  }

  init_answers :
      (user : Derived D P U) (host : Option Text) (now : Now D) (n : Node D P U) (b : Bool)
      → (s : Shared P) (u : U) (c : BaseConfig params n.shared.params n.node_name)
      → n.node_state ≡ state_unknown
      → (let base = base_loaded host n c in
          user_init user (reads now base) (base.shared, base.user) ≡ ok (b, (s, u)))
      → init user host now n ≡ ok (b, record (base_loaded host n c) { shared = s; user = u })
  unfolding init request_node_state_change base_load_config base_init_pub_subs base_init_services
      base_init_diagnostics base_init_data
  init_answers user host now n b s u c unknown e =
      rw
        (
          unknown,
          and_then-ok base_load_config _ (record n { node_state = state_initializing })
              (config_loads (record n { node_state = state_initializing }) c.verbosity c.robot
                c.config c.level c.p1 c.p2 c.p3 c.verbosity_given c.level_known c.logger_starts
                c.robot_given c.config_given),
        )
        (calls-user_init user now (base_loaded host n c)
          ∙ call-ok (user_init user) now (base_loaded host n c) e)

module _ {D P U : Type 0} ⦃fl : Doubles D⦄ ⦃params : Params D P⦄ where
  start-user : (n m : Node D P U) → start n ≡ ok (true, m) → m.user ≡ n.user
  unfolding start start_loops loop_timers request_node_state_change create_timers
  start-user n m e = ground arith

module _ {D P U : Type 0} ⦃fl : Doubles D⦄ ⦃core : CoreLib⦄ ⦃params : Params D P⦄ where
  -- A new node whose functions all answer true is spun, RUNNING, with the members that they left.
  pub main_runs :
      (user : Derived D P U) (host : Option Text) (now : Now D) (n : Node D P U)
      → (s : Shared P) (u : U) (c : BaseConfig params n.shared.params n.node_name)
      → n.node_state ≡ state_unknown
      → n.timers ≡ no_timers
      → (let base = base_loaded host n c in
          user_init user (reads now base) (base.shared, base.user) ≡ ok (true, (s, u)))
      → LoopRates params s.params
      → (m : Node D P U) × (main user host now n ≡ spins m)
        × (m.node_state ≡ state_running)
        × AllArmed m.timers
        × (m.user ≡ u)
  unfolding main
  main_runs user host now n s u c unknown fresh e rates =
      let n1 : Node D P U = record (base_loaded host n c) { shared = s; user = u } in
      let started : Starts n1 rates.rate1 rates.rate2 rates.rate3
          (are_possible params rates.rate1 rates.rate2 rates.rate3) =
        start_runs n1 rates.rate1 rates.rate2 rates.rate3 rates.p1 rates.p2 rates.p3 refl fresh
          rates.rate1_given rates.rate2_given rates.rate3_given in
      let (m, f, running, armed, _, _) = rw rates.possible at started in
      (
        m,
        rw (init_answers user host now n true s u c unknown e, f) refl,
        running,
        armed,
        start-user n1 m f,
      )

  -- One of whose functions one answers false is not: `main` returns 1.
  pub main_gives_up :
      (user : Derived D P U) (host : Option Text) (now : Now D) (n : Node D P U)
      → (s : Shared P) (u : U) (c : BaseConfig params n.shared.params n.node_name)
      → n.node_state ≡ state_unknown
      → (let base = base_loaded host n c in
          user_init user (reads now base) (base.shared, base.user) ≡ ok (false, (s, u)))
      → main user host now n ≡ exits 1
  unfolding main
  main_gives_up user host now n s u c unknown e =
      rw (init_answers user host now n false s u c unknown e) refl

  init_throws :
      (user : Derived D P U) (host : Option Text) (now : Now D) (n : Node D P U)
      → (c : BaseConfig params n.shared.params n.node_name) → n.node_state ≡ state_unknown
      → (let base = base_loaded host n c in
          user_init user (reads now base) (base.shared, base.user) ≡ threw)
      → init user host now n ≡ threw
  unfolding init request_node_state_change base_load_config base_init_pub_subs base_init_services
      base_init_diagnostics base_init_data
  init_throws user host now n c unknown e =
      rw
        (
          unknown,
          and_then-ok base_load_config _ (record n { node_state = state_initializing })
              (config_loads (record n { node_state = state_initializing }) c.verbosity c.robot
                c.config c.level c.p1 c.p2 c.p3 c.verbosity_given c.level_known c.logger_starts
                c.robot_given c.config_given),
        )
        (calls-user_init user now (base_loaded host n c)
          ∙ call-threw (user_init user) now (base_loaded host n c) e)

  -- One of whose functions one throws ends `main` by the exception.
  pub main_throws :
      (user : Derived D P U) (host : Option Text) (now : Now D) (n : Node D P U)
      → (c : BaseConfig params n.shared.params n.node_name) → n.node_state ≡ state_unknown
      → (let base = base_loaded host n c in
          user_init user (reads now base) (base.shared, base.user) ≡ threw)
      → main user host now n ≡ dies
  unfolding main
  main_throws user host now n c unknown e = rw (init_throws user host now n c unknown e) refl
