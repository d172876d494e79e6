-- ===== src/Examples/Lifecycle.antt =====
-- The lifecycle of a node at concrete inputs.
use robot_framework_ros.Prelude.{◌≡◌, refl, inl, Bool, true, none, some, ℕ}
use robot_framework_ros.Prelude.Int.{ℤ, pos}
use robot_framework_ros.Prelude.Run.{ok, fault}
use robot_framework_ros.Prelude.Text.{text, text_eq}
use robot_framework_ros.Platform.Toy.{toy_doubles, toy_core, toy_params, ToyParams}
use robot_framework_ros.BaseNode.State.{state_initializing, state_running, request_state_change}
use robot_framework_ros.BaseNode.Topic.{load_robot_namespace, load_node_config_namespace}
use robot_framework_ros.BaseNode.Object.{armed, Node, null, no_timers, request_node_state_change}
use robot_framework_ros.BaseNode.Lifecycle.{
  create_timers, level_of, get_host_name, base_load_config, base_init_pub_subs, base_init_services,
  base_init_diagnostics, base_init_data, init, start, reset, main, Outcome, spins, exits, dies,
}
use robot_framework_ros.BaseNode.Lifecycle.Start.{AllArmed, start_runs}
use robot_framework_ros.BaseNode.Lifecycle.Reset.{AfterReset, IsStarted, Returns, reset_lem}
use robot_framework_ros.BaseNode.Lifecycle.Init.{AllSucceed, Succeeds, init_runs}
use robot_framework_ros.BaseNode.Lifecycle.Spin.{reset-init_faults, main_spins}
use robot_framework_ros.Examples.Toy.{counter, counted_true, given, declared, at, new_node}

counted_true-Succeeds : Succeeds counted_true
counted_true-Succeeds r (s, u) = (_, refl)

counted_true-Returns : Returns counted_true
counted_true-Returns r (s, u) = (true, _, refl)

counter-AllSucceed : AllSucceed counter
counter-AllSucceed = record {
  load_config = counted_true-Succeeds;
  init_pub_subs = counted_true-Succeeds;
  init_services = counted_true-Succeeds;
  init_diagnostics = counted_true-Succeeds;
  init_data = counted_true-Succeeds;
}

abbrev after_verbosity : ToyParams
after_verbosity = declared given (text "verbosity_level")

abbrev after_robot : ToyParams
after_robot = declared after_verbosity (text "robot_namespace")

abbrev after_config : ToyParams
after_config = declared after_robot (text "node_namespace")

-- What `init_runs` says of the new node.
abbrev Initializes : Type 0
Initializes =
    (m : Node ℤ ToyParams ℕ) × (init counter (some (text "host")) (at 1) (new_node given)
      ≡ ok (true, m))
    × (m.node_state ≡ state_initializing)
    × (m.has_publishers ≡ true)
    × (m.has_services ≡ true)
    × (m.robot_namespace ≡ load_robot_namespace (text "robot1/"))
    × (m.node_config_namespace ≡ load_node_config_namespace (text "/robot1/counter"))
    × (m.heartbeat ≡ record (new_node given).heartbeat {
      hostname = get_host_name (some (text "host"));
      base_nodename = (new_node given).base_node_name;
      nodename = (new_node given).node_name;
    })
    × (m.timers ≡ (new_node given).timers)

init_runs_example : Initializes
unfolding level_of text_eq
init_runs_example =
    init_runs counter (some (text "host")) (at 1) (new_node given) (text "NOTICE") (text "robot1/")
      (text "/robot1/counter") 4 after_verbosity after_robot after_config counter-AllSucceed refl
      refl refl refl refl refl

abbrev initialized : Node ℤ ToyParams ℕ
initialized = record (new_node given) { node_state = state_initializing; has_publishers = true }

abbrev minus_one : ℤ
minus_one = toy_doubles.neg (toy_doubles.lit 1 0)

start_runs_example :
    (m : Node ℤ ToyParams ℕ) × (start initialized ≡ ok (true, m))
    × (m.node_state ≡ state_running)
    × AllArmed m.timers
    × (m.timers ≡ record {
      timer100hz = armed (pos 10);
      timer10hz = armed (pos 100);
      timer1hz = armed (pos 1000);
      timer01hz = armed (pos 10000);
      timer001hz = armed (pos 100000);
      timer_loop1 = null;
      timer_loop2 = armed (pos 500);
      timer_loop3 = null;
    })
    × (m.outputs ≡ initialized.outputs)
unfolding text_eq
start_runs_example =
    start_runs initialized minus_one (pos 2000) minus_one (declared given (text "loop1_rate"))
      (declared (declared given (text "loop1_rate")) (text "loop2_rate"))
      (declared (declared (declared given (text "loop1_rate")) (text "loop2_rate"))
        (text "loop3_rate"))
      refl refl refl refl refl

running : Node ℤ ToyParams ℕ
unfolding create_timers
running = record initialized { node_state = state_running; timers = create_timers no_timers }

running-AllArmed : AllArmed running.timers
unfolding running
running-AllArmed = record {
  at100hz = refl;
  at10hz = refl;
  at1hz = refl;
  at01hz = refl;
  at001hz = refl;
  at_loop1 = refl;
  at_loop2 = refl;
  at_loop3 = refl;
}

reset_lem_example :
    (b : Bool) × (m : Node ℤ ToyParams ℕ) × (reset counter (at 9) running ≡ ok (b, m))
    × AfterReset b m
    × IsStarted m
unfolding running
reset_lem_example =
    reset_lem counter (at 9) running counted_true-Returns counted_true-Returns
      (inl (refl, running-AllArmed))

counter_initializes : Initializes
unfolding level_of text_eq
counter_initializes =
    init_runs counter (some (text "host")) (at 1) (new_node given) (text "NOTICE") (text "robot1/")
      (text "/robot1/counter") 4 after_verbosity after_robot after_config counter-AllSucceed refl
      refl refl refl refl refl

reset-init_faults_example : reset counter (at 2) counter_initializes.0 ≡ fault
reset-init_faults_example =
    reset-init_faults counter (some (text "host")) (at 1) (at 2) (new_node given)
      counter_initializes.0 refl counter_initializes.1

spun_node : Outcome ℤ ToyParams ℕ → Node ℤ ToyParams ℕ
spun_node (spins n) = n
spun_node (exits k) = new_node given
spun_node dies = new_node given

counter_spins : Node ℤ ToyParams ℕ
counter_spins = spun_node (main counter none (at 1) (new_node given))

counter_spins_lem : main counter none (at 1) (new_node given) ≡ spins counter_spins
unfolding counter_spins spun_node main init start request_node_state_change request_state_change
    base_load_config base_init_pub_subs base_init_services base_init_diagnostics base_init_data
    create_timers level_of text_eq load_robot_namespace load_node_config_namespace
counter_spins_lem = refl

main_spins_example : (counter_spins.node_state ≡ state_running) × AllArmed counter_spins.timers
main_spins_example =
    main_spins counter none (at 1) (new_node given) counter_spins refl counter_spins_lem
