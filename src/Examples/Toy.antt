-- ===== src/Examples/Toy.antt =====
-- A derived class and a node for the examples.
use robot_framework_ros.Prelude.{ℕ, ◌+◌, ◌*◌, Bool, true, none, some, [], ◌∷◌, if◌then◌else◌}
use robot_framework_ros.Prelude.Int.{ℤ, pos}
use robot_framework_ros.Prelude.Run.{ok}
use robot_framework_ros.Prelude.Text.{Text, text, text_eq}
use robot_framework_ros.Platform.Toy.{toy_doubles, toy_core, ToyParams}
use robot_framework_ros.BaseNode.Object.{Now, Node, Derived, Hook, construct}

-- It counts the calls of its functions.
abbrev counted : Hook ℤ ToyParams ℕ (Unit {0})
counted r (s, u) = ok (tt, (s, u + 1))

abbrev pub counted_true : Hook ℤ ToyParams ℕ Bool
counted_true r (s, u) = ok (true, (s, u + 1))

abbrev pub counter : Derived ℤ ToyParams ℕ
counter = record {
  load_config = counted_true;
  init_pub_subs = counted_true;
  init_services = counted_true;
  init_diagnostics = counted_true;
  init_data = counted_true;
  run100hz = counted;
  run10hz = counted;
  run1hz = counted;
  run01hz = counted;
  run001hz = counted;
  run_loop1 = counted;
  run_loop2 = counted;
  run_loop3 = counted;
}

-- The second user loop runs twice a second; the robot is `robot1`.
abbrev pub given : ToyParams
given = record {
  declared = [];
  texts = λ k.
      if text_eq k (text "robot_namespace")
      then some (text "robot1/")
      else if text_eq k (text "node_namespace")
      then some (text "/robot1/counter")
      else none;
  doubles = λ k. if text_eq k (text "loop2_rate") then some (pos 2000) else none;
  text_lists = λ k. none;
  double_lists = λ k. none;
}

-- The verbosity level is misspelt.
abbrev pub misspelt : ToyParams
misspelt = record {
  declared = [];
  texts = λ k. if text_eq k (text "verbosity_level") then some (text "Debug") else none;
  doubles = λ k. none;
  text_lists = λ k. none;
  double_lists = λ k. none;
}

abbrev pub declared : ToyParams → Text → ToyParams
declared p k = record p { declared = k ∷ p.declared }

abbrev pub at : ℕ → Now ℤ
at sec = record { stamp = record { sec = pos sec; nanosec = 0 }; seconds = pos (sec * 1000) }

abbrev pub new_node : ToyParams → Node ℤ ToyParams ℕ
new_node p = construct (text "counter_node") (text "/robot1/counter") p 0
