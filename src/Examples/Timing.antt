-- ===== src/Examples/Timing.antt =====
-- The timers' callbacks at concrete inputs.
use mathlib.Core.Bool.{false≢true}
use robot_framework_ros.Prelude.{◌%◌, ◌≡◌, refl, sym, true, [], ◌∷◌, ◌++◌, ℕ, List, if◌then◌else◌}
use robot_framework_ros.Prelude.Int.{ℤ, pos}
use robot_framework_ros.Prelude.Run.{ok}
use robot_framework_ros.Prelude.Text.{text}
use robot_framework_ros.Platform.Toy.{toy_doubles, toy_core, ToyParams}
use robot_framework_ros.Messages.{Diagnostic, DiagnosticMsg}
use robot_framework_ros.BaseNode.Object.{Node, Now, diagnostic_out, ready_to_arm_out}
use robot_framework_ros.BaseNode.Timing.{
  Tick, tick100hz, tick10hz, stamped, timing_report, base_run1hz, run_ticks,
}
use robot_framework_ros.BaseNode.Timing.Report.{base_run1hz_lem, sent}
use robot_framework_ros.BaseNode.Timing.Verdict.{AllComplete, IsWarned, judge_all, every_loop}
use robot_framework_ros.BaseNode.Timing.Schedule.{schedule_reports}
use robot_framework_ros.Examples.Toy.{counter, given, at, new_node}

abbrev hot : DiagnosticMsg
hot = record {
  system_id = 1;
  subsystem_id = 2;
  process_id = 3;
  diagnostic_type = 4;
  level = 5;
  diagnostic_message = 6;
  description = text "hot";
}

-- A node with its publishers and one diagnostic.
abbrev node : Node ℤ ToyParams ℕ
node = record (new_node given) {
  has_publishers = true;
  shared = record (new_node given).shared { diagnostics = hot ∷ [] };
}

base_run1hz_lem_example :
    base_run1hz (at 3) node
    ≡ ok (
      tt,
      record node {
        timing_diagnostic = timing_report node;
        outputs =
            node.outputs
            ++ sent (at 3) node.node_name (hot ∷ [])
            ++ diagnostic_out (stamped (at 3) node.node_name (timing_report node))
              ∷ ready_to_arm_out node.shared.ready_to_arm
              ∷ [];
      },
    )
base_run1hz_lem_example = base_run1hz_lem (at 3) node refl

counter-AllComplete : AllComplete counter
counter-AllComplete = record {
  at100hz = λ r (s, u). (_, refl);
  at10hz = λ r (s, u). (_, refl);
  at1hz = λ r (s, u). (_, refl);
  at01hz = λ r (s, u). (_, refl);
  at001hz = λ r (s, u). (_, refl);
  at_loop1 = λ r (s, u). (_, refl);
  at_loop2 = λ r (s, u). (_, refl);
  at_loop3 = λ r (s, u). (_, refl);
}

-- The 10 Hz loop takes 250 ms, and the 100 Hz loop 5 ms.
abbrev ticks : List (Now ℤ × Tick ℤ)
ticks = (at 1, tick100hz (pos 5)) ∷ (at 2, tick10hz (pos 250)) ∷ (at 3, tick100hz (pos 5)) ∷ []

node-IsWarned : IsWarned node
node-IsWarned e = absurd (false≢true (sym e))

schedule_reports_example :
    let fine =
      every_loop (judge_all node.loop1_rate node.loop2_rate node.loop3_rate ticks node.loops) in
    (m m' : Node ℤ ToyParams ℕ) × (d : Diagnostic) × (run_ticks counter ticks node ≡ ok (tt, m))
    × (base_run1hz (at 4) m ≡ ok (tt, m'))
    × (m'.outputs
        ≡ m.outputs
          ++ sent (at 4) m.node_name m.shared.diagnostics
          ++ diagnostic_out d ∷ ready_to_arm_out m.shared.ready_to_arm ∷ [])
    × (d.level ≡ (if fine then 3 else 5) % 256)
    × (d.diagnostic_message ≡ (if fine then 2 else 3) % 256)
schedule_reports_example =
    schedule_reports counter ticks (at 4) node counter-AllComplete refl node-IsWarned
