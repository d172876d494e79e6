-- ===== src/BaseNode/Timing/Report.antt =====
-- What `BaseNode::baseRun1Hz` publishes.
use mathlib.Core.List.{append_assoc, append-nil}
use robot_framework_ros.Prelude.{◌≡◌, ap, ◌∙◌, true, List, [], ◌∷◌, ◌++◌}
use robot_framework_ros.Prelude.Run.{ok, ◌>>◌, >>=-ok}
use robot_framework_ros.Prelude.Text.{Text}
use robot_framework_ros.Platform.{CoreLib}
use robot_framework_ros.Messages.{DiagnosticMsg}
use robot_framework_ros.BaseNode.Object.{
  Output, diagnostic_out, ready_to_arm_out, diagnostic_log, Now, Node,
}
use robot_framework_ros.BaseNode.Timing.{
  publish, log_diagnostic, stamped, publish_diagnostics, timing_report, report_timing, report_ready,
  base_run1hz,
}

module _ {D : Type 0} where
  -- A diagnostic of the derived class is logged and then published, with the stamp and the node's name.
  abbrev pub sent : Now D → Text → List DiagnosticMsg → List Output
  sent now name [] = []
  sent now name (d ∷ ds) = diagnostic_log d ∷ diagnostic_out (stamped now name d) ∷ sent now name ds

module _ {D P U : Type 0} where
  publish-ok :
      (out : Output) (n : Node D P U)
      → n.has_publishers ≡ true
      → publish out n ≡ ok (tt, record n { outputs = n.outputs ++ out ∷ [] })
  publish-ok out n h = rw h

  publish_diagnostics_lem :
      (now : Now D) (ds : List DiagnosticMsg) (n : Node D P U)
      → n.has_publishers ≡ true
      → publish_diagnostics now ds n
        ≡ ok (tt, record n { outputs = n.outputs ++ sent now n.node_name ds })
  unfolding publish_diagnostics
  publish_diagnostics_lem now [] n h = rw append-nil
  publish_diagnostics_lem now (d ∷ ds) n h =
      let logged : Node D P U = record n { outputs = n.outputs ++ diagnostic_log d ∷ [] } in
      let out = diagnostic_out (stamped now n.node_name d) in
      let n1 : Node D P U = record logged { outputs = logged.outputs ++ out ∷ [] } in
      >>=-ok (log_diagnostic d >> publish out) (λ _. publish_diagnostics now ds) n
        (publish-ok out logged h)
      ∙ publish_diagnostics_lem now ds n1 h
      ∙ ap (λ (o : List Output). ok (tt, record n { outputs = o })) (simp append_assoc)

module _ {D P U : Type 0} ⦃core : CoreLib⦄ where
  -- With its publishers made, a node sends at 1 Hz, in this order: each diagnostic of the derived
  -- class, logged and then published; one timing diagnostic; its ready-to-arm status. It keeps the
  -- timing diagnostic that it sent, and nothing else of it changes.
  pub base_run1hz_lem :
      (now : Now D) (n : Node D P U)
      → n.has_publishers ≡ true
      → base_run1hz now n
        ≡ ok (
          tt,
          record n {
            timing_diagnostic = timing_report n;
            outputs =
                n.outputs
                ++ sent now n.node_name n.shared.diagnostics
                ++ diagnostic_out (stamped now n.node_name (timing_report n))
                  ∷ ready_to_arm_out n.shared.ready_to_arm
                  ∷ [];
          },
        )
  unfolding base_run1hz
  base_run1hz_lem now n h =
      let ds = sent now n.node_name n.shared.diagnostics in
      let n1 : Node D P U = record n { outputs = n.outputs ++ ds } in
      let out = diagnostic_out (stamped now n.node_name (timing_report n)) in
      let n2 : Node D P U = record n1 {
        timing_diagnostic = timing_report n;
        outputs = n1.outputs ++ out ∷ [];
      } in
      >>=-ok (publish_diagnostics now n.shared.diagnostics >> report_timing now) (λ _. report_ready)
        n
        (>>=-ok (publish_diagnostics now n.shared.diagnostics) (λ _. report_timing now) n
            (publish_diagnostics_lem now n.shared.diagnostics n h)
          ∙ publish-ok out (record n1 { timing_diagnostic = timing_report n }) h)
      ∙ publish-ok (ready_to_arm_out n.shared.ready_to_arm) n2 h
      ∙ ap
          (λ (o : List Output).
            ok (tt, record n { timing_diagnostic = timing_report n; outputs = o }))
          (simp append_assoc)
