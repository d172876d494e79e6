-- ===== src/BaseNode/Timing/Schedule.antt =====
-- Any sequence of timer callbacks, and the timing diagnostic that the node sends after it.
use robot_framework_ros.Prelude.{
  ◌%◌, ◌≡◌, refl, ap, ◌∙◌, Bool, true, List, [], ◌∷◌, ◌++◌, arith, if◌then◌else◌,
}
use robot_framework_ros.Prelude.Run.{ok, fault, Run, ◌>>◌, >>=-ok}
use robot_framework_ros.Prelude.Text.{Text}
use robot_framework_ros.Platform.{Doubles, CoreLib}
use robot_framework_ros.Messages.{Diagnostic}
use robot_framework_ros.Translate.Infrastructure.{diagnostic_to_ros}
use robot_framework_ros.BaseNode.Object.{
  LoopsOk, Now, Node, Hook, Derived, heartbeat_out, diagnostic_out, ready_to_arm_out,
}
use robot_framework_ros.BaseNode.Timing.{
  Tick, tick100hz, tick10hz, tick1hz, tick01hz, tick001hz, tick_loop1, tick_loop2, tick_loop3,
  all_loops, timing_report, stamped, base_run10hz, base_run1hz, run_timed, on_tick, run_ticks,
}
use robot_framework_ros.BaseNode.Timing.Report.{base_run1hz_lem, sent}
use robot_framework_ros.BaseNode.Timing.Verdict.{
  Completes, AllComplete, judge, judge_all, IsWarned, Kept, in_time, every_loop, every_loop_lem,
  run_timed_lem,
}

module _ {D P U : Type 0} ⦃fl : Doubles D⦄ ⦃core : CoreLib⦄ where
  -- The same, behind the base class's part of the callback.
  after_base :
      (name : Text) (rate elapsed : D) (set_ok : Bool → LoopsOk → LoopsOk)
      → (hook : Hook D P U (Unit {0})) (now : Now D) (base : Run (Node D P U) (Unit {0}))
      → (n n1 : Node D P U) → base n ≡ ok (tt, n1)
      → Kept n n1 n.loops
      → Completes hook
      → ((l : LoopsOk) → all_loops l ≡ true → all_loops (set_ok true l) ≡ true)
      → (m : Node D P U) × ((base >> run_timed name rate elapsed set_ok hook now) n ≡ ok (tt, m))
        × Kept n m (set_ok (in_time rate elapsed) n.loops)
  after_base name rate elapsed set_ok hook now base n n1 e k done keeps =
      let (m, f, kept) =
        run_timed_lem name rate elapsed set_ok hook now n1 done keeps k.publishers k.warned in
      (
        m,
        >>=-ok base (λ _. run_timed name rate elapsed set_ok hook now) n e ∙ f,
        record {
          publishers = kept.publishers;
          warned = kept.warned;
          loops = kept.loops ∙ ap (set_ok (in_time rate elapsed)) k.loops;
          rate1 = kept.rate1 ∙ k.rate1;
          rate2 = kept.rate2 ∙ k.rate2;
          rate3 = kept.rate3 ∙ k.rate3;
        },
      )

  report-IsWarned :
      (n : Node D P U) → IsWarned n → IsWarned (record n { timing_diagnostic = timing_report n })
  unfolding timing_report
  report-IsWarned n w e = ground (arith, w e)

  beats :
      (now : Now D) (n : Node D P U)
      → n.has_publishers ≡ true
      → IsWarned n
      → (m : Node D P U) × (base_run10hz now n ≡ ok (tt, m)) × Kept n m n.loops
  unfolding base_run10hz
  beats now n pubs w =
      let beat = record n.heartbeat { timestamp = now.stamp; node_state = n.node_state } in
      (
        record n { heartbeat = beat; outputs = n.outputs ++ heartbeat_out beat ∷ [] },
        ap
            (λ (b : Bool).
              if b
              then ok (
                tt,
                record n { heartbeat = beat; outputs = n.outputs ++ heartbeat_out beat ∷ [] },
              )
              else fault)
            pubs,
        record {
          publishers = pubs;
          warned = w;
          loops = refl;
          rate1 = refl;
          rate2 = refl;
          rate3 = refl;
        },
      )

  reports :
      (now : Now D) (n : Node D P U)
      → n.has_publishers ≡ true
      → IsWarned n
      → (m : Node D P U) × (base_run1hz now n ≡ ok (tt, m)) × Kept n m n.loops
  reports now n pubs w = (
    _,
    base_run1hz_lem now n pubs,
    record {
      publishers = pubs;
      warned = report-IsWarned n w;
      loops = refl;
      rate1 = refl;
      rate2 = refl;
      rate3 = refl;
    },
  )

  -- One callback, of any timer.
  on_tick_lem :
      (user : Derived D P U) (now : Now D) (t : Tick D) (n : Node D P U)
      → AllComplete user
      → n.has_publishers ≡ true
      → IsWarned n
      → (m : Node D P U) × (on_tick user now t n ≡ ok (tt, m))
        × Kept n m (judge n.loop1_rate n.loop2_rate n.loop3_rate t n.loops)
  unfolding on_tick
  on_tick_lem user now (tick100hz t) n done pubs w =
      run_timed_lem _ _ t _ user.run100hz now n done.at100hz (λ l h. ground arith) pubs w
  on_tick_lem user now (tick10hz t) n done pubs w =
      let (n1, e, k) = beats now n pubs w in
      after_base _ _ t _ user.run10hz now (base_run10hz now) n n1 e k done.at10hz
        (λ l h. ground arith)
  on_tick_lem user now (tick1hz t) n done pubs w =
      let (n1, e, k) = reports now n pubs w in
      after_base _ _ t _ user.run1hz now (base_run1hz now) n n1 e k done.at1hz (λ l h. ground arith)
  on_tick_lem user now (tick01hz t) n done pubs w =
      run_timed_lem _ _ t _ user.run01hz now n done.at01hz (λ l h. ground arith) pubs w
  on_tick_lem user now (tick001hz t) n done pubs w =
      run_timed_lem _ _ t _ user.run001hz now n done.at001hz (λ l h. ground arith) pubs w
  on_tick_lem user now (tick_loop1 t) n done pubs w =
      run_timed_lem _ _ t _ user.run_loop1 now n done.at_loop1 (λ l h. ground arith) pubs w
  on_tick_lem user now (tick_loop2 t) n done pubs w =
      run_timed_lem _ _ t _ user.run_loop2 now n done.at_loop2 (λ l h. ground arith) pubs w
  on_tick_lem user now (tick_loop3 t) n done pubs w =
      run_timed_lem _ _ t _ user.run_loop3 now n done.at_loop3 (λ l h. ground arith) pubs w

  run_ticks_lem :
      (user : Derived D P U) (ticks : List (Now D × Tick D)) (n : Node D P U)
      → AllComplete user
      → n.has_publishers ≡ true
      → IsWarned n
      → (m : Node D P U) × (run_ticks user ticks n ≡ ok (tt, m))
        × Kept n m (judge_all n.loop1_rate n.loop2_rate n.loop3_rate ticks n.loops)
  unfolding run_ticks
  run_ticks_lem user [] n done pubs w = (
    n,
    refl,
    record {
      publishers = pubs;
      warned = w;
      loops = refl;
      rate1 = refl;
      rate2 = refl;
      rate3 = refl;
    },
  )
  run_ticks_lem user ((now, t) ∷ rest) n done pubs w =
      let (n1, e, k) = on_tick_lem user now t n done pubs w in
      let (m, f, l) = run_ticks_lem user rest n1 done k.publishers k.warned in
      (
        m,
        >>=-ok (on_tick user now t) (λ _. run_ticks user rest) n e ∙ f,
        record {
          publishers = l.publishers;
          warned = l.warned;
          loops = rw (k.rate1, k.rate2, k.rate3, k.loops) at l.loops;
          rate1 = l.rate1 ∙ k.rate1;
          rate2 = l.rate2 ∙ k.rate2;
          rate3 = l.rate3 ∙ k.rate3;
        },
      )

  -- After any sequence of timer callbacks from a node that has its publishers and no warning due, and
  -- whose eight user loops neither throw nor fault, the next 1 Hz report is sent: the diagnostics of
  -- the derived class, one timing diagnostic, and the ready-to-arm status. The timing diagnostic that
  -- is sent says INFO and NOERROR if the last run of each loop was in time, and WARN and
  -- DIAGNOSTIC_FAILED if the last run of some loop was not. A run is in time unless the time it took,
  -- divided by 1 / rate, is more than 1; of a loop that has not run in the sequence, the last run is
  -- the one that the node has noted before. The level and the message are sent as bytes.
  pub schedule_reports :
      (user : Derived D P U) (ticks : List (Now D × Tick D)) (later : Now D) (n : Node D P U)
      → AllComplete user
      → n.has_publishers ≡ true
      → IsWarned n
      → let fine = every_loop (judge_all n.loop1_rate n.loop2_rate n.loop3_rate ticks n.loops) in
        (m m' : Node D P U) × (d : Diagnostic) × (run_ticks user ticks n ≡ ok (tt, m))
        × (base_run1hz later m ≡ ok (tt, m'))
        × (m'.outputs
            ≡ m.outputs
              ++ sent later m.node_name m.shared.diagnostics
              ++ diagnostic_out d ∷ ready_to_arm_out m.shared.ready_to_arm ∷ [])
        × (d.level ≡ (if fine then core.level_info else core.level_warn) % 256)
        × (d.diagnostic_message
            ≡ (if fine then core.message_noerror else core.message_diagnostic_failed) % 256)
  unfolding timing_report diagnostic_to_ros
  schedule_reports user ticks later n done pubs w =
      let (m, e, k) = run_ticks_lem user ticks n done pubs w in
      (
        m,
        _,
        stamped later m.node_name (timing_report m),
        e,
        base_run1hz_lem later m k.publishers,
        refl,
        rw (← k.loops, ← every_loop_lem m.loops) (ground (arith, k.warned)),
        rw (← k.loops, ← every_loop_lem m.loops) (ground (arith, k.warned)),
      )
