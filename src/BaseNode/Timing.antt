-- ===== src/BaseNode/Timing.antt =====
-- The timers' callbacks of `BaseNode`: `TimerLoopTiming::run`, the eight callbacks, `baseRun10Hz` and
-- `baseRun1Hz` (core/BaseNode/BaseNode.cpp). The time that a user's loop takes is an argument.
pub mod Report
pub mod Verdict
pub mod Schedule
use robot_framework_ros.Prelude.{ℕ, Bool, true, false, ◌&&◌, List, [], ◌∷◌, ◌++◌, if◌then◌else◌}
use robot_framework_ros.Prelude.Run.{Result, ok, threw, fault, Run, pure, modify, ◌>>=◌, ◌>>◌}
use robot_framework_ros.Prelude.Text.{Text, text}
use robot_framework_ros.Platform.{Doubles, CoreLib}
use robot_framework_ros.Messages.{Diagnostic, DiagnosticMsg}
use robot_framework_ros.Translate.Infrastructure.{diagnostic_to_ros}
use robot_framework_ros.BaseNode.Object.{
  LoopsOk, Output, heartbeat_out, diagnostic_out, ready_to_arm_out, diagnostic_log, Now, Node, Hook,
  Derived, call,
}

-- What `TimerLoopTiming::run` makes of the time that the callback took: whether the loop is in time,
-- and the diagnostic, which is changed if it is not.
module _ {D : Type 0} ⦃fl : Doubles D⦄ where
  unfoldable pub slow_down_rate : D → D → D
  slow_down_rate rate elapsed = fl.div elapsed (fl.div (fl.lit 1 0) rate)

  unfoldable pub is_slow : D → D → Bool
  unfolding slow_down_rate
  is_slow rate elapsed = fl.lt (fl.lit 1 0) (slow_down_rate rate elapsed)

module _ {D : Type 0} ⦃fl : Doubles D⦄ ⦃core : CoreLib⦄ where
  unfoldable pub slow_diagnostic : Text → D → D → DiagnosticMsg → DiagnosticMsg
  slow_diagnostic loop_name rate elapsed d = record d {
    level = core.level_warn;
    diagnostic_message = core.message_diagnostic_failed;
    description =
        loop_name
        ++ text " Slow: Rate: "
        ++ fl.to_text (slow_down_rate rate elapsed)
        ++ text "X "
        ++ fl.to_text elapsed
        ++ text " (sec) Expected: "
        ++ fl.to_text (fl.div (fl.lit 1 0) rate);
  }

-- `publish`: undefined behaviour if the publisher has not been made.
module _ {D P U : Type 0} where
  abbrev pub publish : Output → Run (Node D P U) (Unit {0})
  publish out n =
      if n.has_publishers then ok (tt, record n { outputs = n.outputs ++ out ∷ [] }) else fault

  abbrev pub log_diagnostic : DiagnosticMsg → Run (Node D P U) (Unit {0})
  log_diagnostic d n = ok (tt, record n { outputs = n.outputs ++ diagnostic_log d ∷ [] })

module _ {D : Type 0} where
  -- A core diagnostic as the node of that name sends it.
  abbrev pub stamped : Now D → Text → DiagnosticMsg → Diagnostic
  stamped now name d = record (diagnostic_to_ros d) { timestamp = now.stamp; node_name = name }

module _ {D P U : Type 0} ⦃fl : Doubles D⦄ ⦃core : CoreLib⦄ where
  -- `TimerLoopTiming::run` behind its callback, with the loop's flag to set.
  unfoldable pub note_timing :
      Text → D → D → (Bool → LoopsOk → LoopsOk) → Run (Node D P U) (Unit {0})
  note_timing loop_name rate elapsed set_ok n =
      let slow = slow_diagnostic loop_name rate elapsed n.timing_diagnostic in
      if is_slow rate elapsed
      then ok (
        tt,
        record n {
          loops = set_ok false n.loops;
          timing_diagnostic = slow;
          outputs = n.outputs ++ diagnostic_log slow ∷ [];
        },
      )
      else ok (tt, record n { loops = set_ok true n.loops })

module _ {D P U : Type 0} where
  unfoldable pub base_run10hz : Now D → Run (Node D P U) (Unit {0})
  base_run10hz now n =
      let beat = record n.heartbeat { timestamp = now.stamp; node_state = n.node_state } in
      publish (heartbeat_out beat) (record n { heartbeat = beat })

  -- The loop of `baseRun1Hz` over the node's diagnostics.
  unfoldable pub publish_diagnostics : Now D → List DiagnosticMsg → Run (Node D P U) (Unit {0})
  publish_diagnostics now [] n = ok (tt, n)
  publish_diagnostics now (d ∷ ds) n =
      (log_diagnostic d
          >> publish (diagnostic_out (stamped now n.node_name d))
          >> publish_diagnostics now ds)
        n

abbrev pub all_loops : LoopsOk → Bool
all_loops l =
    l.loop100hz && l.loop10hz && l.loop1hz && l.loop01hz && l.loop001hz && l.loop1 && l.loop2
    && l.loop3

module _ {D P U : Type 0} ⦃core : CoreLib⦄ where
  -- The timing diagnostic as `baseRun1Hz` sends and keeps it.
  unfoldable pub timing_report : Node D P U → DiagnosticMsg
  timing_report n =
      let mine = record n.timing_diagnostic {
        system_id = n.shared.system_id;
        subsystem_id = n.shared.subsystem_id;
        process_id = n.shared.process_id;
      } in
      if all_loops n.loops
      then record mine {
        level = core.level_info;
        diagnostic_message = core.message_noerror;
        description = text "No Loop Timing Issues";
      }
      else mine

  report_timing : Now D → Run (Node D P U) (Unit {0})
  unfolding timing_report
  report_timing now n =
      let report = timing_report n in
      publish (diagnostic_out (stamped now n.node_name report))
        (record n { timing_diagnostic = report })

  report_ready : Run (Node D P U) (Unit {0})
  report_ready n = publish (ready_to_arm_out n.shared.ready_to_arm) n

  unfoldable pub base_run1hz : Now D → Run (Node D P U) (Unit {0})
  unfolding report_timing report_ready
  base_run1hz now n =
      (publish_diagnostics now n.shared.diagnostics >> report_timing now >> report_ready) n

-- The timers, each with the time that the user's function takes when it fires.
pub data Tick (D : Type 0) : Type 0 where
  tick100hz : D → Tick D
  tick10hz : D → Tick D
  tick1hz : D → Tick D
  tick01hz : D → Tick D
  tick001hz : D → Tick D
  tick_loop1 : D → Tick D
  tick_loop2 : D → Tick D
  tick_loop3 : D → Tick D

module _ {D P U : Type 0} ⦃fl : Doubles D⦄ ⦃core : CoreLib⦄ where
  abbrev pub run_timed :
      Text
      → D
      → D
      → (Bool → LoopsOk → LoopsOk)
      → Hook D P U (Unit {0})
      → Now D
      → Run (Node D P U) (Unit {0})
  run_timed loop_name rate elapsed set_ok hook now =
      call hook now >> note_timing loop_name rate elapsed set_ok

  -- `timer100HzCallback` to `timerLoop3Callback`.
  unfoldable pub on_tick : Derived D P U → Now D → Tick D → Run (Node D P U) (Unit {0})
  on_tick user now (tick100hz t) n =
      run_timed (text "Loop100Hz") (fl.lit 100 0) t (λ b l. record l { loop100hz = b })
        user.run100hz now n
  on_tick user now (tick10hz t) n =
      (base_run10hz now
          >> run_timed (text "Loop10Hz") (fl.lit 10 0) t (λ b l. record l { loop10hz = b })
              user.run10hz now)
        n
  on_tick user now (tick1hz t) n =
      (base_run1hz now
          >> run_timed (text "Loop1Hz") (fl.lit 1 0) t (λ b l. record l { loop1hz = b }) user.run1hz
              now)
        n
  on_tick user now (tick01hz t) n =
      run_timed (text "Loop01Hz") (fl.lit 1 1) t (λ b l. record l { loop01hz = b }) user.run01hz now
        n
  on_tick user now (tick001hz t) n =
      run_timed (text "Loop001Hz") (fl.lit 1 2) t (λ b l. record l { loop001hz = b }) user.run001hz
        now n
  on_tick user now (tick_loop1 t) n =
      run_timed (text "Loop1") n.loop1_rate t (λ b l. record l { loop1 = b }) user.run_loop1 now n
  on_tick user now (tick_loop2 t) n =
      run_timed (text "Loop2") n.loop2_rate t (λ b l. record l { loop2 = b }) user.run_loop2 now n
  on_tick user now (tick_loop3 t) n =
      run_timed (text "Loop3") n.loop3_rate t (λ b l. record l { loop3 = b }) user.run_loop3 now n

  -- The callbacks that the executor makes, one after the other.
  unfoldable pub run_ticks : Derived D P U → List (Now D × Tick D) → Run (Node D P U) (Unit {0})
  run_ticks user [] n = ok (tt, n)
  run_ticks user ((now, t) ∷ rest) n = (on_tick user now t >> run_ticks user rest) n
