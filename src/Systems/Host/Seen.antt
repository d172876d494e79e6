-- ===== src/Systems/Host/Seen.antt =====
-- Any sequence of timers and messages follows the abstract steps.
use robot_framework_ros.Prelude.{
  ◌≡◌, refl, ap, ◌∙◌, Bool, true, false, List, [], ◌∷◌, ◌++◌, inl, inr, Bool-cases,
}
use robot_framework_ros.Messages.{ReadyToArm}
use robot_framework_ros.Translate.Infrastructure.{ready_to_arm_to_core}
use robot_framework_ros.BaseNode.Object.{ready_to_arm_out, diagnostic_out}
use robot_framework_ros.BaseNode.Timing.{timing_report, stamped}
use robot_framework_ros.BaseNode.Timing.Report.{sent}
use robot_framework_ros.Prelude.Run.{ok, Run, ◌>>◌, >>=-ok}
use robot_framework_ros.Prelude.Text.{Text}
use robot_framework_ros.Platform.{Doubles, CoreLib}
use robot_framework_ros.BaseNode.Object.{
  LoopsOk, Now, Node, Hook, Derived, diagnostic_log, heartbeat_out, reads, call, call-ok,
}
use robot_framework_ros.BaseNode.Timing.{
  Tick, tick100hz, tick10hz, tick1hz, tick01hz, tick001hz, tick_loop1, tick_loop2, tick_loop3,
  is_slow, slow_diagnostic, note_timing, base_run10hz, base_run1hz, run_timed, on_tick,
}
use robot_framework_ros.BaseNode.Timing.Report.{base_run1hz_lem}
use robot_framework_ros.Systems.Host.{Process, Host, Stages, node_around}
use robot_framework_ros.Systems.Host.Follow.{
  Reported, view, Event, timer, message, tick_step, event_step, replay, Follows, IsHost, Receives,
  node_around-IsHost, on_event, on_message-ok, run_events, node_view, Seen,
}

module _ {D P S E : Type 0} ⦃fl : Doubles D⦄ ⦃core : CoreLib⦄ {I : E → Type 0} where
  note_timing-Seen :
      (name : Text) (rate elapsed : D) (set_ok : Bool → LoopsOk → LoopsOk)
      → (n : Node D P (Host S E)) (v : Reported S) → Seen I n v
      → (m : Node D P (Host S E)) × (note_timing name rate elapsed set_ok n ≡ ok (tt, m))
        × Seen I m v
  unfolding note_timing
  note_timing-Seen name rate elapsed set_ok n v k =
      let slow = slow_diagnostic name rate elapsed n.timing_diagnostic in
      elim (Bool-cases (is_slow rate elapsed)) [
        | inl late ↦ (
          record n {
            loops = set_ok false n.loops;
            timing_diagnostic = slow;
            outputs = n.outputs ++ diagnostic_log slow ∷ [];
          },
          rw late refl,
          record { seen = k.seen; publishers = k.publishers; kept = k.kept },
        )
        | inr fast ↦ (
          record n { loops = set_ok true n.loops },
          rw fast refl,
          record { seen = k.seen; publishers = k.publishers; kept = k.kept },
        )
      ]

  run_timed-Seen :
      (name : Text) (rate elapsed : D) (set_ok : Bool → LoopsOk → LoopsOk)
      → (hook : Hook D P (Host S E) (Unit {0})) (f : D → Reported S → Reported S) (now : Now D)
      → (n : Node D P (Host S E)) (v : Reported S) → Follows I hook f
      → Seen I n v
      → (m : Node D P (Host S E)) × (run_timed name rate elapsed set_ok hook now n ≡ ok (tt, m))
        × Seen I m (f now.seconds v)
  run_timed-Seen name rate elapsed set_ok hook f now n v follows k =
      let ((s, u), e, seen, kept) = follows.at (reads now n) (n.shared, n.user) k.kept in
      let n1 : Node D P (Host S E) = record n { shared = s; user = u } in
      let (m, g, l) = note_timing-Seen name rate elapsed set_ok n1 (f now.seconds v) (record {
        seen = seen ∙ ap (f now.seconds) k.seen;
        publishers = k.publishers;
        kept = kept;
      }) in
      (
        m,
        >>=-ok (call hook now) (λ _. note_timing name rate elapsed set_ok) n (call-ok hook now n e)
            ∙ g,
        l,
      )

  after_base-Seen :
      (name : Text) (rate elapsed : D) (set_ok : Bool → LoopsOk → LoopsOk)
      → (hook : Hook D P (Host S E) (Unit {0})) (f : D → Reported S → Reported S) (now : Now D)
      → (base : Run (Node D P (Host S E)) (Unit {0})) (n n1 : Node D P (Host S E))
      → (v : Reported S) → base n ≡ ok (tt, n1)
      → Follows I hook f
      → Seen I n1 v
      → (m : Node D P (Host S E)) × ((base >> run_timed name rate elapsed set_ok hook now) n
          ≡ ok (tt, m))
        × Seen I m (f now.seconds v)
  after_base-Seen name rate elapsed set_ok hook f now base n n1 v e follows k =
      let (m, g, l) = run_timed-Seen name rate elapsed set_ok hook f now n1 v follows k in
      (m, >>=-ok base (λ _. run_timed name rate elapsed set_ok hook now) n e ∙ g, l)

  base_run10hz-Seen :
      (now : Now D) (n : Node D P (Host S E)) (v : Reported S)
      → Seen I n v
      → (m : Node D P (Host S E)) × (base_run10hz now n ≡ ok (tt, m)) × Seen I m v
  unfolding base_run10hz
  base_run10hz-Seen now n v k =
      let beat = record n.heartbeat { timestamp = now.stamp; node_state = n.node_state } in
      (
        record n { heartbeat = beat; outputs = n.outputs ++ heartbeat_out beat ∷ [] },
        rw k.publishers refl,
        record { seen = k.seen; publishers = k.publishers; kept = k.kept },
      )

  base_run1hz-Seen :
      (now : Now D) (n : Node D P (Host S E)) (v : Reported S)
      → Seen I n v
      → (m : Node D P (Host S E)) × (base_run1hz now n ≡ ok (tt, m)) × Seen I m v
  base_run1hz-Seen now n v k = (
    _,
    base_run1hz_lem now n k.publishers,
    record { seen = k.seen; publishers = k.publishers; kept = k.kept },
  )

module _ {D P S E : Type 0} ⦃fl : Doubles D⦄ ⦃core : CoreLib⦄ (proc : Process D S) (I : E → Type 0)
    (user : Derived D P (Host S E)) (host : IsHost proc I user) where
  on_tick-Seen :
      (now : Now D) (t : Tick D) (n : Node D P (Host S E)) (v : Reported S)
      → Seen I n v
      → (m : Node D P (Host S E)) × (on_tick user now t n ≡ ok (tt, m))
        × Seen I m (tick_step proc now.seconds t v)
  unfolding on_tick
  on_tick-Seen now (tick100hz t) n v k =
      run_timed-Seen _ _ t _ user.run100hz _ now n v host.at100hz k
  on_tick-Seen now (tick10hz t) n v k =
      let (n1, e, l) = base_run10hz-Seen now n v k in
      after_base-Seen _ _ t _ user.run10hz _ now (base_run10hz now) n n1 v e host.at10hz l
  on_tick-Seen now (tick1hz t) n v k =
      let (n1, e, l) = base_run1hz-Seen now n v k in
      after_base-Seen _ _ t _ user.run1hz _ now (base_run1hz now) n n1 v e host.at1hz l
  on_tick-Seen now (tick01hz t) n v k = run_timed-Seen _ _ t _ user.run01hz _ now n v host.at01hz k
  on_tick-Seen now (tick001hz t) n v k =
      run_timed-Seen _ _ t _ user.run001hz _ now n v host.at001hz k
  on_tick-Seen now (tick_loop1 t) n v k =
      run_timed-Seen _ _ t _ user.run_loop1 _ now n v host.at_loop1 k
  on_tick-Seen now (tick_loop2 t) n v k =
      run_timed-Seen _ _ t _ user.run_loop2 _ now n v host.at_loop2 k
  on_tick-Seen now (tick_loop3 t) n v k =
      run_timed-Seen _ _ t _ user.run_loop3 _ now n v host.at_loop3 k

  module _ {M : Type 0} (receive : M → Run (Host S E) (Unit {0})) (spec : M → S → S)
      (receives : Receives I receive spec) where
    on_event-Seen :
        (e : Event D M) (n : Node D P (Host S E)) (v : Reported S)
        → Seen I n v
        → (m : Node D P (Host S E)) × (on_event user receive e n ≡ ok (tt, m))
          × Seen I m (event_step proc spec e v)
    unfolding on_event view
    on_event-Seen (timer now t) n v k = on_tick-Seen now t n v k
    on_event-Seen (message x) n v k =
        let (u, e, same, kept) = receives x n.user k.kept in
        (
          record n { user = u },
          on_message-ok (receive x) n e,
          record {
            seen =
                ap (λ (p : S). record (node_view n) { process = p }) same
                ∙ ap (λ (w : Reported S). record w { process = spec x w.process }) k.seen;
            publishers = k.publishers;
            kept = kept;
          },
        )

    -- Any events are handled without an exception or a fault, and take the node to where the abstract
    -- steps take it.
    pub run_events-Seen :
        (events : List (Event D M)) (n : Node D P (Host S E)) (v : Reported S)
        → Seen I n v
        → (m : Node D P (Host S E)) × (run_events user receive events n ≡ ok (tt, m))
          × Seen I m (replay proc spec events v)
    unfolding run_events replay
    run_events-Seen [] n v k = (n, refl, k)
    run_events-Seen (e ∷ es) n v k =
        let (n1, f, l) = on_event-Seen e n v k in
        let (m, g, l') = run_events-Seen es n1 (event_step proc spec e v) l in
        (m, >>=-ok (on_event user receive e) (λ _. run_events user receive es) n f ∙ g, l')

    -- The next 1 Hz report of such a node.
    run_events-reports :
        (events : List (Event D M)) (later : Now D) (n : Node D P (Host S E))
        → n.has_publishers ≡ true
        → I n.user.members
        → let v = replay proc spec events (node_view n) in
          (m m' : Node D P (Host S E)) × (status : ReadyToArm) × (run_events user receive events n
            ≡ ok (tt, m))
          × (m.user.process ≡ v.process)
          × (base_run1hz later m ≡ ok (tt, m'))
          × (m'.outputs
              ≡ m.outputs
                ++ sent later m.node_name v.diagnostics
                ++ diagnostic_out (stamped later m.node_name (timing_report m))
                  ∷ ready_to_arm_out status
                  ∷ [])
          × (ready_to_arm_to_core status ≡ v.status)
    unfolding view
    run_events-reports events later n pubs inv =
        let (m, e, k) =
          run_events-Seen events n (node_view n)
            (record { seen = refl; publishers = pubs; kept = inv }) in
        (
          m,
          _,
          m.shared.ready_to_arm,
          e,
          ap (λ (w : Reported S). w.process) k.seen,
          base_run1hz_lem later m k.publishers,
          ap
              (λ (w : Reported S).
                m.outputs
                ++ sent later m.node_name w.diagnostics
                ++ diagnostic_out (stamped later m.node_name (timing_report m))
                  ∷ ready_to_arm_out m.shared.ready_to_arm
                  ∷ [])
              k.seen,
          ap (λ (w : Reported S). w.status) k.seen,
        )

module _ {D P S E M : Type 0} ⦃fl : Doubles D⦄ ⦃core : CoreLib⦄ where
  -- This is about a node that hands the ready status of a process on at 10 Hz and its diagnostics at
  -- 1 Hz, and updates the process in `Loop1`. `I` is an invariant of the node's other members. While
  -- it holds, `Loop2` and the callback of each message return and keep it; `Loop2` leaves the process
  -- and what was handed on as they are, and the callback changes the process as `spec` does. From such
  -- a node with its publishers and with `I`, any sequence of timer callbacks and messages is then
  -- handled without an exception or a fault. The process has made the updates of the `Loop1` callbacks
  -- and the changes of the messages in their order. The 1 Hz report that is sent next is the
  -- diagnostics that the process had at the last 1 Hz callback, the timing diagnostic, and the ready
  -- status that the process had at the last 10 Hz callback.
  pub run_events_report :
      (proc : Process D S) (I : E → Type 0) (stages : Stages D P (Host S E))
      → (receive : M → Run (Host S E) (Unit {0})) (spec : M → S → S) (events : List (Event D M))
      → (later : Now D) (n : Node D P (Host S E)) → Follows I stages.run_loop2 (λ t v. v)
      → Receives I receive spec
      → n.has_publishers ≡ true
      → I n.user.members
      → let v = replay proc spec events (node_view n) in
        (m m' : Node D P (Host S E)) × (status : ReadyToArm) × (run_events
            (node_around proc stages)
            receive
            events
            n
          ≡ ok (tt, m))
        × (m.user.process ≡ v.process)
        × (base_run1hz later m ≡ ok (tt, m'))
        × (m'.outputs
            ≡ m.outputs
              ++ sent later m.node_name v.diagnostics
              ++ diagnostic_out (stamped later m.node_name (timing_report m))
                ∷ ready_to_arm_out status
                ∷ [])
        × (ready_to_arm_to_core status ≡ v.status)
  run_events_report proc I stages receive spec events later n loop2 receives pubs inv =
      run_events-reports proc I (node_around proc stages) (node_around-IsHost proc I stages loop2)
        receive spec receives events later n pubs inv
