-- ===== src/SystemMonitor/Derivation/Refine.antt =====
-- The timers of the node with its `BaseNode`, beside the six windows alone.
use robot_framework_ros.Prelude.{
  ◌≡◌, refl, ap, ◌∙◌, Bool, true, false, Option, List, [], ◌∷◌, ◌++◌, Bool-cases, inl, inr,
}
use robot_framework_ros.Prelude.Run.{
  Result, ok, threw, fault, Run, ◌>>◌, >>=-ok, >>=-threw, >>=-fault,
}
use robot_framework_ros.Systems.Host.{idle}
use robot_framework_ros.Prelude.Text.{Text}
use robot_framework_ros.Platform.{Doubles, CoreLib, Curses}
use robot_framework_ros.BaseNode.Object.{
  LoopsOk, Shared, Now, Node, Hook, diagnostic_log, heartbeat_out, reads, call, call-ok, call-threw,
  call-fault,
}
use robot_framework_ros.BaseNode.Timing.{
  is_slow, slow_diagnostic, note_timing, base_run10hz, base_run1hz, run_timed,
}
use robot_framework_ros.BaseNode.Timing.Report.{base_run1hz_lem}
use robot_framework_ros.SystemMonitor.Node
use robot_framework_ros.SystemMonitor.Node.{MonitorNode, TopicInfo}
use robot_framework_ros.SystemMonitor.Node.Frames.{frames, run10hz-frames}
use robot_framework_ros.SystemMonitor.Dispatch.{Monitor, rescan_ros_network}
use robot_framework_ros.SystemMonitor.Dispatch.Visit.{as_monitor, IsNamed}
use robot_framework_ros.SystemMonitor.Dispatch.Agree.{run10hz_agrees}
use robot_framework_ros.SystemMonitor.Derivation.{Around, call_run10hz}
use robot_framework_ros.SystemMonitor.Derivation.Events.{Shows, Answers}

module _ {D : Type 0} where
  pub frames-IsNamed : (k k' : MonitorNode D) → frames k' ≡ frames k → IsNamed k → IsNamed k'
  frames-IsNamed k k' e names = record {
    diagnostic = cc (e, names.diagnostic);
    header = cc (e, names.header);
    menu = cc (e, names.menu);
    message = cc (e, names.message);
    node_info = cc (e, names.node_info);
    status = cc (e, names.status);
  }

module _ {D : Type 0} where
  pub rescanned :
      (sub : Option Text) (topics : List (Text × TopicInfo)) (a b name_space : Text)
      (k : MonitorNode D)
      → (m : Monitor D) → a ≡ b
      → m ≡ as_monitor sub k
      → rescan_ros_network a name_space topics m
        ≡ as_monitor sub (Node.rescan_ros_network b name_space topics k)
  unfolding rescan_ros_network Node.rescan_ros_network
  rescanned sub topics a b name_space k m e f = rw (e, f) refl

module _ {D P : Type 0} (name : Text) (sub : Option Text) where
  -- What follows a part that returns answers for the whole.
  pub then-Answers :
      (first rest : Run (Node D P (Monitor D)) (Unit {0})) (n n1 : Node D P (Monitor D))
      → (r : Result (MonitorNode D)) → first n ≡ ok (tt, n1)
      → Answers name sub r (rest n1)
      → Answers name sub r ((first >> rest) n)
  then-Answers first rest n n1 (ok k) e (m, f, l) = (m, >>=-ok first (λ _. rest) n e ∙ f, l)
  then-Answers first rest n n1 threw e f = >>=-ok first (λ _. rest) n e ∙ f
  then-Answers first rest n n1 fault e f = >>=-ok first (λ _. rest) n e ∙ f

module _ {D P : Type 0} ⦃fl : Doubles D⦄ ⦃core : CoreLib⦄ ⦃curses : Curses⦄ {name : Text}
    {sub : Option Text} where
  pub note_timing-Shows :
      (loop_name : Text) (rate elapsed : D) (set_ok : Bool → LoopsOk → LoopsOk)
      → (k : MonitorNode D) (n : Node D P (Monitor D)) → Shows name sub k n
      → Answers name sub (ok k) (note_timing loop_name rate elapsed set_ok n)
  unfolding note_timing
  note_timing-Shows loop_name rate elapsed set_ok k n s =
      let slow = slow_diagnostic loop_name rate elapsed n.timing_diagnostic in
      elim (Bool-cases (is_slow rate elapsed)) [
        | inl late ↦ (
          record n {
            loops = set_ok false n.loops;
            timing_diagnostic = slow;
            outputs = n.outputs ++ diagnostic_log slow ∷ [];
          },
          rw late refl,
          record {
            user = s.user;
            publishers = s.publishers;
            node_name = s.node_name;
            named = s.named;
          },
        )
        | inr fast ↦ (
          record n { loops = set_ok true n.loops },
          rw fast refl,
          record {
            user = s.user;
            publishers = s.publishers;
            node_name = s.node_name;
            named = s.named;
          },
        )
      ]

  -- A timed call whose function leaves the windows of `k'`.
  timed-ok :
      (loop_name : Text) (rate elapsed : D) (set_ok : Bool → LoopsOk → LoopsOk)
      → (hook : Hook D P (Monitor D) (Unit {0})) (now : Now D) (k k' : MonitorNode D)
      → (n : Node D P (Monitor D)) (s : Shared P)
      → hook (reads now n) (n.shared, n.user) ≡ ok (tt, (s, as_monitor sub k'))
      → IsNamed k'
      → Shows name sub k n
      → Answers name sub (ok k') (run_timed loop_name rate elapsed set_ok hook now n)
  timed-ok loop_name rate elapsed set_ok hook now k k' n s e names shows =
      let n1 : Node D P (Monitor D) = record n { shared = s; user = as_monitor sub k' } in
      let (m, f, l) = note_timing-Shows loop_name rate elapsed set_ok k' n1 (record {
        user = refl;
        publishers = shows.publishers;
        node_name = shows.node_name;
        named = names;
      }) in
      (
        m,
        >>=-ok (call hook now) (λ _. note_timing loop_name rate elapsed set_ok) n
              (call-ok hook now n e)
            ∙ f,
        l,
      )

  -- A function that does nothing.
  pub timed-idle :
      (loop_name : Text) (rate elapsed : D) (set_ok : Bool → LoopsOk → LoopsOk)
      → (now : Now D) (k : MonitorNode D) (n : Node D P (Monitor D)) → Shows name sub k n
      → Answers name sub (ok k) (run_timed loop_name rate elapsed set_ok idle now n)
  timed-idle loop_name rate elapsed set_ok now k n shows =
      timed-ok loop_name rate elapsed set_ok idle now k k n n.shared
        (ap (λ (u : Monitor D). ok (tt, (n.shared, u))) shows.user) shows.named shows

  pub timed-10hz :
      (loop_name : Text) (rate elapsed : D) (set_ok : Bool → LoopsOk → LoopsOk)
      → (a : Around D) (now : Now D) (k : MonitorNode D) (n : Node D P (Monitor D))
      → Shows name sub k n
      → Answers name sub
          (Node.run10hz a.key a.available now.seconds k)
          (run_timed loop_name rate elapsed set_ok (call_run10hz a) now n)
  unfolding call_run10hz
  timed-10hz loop_name rate elapsed set_ok a now k n shows =
      go (Node.run10hz a.key a.available now.seconds k) refl
    where
      go :
          (r : Result (MonitorNode D))
          → Node.run10hz a.key a.available now.seconds k ≡ r
          → Answers name sub r (run_timed loop_name rate elapsed set_ok (call_run10hz a) now n)
      go (ok k') e =
          timed-ok loop_name rate elapsed set_ok (call_run10hz a) now k k' n n.shared
            (rw (shows.user, run10hz_agrees a.key a.available now.seconds sub k shows.named, e)
              refl)
            (frames-IsNamed k k' (run10hz-frames a.key a.available now.seconds k k' e) shows.named)
            shows
      go threw e =
          >>=-threw (call (call_run10hz a) now) (λ _. note_timing loop_name rate elapsed set_ok) n
            (call-threw (call_run10hz a) now n (
              rw (shows.user, run10hz_agrees a.key a.available now.seconds sub k shows.named, e)
                refl))
      go fault e =
          >>=-fault (call (call_run10hz a) now) (λ _. note_timing loop_name rate elapsed set_ok) n
            (call-fault (call_run10hz a) now n (
              rw (shows.user, run10hz_agrees a.key a.available now.seconds sub k shows.named, e)
                refl))

  pub base_run10hz-Shows :
      (now : Now D) (k : MonitorNode D) (n : Node D P (Monitor D))
      → Shows name sub k n
      → Answers name sub (ok k) (base_run10hz now n)
  unfolding base_run10hz
  base_run10hz-Shows now k n s =
      let beat = record n.heartbeat { timestamp = now.stamp; node_state = n.node_state } in
      (
        record n { heartbeat = beat; outputs = n.outputs ++ heartbeat_out beat ∷ [] },
        rw s.publishers refl,
        record {
          user = s.user;
          publishers = s.publishers;
          node_name = s.node_name;
          named = s.named;
        },
      )

  pub base_run1hz-Shows :
      (now : Now D) (k : MonitorNode D) (n : Node D P (Monitor D))
      → Shows name sub k n
      → Answers name sub (ok k) (base_run1hz now n)
  base_run1hz-Shows now k n s = (
    _,
    base_run1hz_lem now n s.publishers,
    record { user = s.user; publishers = s.publishers; node_name = s.node_name; named = s.named },
  )
