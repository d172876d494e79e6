-- ===== src/SystemMonitor/Derivation/Follow.antt =====
-- Sequences of timers and messages at the monitor's node, beside the six windows alone.
use robot_framework_ros.Prelude.{◌≡◌, refl, ap, ◌∙◌, Option, List, [], ◌∷◌}
use robot_framework_ros.Prelude.Run.{Result, ok, threw, fault, >>=-threw, >>=-fault}
use robot_framework_ros.Prelude.Fallible
use robot_framework_ros.Prelude.Text.{Text}
use robot_framework_ros.Platform.{Doubles, CoreLib, Curses}
use robot_framework_ros.BaseNode.Object.{Now, Node}
use robot_framework_ros.BaseNode.Timing.{
  Tick, tick100hz, tick10hz, tick1hz, tick01hz, tick001hz, tick_loop1, tick_loop2, tick_loop3,
  base_run10hz, base_run1hz, on_tick,
}
use robot_framework_ros.SystemMonitor.Node
use robot_framework_ros.SystemMonitor.Node.{MonitorNode, TopicInfo}
use robot_framework_ros.SystemMonitor.Node.Frames.{
  frames, heartbeat_callback-frames, diagnostic_callback-frames, ready_to_arm_callback-frames,
}
use robot_framework_ros.SystemMonitor.Dispatch.{
  Monitor, arm_command_callback, heartbeat_callback, diagnostic_callback, ready_to_arm_callback,
  rescan_ros_network, new_arm_command_msg, new_heartbeat_msg, new_diagnostic_msg,
  new_ready_to_arm_msg,
}
use robot_framework_ros.SystemMonitor.Dispatch.Visit.{as_monitor}
use robot_framework_ros.SystemMonitor.Derivation.{Around, call_run01hz, system_monitor}
use robot_framework_ros.SystemMonitor.Derivation.Events.{
  MonitorEvent, timer, hears_arm_command, hears_heartbeat, hears_diagnostic, hears_ready_to_arm,
  on_message, on_event, run_events, tick_step, event_step, replay, Shows, Answers,
}
use robot_framework_ros.SystemMonitor.Derivation.Refine.{
  frames-IsNamed, rescanned, then-Answers, note_timing-Shows, timed-idle, timed-10hz,
  base_run10hz-Shows, base_run1hz-Shows,
}

module _ {D P : Type 0} ⦃fl : Doubles D⦄ ⦃core : CoreLib⦄ ⦃curses : Curses⦄ {name : Text}
    {sub : Option Text} where
  on_tick-Answers :
      (a : Around D) (now : Now D) (t : Tick D) (k : MonitorNode D) (n : Node D P (Monitor D))
      → Shows name sub k n
      → Answers name sub (tick_step name a now t k) (on_tick (system_monitor a) now t n)
  unfolding on_tick system_monitor call_run01hz Node.rescan_ros_network
  on_tick-Answers a now (tick100hz t) k n s = timed-idle _ _ t _ now k n s
  on_tick-Answers a now (tick10hz t) k n s =
      let (n1, e, l) = base_run10hz-Shows now k n s in
      then-Answers name sub (base_run10hz now) _ n n1 (Node.run10hz a.key a.available now.seconds k)
        e (timed-10hz _ _ t _ a now k n1 l)
  on_tick-Answers a now (tick1hz t) k n s =
      let (n1, e, l) = base_run1hz-Shows now k n s in
      then-Answers name sub (base_run1hz now) _ n n1 (ok k) e (timed-idle _ _ t _ now k n1 l)
  on_tick-Answers a now (tick01hz t) k n s =
      note_timing-Shows _ _ t _ (Node.rescan_ros_network name a.name_space a.topics k)
        (record n { user = rescan_ros_network n.node_name a.name_space a.topics n.user })
        (record {
          user = rescanned sub a.topics n.node_name name a.name_space k n.user s.node_name s.user;
          publishers = s.publishers;
          node_name = s.node_name;
          named = record {
            diagnostic = s.named.diagnostic;
            header = s.named.header;
            menu = s.named.menu;
            message = s.named.message;
            node_info = s.named.node_info;
            status = s.named.status;
          };
        })
  on_tick-Answers a now (tick001hz t) k n s = timed-idle _ _ t _ now k n s
  on_tick-Answers a now (tick_loop1 t) k n s = timed-idle _ _ t _ now k n s
  on_tick-Answers a now (tick_loop2 t) k n s = timed-idle _ _ t _ now k n s
  on_tick-Answers a now (tick_loop3 t) k n s = timed-idle _ _ t _ now k n s

  on_message-Answers :
      (f : Monitor D → Monitor D) (k k' : MonitorNode D) (n : Node D P (Monitor D))
      → f (as_monitor sub k) ≡ as_monitor sub k'
      → frames k' ≡ frames k
      → Shows name sub k n
      → Answers name sub (ok k') (on_message f n)
  on_message-Answers f k k' n e same s = (
    record n { user = f n.user },
    refl,
    record {
      user = ap f s.user ∙ e;
      publishers = s.publishers;
      node_name = s.node_name;
      named = frames-IsNamed k k' same s.named;
    },
  )

  pub on_event-Answers :
      (e : MonitorEvent D) (k : MonitorNode D) (n : Node D P (Monitor D))
      → Shows name sub k n
      → Answers name sub (event_step name e k) (on_event e n)
  unfolding on_event
  on_event-Answers (timer a now t) k n s = on_tick-Answers a now t k n s
  on_event-Answers (hears_arm_command msg) k n s =
      on_message-Answers (arm_command_callback msg) k (Node.arm_command_callback msg k) n
        (unfold arm_command_callback Node.arm_command_callback new_arm_command_msg in refl)
        (unfold Node.arm_command_callback in refl) s
  on_event-Answers (hears_heartbeat msg topic) k n s =
      on_message-Answers (heartbeat_callback msg topic) k (Node.heartbeat_callback msg topic k) n
        (unfold heartbeat_callback Node.heartbeat_callback new_heartbeat_msg in refl)
        (heartbeat_callback-frames msg topic k) s
  on_event-Answers (hears_diagnostic msg topic) k n s =
      on_message-Answers (diagnostic_callback msg topic) k (Node.diagnostic_callback msg topic k) n
        (unfold diagnostic_callback Node.diagnostic_callback new_diagnostic_msg in refl)
        (diagnostic_callback-frames msg topic k) s
  on_event-Answers (hears_ready_to_arm msg topic) k n s =
      on_message-Answers (ready_to_arm_callback msg topic) k
        (Node.ready_to_arm_callback msg topic k) n
        (unfold ready_to_arm_callback Node.ready_to_arm_callback new_ready_to_arm_msg in refl)
        (ready_to_arm_callback-frames msg topic k) s

  -- From a node that shows the six windows and has its publishers, any sequence of timers and messages
  -- ends as it ends over the windows alone: it throws or faults exactly if a run of the 10 Hz loop
  -- over the windows does, and otherwise leaves the node that shows the windows of the end, again with
  -- its publishers.
  pub run_events_refines :
      (events : List (MonitorEvent D)) (k : MonitorNode D) (n : Node D P (Monitor D))
      → Shows name sub k n
      → Answers name sub (replay name events k) (run_events events n)
  unfolding run_events
  run_events_refines [] k n s = (n, refl, s)
  run_events_refines (e ∷ es) k n s =
      go (event_step name e k) (on_event-Answers e k n s) (run_events_refines es)
    where
      go :
          (r : Result (MonitorNode D))
          → Answers name sub r (on_event e n)
          → ((k' : MonitorNode D) (m : Node D P (Monitor D))
              → Shows name sub k' m
              → Answers name sub (replay name es k') (run_events es m))
          → Answers name sub (Fallible.◌>>=◌ r (replay name es)) (run_events (e ∷ es) n)
      go (ok k') (m, f, l) rest =
          then-Answers name sub (on_event e) (run_events es) n m (replay name es k') f (rest k' m l)
      go threw f rest = >>=-threw (on_event e) (λ _. run_events es) n f
      go fault f rest = >>=-fault (on_event e) (λ _. run_events es) n f
