-- ===== src/SystemMonitor/Derivation/Events.antt =====
-- What the executor of the monitor's node runs, timers and subscriptions, over the node with its
-- `BaseNode`, and the same over the six windows alone.
use robot_framework_ros.Prelude.{◌≡◌, true, Option, List, [], ◌∷◌}
use robot_framework_ros.Prelude.Run.{Result, ok, threw, fault, Run, ◌>>◌}
use robot_framework_ros.Prelude.Fallible
use robot_framework_ros.Prelude.Text.{Text}
use robot_framework_ros.Platform.{Doubles, CoreLib, Curses}
use robot_framework_ros.Messages.{Heartbeat, Diagnostic, ReadyToArm, ArmCommand}
use robot_framework_ros.BaseNode.Object.{Now, Node}
use robot_framework_ros.BaseNode.Timing.{
  Tick, tick100hz, tick10hz, tick1hz, tick01hz, tick001hz, tick_loop1, tick_loop2, tick_loop3,
  on_tick,
}
use robot_framework_ros.SystemMonitor.Node
use robot_framework_ros.SystemMonitor.Node.{MonitorNode}
use robot_framework_ros.SystemMonitor.Dispatch.{
  Monitor, arm_command_callback, heartbeat_callback, diagnostic_callback, ready_to_arm_callback,
}
use robot_framework_ros.SystemMonitor.Dispatch.Visit.{as_monitor, IsNamed}
use robot_framework_ros.SystemMonitor.Derivation.{Around, system_monitor}

-- A timer that fires, with what its function finds, or a message on a topic.
pub data MonitorEvent (D : Type 0) : Type 0 where
  timer : Around D → Now D → Tick D → MonitorEvent D
  hears_arm_command : ArmCommand → MonitorEvent D
  hears_heartbeat : Heartbeat → Text → MonitorEvent D
  hears_diagnostic : Diagnostic → Text → MonitorEvent D
  hears_ready_to_arm : ReadyToArm → Text → MonitorEvent D

module _ {D P : Type 0} where
  abbrev pub on_message : (Monitor D → Monitor D) → Run (Node D P (Monitor D)) (Unit {0})
  on_message f n = ok (tt, record n { user = f n.user })

module _ {D P : Type 0} ⦃fl : Doubles D⦄ ⦃core : CoreLib⦄ ⦃curses : Curses⦄ where
  unfoldable pub on_event : MonitorEvent D → Run (Node D P (Monitor D)) (Unit {0})
  unfolding system_monitor on_tick arm_command_callback heartbeat_callback diagnostic_callback
      ready_to_arm_callback
  on_event (timer a now t) n = on_tick (system_monitor a) now t n
  on_event (hears_arm_command msg) n = on_message (arm_command_callback msg) n
  on_event (hears_heartbeat msg topic) n = on_message (heartbeat_callback msg topic) n
  on_event (hears_diagnostic msg topic) n = on_message (diagnostic_callback msg topic) n
  on_event (hears_ready_to_arm msg topic) n = on_message (ready_to_arm_callback msg topic) n

  unfoldable pub run_events : List (MonitorEvent D) → Run (Node D P (Monitor D)) (Unit {0})
  unfolding on_event
  run_events [] n = ok (tt, n)
  run_events (e ∷ es) n = (on_event e >> run_events es) n

module _ {D : Type 0} ⦃fl : Doubles D⦄ ⦃core : CoreLib⦄ ⦃curses : Curses⦄ (node_name : Text) where
  -- The same over the six windows, for the node of that name.
  abbrev pub tick_step : Around D → Now D → Tick D → MonitorNode D → Result (MonitorNode D)
  tick_step a now (tick10hz t) k = Node.run10hz a.key a.available now.seconds k
  tick_step a now (tick01hz t) k = ok (Node.rescan_ros_network node_name a.name_space a.topics k)
  tick_step a now (tick100hz t) k = ok k
  tick_step a now (tick1hz t) k = ok k
  tick_step a now (tick001hz t) k = ok k
  tick_step a now (tick_loop1 t) k = ok k
  tick_step a now (tick_loop2 t) k = ok k
  tick_step a now (tick_loop3 t) k = ok k

  abbrev pub event_step : MonitorEvent D → MonitorNode D → Result (MonitorNode D)
  event_step (timer a now t) k = tick_step a now t k
  event_step (hears_arm_command msg) k = ok (Node.arm_command_callback msg k)
  event_step (hears_heartbeat msg topic) k = ok (Node.heartbeat_callback msg topic k)
  event_step (hears_diagnostic msg topic) k = ok (Node.diagnostic_callback msg topic k)
  event_step (hears_ready_to_arm msg topic) k = ok (Node.ready_to_arm_callback msg topic k)

  abbrev pub replay : List (MonitorEvent D) → MonitorNode D → Result (MonitorNode D)
  replay [] k = ok k
  replay (e ∷ es) k = Fallible.◌>>=◌ (event_step e k) (replay es)

-- The node of that name shows the six windows, under their names, and has its publishers.
pub record Shows {D P : Type 0} (name : Text) (sub : Option Text) (k : MonitorNode D)
    (n : Node D P (Monitor D)) : Type 0 where
  pub user : n.user ≡ as_monitor sub k
  pub publishers : n.has_publishers ≡ true
  pub node_name : n.node_name ≡ name
  pub named : IsNamed k

module _ {D P : Type 0} (name : Text) (sub : Option Text) where
  -- A run over the node answers as the run over the windows does.
  abbrev pub Answers : Result (MonitorNode D) → Result (Unit {0} × Node D P (Monitor D)) → Type 0
  Answers (ok k) r = (m : Node D P (Monitor D)) × (r ≡ ok (tt, m)) × Shows name sub k m
  Answers threw r = r ≡ threw
  Answers fault r = r ≡ fault
