-- ===== src/SystemMonitor/Derivation/Safe.antt =====
-- When the monitor's node returns from a callback: Node/Reach for the windows, Follow for the node.
use mathlib.Core.Path.{subst}
use robot_framework_ros.Prelude.{◌≤◌, ◌≡◌, refl, sym, true, Option, List, [], ◌∷◌, length}
use robot_framework_ros.Prelude.Run.{Result, ok}
use robot_framework_ros.Prelude.Fallible.{chain_parts}
use robot_framework_ros.Prelude.Text.{Text}
use robot_framework_ros.Platform.{Doubles, CoreLib, Curses}
use robot_framework_ros.BaseNode.Object.{Now, Node}
use robot_framework_ros.BaseNode.Timing.{
  Tick, tick100hz, tick10hz, tick1hz, tick01hz, tick001hz, tick_loop1, tick_loop2, tick_loop3,
}
use robot_framework_ros.SystemMonitor.Window.{columns}
use robot_framework_ros.SystemMonitor.Node.{MonitorNode}
use robot_framework_ros.SystemMonitor.Node.Screen.{init_windows, node_info_perc, opens}
use robot_framework_ros.SystemMonitor.Node.Reach
use robot_framework_ros.SystemMonitor.Node.Reach.{
  Reach, here, next, runs_10hz, scans, monitor_keeps_running,
}
use robot_framework_ros.SystemMonitor.Dispatch.{Monitor}
use robot_framework_ros.SystemMonitor.Derivation.{Around}
use robot_framework_ros.SystemMonitor.Derivation.Events.{
  MonitorEvent, timer, hears_arm_command, hears_heartbeat, hears_diagnostic, hears_ready_to_arm,
  on_event, run_events, tick_step, event_step, replay, Shows, Answers,
}
use robot_framework_ros.SystemMonitor.Derivation.Follow.{run_events_refines, on_event-Answers}

module _ {D : Type 0} ⦃fl : Doubles D⦄ where
  -- The time of a timer has room in the header.
  abbrev pub IsShort : MonitorEvent D → Type 0
  IsShort (timer a now t) = length (fl.to_text now.seconds) ≤ 34
  IsShort (hears_arm_command msg) = Unit {0}
  IsShort (hears_heartbeat msg topic) = Unit {0}
  IsShort (hears_diagnostic msg topic) = Unit {0}
  IsShort (hears_ready_to_arm msg topic) = Unit {0}

module _ {D : Type 0} ⦃fl : Doubles D⦄ ⦃curses : Curses⦄ where
  -- Windows that were made, with room for what is drawn in them.
  pub record Made (a : Around D) (n0 : MonitorNode D) : Type 0 where
    pub opened : opens {D = D} a.height a.width node_info_perc ≡ true
    pub made : init_windows a.unset a.height a.width a.latest ≡ ok n0
    pub wide : 3 ≤ columns n0.diagnostic.base

module _ {D : Type 0} ⦃core : CoreLib⦄ where
  pub record Roomy (k : MonitorNode D) : Type 0 where
    pub nodes : length k.node_info.nodes ≤ 10000
    pub armed : length (core.pretty_armed_state k.header.latest_arm_command.armed_state) ≤ 27

module _ {D : Type 0} ⦃fl : Doubles D⦄ ⦃core : CoreLib⦄ ⦃curses : Curses⦄ (name : Text) where
  tick_step-Reach :
      (a : Around D) (now : Now D) (t : Tick D) (n0 k k' : MonitorNode D)
      → tick_step name a now t k ≡ ok k'
      → Reach n0 k
      → Reach n0 k'
  tick_step-Reach a now (tick10hz t) n0 k k' e r =
      next r (runs_10hz a.key a.available now.seconds k k' e)
  tick_step-Reach a now (tick01hz t) n0 k k' e r =
      subst (Reach n0) (cc e) (next r (scans name a.name_space a.topics k))
  tick_step-Reach a now (tick100hz t) n0 k k' e r = subst (Reach n0) (cc e) r
  tick_step-Reach a now (tick1hz t) n0 k k' e r = subst (Reach n0) (cc e) r
  tick_step-Reach a now (tick001hz t) n0 k k' e r = subst (Reach n0) (cc e) r
  tick_step-Reach a now (tick_loop1 t) n0 k k' e r = subst (Reach n0) (cc e) r
  tick_step-Reach a now (tick_loop2 t) n0 k k' e r = subst (Reach n0) (cc e) r
  tick_step-Reach a now (tick_loop3 t) n0 k k' e r = subst (Reach n0) (cc e) r

  event_step-Reach :
      (e : MonitorEvent D) (n0 k k' : MonitorNode D)
      → event_step name e k ≡ ok k'
      → Reach n0 k
      → Reach n0 k'
  event_step-Reach (timer a now t) n0 k k' e r = tick_step-Reach a now t n0 k k' e r
  event_step-Reach (hears_arm_command msg) n0 k k' e r =
      subst (Reach n0) (cc e) (next r (Reach.hears_arm_command msg k))
  event_step-Reach (hears_heartbeat msg topic) n0 k k' e r =
      subst (Reach n0) (cc e) (next r (Reach.hears_heartbeat msg topic k))
  event_step-Reach (hears_diagnostic msg topic) n0 k k' e r =
      subst (Reach n0) (cc e) (next r (Reach.hears_diagnostic msg topic k))
  event_step-Reach (hears_ready_to_arm msg topic) n0 k k' e r =
      subst (Reach n0) (cc e) (next r (Reach.hears_ready_to_arm msg topic k))

  replay-Reach :
      (events : List (MonitorEvent D)) (n0 k k' : MonitorNode D)
      → replay name events k ≡ ok k'
      → Reach n0 k
      → Reach n0 k'
  replay-Reach [] n0 k k' e r = subst (Reach n0) (cc e) r
  replay-Reach (x ∷ events) n0 k k' e r =
      let (k1, g, f) = chain_parts (replay name events) (event_step name x k) (sym e) in
      replay-Reach events n0 k1 k' g (event_step-Reach x n0 k k1 (sym f) r)

  tick_returns :
      (a b : Around D) (now : Now D) (t : Tick D) (n0 k : MonitorNode D)
      → Made a n0
      → Reach n0 k
      → Roomy k
      → length (fl.to_text now.seconds) ≤ 34
      → (k' : MonitorNode D) × (tick_step name b now t k ≡ ok k')
  tick_returns a b now (tick10hz t) n0 k made r room short =
      let (k', e, _, _) =
        monitor_keeps_running a.unset a.height a.width a.latest n0 k b.key b.available now.seconds
          made.opened made.made made.wide r room.nodes short room.armed in
      (k', e)
  tick_returns a b now (tick01hz t) n0 k made r room short = (_, refl)
  tick_returns a b now (tick100hz t) n0 k made r room short = (_, refl)
  tick_returns a b now (tick1hz t) n0 k made r room short = (_, refl)
  tick_returns a b now (tick001hz t) n0 k made r room short = (_, refl)
  tick_returns a b now (tick_loop1 t) n0 k made r room short = (_, refl)
  tick_returns a b now (tick_loop2 t) n0 k made r room short = (_, refl)
  tick_returns a b now (tick_loop3 t) n0 k made r room short = (_, refl)

  event_returns :
      (a : Around D) (e : MonitorEvent D) (n0 k : MonitorNode D)
      → Made a n0
      → Reach n0 k
      → Roomy k
      → IsShort e
      → (k' : MonitorNode D) × (event_step name e k ≡ ok k')
  event_returns a (timer b now t) n0 k made r room short =
      tick_returns a b now t n0 k made r room short
  event_returns a (hears_arm_command msg) n0 k made r room short = (_, refl)
  event_returns a (hears_heartbeat msg topic) n0 k made r room short = (_, refl)
  event_returns a (hears_diagnostic msg topic) n0 k made r room short = (_, refl)
  event_returns a (hears_ready_to_arm msg topic) n0 k made r room short = (_, refl)

module _ {D P : Type 0} ⦃fl : Doubles D⦄ ⦃core : CoreLib⦄ ⦃curses : Curses⦄ {name : Text}
    {sub : Option Text} where
  carry_answer :
      (r : Result (MonitorNode D)) (k : MonitorNode D)
      → (x : Result (Unit {0} × Node D P (Monitor D))) → r ≡ ok k
      → Answers name sub r x
      → Answers name sub (ok k) x
  carry_answer r k x e a = subst (λ s. Answers name sub s x) e a

  -- A node shows the windows that were made, ncurses has given the window of the nodes, and the window
  -- of the diagnostics has three columns or more. The node has handled any timers and messages, in any
  -- order, and its windows are now `k`. While at most 10000 nodes are listed and the name of the armed
  -- state has room in the header, it handles the next timer or message too, without an exception or a
  -- fault, if the time has room in the header. The node shows the windows `k` before, with its
  -- publishers, and those that the step over `k` gives behind.
  pub monitor_stays_up :
      (a : Around D) (n0 k : MonitorNode D) (n : Node D P (Monitor D))
      → (events : List (MonitorEvent D)) (e : MonitorEvent D) → Made a n0
      → Shows name sub n0 n
      → replay name events n0 ≡ ok k
      → Roomy k
      → IsShort e
      → (m m' : Node D P (Monitor D)) × (k' : MonitorNode D) × (run_events events n ≡ ok (tt, m))
        × Shows name sub k m
        × (event_step name e k ≡ ok k')
        × (on_event e m ≡ ok (tt, m'))
        × Shows name sub k' m'
  monitor_stays_up a n0 k n events e made shows seen room short =
      let (m, f, s) =
        carry_answer (replay name events n0) k (run_events events n) seen
          (run_events_refines events n0 n shows) in
      let (k', g) =
        event_returns name a e n0 k made (replay-Reach name events n0 n0 k seen here) room short in
      let (m', h, s') =
        carry_answer (event_step name e k) k' (on_event e m) g (on_event-Answers e k m s) in
      (m, m', k', f, s, g, h, s')
