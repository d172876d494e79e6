-- ===== src/SystemMonitor/Node/Reach.antt =====
-- Everything that happens to the monitor after its windows are made, in any order, and what holds
-- throughout.
use robot_framework_ros.Prelude.{
  ℕ, ◌≤◌, ◌%◌, ◌≡◌, refl, sym, ap, ◌∙◌, Bool, true, List, [], length, length-map, All, arith,
}
use robot_framework_ros.Prelude.Int.{ℤ}
use robot_framework_ros.Prelude.Run.{ok}
use robot_framework_ros.Prelude.Text.{Text}
use robot_framework_ros.Prelude.Dict.{Dict, All_weaken}
use robot_framework_ros.Platform.{Doubles, CoreLib, Curses}
use robot_framework_ros.Messages.{Heartbeat, Diagnostic, ReadyToArm, ArmCommand, ArmCommandMsg}
use robot_framework_ros.SystemMonitor.NodeInfo.{NodeData, NodeInfoWindow, time_out}
use robot_framework_ros.SystemMonitor.NodeInfo.Refresh.{IsDrawable, update_nodes, update-ok}
use robot_framework_ros.SystemMonitor.NodeInfo.Sound.{
  IsListed, IsSound, heartbeat-IsSound, ready-IsSound, updated-IsSound,
}
use robot_framework_ros.SystemMonitor.Node.{
  MonitorNode, TopicInfo, arm_command_callback, heartbeat_callback, diagnostic_callback,
  ready_to_arm_callback, run10hz, rescan_ros_network, cut,
}
use robot_framework_ros.SystemMonitor.Node.Follow.{Keeps, before_update, before_update-Handled}
use robot_framework_ros.SystemMonitor.Window.{columns}
use robot_framework_ros.SystemMonitor.Diagnostics.{set_node_to_monitor}
use robot_framework_ros.SystemMonitor.Header.{HeaderWindow, header_fits}
use robot_framework_ros.SystemMonitor.Node.Updates.{update_windows-ok, update_windows-returns}
use robot_framework_ros.SystemMonitor.Node.Frames.{
  frames, heartbeat_callback-frames, ready_to_arm_callback-frames, diagnostic_callback-frames,
  run10hz-frames,
}
use robot_framework_ros.SystemMonitor.Node.Screen.{
  init_windows, init_windows_lem, node_info_perc, opens,
}

-- One callback of the monitor; a run of the 10 Hz loop that returns.
pub data Step {D : Type 0} ⦃fl : Doubles D⦄ ⦃core : CoreLib⦄ ⦃keys : Curses⦄
    : MonitorNode D → MonitorNode D → Type 0 where
  hears_arm_command : (msg : ArmCommand) (n : MonitorNode D) → Step n (arm_command_callback msg n)
  hears_heartbeat :
      (msg : Heartbeat) (topic : Text) (n : MonitorNode D) → Step n (heartbeat_callback msg topic n)
  hears_diagnostic :
      (msg : Diagnostic) (topic : Text) (n : MonitorNode D)
      → Step n (diagnostic_callback msg topic n)
  hears_ready_to_arm :
      (msg : ReadyToArm) (topic : Text) (n : MonitorNode D)
      → Step n (ready_to_arm_callback msg topic n)
  runs_10hz :
      (key : ℤ) (available : Bool) (now : D) (n n' : MonitorNode D)
      → run10hz key available now n ≡ ok n'
      → Step n n'
  scans :
      (name namespace : Text) (topics : List (Text × TopicInfo)) (n : MonitorNode D)
      → Step n (rescan_ros_network name namespace topics n)

pub data Reach {D : Type 0} ⦃fl : Doubles D⦄ ⦃core : CoreLib⦄ ⦃keys : Curses⦄ (n0 : MonitorNode D)
    : MonitorNode D → Type 0 where
  here : Reach n0 n0
  next : {n m : MonitorNode D} → Reach n0 n → Step n m → Reach n0 m

module _ {D : Type 0} ⦃fl : Doubles D⦄ ⦃core : CoreLib⦄ ⦃keys : Curses⦄ where
  Keeps-IsSound : (w w' : NodeInfoWindow D) → Keeps w w' → IsSound w → IsSound w'
  Keeps-IsSound w w' k s = record {
    has_win = k.has_win ∙ s.has_win;
    counts =
        k.record_count ∙ s.counts ∙ ap (λ (m : Dict (NodeData D)). length m % 65536) (sym k.nodes);
    listed = coe 1 0 (i. All (λ (j, d). IsListed (length (k.nodes i)) d) (k.nodes i)) s.listed;
  }

  before_update-IsSound :
      (key : ℤ) (available : Bool) (n : MonitorNode D)
      → IsSound n.node_info
      → IsSound (before_update key available n).node_info
        × ((before_update key available n).node_info.nodes ≡ n.node_info.nodes)
  before_update-IsSound key available n s =
      let keeps = (before_update-Handled key available n).node_info in
      (Keeps-IsSound n.node_info (before_update key available n).node_info keeps s, keeps.nodes)

  Step-IsSound : {n m : MonitorNode D} → Step n m → IsSound n.node_info → IsSound m.node_info
  unfolding arm_command_callback heartbeat_callback diagnostic_callback ready_to_arm_callback
      rescan_ros_network run10hz
  Step-IsSound (hears_arm_command msg n) s = s
  Step-IsSound (hears_heartbeat msg topic n) s =
      heartbeat-IsSound (record msg { nodename = cut 10 topic }) n.node_info s
  Step-IsSound (hears_diagnostic msg topic n) s = s
  Step-IsSound (hears_ready_to_arm msg topic n) s =
      ready-IsSound (record msg { nodename = cut 13 topic }) n.node_info s
  Step-IsSound (runs_10hz key available now n n' e) s =
      let n1 = before_update key available n in
      let (sound, _) = before_update-IsSound key available n s in
      let u = update_windows-ok now n1 n' e in
      let (nodes, base) = update-ok now n1.node_info n'.node_info _ sound.has_win u.node_info in
      updated-IsSound now n1.node_info n'.node_info nodes base sound
  Step-IsSound (scans name namespace topics n) s = s

  Reach-IsSound : {n0 n : MonitorNode D} → Reach n0 n → IsSound n0.node_info → IsSound n.node_info
  Reach-IsSound here s = s
  Reach-IsSound (next r st) s = Step-IsSound st (Reach-IsSound r s)

  init_windows-IsSound :
      (unset : D) (height width : ℕ) (latest : ArmCommandMsg) (n : MonitorNode D)
      → opens {D = D} height width node_info_perc ≡ true
      → init_windows unset height width latest ≡ ok n
      → IsSound n.node_info
  init_windows-IsSound unset height width latest n win e =
      let none_listed : n.node_info.nodes ≡ [] =
        ground (arith, init_windows_lem unset height width latest, e) in
      record {
        has_win = ground (arith, init_windows_lem unset height width latest, e, win);
        counts = ground (arith, init_windows_lem unset height width latest, e);
        listed =
            coe 1 0 (i. All (λ (j, d). IsListed (length (none_listed i)) d) (none_listed i)) tt;
      }

  -- A step leaves every window at its place.
  Step-frames : {n m : MonitorNode D} → Step n m → frames m ≡ frames n
  unfolding arm_command_callback rescan_ros_network
  Step-frames (hears_arm_command msg n) = refl
  Step-frames (hears_heartbeat msg topic n) = heartbeat_callback-frames msg topic n
  Step-frames (hears_diagnostic msg topic n) = diagnostic_callback-frames msg topic n
  Step-frames (hears_ready_to_arm msg topic n) = ready_to_arm_callback-frames msg topic n
  Step-frames (runs_10hz key available now n n' e) = run10hz-frames key available now n n' e
  Step-frames (scans name namespace topics n) = refl

  pub Reach-frames : {n0 n : MonitorNode D} → Reach n0 n → frames n ≡ frames n0
  Reach-frames here = refl
  Reach-frames (next r st) = Step-frames st ∙ Reach-frames r

  same_columns :
      (n m : MonitorNode D)
      → frames n ≡ frames m
      → columns n.diagnostic.base ≡ columns m.diagnostic.base
  same_columns n m e = cc e

  texts_fit :
      (now : D) (w : HeaderWindow D)
      → length (fl.to_text now) ≤ 34
      → length (core.pretty_armed_state w.latest_arm_command.armed_state) ≤ 27
      → header_fits now w ≡ true
  texts_fit now w short known = ground arith

  -- Whatever the monitor has heard, whichever keys were pressed and whenever the network was scanned
  -- since its windows were made, in any order: while at most 10000 nodes are listed, the next run of
  -- the 10 Hz loop returns, if ncurses has given the window of the nodes, the window of the
  -- diagnostics was made with three columns or more, and the time and the name of the last armed state
  -- have room in the header. The list counts its nodes, and it still has all of them after that run.
  pub monitor_keeps_running :
      (unset : D) (height width : ℕ) (latest : ArmCommandMsg) (n0 n : MonitorNode D)
      → (key : ℤ) (available : Bool) (now : D) → opens {D = D} height width node_info_perc ≡ true
      → init_windows unset height width latest ≡ ok n0
      → 3 ≤ columns n0.diagnostic.base
      → Reach n0 n
      → length n.node_info.nodes ≤ 10000
      → length (fl.to_text now) ≤ 34
      → length (core.pretty_armed_state n.header.latest_arm_command.armed_state) ≤ 27
      → (n' : MonitorNode D) × (run10hz key available now n ≡ ok n')
        × (n.node_info.base.record_count ≡ length n.node_info.nodes)
        × (length n'.node_info.nodes ≡ length n.node_info.nodes)
  unfolding run10hz set_node_to_monitor
  monitor_keeps_running unset height width latest n0 n key available now win made wide reach room
        short known =
      let s = Reach-IsSound reach (init_windows-IsSound unset height width latest n0 win made) in
      let n1 = before_update key available n in
      let handled = before_update-Handled key available n in
      let (sound, same) = before_update-IsSound key available n s in
      let count = ap length same in
      let (w', e, nodes, base) = update_nodes now n1.node_info sound.has_win (
        All_weaken (λ d. IsListed (length n1.node_info.nodes) d) IsDrawable n1.node_info.nodes
          (λ d (h, l). (omega (arith, h, room, count), l)) sound.listed) in
      let (n', f, listed, _, _) =
        update_windows-returns now n1 true w'
          (coe 1 0 (i. 3 ≤ columns (handled.diagnostic i).base)
            (omega (arith, wide, same_columns n n0 (Reach-frames reach))))
          (ap (header_fits now) handled.header ∙ texts_fit now n.header short known) e in
      (
        n',
        f,
        omega (arith, s.counts, room),
        ap (λ (w : NodeInfoWindow D). length w.nodes) listed
            ∙ ap length nodes
            ∙ length-map {B = Text × NodeData D} n1.node_info.nodes (λ (k, d). (k, time_out now d))
            ∙ count,
      )
