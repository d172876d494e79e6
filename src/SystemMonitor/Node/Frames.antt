-- ===== src/SystemMonitor/Node/Frames.antt =====
-- The windows keep their names and their places.
use robot_framework_ros.Prelude.{
  ◌≡◌, refl, ap, ◌∙◌, Bool, List, [], ◌∷◌, ◌||◌, arith, Bool-cases, inl, inr,
}
use robot_framework_ros.Prelude.Int.{ℤ, pos, eq_ℤ}
use robot_framework_ros.Prelude.Run.{ok}
use robot_framework_ros.Prelude.Text.{Text}
use robot_framework_ros.Platform.{Doubles, CoreLib, Curses}
use robot_framework_ros.Messages.{Heartbeat, Diagnostic, ReadyToArm}
use robot_framework_ros.SystemMonitor.Window.{
  ScreenCoordinatePixel, MessageText, base_update, frame, update_record_count,
}
use robot_framework_ros.SystemMonitor.NodeInfo.{
  NodeInfoWindow, insert_node, new_heartbeat_msg, new_ready_to_arm_msg, update, update_window,
}
use robot_framework_ros.SystemMonitor.NodeInfo.Refresh.{update-ok}
use robot_framework_ros.SystemMonitor.Menu.{update_menu, update_menu_window}
use robot_framework_ros.SystemMonitor.Message.{
  new_message_text_list, set_message_text, update_message, update_message_window,
}
use robot_framework_ros.SystemMonitor.Diagnostics.{new_diagnostic_msg, set_node_to_monitor}
use robot_framework_ros.SystemMonitor.Node.{
  MonitorNode, handle_key, show_messages, update_status, heartbeat_callback, diagnostic_callback,
  ready_to_arm_callback, run10hz,
}
use robot_framework_ros.SystemMonitor.Node.Follow.{new_key_event-Keeps}
use robot_framework_ros.SystemMonitor.Node.Updates.{
  with_updates, Updated, update_windows-ok, update_diagnostics-ok, update_header-ok,
}

module _ {D : Type 0} where
  -- Of the six windows, in the order in which they are visited.
  abbrev pub frames : MonitorNode D → List (Text × ScreenCoordinatePixel × Bool)
  frames n =
      frame n.diagnostic.base
      ∷ frame n.header.base
      ∷ frame n.menu.base
      ∷ frame n.message.base
      ∷ frame n.node_info.base
      ∷ frame n.status
      ∷ []

module _ {D : Type 0} ⦃fl : Doubles D⦄ where
  pub heartbeat_callback-frames :
      (msg : Heartbeat) (topic : Text) (n : MonitorNode D)
      → frames (heartbeat_callback msg topic n) ≡ frames n
  unfolding heartbeat_callback new_heartbeat_msg insert_node update_record_count
  heartbeat_callback-frames msg topic n = ground arith

  pub ready_to_arm_callback-frames :
      (msg : ReadyToArm) (topic : Text) (n : MonitorNode D)
      → frames (ready_to_arm_callback msg topic n) ≡ frames n
  unfolding ready_to_arm_callback new_ready_to_arm_msg insert_node update_record_count
  ready_to_arm_callback-frames msg topic n = ground arith

  pub diagnostic_callback-frames :
      (msg : Diagnostic) (topic : Text) (n : MonitorNode D)
      → frames (diagnostic_callback msg topic n) ≡ frames n
  unfolding diagnostic_callback new_diagnostic_msg
  diagnostic_callback-frames msg topic n = ground arith

  update-frame :
      (now : D) (w w' : NodeInfoWindow D) (b : Bool)
      → update now w ≡ ok (b, w')
      → frame w'.base ≡ frame w.base
  unfolding update update_window base_update
  update-frame now w w' b e = elim (Bool-cases w.base.has_win) [
    | inl set ↦ ap frame (update-ok now w w' b set e).1
    | inr closed ↦ ground (arith, closed, e)
  ]

module _ {D : Type 0} ⦃fl : Doubles D⦄ ⦃core : CoreLib⦄ ⦃keys : Curses⦄ where
  handle_key-frames :
      (key : ℤ) (available : Bool) (n : MonitorNode D)
      → frames (handle_key key available n).1 ≡ frames n
  unfolding handle_key set_node_to_monitor
  handle_key-frames key available n = ground (arith, new_key_event-Keeps key available n.node_info)

  show_messages-frames :
      (ms : List MessageText) (n : MonitorNode D) → frames (show_messages ms n) ≡ frames n
  unfolding new_message_text_list set_message_text
  show_messages-frames [] n = refl
  show_messages-frames (m ∷ []) n = ground arith
  show_messages-frames (m ∷ m' ∷ ms) n = refl

  with_updates-frames :
      (now : D) (n n' : MonitorNode D)
      → frame n'.diagnostic.base ≡ frame n.diagnostic.base
      → frame n'.header.base ≡ frame n.header.base
      → frame n'.node_info.base ≡ frame n.node_info.base
      → frames (with_updates now n n'.diagnostic n'.header n'.node_info) ≡ frames n
  unfolding update_menu update_menu_window update_message update_message_window update_status
      base_update
  with_updates-frames now n n' d h l = ground (arith, d, h, l)

  Updated-frames : (now : D) (n n' : MonitorNode D) → Updated now n n' → frames n' ≡ frames n
  unfolding base_update
  Updated-frames now n n' u =
      let (db, _) = update_diagnostics-ok now n.diagnostic n'.diagnostic _ u.diagnostic in
      let (hb, _) = update_header-ok now n.header n'.header _ u.header in
      ap frames u.whole
      ∙ with_updates-frames now n n' (ap frame db) (ap frame hb)
          (update-frame now n.node_info n'.node_info _ u.node_info)

  pub run10hz-frames :
      (key : ℤ) (available : Bool) (now : D) (n n' : MonitorNode D)
      → run10hz key available now n ≡ ok n'
      → frames n' ≡ frames n
  unfolding run10hz
  run10hz-frames key available now n n' e =
      let n0 : MonitorNode D = record n {
        shut_down = n.shut_down || (eq_ℤ key (pos 113) || eq_ℤ key (pos 81));
      } in
      let (ms, n1) = handle_key key available n0 in
      Updated-frames now (show_messages ms n1) n' (update_windows-ok now (show_messages ms n1) n' e)
      ∙ show_messages-frames ms n1
      ∙ handle_key-frames key available n0
