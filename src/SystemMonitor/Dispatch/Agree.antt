-- ===== src/SystemMonitor/Dispatch/Agree.antt =====
-- The node with its map of windows beside the node with six windows.
use robot_framework_ros.Prelude.{◌≡◌, refl, sym, ◌∙◌, Bool, Option, List, [], ◌∷◌, ◌||◌, arith}
use robot_framework_ros.Prelude.Int.{ℤ, pos, eq_ℤ}
use robot_framework_ros.Prelude.Run.{ok}
use robot_framework_ros.Prelude.Fallible.{◌>>=◌}
use robot_framework_ros.Prelude.Text.{Text}
use robot_framework_ros.Prelude.Dict.{Dict}
use robot_framework_ros.Platform.{Doubles, CoreLib, Curses}
use robot_framework_ros.SystemMonitor.Window.{MessageText}
use robot_framework_ros.Messages.{Heartbeat, Diagnostic, ReadyToArm, ArmCommand}
use robot_framework_ros.SystemMonitor.Node
use robot_framework_ros.SystemMonitor.Node.{
  MonitorNode, TopicInfo, handle_key, show_messages, update_windows,
}
use robot_framework_ros.SystemMonitor.Dispatch.{
  update, give_messages, give_all, update_all, run10hz, arm_command_callback, heartbeat_callback,
  diagnostic_callback, ready_to_arm_callback, rescan_ros_network, new_arm_command_msg,
  new_heartbeat_msg, new_diagnostic_msg, new_ready_to_arm_msg,
}
use robot_framework_ros.SystemMonitor.Dispatch.Visit.{
  windows_of, as_monitor, IsNamed, keeps_names, visit_windows,
}

module _ {D : Type 0} ⦃fl : Doubles D⦄ ⦃core : CoreLib⦄ ⦃curses : Curses⦄ where
  give_windows :
      (ms : List MessageText) (n : MonitorNode D)
      → give_all ms (windows_of n) ≡ windows_of (show_messages ms n)
  unfolding give_messages
  give_windows [] n = refl
  give_windows (m ∷ ms) n = refl

  update_windows_of :
      (now : D) (n : MonitorNode D)
      → update_all now (windows_of n) ≡ (update_windows now n >>= λ n'. ok (windows_of n'))
  unfolding update_all update update_windows
  update_windows_of now n = ground arith

  -- The rest of the node goes through the last loop unchanged.
  updates_agree :
      (now : D) (sub : Option Text) (n : MonitorNode D) (selected : Text) (subs : Dict Text)
      → (quit : Bool) → selected ≡ n.selected_node
      → subs ≡ n.auto_subs
      → quit ≡ n.shut_down
      → ((update_windows now n >>= λ n'. ok (windows_of n')) >>= λ ws. ok (record {
        windows = ws;
        selected_node = selected;
        auto_subs = subs;
        arm_command_sub = sub;
        shut_down = quit;
      }))
        ≡ (update_windows now n >>= λ n'. ok (as_monitor sub n'))
  unfolding update_windows
  updates_agree now sub n selected subs quit e f g = ground (arith, e, f, g)

  shown_rest :
      (ms : List MessageText) (n : MonitorNode D)
      → ((show_messages ms n).selected_node ≡ n.selected_node)
        × ((show_messages ms n).auto_subs ≡ n.auto_subs)
        × ((show_messages ms n).shut_down ≡ n.shut_down)
  shown_rest [] n = (refl, refl, refl)
  shown_rest (m ∷ ms) n = (refl, refl, refl)

  handled_rest :
      (key : ℤ) (available : Bool) (n : MonitorNode D)
      → let n' = (handle_key key available n).1 in
        (n'.auto_subs ≡ n.auto_subs) × (n'.shut_down ≡ n.shut_down)
  unfolding handle_key
  handled_rest key available n = (refl, refl)

  -- With windows under their own names, a run of the 10 Hz loop over the map throws or faults exactly
  -- where the run over the six windows does, and otherwise leaves the map of the windows, the selected
  -- node and the shutdown that this run leaves.
  pub run10hz_agrees :
      (key : ℤ) (available : Bool) (now : D) (sub : Option Text) (n : MonitorNode D)
      → IsNamed n
      → run10hz key available now (as_monitor sub n)
        ≡ (Node.run10hz key available now n >>= λ n'. ok (as_monitor sub n'))
  unfolding run10hz Node.run10hz
  run10hz_agrees key available now sub n names =
      let n0 : MonitorNode D = record n {
        shut_down = n.shut_down || (eq_ℤ key (pos 113) || eq_ℤ key (pos 81));
      } in
      let (ms, n1) = handle_key key available n0 in
      rw
        (
          visit_windows key available n0 (keeps_names n names),
          give_windows ms n1,
          update_windows_of now (show_messages ms n1),
        )
        (updates_agree now sub (show_messages ms n1) _ _ _ (sym (shown_rest ms n1).0)
          (sym ((shown_rest ms n1).1 ∙ (handled_rest key available n0).0))
          (sym ((shown_rest ms n1).2 ∙ (handled_rest key available n0).1)))

module _ {D : Type 0} ⦃fl : Doubles D⦄ where
  -- Each callback over the map leaves what the callback over the six windows leaves: a message reaches
  -- the one class of windows that does not ignore it. So does a scan of the network.
  pub callbacks_agree :
      (arm : ArmCommand) (beat : Heartbeat) (diagnostic : Diagnostic) (ready : ReadyToArm)
      → (topic name namespace : Text) (topics : List (Text × TopicInfo)) (sub : Option Text)
      → (n : MonitorNode D)
      → let m = as_monitor sub n in
        (arm_command_callback arm m ≡ as_monitor sub (Node.arm_command_callback arm n))
        × (heartbeat_callback beat topic m ≡ as_monitor sub (Node.heartbeat_callback beat topic n))
        × (diagnostic_callback diagnostic topic m
            ≡ as_monitor sub (Node.diagnostic_callback diagnostic topic n))
        × (ready_to_arm_callback ready topic m
            ≡ as_monitor sub (Node.ready_to_arm_callback ready topic n))
        × (rescan_ros_network name namespace topics m
            ≡ as_monitor sub (Node.rescan_ros_network name namespace topics n))
  unfolding arm_command_callback Node.arm_command_callback new_arm_command_msg heartbeat_callback
      Node.heartbeat_callback new_heartbeat_msg diagnostic_callback Node.diagnostic_callback
      new_diagnostic_msg ready_to_arm_callback Node.ready_to_arm_callback new_ready_to_arm_msg
      rescan_ros_network Node.rescan_ros_network
  callbacks_agree arm beat diagnostic ready topic name namespace topics sub n =
      (refl, refl, refl, refl, refl)
