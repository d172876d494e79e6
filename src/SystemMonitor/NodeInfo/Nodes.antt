-- ===== src/SystemMonitor/NodeInfo/Nodes.antt =====
-- What the list of nodes holds after a heartbeat, a ready-to-arm status and an update.
use robot_framework_ros.Prelude.{◌+◌, ◌<◌, ◌≡◌, refl, none, some, [], length, arith, if◌then◌else◌}
use robot_framework_ros.Prelude.Text.{Text, text_eq, text_eq_iff}
use robot_framework_ros.Prelude.Dict.{
  Dict, find, adjust, find-insert, length-insert, find-adjust, length-adjust,
}
use robot_framework_ros.Platform.{Doubles}
use robot_framework_ros.Messages.{Heartbeat, ReadyToArm}
use robot_framework_ros.SystemMonitor.Window.{update_record_count}
use robot_framework_ros.SystemMonitor.NodeInfo.{
  fast, NodeData, NodeInfoWindow, new_node_data, insert_node, new_heartbeat_msg,
  new_ready_to_arm_msg, ready_text,
}

-- The window counts its nodes, and there is room for their number in a `uint16_t`.
abbrev pub IsCounted : {D : Type 0} → NodeInfoWindow D → Type 0
IsCounted w = (w.base.record_count ≡ length w.nodes) × (length w.nodes < 65535)

module _ {D : Type 0} ⦃fl : Doubles D⦄ where
  abbrev pub refreshed : Heartbeat → NodeInfoWindow D → NodeData D → NodeData D
  refreshed msg w n = record n {
    host_device = msg.hostname;
    base_node_name = msg.base_nodename;
    node_state = msg.node_state;
    last_heartbeat_delta = fl.lit 0 0;
    last_heartbeat = w.base.current_time_sec;
  }

  abbrev pub told : ReadyToArm → NodeInfoWindow D → NodeData D → NodeData D
  told msg w n = record n {
    ready_to_arm = ready_text msg;
    last_heartbeat_delta = fl.lit 0 0;
    last_heartbeat = w.base.current_time_sec;
  }

  pub heartbeat_fresh :
      (msg : Heartbeat) (w : NodeInfoWindow D)
      → find msg.nodename w.nodes ≡ none
      → new_heartbeat_msg msg w ≡ (insert_node fast msg.hostname msg.base_nodename msg.nodename w).1
  unfolding new_heartbeat_msg
  heartbeat_fresh msg w fresh = ground arith

  pub heartbeat_known :
      (msg : Heartbeat) (w : NodeInfoWindow D) (n : NodeData D)
      → find msg.nodename w.nodes ≡ some n
      → new_heartbeat_msg msg w ≡ record w { nodes = adjust msg.nodename (refreshed msg w) w.nodes }
  unfolding new_heartbeat_msg
  heartbeat_known msg w n known = ground arith

  pub ready_known :
      (msg : ReadyToArm) (w : NodeInfoWindow D) (n : NodeData D)
      → find msg.nodename w.nodes ≡ some n
      → new_ready_to_arm_msg msg w ≡ record w { nodes = adjust msg.nodename (told msg w) w.nodes }
  unfolding new_ready_to_arm_msg
  ready_known msg w n known = ground arith

  pub ready_fresh :
      (msg : ReadyToArm) (w : NodeInfoWindow D)
      → find msg.nodename w.nodes ≡ none
      → new_ready_to_arm_msg msg w ≡ (insert_node fast [] [] msg.nodename w).1
  unfolding new_ready_to_arm_msg
  ready_fresh msg w fresh = ground arith

  pub found_adjusted :
      (k j : Text) (f : NodeData D → NodeData D) (m : Dict (NodeData D)) (n : NodeData D)
      → find k m ≡ some n
      → find j (adjust k f m) ≡ (if text_eq k j then some (f n) else find j m)
  found_adjusted k j f m n known = ground (arith, find-adjust k j f m, text_eq_iff k j)

  -- The heartbeat of a node that is not listed adds it, as STARTING, with the number of the nodes
  -- listed before as its identity, and keeps every other node. The window's count goes up by one.
  pub new_heartbeat_msg_adds :
      (msg : Heartbeat) (k : Text) (w : NodeInfoWindow D)
      → IsCounted w
      → find msg.nodename w.nodes ≡ none
      → let w' = new_heartbeat_msg msg w in
        (find k w'.nodes ≡ (
          if text_eq msg.nodename k
          then some
              (new_node_data (w.base.record_count) fast msg.hostname msg.base_nodename msg.nodename)
          else find k w.nodes))
        × (w'.base.record_count ≡ w.base.record_count + 1)
        × (w'.base.record_count ≡ length w'.nodes)
  unfolding insert_node update_record_count
  new_heartbeat_msg_adds msg k w (counted, room) fresh =
      let n = new_node_data (length w.nodes) fast msg.hostname msg.base_nodename msg.nodename in
      rw (heartbeat_fresh msg w fresh, counted)
        (
          find-insert msg.nodename k n w.nodes,
          omega (arith, length-insert msg.nodename n w.nodes fresh, counted, room),
          omega (arith, length-insert msg.nodename n w.nodes fresh, room),
        )

  -- The heartbeat of a listed node brings its host, its base name, its state and the time of the
  -- heartbeat up to date, keeps its identity, its name and its arming text, and changes no other node
  -- and not the count.
  pub new_heartbeat_msg_refreshes :
      (msg : Heartbeat) (k : Text) (w : NodeInfoWindow D) (n : NodeData D)
      → find msg.nodename w.nodes ≡ some n
      → let w' = new_heartbeat_msg msg w in
        (find k w'.nodes ≡ (
          if text_eq msg.nodename k
          then some (record n {
            host_device = msg.hostname;
            base_node_name = msg.base_nodename;
            node_state = msg.node_state;
            last_heartbeat_delta = fl.lit 0 0;
            last_heartbeat = w.base.current_time_sec;
          })
          else find k w.nodes))
        × (w'.base ≡ w.base)
        × (length w'.nodes ≡ length w.nodes)
  new_heartbeat_msg_refreshes msg k w n known = rw (heartbeat_known msg w n known) (
    found_adjusted msg.nodename k (refreshed msg w) w.nodes n known,
    refl,
    length-adjust msg.nodename (refreshed msg w) w.nodes,
  )

  -- The arming status of a listed node sets its text, INVALID if the system or the subsystem is 0 and
  -- otherwise by the flag, and the time of its last message; it changes nothing else of the node, no
  -- other node and not the count.
  pub new_ready_to_arm_msg_sets :
      (msg : ReadyToArm) (k : Text) (w : NodeInfoWindow D) (n : NodeData D)
      → find msg.nodename w.nodes ≡ some n
      → let w' = new_ready_to_arm_msg msg w in
        (find k w'.nodes ≡ (
          if text_eq msg.nodename k
          then some (record n {
            ready_to_arm = ready_text msg;
            last_heartbeat_delta = fl.lit 0 0;
            last_heartbeat = w.base.current_time_sec;
          })
          else find k w.nodes))
        × (w'.base ≡ w.base)
        × (length w'.nodes ≡ length w.nodes)
  new_ready_to_arm_msg_sets msg k w n known = rw (ready_known msg w n known) (
    found_adjusted msg.nodename k (told msg w) w.nodes n known,
    refl,
    length-adjust msg.nodename (told msg w) w.nodes,
  )
