-- ===== src/SystemMonitor/NodeInfo/Sound.antt =====
-- What holds of the list of nodes whatever messages arrive.
use mathlib.Core.Path.{subst}
use robot_framework_ros.Prelude.{
  ℕ, ◌<◌, ◌≤◌, ◌%◌, ◌≡◌, refl, sym, ap, ◌∙◌, true, none, [], length, length-map, All, arith,
  Option-cases, inl, inr,
}
use robot_framework_ros.Prelude.Text.{Text}
use robot_framework_ros.Prelude.Dict.{
  find, insert, adjust, map_values, length-insert, length-adjust, All-insert, All-adjust,
  All-map_values, All_weaken,
}
use robot_framework_ros.Platform.{Doubles}
use robot_framework_ros.Messages.{Heartbeat, ReadyToArm}
use robot_framework_ros.SystemMonitor.Window.{BaseWindow, base_update, update_record_count}
use robot_framework_ros.SystemMonitor.NodeInfo.{
  NodeData, NodeInfoWindow, NodeType, fast, new_node_data, insert_node, new_heartbeat_msg,
  new_ready_to_arm_msg, ready_text, time_out,
}
use robot_framework_ros.SystemMonitor.NodeInfo.Nodes.{
  refreshed, told, heartbeat_fresh, heartbeat_known, ready_fresh, ready_known,
}

-- A node that is listed with `count` others: its identity is below their number, and its arming text
-- fits its column.
abbrev pub IsListed : {D : Type 0} → ℕ → NodeData D → Type 0
IsListed count d = (d.id < count) × (length d.ready_to_arm ≤ 15)

-- The list is set and counts its nodes.
pub record IsSound {D : Type 0} (w : NodeInfoWindow D) : Type 0 where
  pub has_win : w.base.has_win ≡ true
  pub counts : w.base.record_count ≡ length w.nodes % 65536
  pub listed : All (λ (k, d). IsListed (length w.nodes) d) w.nodes

length-ready_text : (msg : ReadyToArm) → length (ready_text msg) ≤ 15
length-ready_text msg = ground arith

module _ {D : Type 0} ⦃fl : Doubles D⦄ where
  insert_node-IsSound :
      (type : NodeType) (device base name : Text) (w : NodeInfoWindow D)
      → find name w.nodes ≡ none
      → IsSound w
      → IsSound (insert_node type device base name w).1
  unfolding insert_node new_node_data update_record_count
  insert_node-IsSound type device base name w fresh s =
      let d = new_node_data (length w.nodes) type device base name in
      let one_more = length-insert name d w.nodes fresh in
      record {
        has_win = s.has_win;
        counts = refl;
        listed =
            All-insert (λ n. IsListed (length (insert name d w.nodes)) n) name d w.nodes
              (omega (arith, one_more), omega arith)
              (All_weaken (λ n. IsListed (length w.nodes) n)
                (λ n. IsListed (length (insert name d w.nodes)) n) w.nodes
                (λ n (h, l). (omega (arith, one_more, h), l)) s.listed);
      }

  adjust-IsSound :
      (name : Text) (f : NodeData D → NodeData D) (w : NodeInfoWindow D)
      → ((d : NodeData D) → IsListed (length w.nodes) d → IsListed (length w.nodes) (f d))
      → IsSound w
      → IsSound (record w { nodes = adjust name f w.nodes })
  adjust-IsSound name f w keeps s =
      let same = length-adjust name f w.nodes in
      record {
        has_win = s.has_win;
        counts = omega (arith, same, s.counts);
        listed =
            All_weaken (λ n. IsListed (length w.nodes) n)
              (λ n. IsListed (length (adjust name f w.nodes)) n) (adjust name f w.nodes)
              (λ n (h, l). (omega (arith, same, h), l))
              (All-adjust (λ n. IsListed (length w.nodes) n) name f w.nodes keeps s.listed);
      }

  pub heartbeat-IsSound :
      (msg : Heartbeat) (w : NodeInfoWindow D) → IsSound w → IsSound (new_heartbeat_msg msg w)
  heartbeat-IsSound msg w s = elim (Option-cases (find msg.nodename w.nodes)) [
    | inl fresh ↦
        subst IsSound (sym (heartbeat_fresh msg w fresh))
          (insert_node-IsSound fast msg.hostname msg.base_nodename msg.nodename w fresh s)
    | inr (d, known) ↦
        subst IsSound (sym (heartbeat_known msg w d known))
          (adjust-IsSound msg.nodename (refreshed msg w) w (λ n h. h) s)
  ]

  pub ready-IsSound :
      (msg : ReadyToArm) (w : NodeInfoWindow D) → IsSound w → IsSound (new_ready_to_arm_msg msg w)
  ready-IsSound msg w s = elim (Option-cases (find msg.nodename w.nodes)) [
    | inl fresh ↦
        subst IsSound (sym (ready_fresh msg w fresh))
          (insert_node-IsSound fast [] [] msg.nodename w fresh s)
    | inr (d, known) ↦
        subst IsSound (sym (ready_known msg w d known))
          (adjust-IsSound msg.nodename (told msg w) w (λ n (h, l). (h, length-ready_text msg)) s)
  ]

  time_out-IsListed :
      (now : D) (count : ℕ) (d : NodeData D) → IsListed count d → IsListed count (time_out now d)
  unfolding time_out
  time_out-IsListed now count d h = ground arith

  pub updated-IsSound :
      (now : D) (w w' : NodeInfoWindow D)
      → w'.nodes ≡ map_values (time_out now) w.nodes
      → w'.base ≡ base_update now w.base
      → IsSound w
      → IsSound w'
  unfolding base_update
  updated-IsSound now w w' nodes base s =
      let same =
        ap length nodes
        ∙ length-map {B = Text × NodeData D} w.nodes (λ (k, n). (k, time_out now n)) in
      record {
        has_win = ap (λ (b : BaseWindow D). b.has_win) base ∙ s.has_win;
        counts = ap (λ (b : BaseWindow D). b.record_count) base ∙ omega (arith, same, s.counts);
        listed = coe 1 0 (i. All (λ (k, n). IsListed (same i) n) (nodes i)) (
            All-map_values (λ n. IsListed (length w.nodes) n) (λ n. IsListed (length w.nodes) n)
              (time_out now) w.nodes (time_out-IsListed now (length w.nodes)) s.listed);
      }
