-- ===== src/SystemMonitor/NodeInfo/Abstract.antt =====
-- The list of nodes as a function from the names of nodes, and what messages make of it.
use robot_framework_ros.Prelude.{
  ℕ, ◌+◌, ◌≡◌, refl, sym, ap, ◌∙◌, Option, none, some, List, [], ◌∷◌, length, arith, if◌then◌else◌,
  Option-cases, inl, inr,
}
use mathlib.Core.Path.{fun_ext}
use robot_framework_ros.Prelude.Text.{Text, text_eq}
use robot_framework_ros.SystemMonitor.Window.{update_record_count}
use robot_framework_ros.Prelude.Dict.{find, adjust, find-insert, length-insert, length-adjust}
use robot_framework_ros.Platform.{Doubles}
use robot_framework_ros.Messages.{Heartbeat, ReadyToArm}
use robot_framework_ros.SystemMonitor.NodeInfo.{
  NodeData, NodeInfoWindow, fast, new_node_data, insert_node, new_heartbeat_msg,
  new_ready_to_arm_msg, ready_text,
}
use robot_framework_ros.SystemMonitor.NodeInfo.Nodes.{
  refreshed, told, heartbeat_fresh, heartbeat_known, ready_fresh, ready_known, found_adjusted,
}

-- What is known of each name, and how many nodes are.
pub record Known (D : Type 0) : Type 0 where
  pub node : Text → Option (NodeData D)
  pub count : ℕ

pub data NodeMessage : Type 0 where
  heartbeat : Heartbeat → NodeMessage
  ready : ReadyToArm → NodeMessage

module _ {D : Type 0} where
  unfoldable pub known : NodeInfoWindow D → Known D
  known w = record { node = λ k. find k w.nodes; count = length w.nodes }

  -- The abstract operation: the node of that name is changed if it is known, and otherwise there is one
  -- more, which is new.
  abbrev pub meet : Text → (NodeData D → NodeData D) → NodeData D → Known D → Known D
  meet name change new v = elim (v.node name) [
    | none ↦ record {
      node = λ k. if text_eq name k then some new else v.node k;
      count = v.count + 1;
    }
    | some d ↦ record {
      node = λ k. if text_eq name k then some (change d) else v.node k;
      count = v.count;
    }
  ]

module _ {D : Type 0} ⦃fl : Doubles D⦄ where
  -- At the time `now`: a heartbeat brings a known node up to date and introduces another as STARTING;
  -- an arming status sets the text of a known node, and introduces another without it.
  abbrev pub message_step : D → NodeMessage → Known D → Known D
  message_step now (heartbeat msg) v =
      meet msg.nodename
        (λ d. record d {
          host_device = msg.hostname;
          base_node_name = msg.base_nodename;
          node_state = msg.node_state;
          last_heartbeat_delta = fl.lit 0 0;
          last_heartbeat = now;
        })
        (new_node_data v.count fast msg.hostname msg.base_nodename msg.nodename) v
  message_step now (ready msg) v =
      meet msg.nodename
        (λ d. record d {
          ready_to_arm = ready_text msg;
          last_heartbeat_delta = fl.lit 0 0;
          last_heartbeat = now;
        })
        (new_node_data v.count fast [] [] msg.nodename) v

  unfoldable pub message_steps : D → List NodeMessage → Known D → Known D
  message_steps now [] v = v
  message_steps now (m ∷ ms) v = message_steps now ms (message_step now m v)

  -- The window's own functions.
  unfoldable pub hear : NodeMessage → NodeInfoWindow D → NodeInfoWindow D
  hear (heartbeat msg) w = new_heartbeat_msg msg w
  hear (ready msg) w = new_ready_to_arm_msg msg w

  unfoldable pub hear_all : List NodeMessage → NodeInfoWindow D → NodeInfoWindow D
  unfolding hear
  hear_all [] w = w
  hear_all (m ∷ ms) w = hear_all ms (hear m w)

  Known_ext : {v v' : Known D} → ((k : Text) → v.node k ≡ v'.node k) → v.count ≡ v'.count → v ≡ v'
  Known_ext h e i = record { node = fun_ext h i; count = e i }

  known-insert :
      (device base name : Text) (w : NodeInfoWindow D)
      → find name w.nodes ≡ none
      → known (insert_node fast device base name w).1 ≡ record {
        node = λ k.
            if text_eq name k
            then some (new_node_data (length w.nodes) fast device base name)
            else find k w.nodes;
        count = length w.nodes + 1;
      }
  unfolding known insert_node
  known-insert device base name w fresh =
      let d = new_node_data (length w.nodes) fast device base name in
      Known_ext (λ k. find-insert name k d w.nodes)
        (omega (arith, length-insert name d w.nodes fresh))

  known-adjust :
      (name : Text) (f : NodeData D → NodeData D) (w : NodeInfoWindow D) (d : NodeData D)
      → find name w.nodes ≡ some d
      → known (record w { nodes = adjust name f w.nodes }) ≡ record {
        node = λ k. if text_eq name k then some (f d) else find k w.nodes;
        count = length w.nodes;
      }
  unfolding known
  known-adjust name f w d there =
      Known_ext (λ k. found_adjusted name k f w.nodes d there) (length-adjust name f w.nodes)

  meet-none :
      (name : Text) (f : NodeData D → NodeData D) (new : NodeData D) (w : NodeInfoWindow D)
      → find name w.nodes ≡ none
      → meet name f new (known w) ≡ record {
        node = λ k. if text_eq name k then some new else find k w.nodes;
        count = length w.nodes + 1;
      }
  unfolding known
  meet-none name f new w fresh = rw (fresh, meet) refl

  meet-some :
      (name : Text) (f : NodeData D → NodeData D) (new d : NodeData D) (w : NodeInfoWindow D)
      → find name w.nodes ≡ some d
      → meet name f new (known w) ≡ record {
        node = λ k. if text_eq name k then some (f d) else find k w.nodes;
        count = length w.nodes;
      }
  unfolding known
  meet-some name f new d w there = rw (there, meet) refl

  hear-known :
      (m : NodeMessage) (w : NodeInfoWindow D)
      → (known (hear m w) ≡ message_step w.base.current_time_sec m (known w))
        × ((hear m w).base.current_time_sec ≡ w.base.current_time_sec)
  unfolding hear known insert_node update_record_count
  hear-known (heartbeat msg) w = elim (Option-cases (find msg.nodename w.nodes)) [
    | inl fresh ↦ (
      ap known (heartbeat_fresh msg w fresh)
          ∙ known-insert msg.hostname msg.base_nodename msg.nodename w fresh
          ∙ sym (
              meet-none msg.nodename (refreshed msg w)
                (new_node_data (length w.nodes) fast msg.hostname msg.base_nodename msg.nodename) w
                fresh),
      ap (λ (x : NodeInfoWindow D). x.base.current_time_sec) (heartbeat_fresh msg w fresh),
    )
    | inr (d, there) ↦ (
      ap known (heartbeat_known msg w d there)
          ∙ known-adjust msg.nodename (refreshed msg w) w d there
          ∙ sym (
              meet-some msg.nodename (refreshed msg w)
                (new_node_data (length w.nodes) fast msg.hostname msg.base_nodename msg.nodename) d
                w there),
      ap (λ (x : NodeInfoWindow D). x.base.current_time_sec) (heartbeat_known msg w d there),
    )
  ]
  hear-known (ready msg) w =
      let new : NodeData D = new_node_data (length w.nodes) fast [] [] msg.nodename in
      elim (Option-cases (find msg.nodename w.nodes)) [
        | inl fresh ↦ (
          ap known (ready_fresh msg w fresh)
              ∙ known-insert [] [] msg.nodename w fresh
              ∙ sym (meet-none msg.nodename (told msg w) new w fresh),
          ap (λ (x : NodeInfoWindow D). x.base.current_time_sec) (ready_fresh msg w fresh),
        )
        | inr (d, there) ↦ (
          ap known (ready_known msg w d there)
              ∙ known-adjust msg.nodename (told msg w) w d there
              ∙ sym (meet-some msg.nodename (told msg w) new d w there),
          ap (λ (x : NodeInfoWindow D). x.base.current_time_sec) (ready_known msg w d there),
        )
      ]

  -- Between two updates of the window, any sequence of heartbeats and arming statuses leaves the list
  -- as the abstract operations leave the function that it stands for: what is found under every name,
  -- and the number of nodes, are those of the abstract list.
  pub hear_all_refines :
      (ms : List NodeMessage) (w : NodeInfoWindow D)
      → known (hear_all ms w) ≡ message_steps w.base.current_time_sec ms (known w)
  unfolding hear_all message_steps
  hear_all_refines [] w = refl
  hear_all_refines (m ∷ ms) w =
      let (step, clock) = hear-known m w in
      hear_all_refines ms (hear m w)
      ∙ ap (λ t. message_steps t ms (known (hear m w))) clock
      ∙ ap (message_steps w.base.current_time_sec ms) step
