-- ===== src/SystemMonitor/NodeInfo.antt =====
-- The window that lists the nodes: Tools/Applications/SystemMonitor/src/Windows/NodeInfoWindow.cpp
-- and its header. What it draws is kept as the list of its rows, with their colors; the frame and
-- the header line are left out.
pub mod Row
pub mod Width
pub mod Keys
pub mod Events
pub mod Nodes
pub mod Refresh
pub mod Sound
pub mod Abstract
use robot_framework_ros.Prelude.{
  ℕ, ◌+◌, ◌%◌, Bool, true, false, Option, none, some, List, [], ◌∷◌, ◌++◌, map, length, ltb, leb,
  ◌==◌, ◌||◌, if◌then◌else◌,
}
use robot_framework_ros.Prelude.Int.{ℤ, pos, negsuc, eq_ℤ}
use robot_framework_ros.Prelude.Run.{Result, ok, threw, fault}
use robot_framework_ros.Prelude.Text.{Text, text}
use robot_framework_ros.Prelude.Dict.{Dict, find, insert, adjust, map_values}
use robot_framework_ros.Platform.{Doubles}
use robot_framework_ros.Messages.{Heartbeat, ReadyToArm}
use robot_framework_ros.BaseNode.State
use robot_framework_ros.SystemMonitor.Window.{
  Color, red_color, yellow_color, green_color, blue_color, BaseWindow, commtimeout_threshold,
  update_record_count, base_update,
}
use robot_framework_ros.SystemMonitor.NodeInfo.Row.{get_node_info}

pub data NodeType : Type 0 where
  unknown fast non_fast : NodeType

-- The fields `initialized`, `cpu_used_perc` and `mem_used_perc`, which no code that is reached reads,
-- are left out.
pub record NodeData (D : Type 0) : Type 0 where
  pub id : ℕ
  pub node_state : ℕ
  pub type : NodeType
  pub pid : ℕ
  pub host_device : Text
  pub base_node_name : Text
  pub node_name : Text
  pub ready_to_arm : Text
  pub last_heartbeat : D
  pub last_heartbeat_delta : D
  pub restart_count : ℕ

-- A request to the service `change_logger_level` of a node: its name and the level.
pub record LevelRequest : Type 0 where
  pub service : Text
  pub verbosity_level : ℕ

-- `drawn` holds the rows of the last update, and `requests` the service requests, in order.
pub record NodeInfoWindow (D : Type 0) : Type 0 where
  pub base : BaseWindow D
  pub previous_key : ℤ
  pub selected_node : Text
  pub nodes : Dict (NodeData D)
  pub drawn : List (Color × Text)
  pub requests : List LevelRequest

abbrev pub ready_text : ReadyToArm → Text
ready_text msg =
    if msg.system_id == 0 || msg.subsystem_id == 0
    then text "INVALID"
    else if msg.ready_to_arm
    then text "TRUE"
    else text "FALSE"

module _ {D : Type 0} ⦃fl : Doubles D⦄ where
  -- The constructor of `NodeData`; the identity goes through an `int16_t` into a `uint16_t`.
  unfoldable pub new_node_data : ℕ → NodeType → Text → Text → Text → NodeData D
  new_node_data size type device base_node_name node_name = record {
    id = size % 65536;
    node_state = State.state_starting;
    type = type;
    pid = 0;
    host_device = device;
    base_node_name = base_node_name;
    node_name = node_name;
    ready_to_arm = text "UNKNOWN";
    last_heartbeat = fl.lit 0 0;
    last_heartbeat_delta = fl.lit 0 0;
    restart_count = 0;
  }

  unfoldable pub insert_node :
      NodeType → Text → Text → Text → NodeInfoWindow D → Bool × NodeInfoWindow D
  unfolding new_node_data update_record_count
  insert_node type device base_node_name node_name w =
      let before = length w.nodes in
      let new_node = new_node_data before type device base_node_name node_name in
      let nodes = insert node_name new_node w.nodes in
      let after = length nodes in
      (
        ltb before after,
        record w { nodes = nodes; base = update_record_count (after % 65536) w.base },
      )

  unfoldable pub new_heartbeat_msg : Heartbeat → NodeInfoWindow D → NodeInfoWindow D
  unfolding insert_node
  new_heartbeat_msg msg w = elim (find msg.nodename w.nodes) [
    | some d ↦ record w {
      nodes =
          adjust msg.nodename
            (λ n. record n {
              host_device = msg.hostname;
              base_node_name = msg.base_nodename;
              node_state = msg.node_state;
              last_heartbeat_delta = fl.lit 0 0;
              last_heartbeat = w.base.current_time_sec;
            })
            w.nodes;
    }
    | none ↦ (insert_node fast msg.hostname msg.base_nodename msg.nodename w).1
  ]

  unfoldable pub new_ready_to_arm_msg : ReadyToArm → NodeInfoWindow D → NodeInfoWindow D
  unfolding insert_node
  new_ready_to_arm_msg msg w = elim (find msg.nodename w.nodes) [
    | some d ↦ record w {
      nodes =
          adjust msg.nodename
            (λ n. record n {
              ready_to_arm = ready_text msg;
              last_heartbeat_delta = fl.lit 0 0;
              last_heartbeat = w.base.current_time_sec;
            })
            w.nodes;
    }
    | none ↦ (insert_node fast [] [] msg.nodename w).1
  ]

  -- The loop of `update` over the nodes.
  unfoldable pub time_out : D → NodeData D → NodeData D
  time_out now n =
      let delta = fl.sub now n.last_heartbeat in
      if fl.lt commtimeout_threshold delta
      then record n {
        last_heartbeat_delta = delta;
        node_state = State.state_unknown;
        ready_to_arm = text "UNKNOWN";
      }
      else record n { last_heartbeat_delta = delta }

-- The ladder of `updateWindow` from a node's state to the color of its row.
unfoldable pub state_color : ℕ → Color
state_color s =
    if s == State.state_unknown
    then red_color
    else if s == State.state_initializing
    then yellow_color
    else if s == State.state_starting
    then yellow_color
    else if s == State.state_running
    then blue_color
    else if s == State.state_paused
    then green_color
    else if s == State.state_restart
    then yellow_color
    else if s == State.state_finished
    then yellow_color
    else red_color

module _ {D : Type 0} where
  -- `std::sort` by `id`; no two nodes of a window have the same.
  unfoldable pub insert_by_id : NodeData D → List (NodeData D) → List (NodeData D)
  insert_by_id n [] = n ∷ []
  insert_by_id n (m ∷ ms) =
      let rest = insert_by_id n ms in if leb n.id m.id then n ∷ m ∷ ms else m ∷ rest

  unfoldable pub sort_by_id : List (NodeData D) → List (NodeData D)
  unfolding insert_by_id
  sort_by_id [] = []
  sort_by_id (n ∷ ns) = insert_by_id n (sort_by_id ns)

module _ {D : Type 0} ⦃fl : Doubles D⦄ where
  -- The loop of `updateWindow`, from the row of that index.
  unfoldable pub draw_rows : ℕ → List (NodeData D) → NodeInfoWindow D → Result (NodeInfoWindow D)
  unfolding state_color
  draw_rows index [] w = ok w
  draw_rows index (n ∷ ns) w =
      let selected = eq_ℤ (pos index) w.base.record_selected in
      elim (get_node_info n.id n.host_device n.node_name n.node_state n.ready_to_arm
        n.last_heartbeat_delta selected) [
          | none ↦ threw
          | some row ↦ draw_rows ((index + 1) % 65536) ns (record w {
            selected_node = if selected then n.node_name else w.selected_node;
            drawn = w.drawn ++ (state_color n.node_state, row) ∷ [];
          })
        ]

  unfoldable pub update_window : NodeInfoWindow D → Result (Bool × NodeInfoWindow D)
  unfolding draw_rows sort_by_id
  update_window w =
      if w.base.has_win
      then (elim (draw_rows 0 (sort_by_id (map (λ (k, n). n) w.nodes)) (record w { drawn = [] })) [
        | ok w' ↦ ok (true, w')
        | threw ↦ threw
        | fault ↦ fault
      ])
      else ok (false, w)

  unfoldable pub update : D → NodeInfoWindow D → Result (Bool × NodeInfoWindow D)
  unfolding update_window time_out base_update
  update now w =
      update_window
        (record w { base = base_update now w.base; nodes = map_values (time_out now) w.nodes })
