-- ===== src/SystemMonitor/NodeInfo/Refresh.antt =====
-- What an update of the node list does to the nodes, and what it draws.
use robot_framework_ros.Prelude.{
  ℕ, ◌+◌, ◌%◌, ◌<◌, ◌≤◌, ◌≡◌, refl, sym, ap, ◌∙◌, inl, inr, Option-cases, Bool, true, false, none,
  some, List, [], ◌∷◌, ◌++◌, map, length, length-append, length-map, leb, All, arith, if◌then◌else◌,
}
use robot_framework_ros.Prelude.Int.{pos, eq_ℤ}
use robot_framework_ros.Prelude.Run.{ok}
use robot_framework_ros.Prelude.Text.{Text, text}
use robot_framework_ros.Prelude.Dict.{Dict, find, map_values, find-map_values}
use robot_framework_ros.Platform.{Doubles}
use robot_framework_ros.BaseNode.State.{state_unknown}
use robot_framework_ros.SystemMonitor.Window.{base_update}
use robot_framework_ros.SystemMonitor.NodeInfo.{
  NodeData, NodeInfoWindow, time_out, state_color, insert_by_id, sort_by_id, draw_rows,
  update_window, update,
}
use robot_framework_ros.SystemMonitor.NodeInfo.Row.{get_node_info}
use robot_framework_ros.SystemMonitor.NodeInfo.Width.{row_made}

-- The row of such a node can be made.
abbrev pub IsDrawable : {D : Type 0} → NodeData D → Type 0
IsDrawable n = (n.id < 10000) × (length n.ready_to_arm ≤ 15)

module _ {D : Type 0} where
  insert_by_id-All :
      (n : NodeData D) (ns : List (NodeData D))
      → IsDrawable n
      → All IsDrawable ns
      → All IsDrawable (insert_by_id n ns)
  unfolding insert_by_id
  insert_by_id-All n [] h hs = (h, tt)
  insert_by_id-All n (m ∷ ms) h (hm, hms) = go (leb n.id m.id) (insert_by_id-All n ms h hms)
    where
      go :
          (b : Bool)
          → All IsDrawable (insert_by_id n ms)
          → All IsDrawable (if b then n ∷ m ∷ ms else m ∷ insert_by_id n ms)
      go true rest = (h, (hm, hms))
      go false rest = (hm, rest)

  sort_by_id-All : (ns : List (NodeData D)) → All IsDrawable ns → All IsDrawable (sort_by_id ns)
  unfolding sort_by_id
  sort_by_id-All [] h = h
  sort_by_id-All (n ∷ ns) (h, hs) = insert_by_id-All n (sort_by_id ns) h (sort_by_id-All ns hs)

  length-insert_by_id :
      (n : NodeData D) (ns : List (NodeData D)) → length (insert_by_id n ns) ≡ 1 + length ns
  unfolding insert_by_id
  length-insert_by_id n [] = refl
  length-insert_by_id n (m ∷ ms) = ground (arith, length-insert_by_id n ms)

  length-sort_by_id : (ns : List (NodeData D)) → length (sort_by_id ns) ≡ length ns
  unfolding sort_by_id
  length-sort_by_id [] = refl
  length-sort_by_id (n ∷ ns) =
      omega (arith, length-insert_by_id n (sort_by_id ns), length-sort_by_id ns)

module _ {D : Type 0} ⦃fl : Doubles D⦄ where
  time_out-IsDrawable : (now : D) (n : NodeData D) → IsDrawable n → IsDrawable (time_out now n)
  unfolding time_out
  time_out-IsDrawable now n h = ground arith

  timed_out-All :
      (now : D) (m : Dict (NodeData D))
      → All (λ (k, n). IsDrawable n) m
      → All IsDrawable (map (λ (k, n). n) (map_values (time_out now) m))
  timed_out-All now [] h = h
  timed_out-All now ((k, n) ∷ m) (h, hs) = (time_out-IsDrawable now n h, timed_out-All now m hs)

  draw_rows_step :
      (i : ℕ) (n : NodeData D) (ns : List (NodeData D)) (w : NodeInfoWindow D) (row : Text)
      → get_node_info n.id n.host_device n.node_name n.node_state n.ready_to_arm
          n.last_heartbeat_delta
          (eq_ℤ (pos i) w.base.record_selected)
        ≡ some row
      → draw_rows i (n ∷ ns) w
        ≡ draw_rows ((i + 1) % 65536) ns (record w {
          selected_node =
              if eq_ℤ (pos i) w.base.record_selected then n.node_name else w.selected_node;
          drawn = w.drawn ++ (state_color n.node_state, row) ∷ [];
        })
  unfolding draw_rows
  draw_rows_step i n ns w row e = rw (e, draw_rows) refl

  update_draws :
      (now : D) (w w' : NodeInfoWindow D)
      → w.base.has_win ≡ true
      → draw_rows 0 (sort_by_id (map (λ (k, n). n) (map_values (time_out now) w.nodes))) (record w {
        base = base_update now w.base;
        nodes = map_values (time_out now) w.nodes;
        drawn = [];
      })
        ≡ ok w'
      → update now w ≡ ok (true, w')
  unfolding update update_window base_update
  update_draws now w w' set e = ground arith

  -- Rows that can be made are drawn, one for each node, and the nodes stay as they are.
  draw_rows_lem :
      (i : ℕ) (ns : List (NodeData D)) (w : NodeInfoWindow D)
      → All IsDrawable ns
      → (w' : NodeInfoWindow D) × (draw_rows i ns w ≡ ok w')
        × (w'.nodes ≡ w.nodes)
        × (w'.base ≡ w.base)
        × (length w'.drawn ≡ length w.drawn + length ns)
  unfolding draw_rows
  draw_rows_lem i [] w h = (w, refl, refl, refl, omega arith)
  draw_rows_lem i (n ∷ ns) w ((small, short), hs) =
      let selected = eq_ℤ (pos i) w.base.record_selected in
      let (row, e) =
        row_made n.id n.host_device n.node_name n.node_state n.ready_to_arm n.last_heartbeat_delta
          selected small short in
      let w1 : NodeInfoWindow D = record w {
        selected_node = if selected then n.node_name else w.selected_node;
        drawn = w.drawn ++ (state_color n.node_state, row) ∷ [];
      } in
      let (w', f, nodes, base, count) = draw_rows_lem ((i + 1) % 65536) ns w1 hs in
      (
        w',
        draw_rows_step i n ns w row e ∙ f,
        nodes,
        base,
        omega (arith, count, length-append w.drawn ((state_color n.node_state, row) ∷ [])),
      )

  -- Whatever the rows are, a drawing that returns leaves the nodes and the window as they are.
  pub draw_rows-ok :
      (i : ℕ) (ns : List (NodeData D)) (w w' : NodeInfoWindow D)
      → draw_rows i ns w ≡ ok w'
      → (w'.nodes ≡ w.nodes) × (w'.base ≡ w.base)
  unfolding draw_rows
  draw_rows-ok i [] w w' e = ground (arith, e)
  draw_rows-ok i (n ∷ ns) w w' e =
      let selected = eq_ℤ (pos i) w.base.record_selected in
      elim (Option-cases (
        get_node_info n.id n.host_device n.node_name n.node_state n.ready_to_arm
          n.last_heartbeat_delta selected)) [
            | inl bad ↦ absurd (ground (arith, e, bad))
            | inr (row, made) ↦
                draw_rows-ok ((i + 1) % 65536) ns _ w' (sym (draw_rows_step i n ns w row made) ∙ e)
          ]

  pub update-ok :
      (now : D) (w w' : NodeInfoWindow D) (b : Bool)
      → w.base.has_win ≡ true
      → update now w ≡ ok (b, w')
      → (w'.nodes ≡ map_values (time_out now) w.nodes) × (w'.base ≡ base_update now w.base)
  unfolding update update_window base_update
  update-ok now w w' b set e =
      draw_rows-ok 0 (sort_by_id (map (λ (k, n). n) (map_values (time_out now) w.nodes)))
        (record w {
          base = base_update now w.base;
          nodes = map_values (time_out now) w.nodes;
          drawn = [];
        })
        w' (ground (arith, set, e))

  -- An update of such a window: all its nodes are checked for their age.
  pub update_nodes :
      (now : D) (w : NodeInfoWindow D)
      → w.base.has_win ≡ true
      → All (λ (j, n). IsDrawable n) w.nodes
      → (w' : NodeInfoWindow D) × (update now w ≡ ok (true, w'))
        × (w'.nodes ≡ map_values (time_out now) w.nodes)
        × (w'.base ≡ base_update now w.base)
  update_nodes now w set fits =
      let nodes = map_values (time_out now) w.nodes in
      let start : NodeInfoWindow D = record w {
        base = base_update now w.base;
        nodes = nodes;
        drawn = [];
      } in
      let (w', e, same, base, count) =
        draw_rows_lem 0 (sort_by_id (map (λ (j, n). n) nodes)) start
          (sort_by_id-All _ (timed_out-All now w.nodes fits)) in
      (w', update_draws now w w' set e, same, base)

  -- In a window that is set, with identities below 10000 and arming texts that fit, an update answers
  -- true. A node whose last message is more than five seconds old becomes UNKNOWN, in its state and
  -- in its arming text, and every other node keeps both; each node's age is noted. One row is drawn
  -- for each node, the window takes the time, and no node is added or removed.
  pub update_times_out :
      (now : D) (k : Text) (w : NodeInfoWindow D)
      → w.base.has_win ≡ true
      → All (λ (j, n). IsDrawable n) w.nodes
      → (w' : NodeInfoWindow D) × (update now w ≡ ok (true, w'))
        × (find k w'.nodes ≡ elim (find k w.nodes) [
          | none ↦ none
          | some n ↦ some (
              if fl.lt (fl.lit 5 0) (fl.sub now n.last_heartbeat)
              then record n {
                last_heartbeat_delta = fl.sub now n.last_heartbeat;
                node_state = state_unknown;
                ready_to_arm = text "UNKNOWN";
              }
              else record n { last_heartbeat_delta = fl.sub now n.last_heartbeat })
        ])
        × (w'.base ≡ base_update now w.base)
        × (length w'.nodes ≡ length w.nodes)
        × (length w'.drawn ≡ length w.nodes)
  unfolding time_out
  update_times_out now k w set fits =
      let nodes = map_values (time_out now) w.nodes in
      let start : NodeInfoWindow D = record w {
        base = base_update now w.base;
        nodes = nodes;
        drawn = [];
      } in
      let (w', e, same, base, count) =
        draw_rows_lem 0 (sort_by_id (map (λ (j, n). n) nodes)) start
          (sort_by_id-All _ (timed_out-All now w.nodes fits)) in
      (
        w',
        update_draws now w w' set e,
        ap (find k) same ∙ find-map_values (time_out now) k w.nodes,
        base,
        ap length same ∙ length-map {B = Text × NodeData D} w.nodes (λ (j, n). (j, time_out now n)),
        omega (
          arith,
          count,
          length-sort_by_id (map (λ (j, n). n) nodes),
          length-map nodes (λ (j, n). n),
          length-map {B = Text × NodeData D} w.nodes (λ (j, n). (j, time_out now n)),
        ),
      )
