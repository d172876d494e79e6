-- ===== src/BaseNode/Lifecycle/Start.antt =====
-- What `BaseNode::start` does to the timers and the state.
use robot_framework_ros.Prelude.{
  ◌≡◌, refl, Bool, true, false, some, ◌||◌, ◌&&◌, arith, if◌then◌else◌,
}
use robot_framework_ros.Prelude.Run.{ok, threw}
use robot_framework_ros.Prelude.Text.{text}
use robot_framework_ros.Platform.{Doubles, Params}
use robot_framework_ros.BaseNode.State.{state_initializing, state_running}
use robot_framework_ros.BaseNode.Object.{
  Timer, null, armed, cancelled, Timers, Node, no_timers, request_node_state_change,
}
use robot_framework_ros.BaseNode.Lifecycle.{create_timers, loop_timers, start_loops, start}

abbrev pub is_armed : {D : Type 0} → Timer D → Bool
is_armed null = false
is_armed (armed p) = true
is_armed (cancelled p) = false

abbrev pub is_armed_if_set : {D : Type 0} → Timer D → Bool
is_armed_if_set null = true
is_armed_if_set (armed p) = true
is_armed_if_set (cancelled p) = false

-- The five fixed timers run, and so does each timer of a user loop that there is.
pub record AllArmed {D : Type 0} (t : Timers D) : Type 0 where
  pub at100hz : is_armed t.timer100hz ≡ true
  pub at10hz : is_armed t.timer10hz ≡ true
  pub at1hz : is_armed t.timer1hz ≡ true
  pub at01hz : is_armed t.timer01hz ≡ true
  pub at001hz : is_armed t.timer001hz ≡ true
  pub at_loop1 : is_armed_if_set t.timer_loop1 ≡ true
  pub at_loop2 : is_armed_if_set t.timer_loop2 ≡ true
  pub at_loop3 : is_armed_if_set t.timer_loop3 ≡ true

module _ {D : Type 0} ⦃fl : Doubles D⦄ where
  -- The timer of a user loop of that rate: none if the rate is `<= 0`, else one of the period 1 / rate.
  abbrev pub timer_of : D → Timer D
  timer_of rate = if fl.le rate (fl.lit 0 0) then null else armed (fl.div (fl.lit 1 0) rate)

  -- The loop has no timer, or its period is one that rclcpp takes.
  abbrev pub is_possible : {P : Type 0} → Params D P → D → Bool
  is_possible params rate =
      fl.le rate (fl.lit 0 0) || params.takes_period (fl.div (fl.lit 1 0) rate)

  abbrev pub are_possible : {P : Type 0} → Params D P → D → D → D → Bool
  are_possible params r1 r2 r3 =
      is_possible params r1 && is_possible params r2 && is_possible params r3

module _ {D P U : Type 0} ⦃fl : Doubles D⦄ ⦃params : Params D P⦄ where
  -- The node that `start` leaves.
  abbrev started_node : Node D P U → D → D → D → P → Node D P U
  started_node n r1 r2 r3 p = record n {
    node_state = state_running;
    timers = record (create_timers n.timers) {
      timer_loop1 = timer_of r1;
      timer_loop2 = timer_of r2;
      timer_loop3 = timer_of r3;
    };
    loop1_rate = r1;
    loop2_rate = r2;
    loop3_rate = if fl.le r3 (fl.lit 0 0) then n.loop3_rate else r3;
    shared = record n.shared { params = p };
  }

  -- What `start` does, by whether rclcpp takes the periods.
  abbrev pub Starts : Node D P U → D → D → D → Bool → Type 0
  Starts n r1 r2 r3 false = start n ≡ threw
  Starts n r1 r2 r3 true =
      (m : Node D P U) × (start n ≡ ok (true, m))
      × (m.node_state ≡ state_running)
      × AllArmed m.timers
      × (m.timers ≡ record {
        timer100hz = armed (fl.lit 10 3);
        timer10hz = armed (fl.lit 100 3);
        timer1hz = armed (fl.lit 1 0);
        timer01hz = armed (fl.lit 10 0);
        timer001hz = armed (fl.lit 100 0);
        timer_loop1 = timer_of r1;
        timer_loop2 = timer_of r2;
        timer_loop3 = timer_of r3;
      })
      × (m.outputs ≡ n.outputs)

  module _ (n : Node D P U) (r1 r2 r3 : D) (p1 p2 p3 : P) (s : n.node_state ≡ state_initializing)
      (t : n.timers ≡ no_timers)
      (d1 : params.declare_double n.shared.params (text "loop1_rate") (fl.neg (fl.lit 1 0))
        ≡ some (r1, p1))
      (d2 : params.declare_double p1 (text "loop2_rate") (fl.neg (fl.lit 1 0)) ≡ some (r2, p2))
      (d3 : params.declare_double p2 (text "loop3_rate") (fl.neg (fl.lit 1 0))
        ≡ some (r3, p3)) where
    start_returns :
        are_possible params r1 r2 r3 ≡ true → start n ≡ ok (true, started_node n r1 r2 r3 p3)
    unfolding start start_loops loop_timers request_node_state_change create_timers
    start_returns b = ground arith

    start_throws : are_possible params r1 r2 r3 ≡ false → start n ≡ threw
    unfolding start start_loops loop_timers request_node_state_change create_timers
    start_throws b = ground arith

    start_cases : (b : Bool) → are_possible params r1 r2 r3 ≡ b → Starts n r1 r2 r3 b
    unfolding create_timers
    start_cases true b =
        (started_node n r1 r2 r3 p3, start_returns b, refl, ground arith, refl, refl)
    start_cases false b = start_throws b

  -- From INITIALIZING, without timers and with the three rates declared, `start` answers true if rclcpp
  -- takes the period 1 / rate of each user loop whose rate is not `<= 0`, and throws if not. When it
  -- answers true it leaves the node RUNNING with its five fixed timers running, with the periods 10 ms,
  -- 100 ms, 1 s, 10 s and 100 s. The timer of a user loop is then made, with the period 1 / rate,
  -- exactly if the loop's rate is not `<= 0`, and is null otherwise. No message is published.
  pub start_runs :
      (n : Node D P U) (r1 r2 r3 : D) (p1 p2 p3 : P)
      → n.node_state ≡ state_initializing
      → n.timers ≡ no_timers
      → params.declare_double n.shared.params (text "loop1_rate") (fl.neg (fl.lit 1 0))
        ≡ some (r1, p1)
      → params.declare_double p1 (text "loop2_rate") (fl.neg (fl.lit 1 0)) ≡ some (r2, p2)
      → params.declare_double p2 (text "loop3_rate") (fl.neg (fl.lit 1 0)) ≡ some (r3, p3)
      → Starts n r1 r2 r3 (are_possible params r1 r2 r3)
  start_runs n r1 r2 r3 p1 p2 p3 s t d1 d2 d3 =
      start_cases n r1 r2 r3 p1 p2 p3 s t d1 d2 d3 (are_possible params r1 r2 r3) refl
