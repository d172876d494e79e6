-- ===== src/BaseNode/Lifecycle/Reset.antt =====
-- What `BaseNode::reset` does, on each of its branches.
use robot_framework_ros.Prelude.{◌≡◌, refl, ◌⊎◌, inl, inr, Bool, true, false, some, arith}
use robot_framework_ros.Prelude.Run.{ok, fault, when_true, ◌and_then◌, and_then-ok, >>=-ok}
use robot_framework_ros.BaseNode.State.{
  state_initializing, state_starting, state_running, request_state_change,
}
use robot_framework_ros.BaseNode.Object.{
  Timer, null, armed, cancelled, Timers, Shared, Reads, Now, Node, Hook, Derived, call, call-ok,
  reads, request_node_state_change,
}
use robot_framework_ros.BaseNode.Lifecycle.{
  cancel_all, reset_all, cancel_if_set, reset_if_set, restart_timers, reinitialize, stop_timers,
  reset,
}
use robot_framework_ros.BaseNode.Lifecycle.Start.{AllArmed}

abbrev pub is_cancelled : {D : Type 0} → Timer D → Bool
is_cancelled null = false
is_cancelled (armed p) = false
is_cancelled (cancelled p) = true

abbrev pub is_cancelled_if_set : {D : Type 0} → Timer D → Bool
is_cancelled_if_set null = true
is_cancelled_if_set (armed p) = false
is_cancelled_if_set (cancelled p) = true

-- No timer runs.
pub record AllStopped {D : Type 0} (t : Timers D) : Type 0 where
  pub at100hz : is_cancelled t.timer100hz ≡ true
  pub at10hz : is_cancelled t.timer10hz ≡ true
  pub at1hz : is_cancelled t.timer1hz ≡ true
  pub at01hz : is_cancelled t.timer01hz ≡ true
  pub at001hz : is_cancelled t.timer001hz ≡ true
  pub at_loop1 : is_cancelled_if_set t.timer_loop1 ≡ true
  pub at_loop2 : is_cancelled_if_set t.timer_loop2 ≡ true
  pub at_loop3 : is_cancelled_if_set t.timer_loop3 ≡ true

-- `Either` of the two: what a node that has been started can be in.
abbrev pub IsStarted : {D P U : Type 0} → Node D P U → Type 0
IsStarted n =
    ((n.node_state ≡ state_running) × AllArmed n.timers)
    ⊎ ((n.node_state ≡ state_starting) × AllStopped n.timers)

abbrev each : {D : Type 0} → (Timer D → Timer D) → Timers D → Timers D
each f t = record {
  timer100hz = f t.timer100hz;
  timer10hz = f t.timer10hz;
  timer1hz = f t.timer1hz;
  timer01hz = f t.timer01hz;
  timer001hz = f t.timer001hz;
  timer_loop1 = f t.timer_loop1;
  timer_loop2 = f t.timer_loop2;
  timer_loop3 = f t.timer_loop3;
}

cancel_all-AllStopped :
    {D : Type 0} (t : Timers D)
    → AllArmed t ⊎ AllStopped t
    → (u : Timers D) × (cancel_all t ≡ some u) × AllStopped u
unfolding cancel_all
cancel_all-AllStopped t (inl h) = (each cancel_if_set t, ground arith, ground arith)
cancel_all-AllStopped t (inr h) = (each cancel_if_set t, ground arith, ground arith)

reset_all-AllArmed :
    {D : Type 0} (t : Timers D)
    → AllStopped t
    → (u : Timers D) × (reset_all t ≡ some u) × AllArmed u
unfolding reset_all
reset_all-AllArmed t h = (each reset_if_set t, ground arith, ground arith)

-- What `reset` may leave: RUNNING with all timers running, or STARTING with none.
abbrev pub AfterReset : {D P U : Type 0} → Bool → Node D P U → Type 0
AfterReset true n = (n.node_state ≡ state_running) × AllArmed n.timers
AfterReset false n = (n.node_state ≡ state_starting) × AllStopped n.timers

-- The hook neither throws nor faults.
abbrev pub Returns : {D P U : Type 0} → Hook D P U Bool → Type 0
Returns {D} {P} {U} hook =
    (r : Reads D) (s : Shared P × U) → (b : Bool) × (s' : Shared P × U) × (hook r s ≡ ok (b, s'))

module _ {D P U : Type 0} where
  -- The end of `reset`, by the answer of `initData`.
  after_data :
      (b : Bool) (n : Node D P U)
      → n.node_state ≡ state_starting
      → AllStopped n.timers
      → (c : Bool) × (m : Node D P U) × (when_true b
            (request_node_state_change state_running false and_then restart_timers)
            n
          ≡ ok (c, m))
        × AfterReset c m
  unfolding restart_timers request_node_state_change
  after_data false n s t = (false, n, refl, (s, t))
  after_data true n s t =
      let (u, e, a) = reset_all-AllArmed n.timers t in
      (true, record n { node_state = state_running; timers = u }, rw (s, e) refl, (refl, a))

  after_diagnostics :
      (user : Derived D P U) (now : Now D) (b : Bool) (n : Node D P U)
      → Returns user.init_data
      → n.node_state ≡ state_starting
      → AllStopped n.timers
      → (c : Bool) × (m : Node D P U) × (when_true b
            (call user.init_data now
              and_then request_node_state_change state_running false
              and_then restart_timers)
            n
          ≡ ok (c, m))
        × AfterReset c m
  after_diagnostics user now false n ri s t = (false, n, refl, (s, t))
  after_diagnostics user now true n ri s t =
      let (b, (shared, u), e) = ri (reads now n) (n.shared, n.user) in
      rw (and_then-ok (call user.init_data now) _ n (call-ok user.init_data now n e))
        (after_data b (record n { shared = shared; user = u }) s t)

  AfterReset-IsStarted : (b : Bool) (n : Node D P U) → AfterReset b n → IsStarted n
  AfterReset-IsStarted true n h = inl h
  AfterReset-IsStarted false n h = inr h

  -- The part of `reset` behind the stopped timers.
  reinitialize_lem :
      (user : Derived D P U) (now : Now D) (n : Node D P U)
      → Returns user.init_diagnostics
      → Returns user.init_data
      → n.node_state ≡ state_starting
      → AllStopped n.timers
      → (b : Bool) × (m : Node D P U) × (reinitialize user now n ≡ ok (b, m)) × AfterReset b m
  unfolding reinitialize
  reinitialize_lem user now n rd ri s t =
      let (b, (shared, u), e) = rd (reads now n) (n.shared, n.user) in
      rw (and_then-ok (call user.init_diagnostics now) _ n (call-ok user.init_diagnostics now n e))
        (after_diagnostics user now b (record n { shared = shared; user = u }) ri s t)

  -- From a node that has been started, `reset` returns if the two functions of the derived class that
  -- it calls return. If it answers true the node is RUNNING with all its timers running; if false, it
  -- is STARTING with no timer running. The result is again a node that can be reset.
  pub reset_lem :
      (user : Derived D P U) (now : Now D) (n : Node D P U)
      → Returns user.init_diagnostics
      → Returns user.init_data
      → IsStarted n
      → (b : Bool) × (m : Node D P U) × (reset user now n ≡ ok (b, m))
        × AfterReset b m
        × IsStarted m
  unfolding reset request_node_state_change
  reset_lem user now n rd ri h =
      let (t, e, a) = cancel_all-AllStopped n.timers (timers_of h) in
      let n' : Node D P U = record n { node_state = state_starting; timers = t } in
      let (b, m, f, after) = reinitialize_lem user now n' rd ri refl a in
      (
        b,
        m,
        rw
            (
              to_starting h,
              >>=-ok stop_timers _ (record n { node_state = state_starting }) (stopped t e),
            )
            f,
        after,
        AfterReset-IsStarted b m after,
      )
    where
      timers_of : IsStarted n → AllArmed n.timers ⊎ AllStopped n.timers
      timers_of (inl (s, a)) = inl a
      timers_of (inr (s, a)) = inr a

      to_starting :
          IsStarted n
          → request_state_change n.node_state state_starting false ≡ (true, state_starting)
      to_starting (inl (s, a)) = rw s refl
      to_starting (inr (s, a)) = rw s refl

      stopped :
          (t : Timers D)
          → cancel_all n.timers ≡ some t
          → stop_timers {D = D} {P = P} {U = U} (record n { node_state = state_starting })
            ≡ ok (tt, record n { node_state = state_starting; timers = t })
      stopped t e = rw e refl

  -- A node that is INITIALIZING, with no timers yet, is not refused: the state change is granted and
  -- the first `cancel()` is a call through a null pointer, whatever the derived class does.
  pub reset_initializing_faults :
      (user : Derived D P U) (now : Now D) (n : Node D P U)
      → n.node_state ≡ state_initializing
      → n.timers.timer100hz ≡ null
      → reset user now n ≡ fault
  unfolding reset request_node_state_change cancel_all
  reset_initializing_faults user now n s t = rw (s, t) refl
