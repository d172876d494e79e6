-- ===== src/BaseNode/Lifecycle/Spin.antt =====
-- What `main` spins.
use robot_framework_ros.Prelude.{
  ℕ, ◌≡◌, refl, ap, ◌∙◌, inl, inr, Bool, true, false, Option, arith, Bool-cases,
}
use mathlib.Core.Bool.{false≢true}
use robot_framework_ros.Prelude.Run.{Result, ok, threw, fault, Run, ◌and_then◌, and_then-ok}
use robot_framework_ros.Prelude.Text.{Text}
use robot_framework_ros.Platform.{Doubles, CoreLib, Params}
use robot_framework_ros.BaseNode.State.{state_initializing, state_running, request_state_change}
use robot_framework_ros.BaseNode.Object.{
  Timers, Shared, Now, Node, Hook, Derived, call, reads, no_timers, request_node_state_change,
}
use robot_framework_ros.BaseNode.Lifecycle.{
  base_load_config, base_init_pub_subs, base_init_services, base_init_diagnostics, base_init_data,
  init_stages, init, start, start_loops, loop_timers, create_timers, main, spins, reset,
}
use robot_framework_ros.BaseNode.Lifecycle.Start.{AllArmed}
use robot_framework_ros.BaseNode.Lifecycle.Reset.{reset_initializing_faults}

-- `m` leaves the state and the timers alone, if it returns.
record Frames {D P U : Type 0} (m : Run (Node D P U) Bool) : Type 0 where
  at :
      (n : Node D P U) (b : Bool) (n' : Node D P U)
      → m n ≡ ok (b, n')
      → (n'.node_state ≡ n.node_state) × (n'.timers ≡ n.timers)

module _ {D P U : Type 0} where
  Frames-and_then : (m k : Run (Node D P U) Bool) → Frames m → Frames k → Frames (m and_then k)
  Frames-and_then m k fm fk = record { at = λ n b n' e. go n b n' (m n) refl e }
    where
      go :
          (n : Node D P U) (b : Bool) (n' : Node D P U) (r : Result (Bool × Node D P U))
          → m n ≡ r
          → (m and_then k) n ≡ ok (b, n')
          → (n'.node_state ≡ n.node_state) × (n'.timers ≡ n.timers)
      go n b n' (ok (true, n1)) e f =
          let (s, t) = fm.at n true n1 e in
          let (s', t') = fk.at n1 b n' (rw (and_then-ok m k n e) at f) in (s' ∙ s, t' ∙ t)
      go n b n' (ok (false, n1)) e f = ground (arith, fm.at n false n1 e)
      go n b n' threw e f = ground arith
      go n b n' fault e f = ground arith

  Frames-call : (hook : Hook D P U Bool) (now : Now D) → Frames (call hook now)
  Frames-call hook now = record {
    at = λ n b n' e. go n b n' (hook (reads now n) (n.shared, n.user)) refl e;
  }
    where
      go :
          (n : Node D P U) (b : Bool) (n' : Node D P U) (r : Result (Bool × (Shared P × U)))
          → hook (reads now n) (n.shared, n.user) ≡ r
          → call hook now n ≡ ok (b, n')
          → (n'.node_state ≡ n.node_state) × (n'.timers ≡ n.timers)
      go n b n' (ok (c, (s, u))) e f = ground arith
      go n b n' threw e f = ground arith
      go n b n' fault e f = ground arith

  Frames-base_init_pub_subs : Frames {D = D} {P = P} {U = U} base_init_pub_subs
  unfolding base_init_pub_subs
  Frames-base_init_pub_subs = record { at = λ n b n' e. ground arith }

  Frames-base_init_services : Frames {D = D} {P = P} {U = U} base_init_services
  unfolding base_init_services
  Frames-base_init_services = record { at = λ n b n' e. ground arith }

  Frames-base_init_diagnostics : Frames {D = D} {P = P} {U = U} base_init_diagnostics
  unfolding base_init_diagnostics
  Frames-base_init_diagnostics = record { at = λ n b n' e. ground arith }

  Frames-base_init_data :
      (host : Option Text) → Frames {D = D} {P = P} {U = U} (base_init_data host)
  unfolding base_init_data
  Frames-base_init_data host = record { at = λ n b n' e. ground arith }

to_initializing :
    (s : ℕ)
    → (request_state_change s state_initializing false).0 ≡ true
    → (request_state_change s state_initializing false).1 ≡ state_initializing
unfolding request_state_change
to_initializing s h = ground arith

module _ {D P U : Type 0} ⦃core : CoreLib⦄ ⦃params : Params D P⦄ where
  Frames-base_load_config : Frames {D = D} {P = P} {U = U} base_load_config
  unfolding base_load_config
  Frames-base_load_config = record { at = λ n b n' e. ground arith }

  Frames-init_stages :
      (user : Derived D P U) (host : Option Text) (now : Now D) → Frames (init_stages user host now)
  unfolding init_stages
  Frames-init_stages user host now = Frames-and_then _ _ Frames-base_load_config (
      Frames-and_then _ _ Frames-base_init_pub_subs (
        Frames-and_then _ _ Frames-base_init_services (
          Frames-and_then _ _ Frames-base_init_diagnostics (
            Frames-and_then _ _ (Frames-base_init_data host) (
              Frames-and_then _ _ (Frames-call user.load_config now) (
                Frames-and_then _ _ (Frames-call user.init_pub_subs now) (
                  Frames-and_then _ _ (Frames-call user.init_services now) (
                    Frames-and_then _ _ (Frames-call user.init_diagnostics now)
                      (Frames-call user.init_data now)))))))))

  -- After `init` has answered true, a node that was new is INITIALIZING, with its timers as they were.
  init_initializes :
      (user : Derived D P U) (host : Option Text) (now : Now D) (n n' : Node D P U)
      → init user host now n ≡ ok (true, n')
      → (n'.node_state ≡ state_initializing) × (n'.timers ≡ n.timers)
  unfolding init request_node_state_change
  init_initializes user host now n n' e =
      elim (Bool-cases (request_state_change n.node_state state_initializing false).0) [
        | inl granted ↦
            let (s, t) =
              (Frames-init_stages user host now).at _ true n' (rw (granted, init) at e) in
            (s ∙ to_initializing n.node_state granted, t)
        | inr refused ↦ absurd (false≢true (ground (arith, e)))
      ]

  -- A node that was new and has been initialized, but not started, cannot be reset: the call is not
  -- refused, and goes through a null pointer.
  pub reset-init_faults :
      (user : Derived D P U) (host : Option Text) (now later : Now D) (n n' : Node D P U)
      → n.timers ≡ no_timers
      → init user host now n ≡ ok (true, n')
      → reset user later n' ≡ fault
  reset-init_faults user host now later n n' t e =
      let (s, same) = init_initializes user host now n n' e in
      reset_initializing_faults user later n' s (ap (λ (x : Timers D). x.timer100hz) (same ∙ t))

module _ {D P U : Type 0} ⦃fl : Doubles D⦄ ⦃params : Params D P⦄ where
  start-AllArmed :
      (n m : Node D P U)
      → n.node_state ≡ state_initializing
      → n.timers ≡ no_timers
      → start n ≡ ok (true, m)
      → (m.node_state ≡ state_running) × AllArmed m.timers
  unfolding start start_loops loop_timers request_node_state_change create_timers
  start-AllArmed n m s t e = ground arith

module _ {D P U : Type 0} ⦃fl : Doubles D⦄ ⦃core : CoreLib⦄ ⦃params : Params D P⦄ where
  -- `main` spins a node only if the node is RUNNING, with its five fixed timers running and no user
  -- loop's timer cancelled.
  pub main_spins :
      (user : Derived D P U) (host : Option Text) (now : Now D) (n m : Node D P U)
      → n.timers ≡ no_timers
      → main user host now n ≡ spins m
      → (m.node_state ≡ state_running) × AllArmed m.timers
  unfolding main
  main_spins user host now n m t e = go (init user host now n) refl e
    where
      go :
          (r : Result (Bool × Node D P U))
          → init user host now n ≡ r
          → main user host now n ≡ spins m
          → (m.node_state ≡ state_running) × AllArmed m.timers
      go (ok (true, n')) f e =
          let (s, same) = init_initializes user host now n n' f in
          start-AllArmed n' m s (same ∙ t) (ground arith)
      go (ok (false, n')) f e = ground arith
      go threw f e = ground arith
      go fault f e = ground arith
