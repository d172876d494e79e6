-- ===== src/Systems/Host/Follow.antt =====
-- The contract of a node around a process: whatever timers fire and messages arrive, in whatever order,
-- the node's process has made exactly the updates and the messages' changes in that order, and the
-- ready status and diagnostics are those of the process at the last 10 Hz and 1 Hz callback.
use robot_framework_ros.Prelude.{◌≡◌, refl, true, List, [], ◌∷◌}
use robot_framework_ros.Prelude.Run.{ok, threw, fault, Run, ◌>>◌}
use robot_framework_ros.Platform.{Doubles, CoreLib}
use robot_framework_ros.Messages.{ReadyToArmStatusMsg, DiagnosticMsg}
use robot_framework_ros.Translate.Infrastructure.{ready_to_arm_to_core}
use robot_framework_ros.BaseNode.Object.{Shared, Reads, Now, Node, Hook, Derived}
use robot_framework_ros.BaseNode.Timing.{
  Tick, tick100hz, tick10hz, tick1hz, tick01hz, tick001hz, tick_loop1, tick_loop2, tick_loop3,
  on_tick,
}
use robot_framework_ros.Systems.Host.{Process, Host, Stages, idle, node_around}
use robot_framework_ros.BaseNode.Object.{set_ready_to_arm, set_diagnostics}

-- The abstract node: its process, and what it has last handed to `BaseNode`.
pub record Reported (S : Type 0) : Type 0 where
  pub process : S
  pub status : ReadyToArmStatusMsg
  pub diagnostics : List DiagnosticMsg

module _ {P S E : Type 0} where
  -- What is seen of the members of a node.
  unfoldable pub view : Shared P × Host S E → Reported S
  unfolding ready_to_arm_to_core
  view (s, u) = record {
    process = u.process;
    status = ready_to_arm_to_core s.ready_to_arm;
    diagnostics = s.diagnostics;
  }

-- Timers fire, and messages of `M` arrive.
pub data Event (D M : Type 0) : Type 0 where
  timer : Now D → Tick D → Event D M
  message : M → Event D M

module _ {D S : Type 0} (proc : Process D S) where
  -- The abstract step of a timer at the time `t`, and of any event.
  abbrev pub tick_step : D → Tick D → Reported S → Reported S
  tick_step t (tick100hz e) v = v
  tick_step t (tick10hz e) v = record v { status = proc.get_ready_to_arm v.process }
  tick_step t (tick1hz e) v = record v { diagnostics = proc.get_diagnostics v.process }
  tick_step t (tick01hz e) v = v
  tick_step t (tick001hz e) v = v
  tick_step t (tick_loop1 e) v = record v { process = proc.update t v.process }
  tick_step t (tick_loop2 e) v = v
  tick_step t (tick_loop3 e) v = v

  abbrev pub event_step : {M : Type 0} → (M → S → S) → Event D M → Reported S → Reported S
  event_step spec (timer now t) v = tick_step now.seconds t v
  event_step spec (message m) v = record v { process = spec m v.process }

  unfoldable pub replay : {M : Type 0} → (M → S → S) → List (Event D M) → Reported S → Reported S
  replay spec [] v = v
  replay spec (e ∷ es) v = replay spec es (event_step spec e v)

module _ {D P S E : Type 0} where
  -- From members of which `I` holds, the function returns, its effect is the abstract step `f`, and `I`
  -- still holds.
  pub record Follows (I : E → Type 0) (hook : Hook D P (Host S E) (Unit {0}))
      (f : D → Reported S → Reported S) : Type 0 where
    pub at :
        (r : Reads D) (x : Shared P × Host S E)
        → I x.1.members
        → (x' : Shared P × Host S E) × (hook r x ≡ ok (tt, x'))
          × (view x' ≡ f r.seconds (view x))
          × I x'.1.members

  pub record IsHost (proc : Process D S) (I : E → Type 0) (user : Derived D P (Host S E))
      : Type 0 where
    pub at100hz : Follows I user.run100hz (λ t v. v)
    pub at10hz :
        Follows I user.run10hz (λ t v. record v { status = proc.get_ready_to_arm v.process })
    pub at1hz :
        Follows I user.run1hz (λ t v. record v { diagnostics = proc.get_diagnostics v.process })
    pub at01hz : Follows I user.run01hz (λ t v. v)
    pub at001hz : Follows I user.run001hz (λ t v. v)
    pub at_loop1 : Follows I user.run_loop1 (λ t v. record v { process = proc.update t v.process })
    pub at_loop2 : Follows I user.run_loop2 (λ t v. v)
    pub at_loop3 : Follows I user.run_loop3 (λ t v. v)

module _ {D P S E : Type 0} (proc : Process D S) (I : E → Type 0) where
  pub idle-Follows : Follows {P = P} {S = S} I idle (λ (t : D) v. v)
  idle-Follows = record { at = λ r x i. (x, refl, refl, i) }

  -- A node of Systems/ follows its process if its second user loop leaves alone what is seen.
  pub node_around-IsHost :
      (stages : Stages D P (Host S E))
      → Follows I stages.run_loop2 (λ t v. v)
      → IsHost proc I (node_around proc stages)
  unfolding view set_ready_to_arm set_diagnostics ready_to_arm_to_core
  node_around-IsHost stages loop2 = record {
    at100hz = idle-Follows;
    at10hz = record { at = λ r x i. (_, refl, refl, i) };
    at1hz = record { at = λ r x i. (_, refl, refl, i) };
    at01hz = idle-Follows;
    at001hz = idle-Follows;
    at_loop1 = record { at = λ r x i. (_, refl, refl, i) };
    at_loop2 = loop2;
    at_loop3 = idle-Follows;
  }

module _ {S E : Type 0} where
  -- The callback of a message does the same to the process as `spec`.
  abbrev pub Receives :
      {M : Type 0} → (E → Type 0) → (M → Run (Host S E) (Unit {0})) → (M → S → S) → Type 0
  Receives {M} I receive spec =
      (m : M) (u : Host S E)
      → I u.members
      → (u' : Host S E) × (receive m u ≡ ok (tt, u'))
        × (u'.process ≡ spec m u.process)
        × I u'.members

module _ {D P U : Type 0} where
  -- The callback of a message runs over the members of the derived class.
  abbrev pub on_message : Run U (Unit {0}) → Run (Node D P U) (Unit {0})
  on_message receive n = elim (receive n.user) [
    | ok (a, u) ↦ ok (a, record n { user = u })
    | threw ↦ threw
    | fault ↦ fault
  ]

  pub on_message-ok :
      (receive : Run U (Unit {0})) (n : Node D P U) {u : U}
      → receive n.user ≡ ok (tt, u)
      → on_message receive n ≡ ok (tt, record n { user = u })
  on_message-ok receive n e = rw (e, on_message)

module _ {D P U : Type 0} ⦃fl : Doubles D⦄ ⦃core : CoreLib⦄ where
  unfoldable pub on_event :
      {M : Type 0}
      → Derived D P U
      → (M → Run U (Unit {0}))
      → Event D M
      → Run (Node D P U) (Unit {0})
  on_event user receive (timer now t) n = on_tick user now t n
  on_event user receive (message m) n = on_message (receive m) n

  unfoldable pub run_events :
      {M : Type 0}
      → Derived D P U
      → (M → Run U (Unit {0}))
      → List (Event D M)
      → Run (Node D P U) (Unit {0})
  run_events user receive [] n = ok (tt, n)
  run_events user receive (e ∷ es) n = (on_event user receive e >> run_events user receive es) n

module _ {D P S E : Type 0} where
  abbrev pub node_view : Node D P (Host S E) → Reported S
  node_view n = view (n.shared, n.user)

  -- The node is seen as `v`, and it has its publishers, as `n` has.
  pub record Seen (I : E → Type 0) (m : Node D P (Host S E)) (v : Reported S) : Type 0 where
    pub seen : node_view m ≡ v
    pub publishers : m.has_publishers ≡ true
    pub kept : I m.user.members
