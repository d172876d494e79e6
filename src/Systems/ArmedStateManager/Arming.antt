-- ===== src/Systems/ArmedStateManager/Arming.antt =====
-- What the armed state manager listens to and waits for, and what its process is told.
use mathlib.Core.List.{append_assoc, append-nil}
use robot_framework_ros.Prelude.{
  ◌≡◌, refl, sym, ◌∙◌, Bool, true, false, some, List, [], ◌∷◌, ◌++◌, map, length, ◌%◌, arith,
  if◌then◌else◌,
}
use robot_framework_ros.Prelude.Run.{ok, Run}
use robot_framework_ros.Prelude.Text.{Text, text}
use robot_framework_ros.Platform.{Doubles, CoreLib, Params}
use robot_framework_ros.Messages.{ReadyToArm, ArmStateChangeRequest}
use robot_framework_ros.Translate.Infrastructure.{
  ready_to_arm_to_core, arm_request_to_core, arm_command_to_ros,
}
use robot_framework_ros.BaseNode.Object.{Shared, Reads, Node, set_ready_to_arm}
use robot_framework_ros.BaseNode.Topic.{get_namespaced_topic}
use robot_framework_ros.Systems.Host.{Host}
use robot_framework_ros.Systems.Host.Kickoff.{user_init}
use robot_framework_ros.Systems.Host.Follow.{
  Event, Receives, Follows, view, replay, run_events, node_view, node_around-IsHost,
}
use robot_framework_ros.Systems.Host.Seen.{run_events-Seen}
use robot_framework_ros.Systems.ArmedStateManager.{
  ArmedStateManagerProcess, ArmedStateManager, subscribe_all, monitor_list_param, load_config,
  init_pub_subs, init_services, init_data, run_loop2, armed_state_manager, ready_to_arm_callback,
  arm_state_change_service,
}

-- The topic on which the node `t` says whether it is ready.
abbrev pub monitor_topic : Text → Text → Text
monitor_topic robot_namespace t = get_namespaced_topic robot_namespace t ++ text "/ready_to_arm"

subscribe_all_lem :
    (ns : Text) (topics subs : List Text)
    → subscribe_all ns topics subs ≡ subs ++ map (monitor_topic ns) topics
unfolding subscribe_all
subscribe_all_lem ns [] subs = sym (append-nil subs)
subscribe_all_lem ns (t ∷ ts) subs =
    subscribe_all_lem ns ts (subs ++ monitor_topic ns t ∷ [])
    ∙ append_assoc subs (monitor_topic ns t ∷ []) (map (monitor_topic ns) ts)

-- The list of nodes and the topic of the arm commands, declared from `p` on.
pub record ManagerParams {D P : Type 0} (params : Params D P) (list_name : Text) (p : P)
    : Type 0 where
  pub nodes : List Text
  pub arm_topic : Text
  pub p1 : P
  pub p2 : P
  pub nodes_given : params.require_texts p list_name ≡ some (nodes, p1)
  pub arm_topic_given : params.require_text p1 (text "topic_arm_command") ≡ some (arm_topic, p2)

module _ {D P S : Type 0} ⦃params : Params D P⦄ (proc : ArmedStateManagerProcess D S) where
  -- A new armed state manager with its parameters given subscribes to the ready status of each node of
  -- the list, in the order of the list, and advertises the arm command and the service in the robot's
  -- namespace. Its process is told to wait for as many signals as the list has nodes, modulo 256. If
  -- the process accepts that, the functions of the class answer true, and the process is updated once;
  -- if not, they answer false.
  pub manager_starts :
      (r : Reads D) (s : Shared P) (p : S) (e : ArmedStateManager) (b : Bool) (q : S)
      → (c : ManagerParams params (monitor_list_param r) s.params) → e.ready_to_arm_subs ≡ []
      → proc.set_config (length c.nodes % 256) p ≡ (b, q)
      → let members : ArmedStateManager = record e {
        nodes_to_monitor = c.nodes;
        ready_to_arm_subs = map (monitor_topic r.robot_namespace) c.nodes;
        arm_command_pub = some (get_namespaced_topic r.robot_namespace c.arm_topic);
        arm_state_change_srv_server =
            some (get_namespaced_topic r.robot_namespace (text "ready_to_arm"));
      } in
        let s' = record s { params = c.p2 } in
        let q' = proc.base.update r.seconds q in
        user_init (armed_state_manager proc) r (s, record { process = p; members = e })
        ≡ ok (
          b,
          (if b
              then (
                set_ready_to_arm (proc.base.get_ready_to_arm q') s',
                record { process = q'; members = members },
              )
              else (s', record { process = q; members = members })),
        )
  unfolding armed_state_manager load_config init_pub_subs init_services init_data
  manager_starts r s p e true q c fresh accepted = ground (
    arith,
    c.nodes_given,
    c.arm_topic_given,
    fresh,
    accepted,
    subscribe_all_lem r.robot_namespace c.nodes [],
  )
  manager_starts r s p e false q c fresh refused = ground (
    arith,
    c.nodes_given,
    c.arm_topic_given,
    fresh,
    refused,
    subscribe_all_lem r.robot_namespace c.nodes [],
  )

-- What arrives: a node's ready status, or a request of the service.
pub data ManagerMessage : Type 0 where
  ready : ReadyToArm → ManagerMessage
  request : ArmStateChangeRequest → ManagerMessage

-- The publisher is made.
abbrev pub HasPublisher : ArmedStateManager → Type 0
HasPublisher e = (topic : Text) × (e.arm_command_pub ≡ some topic)

module _ {D S : Type 0} (proc : ArmedStateManagerProcess D S) where
  unfoldable pub receive : ManagerMessage → Run (Host S ArmedStateManager) (Unit {0})
  unfolding ready_to_arm_callback arm_state_change_service
  receive (ready msg) = ready_to_arm_callback proc msg
  receive (request req) = arm_state_change_service proc req

  -- The abstract effect: a status of all its fields but the node's name, and a request of its state.
  abbrev pub manager_step : ManagerMessage → S → S
  manager_step (ready msg) p =
      (proc.new_ready_to_arm_status
        (record {
          system_id = msg.system_id;
          subsystem_id = msg.subsystem_id;
          process_id = msg.process_id;
          ready_to_arm = msg.ready_to_arm;
        })
        p).1
  manager_step (request req) p =
      (proc.request_armstate_change (record { requested_armed_state = req.requested_armed_state })
        p).1

  receive-Receives : Receives HasPublisher receive manager_step
  unfolding receive ready_to_arm_callback arm_state_change_service ready_to_arm_to_core
      arm_request_to_core
  receive-Receives (ready msg) u has = (_, refl, refl, has)
  receive-Receives (request req) u has = (_, refl, refl, has)

module _ {D P S : Type 0} (proc : ArmedStateManagerProcess D S) where
  run_loop2-Follows : Follows {P = P} HasPublisher (run_loop2 proc) (λ t v. v)
  unfolding run_loop2 view
  run_loop2-Follows = record {
    at = λ r (s, u) (topic, e). (
      (
        s,
        record u {
          members = record u.members {
            published =
                u.members.published ++ arm_command_to_ros (proc.get_arm_command u.process) ∷ [];
          };
        },
      ),
      ground (arith, e),
      refl,
      (topic, e),
    );
  }

module _ {D P S : Type 0} ⦃fl : Doubles D⦄ ⦃core : CoreLib⦄ ⦃params : Params D P⦄
    (proc : ArmedStateManagerProcess D S) where
  -- Any sequence of timer callbacks, ready statuses and service requests at an armed state manager with
  -- its publishers is handled without an exception or a fault, and its process sees all of them, in
  -- their order: every `Loop1` callback updates it, and every message and request is passed on to it.
  -- Its ready status and its diagnostics are those of the last 10 Hz and 1 Hz callback.
  pub manager_follows :
      (events : List (Event D ManagerMessage)) (n : Node D P (Host S ArmedStateManager))
      → n.has_publishers ≡ true
      → HasPublisher n.user.members
      → (m : Node D P (Host S ArmedStateManager)) × (run_events
            (armed_state_manager proc)
            (receive proc)
            events
            n
          ≡ ok (tt, m))
        × (node_view m ≡ replay proc.base (manager_step proc) events (node_view n))
  unfolding armed_state_manager
  manager_follows events n pubs has =
      let (m, e, k) =
        run_events-Seen proc.base HasPublisher (armed_state_manager proc)
          (node_around-IsHost proc.base _ _ (run_loop2-Follows proc)) (receive proc)
          (manager_step proc) (receive-Receives proc) events n (node_view n)
          (record { seen = refl; publishers = pubs; kept = has }) in
      (m, e, k.seen)
