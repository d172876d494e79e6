-- ===== src/Systems/ArmedStateManager.antt =====
-- Systems/Safety/Subsystems/ModeManager/Nodes/ArmedStateManagerNode/ArmedStateManagerNode.cpp.
pub mod Arming
use robot_framework_ros.Prelude.{ℕ, Bool, Option, none, some, List, [], ◌∷◌, ◌++◌, length}
use robot_framework_ros.Prelude.Run.{ok, fault, pure, ◌>>=◌, ◌>>◌, Run}
use robot_framework_ros.Prelude.Text.{Text, text}
use robot_framework_ros.Platform.{Params}
use robot_framework_ros.Messages.{
  ReadyToArm, ReadyToArmStatusMsg, ArmCommand, ArmCommandMsg, ArmStateChangeRequest,
  ArmStateChangeResponse, ArmStateChangeSrvRequest, ArmStateChangeSrvResponse,
}
use robot_framework_ros.Translate.Infrastructure.{
  u8, ready_to_arm_to_core, arm_command_to_ros, arm_request_to_core, arm_response_to_ros,
}
use robot_framework_ros.BaseNode.Object.{Shared, Reads, Hook, Derived}
use robot_framework_ros.BaseNode.Topic.{get_namespaced_topic}
use robot_framework_ros.Systems.Host.{
  Process, Host, node_around, agree, update_members, require_text, require_texts, kick_off_if,
}

-- `ArmedStateManagerProcess`. Its configuration is the number of ready signals that it waits for.
pub record ArmedStateManagerProcess (D S : Type 0) : Type 0 where
  pub base : Process D S
  pub set_config : ℕ → S → Bool × S
  pub new_ready_to_arm_status : ReadyToArmStatusMsg → S → Bool × S
  pub request_armstate_change : ArmStateChangeSrvRequest → S → ArmStateChangeSrvResponse × S
  pub get_arm_command : S → ArmCommandMsg

-- Subscriptions, publisher and service by their topics; `published` is what the publisher has sent, and
-- `responses` what the service has answered.
pub record ArmedStateManager : Type 0 where
  pub nodes_to_monitor : List Text
  pub ready_to_arm_subs : List Text
  pub arm_command_pub : Option Text
  pub arm_state_change_srv_server : Option Text
  pub published : List ArmCommand
  pub responses : List ArmStateChangeResponse

module _ {D S : Type 0} (proc : ArmedStateManagerProcess D S) where
  -- What `new_ReadyToArmStatus` answers is only logged.
  unfoldable pub ready_to_arm_callback : ReadyToArm → Run (Host S ArmedStateManager) (Unit {0})
  ready_to_arm_callback msg u = ok (
    tt,
    record u { process = (proc.new_ready_to_arm_status (ready_to_arm_to_core msg) u.process).1 },
  )

  unfoldable pub arm_state_change_service :
      ArmStateChangeRequest → Run (Host S ArmedStateManager) (Unit {0})
  arm_state_change_service request u =
      let (response, p) = proc.request_armstate_change (arm_request_to_core request) u.process in
      ok (
        tt,
        record u {
          process = p;
          members = record u.members {
            responses = u.members.responses ++ arm_response_to_ros response ∷ [];
          };
        },
      )

-- The loop of `initPubSubs` over the nodes to monitor.
unfoldable pub subscribe_all : Text → List Text → List Text → List Text
subscribe_all robot_namespace [] subs = subs
subscribe_all robot_namespace (node_topic ∷ topics) subs =
    let monitor_topic = get_namespaced_topic robot_namespace node_topic ++ text "/ready_to_arm" in
    subscribe_all robot_namespace topics (subs ++ monitor_topic ∷ [])

-- The name of the parameter that lists the nodes.
abbrev pub monitor_list_param : {D : Type 0} → Reads D → Text
monitor_list_param r =
    r.node_config_namespace ++ text "." ++ r.base_node_name ++ text ".nodes_to_monitor"

module _ {D P S : Type 0} ⦃params : Params D P⦄ where
  unfoldable pub load_config : Hook D P (Host S ArmedStateManager) Bool
  load_config r = do
    nodes ← require_texts (monitor_list_param r) r
    update_members (λ e. record e { nodes_to_monitor = nodes })
    agree r

  unfoldable pub init_pub_subs : Hook D P (Host S ArmedStateManager) Bool
  init_pub_subs r = do
    update_members (λ e. record e {
      ready_to_arm_subs = subscribe_all r.robot_namespace e.nodes_to_monitor e.ready_to_arm_subs;
    })
    arm_topic ← require_text (text "topic_arm_command") r
    update_members (λ e. record e {
      arm_command_pub = some (get_namespaced_topic r.robot_namespace arm_topic);
    })
    agree r

module _ {D P S : Type 0} where
  unfoldable pub init_services : Hook D P (Host S ArmedStateManager) Bool
  init_services r = do
    update_members (λ e. record e {
      arm_state_change_srv_server =
          some (get_namespaced_topic r.robot_namespace (text "ready_to_arm"));
    })
    agree r

module _ {D P S : Type 0} (proc : ArmedStateManagerProcess D S) where
  unfoldable pub init_data : Hook D P (Host S ArmedStateManager) Bool
  init_data r (s, u) =
      kick_off_if proc.base (proc.set_config (u8 (length u.members.nodes_to_monitor)) u.process) r
        (s, u)

  -- `publish` is undefined behaviour on a null publisher.
  publish_command : Option Text → Hook D P (Host S ArmedStateManager) (Unit {0})
  publish_command none r x = fault
  publish_command (some topic) r (s, u) =
      update_members
        (λ e. record e {
          published = e.published ++ arm_command_to_ros (proc.get_arm_command u.process) ∷ [];
        })
        (s, u)

  unfoldable pub run_loop2 : Hook D P (Host S ArmedStateManager) (Unit {0})
  unfolding publish_command
  run_loop2 r (s, u) = publish_command u.members.arm_command_pub r (s, u)

module _ {D P S : Type 0} ⦃params : Params D P⦄ (proc : ArmedStateManagerProcess D S) where
  unfoldable pub armed_state_manager : Derived D P (Host S ArmedStateManager)
  unfolding load_config init_pub_subs init_services init_data run_loop2
  armed_state_manager = node_around proc.base (record {
    load_config = load_config;
    init_pub_subs = init_pub_subs;
    init_services = init_services;
    init_data = init_data proc;
    run_loop2 = run_loop2 proc;
  })
