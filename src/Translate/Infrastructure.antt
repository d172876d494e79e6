-- ===== src/Translate/Infrastructure.antt =====
-- core/utils/TranslateUtility/TranslateUtilityInfrastructureMsgs.cpp. Each `convert` is named after
-- the side that it returns. A cast of a byte to an enumeration keeps the number; a cast back to
-- `uint8_t` takes it modulo 256.
pub mod RoundTrip
use robot_framework_ros.Prelude.{ℕ, ◌%◌, []}
use robot_framework_ros.Messages.{
  Diagnostic, DiagnosticMsg, ReadyToArm, ReadyToArmStatusMsg, ArmCommand, ArmCommandMsg,
  ArmStateChangeRequest, ArmStateChangeSrvRequest, ArmStateChangeResponse,
  ArmStateChangeSrvResponse, no_stamp,
}

abbrev pub u8 : ℕ → ℕ
u8 n = n % 256

unfoldable pub diagnostic_to_core : Diagnostic → DiagnosticMsg
diagnostic_to_core msg = record {
  system_id = msg.system_id;
  subsystem_id = msg.subsystem_id;
  process_id = msg.process_id;
  diagnostic_type = msg.diagnostic_type;
  level = msg.level;
  diagnostic_message = msg.diagnostic_message;
  description = msg.description;
}

-- The stamp and the node's name are left as the message's constructor sets them.
unfoldable pub diagnostic_to_ros : DiagnosticMsg → Diagnostic
diagnostic_to_ros msg = record {
  timestamp = no_stamp;
  node_name = [];
  system_id = msg.system_id;
  subsystem_id = msg.subsystem_id;
  process_id = msg.process_id;
  diagnostic_type = u8 msg.diagnostic_type;
  level = u8 msg.level;
  diagnostic_message = u8 msg.diagnostic_message;
  description = msg.description;
}

unfoldable pub ready_to_arm_to_core : ReadyToArm → ReadyToArmStatusMsg
ready_to_arm_to_core msg = record {
  system_id = msg.system_id;
  subsystem_id = msg.subsystem_id;
  process_id = msg.process_id;
  ready_to_arm = msg.ready_to_arm;
}

unfoldable pub ready_to_arm_to_ros : ReadyToArmStatusMsg → ReadyToArm
ready_to_arm_to_ros msg = record {
  nodename = [];
  system_id = msg.system_id;
  subsystem_id = msg.subsystem_id;
  process_id = msg.process_id;
  ready_to_arm = msg.ready_to_arm;
}

unfoldable pub arm_command_to_core : ArmCommand → ArmCommandMsg
arm_command_to_core msg = record { armed_state = msg.armed_state }

unfoldable pub arm_command_to_ros : ArmCommandMsg → ArmCommand
arm_command_to_ros msg = record { armed_state = u8 msg.armed_state }

unfoldable pub arm_request_to_core : ArmStateChangeRequest → ArmStateChangeSrvRequest
arm_request_to_core req = record { requested_armed_state = req.requested_armed_state }

unfoldable pub arm_request_to_ros : ArmStateChangeSrvRequest → ArmStateChangeRequest
arm_request_to_ros req = record { requested_armed_state = u8 req.requested_armed_state }

unfoldable pub arm_response_to_core : ArmStateChangeResponse → ArmStateChangeSrvResponse
arm_response_to_core resp = record {
  current_armed_state = resp.current_armed_state;
  request_approved = resp.request_approved;
}

unfoldable pub arm_response_to_ros : ArmStateChangeSrvResponse → ArmStateChangeResponse
arm_response_to_ros resp = record {
  current_armed_state = u8 resp.current_armed_state;
  request_approved = resp.request_approved;
}
