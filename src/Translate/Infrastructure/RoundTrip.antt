-- ===== src/Translate/Infrastructure/RoundTrip.antt =====
-- Round trips of the infrastructure messages.
use robot_framework_ros.Prelude.{◌<◌, ◌≡◌, [], arith}
use robot_framework_ros.Prelude.Text.{Text}
use robot_framework_ros.Messages.{
  Diagnostic, DiagnosticMsg, ReadyToArm, ArmCommandMsg, ArmStateChangeSrvRequest,
  ArmStateChangeSrvResponse, Stamp, no_stamp,
}
use robot_framework_ros.Translate.Infrastructure.{
  diagnostic_to_core, diagnostic_to_ros, ready_to_arm_to_core, ready_to_arm_to_ros,
  arm_command_to_core, arm_command_to_ros, arm_request_to_core, arm_request_to_ros,
  arm_response_to_core, arm_response_to_ros,
}

-- The three fields that are enumerations in the core library fit a byte.
abbrev pub FitsBytes : DiagnosticMsg → Type 0
FitsBytes m = (m.diagnostic_type < 256) × (m.level < 256) × (m.diagnostic_message < 256)

-- A diagnostic whose enumerations fit a byte goes to ROS and back unchanged. With its stamp and its
-- node's name set on the way, as the node's 1 Hz loop sets them, it still comes back unchanged.
pub diagnostic_from_core :
    (m : DiagnosticMsg) (t : Stamp) (name : Text)
    → FitsBytes m
    → (diagnostic_to_core (diagnostic_to_ros m) ≡ m)
      × (diagnostic_to_core (record (diagnostic_to_ros m) { timestamp = t; node_name = name }) ≡ m)
unfolding diagnostic_to_core diagnostic_to_ros
diagnostic_from_core m t name h = ground arith

-- A ROS diagnostic, whose enumerations are bytes, comes back from the core library but for its stamp
-- and its node's name, which are cleared; a `ReadyToArm` comes back but for its node's name.
pub ros_round_trips :
    (d : Diagnostic) (r : ReadyToArm)
    → FitsBytes (diagnostic_to_core d)
    → (diagnostic_to_ros (diagnostic_to_core d) ≡ record d { timestamp = no_stamp; node_name = [] })
      × (ready_to_arm_to_ros (ready_to_arm_to_core r) ≡ record r { nodename = [] })
unfolding diagnostic_to_core diagnostic_to_ros ready_to_arm_to_core ready_to_arm_to_ros
ros_round_trips d r h = ground arith

-- Arm commands, and the requests and responses of the arming service, go to ROS and back unchanged
-- if their armed state fits a byte.
pub arming_round_trips :
    (c : ArmCommandMsg) (q : ArmStateChangeSrvRequest) (a : ArmStateChangeSrvResponse)
    → c.armed_state < 256
    → q.requested_armed_state < 256
    → a.current_armed_state < 256
    → (arm_command_to_core (arm_command_to_ros c) ≡ c)
      × (arm_request_to_core (arm_request_to_ros q) ≡ q)
      × (arm_response_to_core (arm_response_to_ros a) ≡ a)
unfolding arm_command_to_core arm_command_to_ros arm_request_to_core arm_request_to_ros
    arm_response_to_core arm_response_to_ros
arming_round_trips c q a h i j = ground arith
