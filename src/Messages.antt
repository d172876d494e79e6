-- ===== src/Messages.antt =====
-- The messages of msg/ and srv/, and the core library's messages that they are translated to, with
-- the fields that the source uses. A `uint8` is its number; a message that holds one number is that
-- number (`NodeState`, `ArmedState`).
use robot_framework_ros.Prelude.{ℕ, Bool, false, []}
use robot_framework_ros.Prelude.Int.{ℤ, pos}
use robot_framework_ros.Prelude.Text.{Text}

-- `builtin_interfaces/Time`.
pub record Stamp : Type 0 where
  pub sec : ℤ
  pub nanosec : ℕ

-- `std_msgs/Header`.
pub record Header : Type 0 where
  pub stamp : Stamp
  pub frame_id : Text

pub record Heartbeat : Type 0 where
  pub timestamp : Stamp
  pub hostname : Text
  pub base_nodename : Text
  pub nodename : Text
  pub node_state : ℕ

pub record Diagnostic : Type 0 where
  pub timestamp : Stamp
  pub node_name : Text
  pub system_id : ℕ
  pub subsystem_id : ℕ
  pub process_id : ℕ
  pub diagnostic_type : ℕ
  pub level : ℕ
  pub diagnostic_message : ℕ
  pub description : Text

pub record ReadyToArm : Type 0 where
  pub nodename : Text
  pub system_id : ℕ
  pub subsystem_id : ℕ
  pub process_id : ℕ
  pub ready_to_arm : Bool

pub record ArmCommand : Type 0 where
  pub armed_state : ℕ

pub record ArmStateChangeRequest : Type 0 where
  pub requested_armed_state : ℕ

pub record ArmStateChangeResponse : Type 0 where
  pub current_armed_state : ℕ
  pub request_approved : Bool

-- `fast::rf::messages::InfrastructureMsgs`.
pub record DiagnosticMsg : Type 0 where
  pub system_id : ℕ
  pub subsystem_id : ℕ
  pub process_id : ℕ
  pub diagnostic_type : ℕ
  pub level : ℕ
  pub diagnostic_message : ℕ
  pub description : Text

pub record ReadyToArmStatusMsg : Type 0 where
  pub system_id : ℕ
  pub subsystem_id : ℕ
  pub process_id : ℕ
  pub ready_to_arm : Bool

pub record ArmCommandMsg : Type 0 where
  pub armed_state : ℕ

pub record ArmStateChangeSrvRequest : Type 0 where
  pub requested_armed_state : ℕ

pub record ArmStateChangeSrvResponse : Type 0 where
  pub current_armed_state : ℕ
  pub request_approved : Bool

-- A message as its constructor leaves it: numbers 0, texts empty, `false`.
abbrev pub no_stamp : Stamp
no_stamp = record { sec = pos 0; nanosec = 0 }

abbrev pub no_header : Header
no_header = record { stamp = no_stamp; frame_id = [] }

abbrev pub no_heartbeat : Heartbeat
no_heartbeat = record {
  timestamp = no_stamp;
  hostname = [];
  base_nodename = [];
  nodename = [];
  node_state = 0;
}

abbrev pub no_ready_to_arm : ReadyToArm
no_ready_to_arm = record {
  nodename = [];
  system_id = 0;
  subsystem_id = 0;
  process_id = 0;
  ready_to_arm = false;
}
