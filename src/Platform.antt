-- ===== src/Platform.antt =====
-- What the program uses and does not implement: C++ doubles, the robot framework's core library
-- (`fast::rf`), the key codes of ncurses, the parameters of an rclcpp node,
-- rclcpp's time, tf2 and PCL. Each is an interface that definitions take as
-- an instance.
pub mod Toy
use robot_framework_ros.Prelude.{ℕ, Bool, Option, List}
use robot_framework_ros.Prelude.Int.{ℤ}
use robot_framework_ros.Prelude.Text.{Text}
use robot_framework_ros.Messages.{Stamp, Header}

pub record Doubles (D : Type 0) : Type 0 where
  -- The double of a literal: `lit m e` is m * 10^-e.
  pub lit : ℕ → ℕ → D
  pub neg : D → D
  pub add : D → D → D
  pub sub : D → D → D
  pub mul : D → D → D
  pub div : D → D → D
  -- `a < b` and `a <= b`.
  pub lt : D → D → Bool
  pub le : D → D → Bool
  -- `std::to_string`.
  pub to_text : D → Text
  -- `snprintf` with "%2.2f".
  pub fixed2 : D → Text
  -- The conversion to `uint16_t`.
  pub to_u16 : D → ℕ
  -- The conversion to `int64_t`.
  pub to_i64 : D → ℤ

-- `fast::rf`. An enumerator is its number; its functions are those of the logger and the printers.
pub record CoreLib : Type 0 where
  pub level_unknown : ℕ
  pub level_noerror : ℕ
  pub level_debug : ℕ
  pub level_info : ℕ
  pub level_notice : ℕ
  pub level_warn : ℕ
  pub level_error : ℕ
  pub level_fatal : ℕ
  pub level_end_of_list : ℕ
  pub type_unknown : ℕ
  pub type_unknown_type : ℕ
  pub type_timing : ℕ
  pub type_end_of_list : ℕ
  pub message_initializing : ℕ
  pub message_noerror : ℕ
  pub message_diagnostic_failed : ℕ
  pub armed_state_armed : ℕ
  pub armed_state_disarmed_cannotarm : ℕ
  pub armed_state_disarmed : ℕ
  pub armed_state_arming : ℕ
  -- The printers of the enumerators.
  pub pretty_level : ℕ → Text
  pub pretty_armed_state : ℕ → Text
  pub pretty_diagnostic_type : ℕ → Text
  pub pretty_diagnostic_message : ℕ → Text
  -- `Logger::init` and `Logger::changeLoggerLevel`.
  pub logger_init : ℕ → Text → Bool
  pub change_logger_level : ℕ → Bool

-- The key codes of ncurses that the monitor compares with, whether the terminal has colors, and of a
-- height, a width, and a row and a column to start at: whether `newwin` gives a window, and the
-- columns that `getmaxx` says the window has.
pub record Curses : Type 0 where
  pub has_colors : Bool
  pub newwin : ℕ → ℕ → ℕ → ℕ → Bool
  pub getmaxx : ℕ → ℕ → ℕ → ℕ → ℕ
  pub key_up : ℤ
  pub key_down : ℤ

-- `declare_parameter` with a default: the value that the parameter then has, and the node's
-- parameters with it declared. `none`: it throws, as it does if the parameter is declared already.
pub record Params (D P : Type 0) : Type 0 where
  pub declare_text : P → Text → Text → Option (Text × P)
  pub declare_double : P → Text → D → Option (D × P)
  -- `declare_parameter` without a default: it throws too if no value is given for the name.
  pub require_text : P → Text → Option (Text × P)
  pub require_double : P → Text → Option (D × P)
  pub require_texts : P → Text → Option (List Text × P)
  pub require_doubles : P → Text → Option (List D × P)
  -- Whether `create_wall_timer` takes a period of that many seconds. It throws on one that is negative
  -- or that is too long for its nanoseconds.
  pub takes_period : D → Bool

-- `rclcpp::Time` and tf2. `seconds` is `rclcpp::Time(stamp).seconds()`, which throws on a negative
-- stamp, and `stamp_of` the stamp of an `rclcpp::Time` of so many nanoseconds. `rpy_of` gives the roll,
-- pitch and yaw of a quaternion's x, y, z and w, and `of_rpy` the quaternion.
pub record RosMath (D : Type 0) : Type 0 where
  pub seconds : Stamp → Option D
  pub stamp_of : ℤ → Stamp
  pub rpy_of : D → D → D → D → D × D × D
  pub of_rpy : D → D → D → D × D × D × D

-- PCL, over clouds `C` and the fields `B` of a `PointCloud2` other than its header. `new_cloud` is the
-- pointer that a new `PointCloudMsg` holds.
pub record Pcl (C B : Type 0) : Type 0 where
  pub new_cloud : Option C
  pub from_ros_msg : Header → B → C → C
  pub to_ros_msg : C → Header × B
  pub no_body : B
