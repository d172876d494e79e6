-- ===== src/BaseNode.antt =====
-- core/BaseNode/BaseNode.cpp and include/robot_framework_ros2/BaseNode.hpp, in child modules.
pub mod State
pub mod Topic
pub mod Object
pub mod Lifecycle
pub mod Timing
pub mod Service
