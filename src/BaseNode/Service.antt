-- ===== src/BaseNode/Service.antt =====
-- The service of `BaseNode` that changes the level of its logger, and the text of a node
-- (core/BaseNode/BaseNode.cpp). The levels and the logger are the core library's.
use robot_framework_ros.Prelude.{ℕ, Bool, true, false, ◌++◌, if◌then◌else◌}
use robot_framework_ros.Prelude.Text.{Text, text}
use robot_framework_ros.Platform.{CoreLib}
use robot_framework_ros.BaseNode.State.{pretty_state}
use robot_framework_ros.BaseNode.Object.{Node}

module _ ⦃core : CoreLib⦄ where
  -- `response->request_approved`, for the level of the request.
  unfoldable pub change_logger_level_service : ℕ → Bool
  change_logger_level_service verbosity_level =
      if core.change_logger_level verbosity_level then true else false

module _ {D P U : Type 0} where
  unfoldable pub pretty : Node D P U → Text
  unfolding pretty_state
  pretty n = text "Node State: " ++ pretty_state n.node_state
