-- ===== src/SystemMonitor/Dispatch/Pretty.antt =====
-- What the windows and the monitor's node write about themselves: `pretty` of the six classes
-- (src/Windows/) and of `SystemMonitorNode`.
use robot_framework_ros.Prelude.{◌++◌}
use robot_framework_ros.Prelude.Run.{Result}
use robot_framework_ros.Prelude.Text.{Text, text}
use robot_framework_ros.Platform.{Doubles}
use robot_framework_ros.BaseNode.Object.{Node}
use robot_framework_ros.BaseNode.Service
use robot_framework_ros.SystemMonitor.Window.Describe.{window_pretty}
use robot_framework_ros.SystemMonitor.Dispatch.{
  Window, a_diagnostic, a_header, a_menu, a_message, a_node_info, a_status, Monitor, base_of,
}

module _ {D : Type 0} where
  -- The title of each class, as it stands in the code.
  abbrev title : Window D → Text
  title (a_diagnostic w) = text "Diagnostic Window"
  title (a_header w) = text "Header Window"
  title (a_menu w) = text "Status Window"
  title (a_message w) = text "Header Window"
  title (a_node_info w) = text "Node Info Window"
  title (a_status w) = text "Status Window"

module _ {D : Type 0} ⦃fl : Doubles D⦄ where
  unfoldable pub pretty : Window D → Result Text
  unfolding window_pretty
  pretty w = window_pretty (title w) (base_of w)

module _ {D P : Type 0} where
  unfoldable pub node_pretty : Node D P (Monitor D) → Text
  unfolding Service.pretty
  node_pretty n = text "\n--- SystemMonitorNode ---\n" ++ Service.pretty n ++ text "\n"
