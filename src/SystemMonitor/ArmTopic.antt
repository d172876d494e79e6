-- ===== src/SystemMonitor/ArmTopic.antt =====
-- `SystemMonitorNode::initPubSubs`: the topic on which the monitor hears arm commands.
use robot_framework_ros.Prelude.{
  ◌≡◌, refl, ap, ◌∙◌, ◌↔◌, inl, inr, ◌++◌, arith, length, length-append,
}
use robot_framework_ros.Prelude.Text.{Text, text}
use robot_framework_ros.BaseNode.Topic.{
  strip_front, strip_back, get_namespaced_topic, load_robot_namespace,
}
use robot_framework_ros.BaseNode.Topic.Namespace.{IsNormal, load_robot_namespace-IsNormal}
use robot_framework_ros.BaseNode.Topic.Joined.{get_namespaced_topic_joined}

-- `getRobotNamespace() + "arm_command"`.
unfoldable pub arm_command_topic : Text → Text
arm_command_topic robot_namespace = robot_namespace ++ text "arm_command"

agrees_only_at_root :
    (ns : Text)
    → IsNormal ns
    → arm_command_topic ns ≡ get_namespaced_topic ns (text "arm_command")
    → ns ≡ text "/"
unfolding arm_command_topic
agrees_only_at_root ns (inl none_set) e =
    absurd (unfold get_namespaced_topic strip_back strip_front in cc (rw none_set at e))
agrees_only_at_root ns (inr (inl root)) e = root
agrees_only_at_root ns (inr (inr (front, back))) e =
    let joined : ns ++ text "arm_command" ≡ ns ++ text "/" ++ text "arm_command" =
      e ∙ get_namespaced_topic_joined ns (text "arm_command") front back refl refl in
    absurd (
      omega (
        arith,
        ap length joined,
        length-append ns (text "arm_command"),
        length-append (ns ++ text "/") (text "arm_command"),
        length-append ns (text "/"),
      ))

agrees_at_root :
    (ns : Text)
    → ns ≡ text "/"
    → arm_command_topic ns ≡ get_namespaced_topic ns (text "arm_command")
unfolding arm_command_topic get_namespaced_topic strip_back
agrees_at_root ns e = rw e refl

-- The monitor's topic of a loaded namespace is the one that `getNamespacedTopic` makes of
-- `arm_command`, as the other nodes name it, exactly if the namespace is "/".
pub arm_command_topic_agrees :
    (p : Text)
    → (arm_command_topic (load_robot_namespace p)
        ≡ get_namespaced_topic (load_robot_namespace p) (text "arm_command"))
      ↔ (load_robot_namespace p ≡ text "/")
arm_command_topic_agrees p = (
  agrees_only_at_root (load_robot_namespace p) (load_robot_namespace-IsNormal p),
  agrees_at_root (load_robot_namespace p),
)
