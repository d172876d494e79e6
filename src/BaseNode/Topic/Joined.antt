-- ===== src/BaseNode/Topic/Joined.antt =====
-- `BaseNode::getNamespacedTopic` against its contract: the namespace and the topic joined by one
-- slash.
use mathlib.Core.List.{reverse}
use robot_framework_ros.Prelude.{ℕ, ◌≡◌, inl, inr, true, false, [], ◌∷◌, ◌++◌, arith}
use robot_framework_ros.Prelude.Text.{Text, text}
use robot_framework_ros.BaseNode.Topic.{
  is_empty, starts_slash, strip_front, strip_back, get_namespaced_topic, load_robot_namespace,
}
use robot_framework_ros.BaseNode.Topic.Slashes.{
  slashes, strip_front-slashes, strip_back-slashes, strip_back_same, strip_front_same,
  starts_slash-strip_back,
}
use robot_framework_ros.BaseNode.Topic.Namespace.{IsNormal, load_robot_namespace-IsNormal}

-- Slashes at the end of the namespace and at the front of the topic, however many, do not change the
-- name that is made of them.
pub get_namespaced_topic-slashes :
    (ns topic : Text) (j k : ℕ)
    → get_namespaced_topic (ns ++ slashes j) (slashes k ++ topic) ≡ get_namespaced_topic ns topic
unfolding get_namespaced_topic
get_namespaced_topic-slashes ns topic j k =
    rw (strip_back-slashes ns j, strip_front-slashes k topic)

starts_with_base : (s t : Text) → starts_slash s ≡ true → starts_slash (s ++ t) ≡ true
starts_with_base [] t h = cc
starts_with_base (c ∷ s) t h = h

absolute_of : (ns topic : Text) → IsNormal ns → starts_slash (get_namespaced_topic ns topic) ≡ true
unfolding get_namespaced_topic
absolute_of ns topic (inl e) = rw e (unfold strip_back strip_front in ground arith)
absolute_of ns topic (inr (inl e)) = rw e (unfold strip_back strip_front in ground arith)
absolute_of ns topic (inr (inr (front, back))) = ground (
  arith,
  starts_slash-strip_back ns front,
  starts_with_base (strip_back ns) (text "/" ++ strip_front topic),
)

-- With a namespace that the node has loaded, and any topic, the name is absolute: it starts with a
-- slash.
pub get_namespaced_topic_absolute :
    (p topic : Text) → starts_slash (get_namespaced_topic (load_robot_namespace p) topic) ≡ true
get_namespaced_topic_absolute p topic =
    absolute_of (load_robot_namespace p) topic (load_robot_namespace-IsNormal p)

-- Of a namespace that starts with a slash and does not end with one, and a topic that is not empty
-- and starts with none, the name is the two with one slash between them.
pub get_namespaced_topic_joined :
    (ns topic : Text)
    → starts_slash ns ≡ true
    → starts_slash (reverse ns) ≡ false
    → starts_slash topic ≡ false
    → is_empty topic ≡ false
    → get_namespaced_topic ns topic ≡ ns ++ text "/" ++ topic
unfolding get_namespaced_topic
get_namespaced_topic_joined (c ∷ ns) topic front back first some_topic =
    rw (strip_back_same (c ∷ ns) back, strip_front_same topic first, some_topic)
get_namespaced_topic_joined [] topic front back first some_topic = cc
