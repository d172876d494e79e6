-- ===== src/BaseNode/Topic.antt =====
-- Names of topics and parameters: `BaseNode::getNamespacedTopic`, and what
-- `BaseNode::baseLoadConfig` makes of the parameters `robot_namespace` and `node_namespace`.
pub mod Slashes
pub mod Namespace
pub mod Joined
use mathlib.Core.List.{reverse}
use robot_framework_ros.Prelude.{
  ℕ, ◌≡◌, refl, Bool, true, false, List, [], ◌∷◌, ◌++◌, map, ◌==◌, if◌then◌else◌,
}
use robot_framework_ros.Prelude.Text.{Text, text, text_eq}

abbrev pub is_empty : Text → Bool
is_empty [] = true
is_empty (c ∷ s) = false

-- `front() == '/'`, of a text that may be empty.
abbrev pub starts_slash : Text → Bool
starts_slash [] = false
starts_slash (c ∷ s) = c == b'/'

-- `while (!s.empty() && s.front() == '/') s.erase(0, 1)`, and `s.substr(s.find_first_not_of('/'))`.
unfoldable pub strip_front : Text → Text
strip_front [] = []
strip_front (c ∷ s) = if c == b'/' then strip_front s else c ∷ s

-- `while (s.size() > 1 && s.front() == '/') s.erase(0, 1)`.
unfoldable pub strip_front_to_one : Text → Text
strip_front_to_one [] = []
strip_front_to_one (c ∷ []) = c ∷ []
strip_front_to_one (c ∷ d ∷ s) = if c == b'/' then strip_front_to_one (d ∷ s) else c ∷ d ∷ s

-- `pop_back` in place of `erase(0, 1)`: the same loops from the other end.
unfoldable pub strip_back : Text → Text
unfolding strip_front
strip_back s = reverse (strip_front (reverse s))

unfoldable pub strip_back_to_one : Text → Text
unfolding strip_front_to_one
strip_back_to_one s = reverse (strip_front_to_one (reverse s))

-- `getNamespacedTopic`, with `m_robotNamespace` as an argument.
unfoldable pub get_namespaced_topic : Text → Text → Text
get_namespaced_topic robot_namespace topic =
    let base = strip_back robot_namespace in
    let relative_topic = strip_front topic in
    if is_empty relative_topic
    then (if is_empty base then text "/" else base)
    else if is_empty base
    then text "/" ++ relative_topic
    else base ++ text "/" ++ relative_topic

-- `m_robotNamespace`, from the parameter `robot_namespace`.
unfoldable pub load_robot_namespace : Text → Text
load_robot_namespace parameter =
    let s = strip_back_to_one parameter in
    if text_eq s (text "/") then [] else if starts_slash s then s else text "/" ++ s

-- `m_nodeConfigNamespace`, from the parameter `node_namespace`.
unfoldable pub load_node_config_namespace : Text → Text
load_node_config_namespace parameter =
    map (λ c. if c == b'/' then b'.' else c) (strip_front parameter)

joined : get_namespaced_topic (text "/robot1//") (text "//imu") ≡ text "/robot1/imu"
unfolding get_namespaced_topic strip_back
joined = refl

loaded :
    (load_robot_namespace (text "robot1/") ≡ text "/robot1")
    × (load_robot_namespace (text "") ≡ text "/")
    × (load_robot_namespace (text "///") ≡ text "")
    × (load_node_config_namespace (text "/a/b") ≡ text "a.b")
unfolding load_robot_namespace load_node_config_namespace strip_back_to_one strip_front text_eq
loaded = (refl, refl, refl, refl)
