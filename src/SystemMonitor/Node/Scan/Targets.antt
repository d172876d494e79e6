-- ===== src/SystemMonitor/Node/Scan/Targets.antt =====
-- The topics that the monitor listens to, described apart from the code.
use robot_framework_ros.Prelude.{
  ◌≡◌, refl, ap, ◌∙◌, Bool, true, false, Option, none, some, List, [], ◌∷◌, arith, ◌&&◌, ◌||◌,
  if◌then◌else◌,
}
use robot_framework_ros.Prelude.Text.{Text, text, text_eq}
use robot_framework_ros.Prelude.Dict.{Dict}
use robot_framework_ros.SystemMonitor.Node.{TopicInfo, is_scanned, published_by, target_type}

-- The three types of the messages that the monitor shows.
abbrev listened : List Text
listened =
    text "robot_framework_ros2/msg/Heartbeat"
    ∷ text "robot_framework_ros2/msg/Diagnostic"
    ∷ text "robot_framework_ros2/msg/ReadyToArm"
    ∷ []

abbrev is_one_of : Text → List Text → Bool
is_one_of t [] = false
is_one_of t (u ∷ us) = text_eq t u || is_one_of t us

abbrev pub first_listened : List Text → Option Text
first_listened [] = none
first_listened (t ∷ ts) = if is_one_of t listened then some t else first_listened ts

-- Whether one of the publishers has both the name and the namespace.
abbrev pub has_publisher : Text → Text → List (Text × Text) → Bool
has_publisher name namespace [] = false
has_publisher name namespace ((a, b) ∷ publishers) =
    (text_eq a name && text_eq b namespace) || has_publisher name namespace publishers

-- The topics to listen to, with their types: those of one of the three types that the node of that
-- name does not publish itself.
abbrev pub targets : Text → Text → List (Text × TopicInfo) → Dict Text
targets name namespace [] = []
targets name namespace ((topic, info) ∷ topics) =
    elim (if has_publisher name namespace info.publishers
      then none
      else first_listened info.types) [
        | none ↦ targets name namespace topics
        | some type ↦ (topic, type) ∷ targets name namespace topics
      ]

has_publisher_lem :
    (name namespace : Text) (publishers : List (Text × Text))
    → published_by name namespace publishers ≡ has_publisher name namespace publishers
has_publisher_lem name namespace [] = refl
has_publisher_lem name namespace ((a, b) ∷ publishers) =
    ground (arith, has_publisher_lem name namespace publishers)

is_scanned-listened : (t : Text) → is_scanned t ≡ is_one_of t listened
unfolding is_scanned
is_scanned-listened t = ground arith

target_type-listened :
    (self : Bool) (types : List Text)
    → target_type self types ≡ (if self then none else first_listened types)
target_type-listened true [] = refl
target_type-listened false [] = refl
target_type-listened true (t ∷ ts) =
    ground (arith, is_scanned-listened t, target_type-listened true ts)
target_type-listened false (t ∷ ts) =
    ground (arith, is_scanned-listened t, target_type-listened false ts)

pub chosen :
    (name namespace : Text) (info : TopicInfo)
    → target_type (published_by name namespace info.publishers) info.types
      ≡ (if has_publisher name namespace info.publishers then none else first_listened info.types)
chosen name namespace info =
    target_type-listened (published_by name namespace info.publishers) info.types
    ∙ ap (λ (b : Bool). if b then none else first_listened info.types)
        (has_publisher_lem name namespace info.publishers)
