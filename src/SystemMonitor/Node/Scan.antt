-- ===== src/SystemMonitor/Node/Scan.antt =====
-- What a scan of the network leaves of the subscriptions.
pub mod Targets
use robot_framework_ros.Prelude.{
  ◌≡◌, refl, ap, ◌∙◌, Bool, true, false, Option, none, some, List, [], ◌∷◌, arith, ◌&&◌, ◌||◌,
  if◌then◌else◌,
}
use robot_framework_ros.Prelude.Text.{Text, text, text_eq, text_eq_iff}
use robot_framework_ros.Prelude.Dict.{Dict, find, find-insert}
use robot_framework_ros.SystemMonitor.Node.{
  MonitorNode, TopicInfo, is_scanned, published_by, target_type, subscribe_to_topic,
  subscribe_if_new, scan_topics, keep_discovered, rescan_ros_network,
}
use robot_framework_ros.SystemMonitor.Node.Scan.Targets.{
  targets, first_listened, has_publisher, chosen,
}

-- The topics to listen to, with their types, as the code computes them.
abbrev computed : Text → Text → List (Text × TopicInfo) → Dict Text
computed name namespace [] = []
computed name namespace ((topic, info) ∷ topics) =
    elim (target_type (published_by name namespace info.publishers) info.types) [
      | none ↦ computed name namespace topics
      | some type ↦ (topic, type) ∷ computed name namespace topics
    ]

abbrev pub or_else : Option Text → Option Text → Option Text
or_else none b = b
or_else (some a) b = some a

target_type-scanned :
    (self : Bool) (types : List Text) (t : Text)
    → target_type self types ≡ some t
    → is_scanned t ≡ true
target_type-scanned self [] t h = ground arith
target_type-scanned self (u ∷ us) t h = ground (arith, target_type-scanned self us t)

find-subscribe_if_new :
    (k name type : Text) (subs : Dict Text)
    → is_scanned type ≡ true
    → find k (subscribe_if_new name type subs)
      ≡ or_else (find k subs) (if text_eq name k then some type else none)
unfolding subscribe_if_new subscribe_to_topic
find-subscribe_if_new k name type subs h =
    ground (arith, find-insert name k type subs, text_eq_iff name k)

shuffle :
    (o : Option Text) (b : Bool) (type : Text) (rest : Option Text)
    → or_else (or_else o (if b then some type else none)) rest
      ≡ or_else o (if b then some type else rest)
shuffle o b type rest = ground arith

one_more :
    (k topic type : Text) (subs rest : Dict Text)
    → is_scanned type ≡ true
    → or_else (find k (subscribe_if_new topic type subs)) (find k rest)
      ≡ or_else (find k subs) (find k ((topic, type) ∷ rest))
unfolding find
one_more k topic type subs rest h =
    ap (λ (o : Option Text). or_else o (find k rest)) (find-subscribe_if_new k topic type subs h)
    ∙ shuffle (find k subs) (text_eq topic k) type (find k rest)

find-keep_discovered :
    (k : Text) (found : List (Text × Text)) (subs : Dict Text)
    → find k (keep_discovered found subs)
      ≡ elim (find k found) [ none ↦ none | some t ↦ find k subs ]
unfolding keep_discovered find
find-keep_discovered k found [] = ground arith
find-keep_discovered k found ((j, t) ∷ subs) =
    ground (arith, find-keep_discovered k found subs, text_eq_iff j k)

or_none : (o : Option Text) → o ≡ or_else o none
or_none none = refl
or_none (some t) = refl

nothing_more : (k : Text) (s : Dict Text) → find k s ≡ or_else (find k s) (find k [])
unfolding find
nothing_more k s = or_none (find k s)

scan_topics_lem :
    (k name namespace : Text) (topics : List (Text × TopicInfo)) (subs : Dict Text)
    → ((scan_topics name namespace topics subs).0 ≡ computed name namespace topics)
      × (find k (scan_topics name namespace topics subs).1
          ≡ or_else (find k subs) (find k (computed name namespace topics)))
unfolding scan_topics
scan_topics_lem k name namespace [] subs = (refl, nothing_more k subs)
scan_topics_lem k name namespace ((topic, info) ∷ topics) subs =
    step (target_type (published_by name namespace info.publishers) info.types) refl
      (λ s. scan_topics_lem k name namespace topics s)
  where
    step :
        (o : Option Text)
        → target_type (published_by name namespace info.publishers) info.types ≡ o
        → ((s : Dict Text)
            → ((scan_topics name namespace topics s).0 ≡ computed name namespace topics)
              × (find k (scan_topics name namespace topics s).1
                  ≡ or_else (find k s) (find k (computed name namespace topics))))
        → let r : List (Text × Text) × Dict Text = elim o [
          | none ↦ scan_topics name namespace topics subs
          | some type ↦ (
            (topic, type)
                ∷ (scan_topics name namespace topics (subscribe_if_new topic type subs)).0,
            (scan_topics name namespace topics (subscribe_if_new topic type subs)).1,
          )
        ] in
          let t : Dict Text = elim o [
            | none ↦ computed name namespace topics
            | some type ↦ (topic, type) ∷ computed name namespace topics
          ] in
          (r.0 ≡ t) × (find k r.1 ≡ or_else (find k subs) (find k t))
    step none e rest = rest subs
    step (some type) e rest =
        let (same, subscribed) = rest (subscribe_if_new topic type subs) in
        (
          ap (λ (l : List (Text × Text)). (topic, type) ∷ l) same,
          subscribed
              ∙ one_more k topic type subs (computed name namespace topics)
                  (target_type-scanned _ _ type e),
        )

merge :
    (o s : Option Text)
    → (elim o as (λ x. Option Text) [ none ↦ none | some t ↦ or_else s o ])
      ≡ (elim o as (λ x. Option Text) [ none ↦ none | some type ↦ or_else s (some type) ])
merge none s = refl
merge (some t) s = refl

computed-targets :
    (name namespace : Text) (topics : List (Text × TopicInfo))
    → computed name namespace topics ≡ targets name namespace topics
computed-targets name namespace [] = refl
computed-targets name namespace ((topic, info) ∷ topics) =
    ground (arith, chosen name namespace info, computed-targets name namespace topics)

module _ {D : Type 0} where
  rescan_computed :
      (k name namespace : Text) (topics : List (Text × TopicInfo)) (n : MonitorNode D)
      → find k (rescan_ros_network name namespace topics n).auto_subs
        ≡ elim (find k (computed name namespace topics)) [
          | none ↦ none
          | some type ↦ or_else (find k n.auto_subs) (some type)
        ]
  unfolding rescan_ros_network
  rescan_computed k name namespace topics n =
      let (found, subscribed) = scan_topics_lem k name namespace topics n.auto_subs in
      find-keep_discovered k (scan_topics name namespace topics n.auto_subs).0
        (scan_topics name namespace topics n.auto_subs).1
      ∙ ap
          (λ (o : Option Text). elim o as (λ x. Option Text) [
            | none ↦ none
            | some t ↦ find k (scan_topics name namespace topics n.auto_subs).1
          ])
          (ap (find k) found)
      ∙ ap
          (λ (s : Option Text).
            elim (find k (computed name namespace topics)) as (λ x. Option Text) [
              | none ↦ none
              | some t ↦ s
            ])
          subscribed
      ∙ merge (find k (computed name namespace topics)) (find k n.auto_subs)

  -- After a scan the monitor has a subscription for a topic exactly if the topic is there, one of its
  -- types is the Heartbeat, the Diagnostic or the ReadyToArm of robot_framework_ros2, and none of its
  -- publishers has both the name and the namespace of the monitor. The subscription is the one that it
  -- had before, or else a new one of the topic's first such type.
  pub rescan_ros_network_lem :
      (k name namespace : Text) (topics : List (Text × TopicInfo)) (n : MonitorNode D)
      → find k (rescan_ros_network name namespace topics n).auto_subs
        ≡ elim (find k (targets name namespace topics)) [
          | none ↦ none
          | some type ↦ or_else (find k n.auto_subs) (some type)
        ]
  rescan_ros_network_lem k name namespace topics n =
      rescan_computed k name namespace topics n
      ∙ ap
          (λ (t : Dict Text). elim (find k t) as (λ x. Option Text) [
            | none ↦ none
            | some type ↦ or_else (find k n.auto_subs) (some type)
          ])
          (computed-targets name namespace topics)
