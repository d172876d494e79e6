-- ===== src/BaseNode/Topic/Namespace.antt =====
-- What `BaseNode::baseLoadConfig` makes of the two namespace parameters.
use mathlib.Core.List.{reverse, reverse-cons, reverse-reverse}
use mathlib.Core.Bool.{false≢true}
use robot_framework_ros.Prelude.{
  ◌≡◌, ◌≢◌, refl, sym, ap, ◌∙◌, ◌⊎◌, inl, inr, Bool, true, false, [], ◌∷◌, ◌++◌, map, arith, ◌==◌,
  Bool-cases, if◌then◌else◌, All,
}
use robot_framework_ros.Prelude.Text.{Text, text, text_eq, text_eq_iff}
use robot_framework_ros.BaseNode.Topic.{
  is_empty, starts_slash, strip_front, strip_back, strip_front_to_one, strip_back_to_one,
  load_robot_namespace, load_node_config_namespace,
}
use robot_framework_ros.BaseNode.Topic.Slashes.{starts_slash-strip_front, is_empty-reverse}

strip_front_to_one_lem :
    (s : Text)
    → strip_front_to_one s
      ≡ (if is_empty s then [] else if is_empty (strip_front s) then text "/" else strip_front s)
unfolding strip_front_to_one strip_front
strip_front_to_one_lem [] = refl
strip_front_to_one_lem (c ∷ []) = ground arith
strip_front_to_one_lem (c ∷ d ∷ s) = ground (arith, strip_front_to_one_lem (d ∷ s))

reverse-if :
    (b : Bool) (s t : Text) → reverse (if b then s else t) ≡ (if b then reverse s else reverse t)
reverse-if true s t = refl
reverse-if false s t = refl

strip_back_to_one_lem :
    (s : Text)
    → strip_back_to_one s
      ≡ (if is_empty s then [] else if is_empty (strip_back s) then text "/" else strip_back s)
unfolding strip_back_to_one strip_back
strip_back_to_one_lem s =
    rw (is_empty-reverse (strip_front (reverse s)), ← is_empty-reverse s)
      (ap reverse (strip_front_to_one_lem (reverse s))
        ∙ reverse-if (is_empty (reverse s)) []
            (if is_empty (strip_front (reverse s)) then text "/" else strip_front (reverse s))
        ∙ ap (λ (t : Text). if is_empty (reverse s) then [] else t)
            (reverse-if (is_empty (strip_front (reverse s))) (text "/") (strip_front (reverse s))))

-- No slash is left at the end.
ends_clean : (s : Text) → starts_slash (reverse (strip_back s)) ≡ false
unfolding strip_back
ends_clean s = rw (reverse-reverse (strip_front (reverse s))) (starts_slash-strip_front (reverse s))

not_one_slash : (s : Text) → text_eq (strip_back s) (text "/") ≡ false
not_one_slash s = elim (Bool-cases (text_eq (strip_back s) (text "/"))) [
  | inl same ↦ absurd (
      false≢true (
        sym (ends_clean s)
        ∙ ap (λ (t : Text). starts_slash (reverse t)) ((text_eq_iff _ _).0 same)))
  | inr other ↦ other
]

-- The namespace that a node keeps: the parameter with the slashes at its end stripped and one put
-- before it if it has none there. Of the empty parameter it is "/", and of a row of slashes "".
pub load_robot_namespace_lem :
    (p : Text)
    → load_robot_namespace p ≡ (
        if is_empty p
        then text "/"
        else if is_empty (strip_back p)
        then []
        else if starts_slash (strip_back p)
        then strip_back p
        else text "/" ++ strip_back p)
unfolding load_robot_namespace text_eq
load_robot_namespace_lem p = rw (strip_back_to_one_lem p) (ground (arith, not_one_slash p))

abbrev pub IsNormal : Text → Type 0
IsNormal r =
    (r ≡ []) ⊎ (r ≡ text "/") ⊎ ((starts_slash r ≡ true) × (starts_slash (reverse r) ≡ false))

slash_before :
    (s : Text)
    → is_empty s ≡ false
    → starts_slash (reverse s) ≡ false
    → starts_slash (reverse (text "/" ++ s)) ≡ false
slash_before s n e = rw (reverse-cons b'/' s) (go (reverse s) (is_empty-reverse s ∙ n) e)
  where
    go :
        (t : Text)
        → is_empty t ≡ false
        → starts_slash t ≡ false
        → starts_slash (t ++ b'/' ∷ []) ≡ false
    go [] n e = cc
    go (c ∷ t) n e = e

pub load_robot_namespace-IsNormal : (p : Text) → IsNormal (load_robot_namespace p)
load_robot_namespace-IsNormal p =
    ground (arith, load_robot_namespace_lem p, ends_clean p, slash_before (strip_back p))

dots_only : (s : Text) → All (λ c. c ≢ b'/') (map (λ c. if c == b'/' then b'.' else c) s)
dots_only [] = tt
dots_only (c ∷ s) = (ground arith, dots_only s)

-- The namespace of the node's parameters holds no slash, whatever the parameter `node_namespace`.
pub load_node_config_namespace_dotted :
    (p : Text) → All (λ c. c ≢ b'/') (load_node_config_namespace p)
unfolding load_node_config_namespace
load_node_config_namespace_dotted p = dots_only (strip_front p)
