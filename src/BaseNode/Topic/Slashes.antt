-- ===== src/BaseNode/Topic/Slashes.antt =====
-- The loops that strip slashes: what they take away, and what is left.
use mathlib.Core.List.{reverse, reverse-cons, reverse-append, reverse-reverse}
use robot_framework_ros.Prelude.{
  ℕ, zero, suc, ◌≡◌, refl, sym, ap, ◌∙◌, inl, inr, true, false, [], ◌∷◌, ◌++◌, arith, ◌==◌,
  Bool-cases, replicate,
}
use robot_framework_ros.Prelude.Text.{Text}
use robot_framework_ros.BaseNode.Topic.{is_empty, starts_slash, strip_front, strip_back}

abbrev pub slashes : ℕ → Text
slashes k = replicate k b'/'

pub starts_slash-strip_front : (s : Text) → starts_slash (strip_front s) ≡ false
unfolding strip_front
starts_slash-strip_front [] = refl
starts_slash-strip_front (c ∷ s) = ground (arith, starts_slash-strip_front s)

pub strip_front-slashes : (k : ℕ) (s : Text) → strip_front (slashes k ++ s) ≡ strip_front s
unfolding strip_front
strip_front-slashes zero s = refl
strip_front-slashes (suc k) s = strip_front-slashes k s

pub strip_front_same : (s : Text) → starts_slash s ≡ false → strip_front s ≡ s
unfolding strip_front
strip_front_same [] h = refl
strip_front_same (c ∷ s) h = ground arith

-- What is stripped is a row of slashes.
pub strip_front_cut : (s : Text) → (k : ℕ) × (s ≡ slashes k ++ strip_front s)
unfolding strip_front
strip_front_cut [] = (0, refl)
strip_front_cut (c ∷ s) = let (k, e) = strip_front_cut s in go k e
  where
    go :
        (k : ℕ)
        → s ≡ slashes k ++ strip_front s
        → (j : ℕ) × (c ∷ s ≡ slashes j ++ strip_front (c ∷ s))
    go k e = elim (Bool-cases (c == b'/')) [
      | inl slash ↦ (suc k, ground arith)
      | inr other ↦ (0, ground arith)
    ]

replicate-suc_right {ℓ} : {A : Type ℓ} (k : ℕ) (a : A) → replicate k a ++ a ∷ [] ≡ a ∷ replicate k a
replicate-suc_right zero a = refl
replicate-suc_right (suc k) a = ap (◌∷◌ a) (replicate-suc_right k a)

reverse-slashes : (k : ℕ) → reverse (slashes k) ≡ slashes k
reverse-slashes zero = refl
reverse-slashes (suc k) =
    reverse-cons b'/' (slashes k)
    ∙ ap (λ (t : Text). t ++ b'/' ∷ []) (reverse-slashes k)
    ∙ replicate-suc_right k b'/'

pub strip_back-slashes : (s : Text) (k : ℕ) → strip_back (s ++ slashes k) ≡ strip_back s
unfolding strip_back
strip_back-slashes s k =
    rw (reverse-append s (slashes k), reverse-slashes k, strip_front-slashes k (reverse s))

pub strip_back_same : (s : Text) → starts_slash (reverse s) ≡ false → strip_back s ≡ s
unfolding strip_back
strip_back_same s h = rw (strip_front_same (reverse s) h) (reverse-reverse s)

pub strip_back_cut : (s : Text) → (k : ℕ) × (s ≡ strip_back s ++ slashes k)
unfolding strip_back
strip_back_cut s =
    let (k, e) = strip_front_cut (reverse s) in
    (
      k,
      sym (reverse-reverse s)
          ∙ ap reverse e
          ∙ reverse-append (slashes k) (strip_front (reverse s))
          ∙ ap (◌++◌ (reverse (strip_front (reverse s)))) (reverse-slashes k),
    )

pub is_empty-reverse : (s : Text) → is_empty (reverse s) ≡ is_empty s
is_empty-reverse [] = refl
is_empty-reverse (c ∷ s) = rw (reverse-cons c s) (nonempty (reverse s))
  where
    nonempty : (t : Text) → is_empty (t ++ c ∷ []) ≡ false
    nonempty [] = refl
    nonempty (d ∷ t) = refl

-- Stripping the back of a text that starts with a slash leaves that slash, or nothing.
pub starts_slash-strip_back :
    (s : Text)
    → starts_slash s ≡ true
    → is_empty (strip_back s) ≡ false
    → starts_slash (strip_back s) ≡ true
starts_slash-strip_back s h ne = let (k, e) = strip_back_cut s in go (strip_back s) k e ne
  where
    go : (t : Text) (k : ℕ) → s ≡ t ++ slashes k → is_empty t ≡ false → starts_slash t ≡ true
    go [] k e n = cc
    go (c ∷ t) k e n = rw e at h
