-- ===== src/Prelude/Dict.antt =====
-- `std::map` with text keys: the entries in the order of their keys.
use Prim.Native.Nat.{suc}
use mathlib.Core.Path.{◌≡◌, refl}
use mathlib.Core.Option.{Option, none, some}
use mathlib.Core.List.{List, [], ◌∷◌, map}
use native.Mathlib.Omega.{arith}
use robot_framework_ros.Prelude.Tests.{if◌then◌else◌}
use robot_framework_ros.Prelude.Lists.{length, All}
use mathlib.Core.Bool.{Bool, true, false}
use robot_framework_ros.Prelude.Text.{Text, text_eq, text_ltb, text_eq_iff}

abbrev pub Dict {ℓ} : Type ℓ → Type ℓ
Dict V = List (Text × V)

module _ {ℓ} {V : Type ℓ} where
  unfoldable pub find : Text → Dict V → Option V
  find k [] = none
  find k ((j, v) ∷ m) = if text_eq j k then some v else find k m

  -- `m[k] = v`.
  unfoldable pub insert : Text → V → Dict V → Dict V
  insert k v [] = (k, v) ∷ []
  insert k v ((j, w) ∷ m) =
      if text_eq j k
      then (k, v) ∷ m
      else if text_ltb k j
      then (k, v) ∷ (j, w) ∷ m
      else (j, w) ∷ insert k v m

  pub find-insert :
      (k j : Text) (v : V) (m : Dict V)
      → find j (insert k v m) ≡ (if text_eq k j then some v else find j m)
  unfolding find insert
  find-insert k j v [] = refl
  find-insert k j v ((i, w) ∷ m) =
      ground (arith, text_eq_iff k j, text_eq_iff i k, text_eq_iff i j, find-insert k j v m)

  pub length-insert :
      (k : Text) (v : V) (m : Dict V) → find k m ≡ none → length (insert k v m) ≡ suc (length m)
  unfolding find insert
  length-insert k v [] h = refl
  length-insert k v ((i, w) ∷ m) h = ground (arith, length-insert k v m)

-- `for (auto& pair : m) pair.second = f(pair.second)`.
module _ {ℓ κ} {V : Type ℓ} {W : Type κ} where
  abbrev pub map_values : (V → W) → Dict V → Dict W
  map_values f = map λ (k, v). (k, f v)

  pub find-map_values :
      (f : V → W) (k : Text) (m : Dict V)
      → find k (map_values f m) ≡ elim (find k m) [ none ↦ none | some v ↦ some (f v) ]
  unfolding find
  find-map_values f k [] = refl
  find-map_values f k ((j, v) ∷ m) = ground (arith, find-map_values f k m)

-- `auto it = m.find(k); it->second = f(it->second)`, of a key that is there.
module _ {ℓ} {V : Type ℓ} where
  unfoldable pub adjust : Text → (V → V) → Dict V → Dict V
  adjust k f [] = []
  adjust k f ((j, v) ∷ m) =
      let rest = adjust k f m in if text_eq j k then (j, f v) ∷ m else (j, v) ∷ rest

  pub find-adjust :
      (k j : Text) (f : V → V) (m : Dict V)
      → find j (adjust k f m) ≡ (
          if text_eq k j then (elim (find j m) [ none ↦ none | some v ↦ some (f v) ]) else find j m)
  unfolding find adjust
  find-adjust k j f [] = ground arith
  find-adjust k j f ((i, v) ∷ m) =
      ground (arith, text_eq_iff k j, text_eq_iff i k, text_eq_iff i j, find-adjust k j f m)

  pub length-adjust : (k : Text) (f : V → V) (m : Dict V) → length (adjust k f m) ≡ length m
  unfolding adjust
  length-adjust k f [] = refl
  length-adjust k f ((i, v) ∷ m) = ground (arith, length-adjust k f m)

-- What holds of every entry, and is kept by the three.
module _ {ℓ κ} {V : Type ℓ} (P : V → Type κ) where
  pub All-insert :
      (k : Text) (v : V) (m : Dict V)
      → P v
      → All (λ (j, w). P w) m
      → All (λ (j, w). P w) (insert k v m)
  unfolding insert
  All-insert k v [] h hs = (h, tt)
  All-insert k v ((i, w) ∷ m) h (hw, hs) = go (text_eq i k) (text_ltb k i) (All-insert k v m h hs)
    where
      go :
          (b c : Bool)
          → All (λ (j, w). P w) (insert k v m)
          → All
              (λ (j, w). P w)
              (if b then (k, v) ∷ m else if c then (k, v) ∷ (i, w) ∷ m else (i, w) ∷ insert k v m)
      go true c rest = (h, hs)
      go false true rest = (h, (hw, hs))
      go false false rest = (hw, rest)

  pub All-adjust :
      (k : Text) (f : V → V) (m : Dict V)
      → ((v : V) → P v → P (f v))
      → All (λ (j, w). P w) m
      → All (λ (j, w). P w) (adjust k f m)
  unfolding adjust
  All-adjust k f [] keeps h = h
  All-adjust k f ((i, w) ∷ m) keeps (hw, hs) = go (text_eq i k) (All-adjust k f m keeps hs)
    where
      go :
          (b : Bool)
          → All (λ (j, w). P w) (adjust k f m)
          → All (λ (j, w). P w) (if b then (i, f w) ∷ m else (i, w) ∷ adjust k f m)
      go true rest = (keeps w hw, hs)
      go false rest = (hw, rest)

  pub All-map_values :
      (Q : V → Type κ) (f : V → V) (m : Dict V)
      → ((v : V) → P v → Q (f v))
      → All (λ (j, w). P w) m
      → All (λ (j, w). Q w) (map_values f m)
  All-map_values Q f [] keeps h = h
  All-map_values Q f ((i, w) ∷ m) keeps (hw, hs) = (keeps w hw, All-map_values Q f m keeps hs)

  pub All_weaken :
      (Q : V → Type κ) (m : Dict V)
      → ((v : V) → P v → Q v)
      → All (λ (j, w). P w) m
      → All (λ (j, w). Q w) m
  All_weaken Q [] keeps h = h
  All_weaken Q ((i, w) ∷ m) keeps (hw, hs) = (keeps w hw, All_weaken Q m keeps hs)
