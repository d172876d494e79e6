-- ===== src/Prelude/Fallible.antt =====
-- Functions that may throw or fault and change no object: chains of them, maps of a list, and their
-- place in a member function.
use mathlib.Core.Path.{◌≡◌, refl, sym}
use mathlib.Core.List.{List, [], ◌∷◌}
use mathlib.Core.Option.{Option, none, some}
use robot_framework_ros.Prelude.Lists.{All}
use robot_framework_ros.Prelude.Run.{Result, ok, threw, fault, Run}

-- A call that throws where there is no value, and one that is undefined there.
abbrev pub or_threw : {A : Type 0} → Option A → Result A
or_threw none = threw
or_threw (some a) = ok a

abbrev pub or_fault : {A : Type 0} → Option A → Result A
or_fault none = fault
or_fault (some a) = ok a

module _ {A B : Type 0} where
  infixl 10 ◌>>=◌
  abbrev pub ◌>>=◌ : Result A → (A → Result B) → Result B
  ok a >>= f = f a
  threw >>= f = threw
  fault >>= f = fault

module _ {A B : Type 0} where
  -- If a chain gives `y`, its first part gave some `x`, from which the rest gave `y`.
  pub chain_parts :
      {y : B} (rest : A → Result B) (first : Result A)
      → ok y ≡ (first >>= rest)
      → (x : A) × (rest x ≡ ok y) × (ok x ≡ first)
  chain_parts rest (ok x) h = (x, sym h, refl)
  chain_parts rest fault h = cc
  chain_parts rest threw h = cc

module _ {A B : Type 0} where
  -- A loop that converts each element in turn.
  unfoldable pub map_result : (A → Result B) → List A → Result (List B)
  map_result f [] = ok []
  map_result f (x ∷ xs) = f x >>= λ y. map_result f xs >>= λ ys. ok (y ∷ ys)

module _ {S A B : Type 0} where
  -- The rest of a member function, with the value of such a call.
  abbrev pub with_value : Result A → (A → Run S B) → Run S B
  with_value (ok a) k s = k a s
  with_value threw k s = threw
  with_value fault k s = fault

module _ {A B : Type 0} where
  -- A loop over what another loop made, when each element comes back.
  pub map_result-map_result :
      (f : A → Result B) (g : B → Result A) (P : A → Type 0)
      → ((a : A) → P a → (b : B) × (f a ≡ ok b) × (g b ≡ ok a))
      → (xs : List A) → All P xs
      → (ys : List B) × (map_result f xs ≡ ok ys) × (map_result g ys ≡ ok xs)
  unfolding map_result
  map_result-map_result f g P h [] p = ([], refl, refl)
  map_result-map_result f g P h (x ∷ xs) (p, ps) =
      let (y, e, d) = h x p in
      let (ys, es, ds) = map_result-map_result f g P h xs ps in
      (y ∷ ys, rw (e, es) refl, rw (d, ds) refl)
