-- ===== src/Prelude/Run.antt =====
-- Member functions: they read and write an object, may throw, and may read through a null pointer.
use mathlib.Core.Path.{◌≡◌}
use mathlib.Core.Bool.{Bool, true, false}

-- `fault` is undefined behaviour, as the use of a null pointer.
pub data Result {ℓ} (A : Type ℓ) : Type ℓ where
  ok : A → Result A
  threw : Result A
  fault : Result A

abbrev pub Run : Type 0 → Type 0 → Type 0
Run S A = S → Result (A × S)

module _ {S A : Type 0} where
  abbrev pub pure : A → Run S A
  pure a s = ok (a, s)

module _ {S : Type 0} where
  abbrev pub modify : (S → S) → Run S (Unit {0})
  modify f s = ok (tt, f s)

module _ {S A B : Type 0} where
  infixl 10 ◌>>=◌ ◌>>◌
  abbrev pub ◌>>=◌ : Run S A → (A → Run S B) → Run S B
  ◌>>=◌ m f s = elim (m s) [ ok (a, s') ↦ f a s' | threw ↦ threw | fault ↦ fault ]

  abbrev pub ◌>>◌ : Run S A → Run S B → Run S B
  m >> k = m >>= λ _. k

-- `if (!m) { return false; }`, and then `k`.
abbrev pub when_true : {S : Type 0} → Bool → Run S Bool → Run S Bool
when_true true k s = k s
when_true false k s = ok (false, s)

infixr 8 ◌and_then◌
abbrev pub ◌and_then◌ : {S : Type 0} → Run S Bool → Run S Bool → Run S Bool
m and_then k = m >>= λ b. when_true b k

-- A chain goes on from what its first part returns.
module _ {S A B : Type 0} where
  pub >>=-ok :
      (m : Run S A) (f : A → Run S B) (s : S) {a : A} {s' : S}
      → m s ≡ ok (a, s')
      → (m >>= f) s ≡ f a s'
  >>=-ok m f s e = rw (e, ◌>>=◌)

  pub >>=-threw : (m : Run S A) (f : A → Run S B) (s : S) → m s ≡ threw → (m >>= f) s ≡ threw
  >>=-threw m f s e = rw (e, ◌>>=◌)

  pub >>=-fault : (m : Run S A) (f : A → Run S B) (s : S) → m s ≡ fault → (m >>= f) s ≡ fault
  >>=-fault m f s e = rw (e, ◌>>=◌)

module _ {S : Type 0} where
  pub and_then-ok :
      (m k : Run S Bool) (s : S) {b : Bool} {s' : S}
      → m s ≡ ok (b, s')
      → (m and_then k) s ≡ when_true b k s'
  and_then-ok m k s e = rw (e, ◌and_then◌, ◌>>=◌)
