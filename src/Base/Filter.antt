-- ===== src/Base/Filter.antt =====
-- The elements of a list that a Boolean test keeps, and lists all of whose elements have a property.
use k8s_explore.Base.Lists.{All, get_elem?, set}
use k8s_explore.Base.Tests.{Bool-cases, if◌then◌else◌}
use Prim.Native.Nat.{ℕ, zero, suc}
use mathlib.Core.Bool.{Bool, true, ◌&&◌}
use mathlib.Core.List.{List, [], ◌∷◌}
use mathlib.Core.Logic.{inl, inr}
use mathlib.Core.Option.{some}
use mathlib.Core.Path.{◌≡◌, refl, ap, subst}
use native.Mathlib.Omega.{arith}

module _ {ℓ} {A : Type ℓ} where
  abbrev pub keep : (A → Bool) → List A → List A
  keep p [] = []
  keep p (x ∷ xs) = let rest = keep p xs in if p x then x ∷ rest else rest

  pub keep-keep : (p q : A → Bool) (xs : List A) → keep p (keep q xs) ≡ keep (λ x. q x && p x) xs
  keep-keep p q [] = refl
  keep-keep p q (x ∷ xs) = ground (arith, keep-keep p q xs)

  pub keep_congr : (p q : A → Bool) (xs : List A) → ((x : A) → p x ≡ q x) → keep p xs ≡ keep q xs
  keep_congr p q [] h = refl
  keep_congr p q (x ∷ xs) h = ground (arith, keep_congr p q xs, h x)

  pub keep-true : (xs : List A) → keep (λ _. true) xs ≡ xs
  keep-true [] = refl
  keep-true (x ∷ xs) = ap (λ ys. x ∷ ys) (keep-true xs)

module _ {ℓ κ} {A : Type ℓ} where
  pub All-map : (P Q : A → Type κ) (xs : List A) → ((x : A) → P x → Q x) → All P xs → All Q xs
  All-map P Q [] f h = tt
  All-map P Q (x ∷ xs) f h = (f x h.0, All-map P Q xs f h.1)

  -- What is kept has `P`, if all that passes the test has it.
  pub All-keep :
      (P : A → Type κ) (p : A → Bool) (xs : List A)
      → All (λ x. p x ≡ true → P x) xs
      → All P (keep p xs)
  All-keep P p [] h = tt
  All-keep P p (x ∷ xs) h = elim (Bool-cases (p x)) [
    | inl kept ↦ rw kept (h.0 kept, All-keep P p xs h.1)
    | inr lost ↦ rw lost (All-keep P p xs h.1)
  ]

  pub All-set :
      (P : A → Type κ) (xs : List A) (i : ℕ) (x y : A)
      → get_elem? xs i ≡ some x
      → (P x → P y)
      → All P xs
      → All P (set xs i y)
  All-set P [] i x y at stays h = h
  All-set P (z ∷ xs) zero x y at stays h = let same : z ≡ x = cc in (stays (subst P same h.0), h.1)
  All-set P (z ∷ xs) (suc i) x y at stays h = (h.0, All-set P xs i x y at stays h.1)
