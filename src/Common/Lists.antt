-- ===== src/Common/Lists.antt =====
-- Lists measured by native numbers, membership tests and filters.
use Prim.Native.Nat.{ℕ, zero, suc, ◌+◌, ◌≤◌}
use mathlib.Core.Path.{◌≡◌, refl}
use mathlib.Core.Bool.{Bool, true, false, ◌||◌, ◌&&◌}
use mathlib.Core.List.{List, [], ◌∷◌, ◌++◌}
use native.Mathlib.Omega.{arith}
use vcpe.Common.Tests.{Eq, ◌==◌, if◌then◌else◌}

module _ {ℓ} {A : Type ℓ} where
  abbrev pub length : List A → ℕ
  length [] = 0
  length (x ∷ xs) = suc (length xs)

  -- Every element has the property.
  abbrev pub All {κ} : (A → Type κ) → List A → Type κ
  All P [] = Unit
  All P (x ∷ xs) = P x × All P xs

  -- The elements that pass a test.
  unfoldable pub keep : (A → Bool) → List A → List A
  keep p [] = []
  keep p (x ∷ xs) = let rest = keep p xs in if p x then x ∷ rest else rest

  -- Some element passes a test.
  unfoldable pub some_where : (A → Bool) → List A → Bool
  some_where p [] = false
  some_where p (x ∷ xs) = p x || some_where p xs

  unfoldable pub take : ℕ → List A → List A
  take n [] = []
  take zero (x ∷ xs) = []
  take (suc n) (x ∷ xs) = x ∷ take n xs

  pub length-take : (n : ℕ) (xs : List A) → length (take n xs) ≤ n
  unfolding take
  length-take n [] = omega arith
  length-take zero (x ∷ xs) = omega arith
  length-take (suc n) (x ∷ xs) = omega (arith, length-take n xs)

  pub length-append : (xs ys : List A) → length (xs ++ ys) ≡ length xs + length ys
  length-append [] ys = omega arith
  length-append (x ∷ xs) ys = omega (arith, length-append xs ys)

  pub some_where-append :
      (p : A → Bool) (xs ys : List A)
      → some_where p (xs ++ ys) ≡ (some_where p xs || some_where p ys)
  unfolding some_where
  some_where-append p [] ys = refl
  some_where-append p (x ∷ xs) ys = ground (arith, some_where-append p xs ys)

  pub All-append {κ} :
      (P : A → Type κ) (front back : List A) → All P back → All P front → All P (front ++ back)
  All-append P [] back rest here = rest
  All-append P (x ∷ front) back rest here = (here.0, All-append P front back rest here.1)

  pub All-front {κ} : (P : A → Type κ) (front back : List A) → All P (front ++ back) → All P front
  All-front P [] back all = tt
  All-front P (x ∷ front) back all = (all.0, All-front P front back all.1)

  pub All-back {κ} : (P : A → Type κ) (front back : List A) → All P (front ++ back) → All P back
  All-back P [] back all = all
  All-back P (x ∷ front) back all = All-back P front back all.1

  pub All-weaken {κ} :
      (P Q : A → Type κ) (xs : List A) → ((x : A) → P x → Q x) → All P xs → All Q xs
  All-weaken P Q [] f all = tt
  All-weaken P Q (x ∷ xs) f all = (f x all.0, All-weaken P Q xs f all.1)

  pub All-keep {κ} : (P : A → Type κ) (p : A → Bool) (xs : List A) → All P xs → All P (keep p xs)
  unfolding keep
  All-keep P p [] h = tt
  All-keep P p (x ∷ xs) h = ground (arith, All-keep P p xs h.1)

  pub length-keep : (p : A → Bool) (xs : List A) → length (keep p xs) ≤ length xs
  unfolding keep
  length-keep p [] = omega arith
  length-keep p (x ∷ xs) = ground (arith, length-keep p xs)

module _ {ℓ} {A : Type ℓ} ⦃e : Eq A⦄ where
  -- The test of membership in a set that the code keeps as a map.
  abbrev pub contains : List A → A → Bool
  contains [] a = false
  contains (x ∷ xs) a = x == a || contains xs a

  -- No element stands twice.
  abbrev pub NoRepeat : List A → Type 0
  NoRepeat [] = Unit
  NoRepeat (x ∷ xs) = (contains xs x ≡ false) × NoRepeat xs

  pub contains-append :
      (xs ys : List A) (a : A) → contains (xs ++ ys) a ≡ (contains xs a || contains ys a)
  contains-append [] ys a = refl
  contains-append (x ∷ xs) ys a = ground (arith, contains-append xs ys a)

  pub contains-keep :
      (p : A → Bool) (xs : List A) (a : A) → contains (keep p xs) a ≡ (contains xs a && p a)
  unfolding keep
  contains-keep p [] a = refl
  contains-keep p (x ∷ xs) a = ground (arith, contains-keep p xs a, e.same_iff x a)

  pub NoRepeat-keep : (p : A → Bool) (xs : List A) → NoRepeat xs → NoRepeat (keep p xs)
  unfolding keep
  NoRepeat-keep p [] u = tt
  NoRepeat-keep p (x ∷ xs) u = ground (arith, NoRepeat-keep p xs u.1, contains-keep p xs x)

  pub NoRepeat-append_one :
      (xs : List A) (a : A) → NoRepeat xs → contains xs a ≡ false → NoRepeat (xs ++ a ∷ [])
  NoRepeat-append_one [] a u h = (refl, tt)
  NoRepeat-append_one (x ∷ xs) a u h = (
    ground (arith, contains-append xs (a ∷ []) x, e.same_iff x a, e.same_iff a x),
    NoRepeat-append_one xs a u.1 (ground arith),
  )

  -- A filter looks at the tests of the elements only.
  pub keep-agree :
      (p q : A → Bool) (xs : List A)
      → ((x : A) → contains xs x ≡ true → p x ≡ q x)
      → keep p xs ≡ keep q xs
  unfolding keep
  keep-agree p q [] same = refl
  keep-agree p q (x ∷ xs) same =
      ground
        (arith, same x, e.same_iff x x, keep-agree p q xs (λ y here. same y (ground (arith, here))))

  pub NoRepeat-append :
      (xs ys : List A)
      → NoRepeat xs
      → NoRepeat ys
      → ((x : A) → contains xs x ≡ true → contains ys x ≡ false)
      → NoRepeat (xs ++ ys)
  NoRepeat-append [] ys u v apart = v
  NoRepeat-append (x ∷ xs) ys u v apart = (
    ground (arith, contains-append xs ys x, apart x, e.same_iff x x),
    NoRepeat-append xs ys u.1 v (λ y here. apart y (ground (arith, here))),
  )
