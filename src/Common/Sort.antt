-- ===== src/Common/Sort.antt =====
-- Go's sort.SliceStable and sort.Strings: a stable sort by a test, and the order of texts by their bytes,
-- which is that of their code points.
use vcpe.Common.{◌∙◌}
use Prim.Native.Nat.{ℕ, suc}
use Prim.Native.String.{String}
use mathlib.Core.Path.{◌≡◌, refl}
use mathlib.Core.Logic.{inl, inr, ◌⊎◌}
use text.Mathlib.TextEquality.{Char-path}
use mathlib.Core.Bool.{Bool, true, false, ◌||◌, ◌&&◌}
use mathlib.Core.List.{List, [], ◌∷◌, Perm}
use mathlib.Core.List.Perm
use native.Mathlib.Omega.{arith}
use vcpe.Common.Tests.{ltb, ◌==◌, nat_eq, if◌then◌else◌, Eq, Bool-cases}
use vcpe.Common.Lists.{contains, NoRepeat, All, length}
use vcpe.Common.Text.{codes}

module _ {ℓ} {A : Type ℓ} (before : A → A → Bool) where
  -- In front of the first element that does not come before it.
  unfoldable pub insert : A → List A → List A
  insert x [] = x ∷ []
  insert x (y ∷ ys) = let rest = insert x ys in if before y x then y ∷ rest else x ∷ y ∷ ys

  unfoldable pub sort : List A → List A
  unfolding insert
  sort [] = []
  sort (x ∷ xs) = insert x (sort xs)

  -- No element comes before the one in front of it.
  abbrev pub IsSorted : List A → Type 0
  IsSorted [] = Unit
  IsSorted (x ∷ []) = Unit
  IsSorted (x ∷ y ∷ xs) = (before y x ≡ false) × IsSorted (y ∷ xs)

  insert-IsSorted :
      ((x y : A) → before x y ≡ true → before y x ≡ false)
      → (x : A) (ys : List A) → IsSorted ys
      → IsSorted (insert x ys)
  unfolding insert
  insert-IsSorted asym x [] s = tt
  insert-IsSorted asym x (y ∷ []) s = ground (arith, asym y x)
  insert-IsSorted asym x (y ∷ z ∷ ys) s =
      ground (arith, asym y x, asym z x, insert-IsSorted asym x (z ∷ ys) s.1)

  pub sort-IsSorted :
      ((x y : A) → before x y ≡ true → before y x ≡ false) → (xs : List A) → IsSorted (sort xs)
  unfolding sort
  sort-IsSorted asym [] = tt
  sort-IsSorted asym (x ∷ xs) = insert-IsSorted asym x (sort xs) (sort-IsSorted asym xs)

  insert-perm : (x : A) (ys : List A) → Perm (insert x ys) (x ∷ ys)
  unfolding insert
  insert-perm x [] = Perm.refl (x ∷ [])
  insert-perm x (y ∷ ys) = elim (Bool-cases (before y x)) [
    | inl first ↦ rw first (Perm.trans (Perm.cons y (insert-perm x ys)) (Perm.swap x y ys))
    | inr last ↦ rw last (Perm.refl (x ∷ y ∷ ys))
  ]

  pub sort-perm : (xs : List A) → Perm (sort xs) xs
  unfolding sort
  sort-perm [] = Perm.refl []
  sort-perm (x ∷ xs) = Perm.trans (insert-perm x (sort xs)) (Perm.cons x (sort-perm xs))

module _ {ℓ} {A : Type ℓ} (before : A → A → Bool) where
  length-insert : (x : A) (ys : List A) → length (insert before x ys) ≡ suc (length ys)
  unfolding insert
  length-insert x [] = refl
  length-insert x (y ∷ ys) = ground (arith, length-insert x ys)

  pub length-sort : (xs : List A) → length (sort before xs) ≡ length xs
  unfolding sort
  length-sort [] = refl
  length-sort (x ∷ xs) = ground (arith, length-insert x (sort before xs), length-sort xs)

  All-insert {κ} :
      (P : A → Type κ) (x : A) (ys : List A) → P x → All P ys → All P (insert before x ys)
  unfolding insert
  All-insert P x [] here all = (here, tt)
  All-insert P x (y ∷ ys) here all = elim (Bool-cases (before y x)) [
    | inl first ↦ rw first ((all.0, All-insert P x ys here all.1))
    | inr last ↦ rw last ((here, all))
  ]

  pub All-sort {κ} : (P : A → Type κ) (xs : List A) → All P xs → All P (sort before xs)
  unfolding sort
  All-sort P [] all = tt
  All-sort P (x ∷ xs) all = All-insert P x (sort before xs) all.0 (All-sort P xs all.1)

unfoldable pub codes_before : List ℕ → List ℕ → Bool
codes_before [] [] = false
codes_before [] (d ∷ ds) = true
codes_before (c ∷ cs) [] = false
codes_before (c ∷ cs) (d ∷ ds) = ltb c d || (c == d && codes_before cs ds)

codes_before_asym : (cs ds : List ℕ) → codes_before cs ds ≡ true → codes_before ds cs ≡ false
unfolding codes_before
codes_before_asym [] [] h = cc
codes_before_asym [] (d ∷ ds) h = refl
codes_before_asym (c ∷ cs) [] h = cc
codes_before_asym (c ∷ cs) (d ∷ ds) h = ground (arith, codes_before_asym cs ds)

-- `s < t`
unfoldable pub text_before : String → String → Bool
unfolding codes_before
text_before s t = codes_before (codes s) (codes t)

pub text_before_asym : (s t : String) → text_before s t ≡ true → text_before t s ≡ false
unfolding text_before
text_before_asym s t h = codes_before_asym (codes s) (codes t) h

codes_before_total :
    (cs ds : List ℕ) → (codes_before cs ds ≡ true) ⊎ (codes_before ds cs ≡ true) ⊎ (cs ≡ ds)
unfolding codes_before
codes_before_total [] [] = inr (inr refl)
codes_before_total [] (d ∷ ds) = inl refl
codes_before_total (c ∷ cs) [] = inr (inl refl)
codes_before_total (c ∷ cs) (d ∷ ds) = elim (codes_before_total cs ds) [
  | inl less ↦ ground (arith, less)
  | inr (inl more) ↦ ground (arith, more)
  | inr (inr same) ↦ ground (arith, same)
]

codes-injective : (s t : String) → codes s ≡ codes t → s ≡ t
codes-injective String.[] String.[] h = refl
codes-injective String.[] (String.◌∷◌ d t) h = cc
codes-injective (String.◌∷◌ c s) String.[] h = cc
codes-injective (String.◌∷◌ c s) (String.◌∷◌ d t) h =
    let first : c ≡ d = Char-path c d cc in
    let rest : s ≡ t = codes-injective s t cc in λ i. String.◌∷◌ (first i) (rest i)

-- Of two texts one comes first, or they are the same.
pub text_before_total :
    (s t : String) → (text_before s t ≡ true) ⊎ (text_before t s ≡ true) ⊎ (s ≡ t)
unfolding text_before
text_before_total s t = elim (codes_before_total (codes s) (codes t)) [
  | inl less ↦ inl less
  | inr (inl more) ↦ inr (inl more)
  | inr (inr same) ↦ inr (inr (codes-injective s t same))
]

module _ {ℓ} {A : Type ℓ} ⦃e : Eq A⦄ (before : A → A → Bool) where
  contains-insert :
      (x a : A) (ys : List A) → contains (insert before x ys) a ≡ (x == a || contains ys a)
  unfolding insert
  contains-insert x a [] = refl
  contains-insert x a (y ∷ ys) = ground (arith, contains-insert x a ys)

  -- A sort keeps the elements.
  pub contains-sort : (xs : List A) (a : A) → contains (sort before xs) a ≡ contains xs a
  unfolding sort
  contains-sort [] a = refl
  contains-sort (x ∷ xs) a =
      ground (arith, contains-insert x a (sort before xs), contains-sort xs a)

  NoRepeat-insert :
      (x : A) (ys : List A) → NoRepeat ys → contains ys x ≡ false → NoRepeat (insert before x ys)
  unfolding insert
  NoRepeat-insert x [] once new = (refl, tt)
  NoRepeat-insert x (y ∷ ys) once new = elim (Bool-cases (before y x)) [
    | inl first ↦ rw first (
        (
          ground (arith, contains-insert x y ys, e.same_iff x y, e.same_iff y x),
          NoRepeat-insert x ys once.1 (ground arith),
        ))
    | inr last ↦ rw last ((new, once))
  ]

  -- A sort repeats no element that stands once.
  pub NoRepeat-sort : (xs : List A) → NoRepeat xs → NoRepeat (sort before xs)
  unfolding sort
  NoRepeat-sort [] once = tt
  NoRepeat-sort (x ∷ xs) once =
      NoRepeat-insert x (sort before xs) (NoRepeat-sort xs once.1) (contains-sort xs x ∙ once.0)
