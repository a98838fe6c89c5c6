-- ===== src/Base/Shared.antt =====
-- Two lists of different elements of one list have one in common, if they are longer together.
use Prim.Native.Nat.{◌+◌, ◌≤◌, ◌<◌}
use mathlib.Core.Path.{◌≡◌, refl, sym, subst, ◌∙◌}
use mathlib.Core.Logic.{◌⊎◌, inl, inr}
use mathlib.Core.List.{List, [], ◌∷◌}
use native.Mathlib.Omega.{arith}
use p2p_dapp.Base.Tests.{Eq, ◌==◌, if◌then◌else◌, eq_true, ne_false, Bool-cases}
use p2p_dapp.Base.Lists.{length, In, here, there}

module _ {ℓ} {A : Type ℓ} where
  -- No element stands twice.
  abbrev pub Distinct : List A → Type ℓ
  Distinct [] = Unit
  Distinct (x ∷ xs) = (In x xs → ⊥) × Distinct xs

module _ {ℓ} {A : Type ℓ} ⦃e : Eq A⦄ where
  remove : A → List A → List A
  remove x [] = []
  remove x (z ∷ zs) = let rest = remove x zs in if x == z then rest else z ∷ rest

  length-remove-le : (x : A) (zs : List A) → length (remove x zs) ≤ length zs
  unfolding remove
  length-remove-le x [] = omega arith
  length-remove-le x (z ∷ zs) = ground (arith, length-remove-le x zs)

  length-remove-lt : (x : A) (zs : List A) → In x zs → length (remove x zs) < length zs
  unfolding remove
  length-remove-lt x [] i = elim i [ ]
  length-remove-lt x (z ∷ zs) (here p) =
      rw ((e.beq_iff x z).1 p) (omega (arith, length-remove-le x zs))
  length-remove-lt x (z ∷ zs) (there i) =
      ground (arith, length-remove-le x zs, length-remove-lt x zs i)

  In-remove : (x y : A) (zs : List A) → In y zs → (x ≡ y → ⊥) → In y (remove x zs)
  unfolding remove
  In-remove x y [] i ne = elim i [ ]
  In-remove x y (z ∷ zs) (here p) ne = rw (ne_false x z (λ q. ne (q ∙ sym p))) (here p)
  In-remove x y (z ∷ zs) (there i) ne = elim (Bool-cases (x == z)) [
    | inl same ↦ rw same (In-remove x y zs i ne)
    | inr other ↦ rw other (there (In-remove x y zs i ne))
  ]

  In-cases : (x : A) (xs : List A) → In x xs ⊎ (In x xs → ⊥)
  In-cases x [] = inr (λ i. elim i [ ])
  In-cases x (y ∷ ys) = elim (Bool-cases (x == y)) [
    | inl same ↦ inl (here (eq_true x y same))
    | inr other ↦ elim (In-cases x ys) [
      | inl i ↦ inl (there i)
      | inr no_in ↦
          inr (λ i. elim i [ here p ↦ absurd (ground (arith, e.beq_iff x y)) | there j ↦ no_in j ])
    ]
  ]

  -- The elements of the rest stay when the first is removed.
  rest-In :
      (x : A) (xs zs : List A)
      → Distinct (x ∷ xs)
      → ((y : A) → In y (x ∷ xs) → In y zs)
      → (y : A) → In y xs
      → In y (remove x zs)
  rest-In x xs zs d h y i =
      In-remove x y zs (h y (there i)) (λ p. d.0 (subst (λ u. In u xs) (sym p) i))

  bounded : (ys zs : List A) → Distinct ys → ((y : A) → In y ys → In y zs) → length ys ≤ length zs
  bounded [] zs d h = omega arith
  bounded (y ∷ ys) zs d h = omega (
    arith,
    bounded ys (remove y zs) d.1 (rest-In y ys zs d h),
    length-remove-lt y zs (h y (here refl)),
  )

  pub shared :
      (xs ys zs : List A)
      → Distinct xs
      → Distinct ys
      → ((x : A) → In x xs → In x zs)
      → ((y : A) → In y ys → In y zs)
      → length zs < length xs + length ys
      → (x : A) × In x xs × In x ys
  shared [] ys zs dx dy hx hy lt = absurd (omega (arith, bounded ys zs dy hy))
  shared (x ∷ xs) ys zs dx dy hx hy lt = elim (In-cases x ys) [
    | inl i ↦ (x, here refl, i)
    | inr other ↦
        let (y, i, j) =
          shared xs ys (remove x zs) dx.1 dy (rest-In x xs zs dx hx)
            (λ y j. In-remove x y zs (hy y j) (λ p. other (subst (λ u. In u ys) (sym p) j)))
            (omega (arith, length-remove-lt x zs (hx x (here refl)))) in
        (y, there i, j)
  ]
