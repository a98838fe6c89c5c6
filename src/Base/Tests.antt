-- ===== src/Base/Tests.antt =====
-- Boolean tests, the conditional, and equality as an interface with one operator for numbers,
-- texts and pairs of keys.
use Prim.Native.Nat.{ℕ, ◌≤◌, ◌<◌, compare, Ordering}
use Prim.Native.String.{String}
use mathlib.Core.Path.{◌≡◌, refl, sym, ap, subst, ◌∙◌}
use mathlib.Core.Logic.{◌↔◌, ◌⊎◌, ◌≢◌, inl, inr}
use mathlib.Core.Bool.{Bool, true, false, ◌&&◌}
use mathlib.Core.Option.{Option, none, some}
use mathlib.Core.Option
use mathlib.Core.List.{List, [], ◌∷◌}
use native.Mathlib.Omega.{arith}
use text.Mathlib.Text.{◌==◌ as str_eq}
use text.Mathlib.TextEquality.{eq_iff}

abbrev pub ltb : ℕ → ℕ → Bool
ltb a b = elim (compare a b) [ Ordering.lt ↦ true | _ ↦ false ]

abbrev pub leb : ℕ → ℕ → Bool
leb a b = elim (compare a b) [ Ordering.gt ↦ false | _ ↦ true ]

abbrev pub nat_beq : ℕ → ℕ → Bool
nat_beq a b = elim (compare a b) [ Ordering.eq ↦ true | _ ↦ false ]

infix 1 if◌then◌else◌
abbrev pub if◌then◌else◌ {ℓ} : {A : Type ℓ} → Bool → A → A → A
if true then x else y = x
if false then x else y = y

pub ltb→lt : (a b : ℕ) → ltb a b ≡ true → a < b
ltb→lt a b h = ground arith

pub lt→ltb : (a b : ℕ) → a < b → ltb a b ≡ true
lt→ltb a b h = ground arith

pub leb→le : (a b : ℕ) → leb a b ≡ true → a ≤ b
leb→le a b h = ground arith

pub le→leb : (a b : ℕ) → a ≤ b → leb a b ≡ true
le→leb a b h = ground arith

pub lt→leb_false : (a b : ℕ) → b < a → leb a b ≡ false
lt→leb_false a b h = ground arith

pub nat_beq_iff : (a b : ℕ) → (nat_beq a b ≡ true) ↔ (a ≡ b)
nat_beq_iff a b = ground arith

pub Bool-cases : (b : Bool) → (b ≡ true) ⊎ (b ≡ false)
Bool-cases true = inl refl
Bool-cases false = inr refl

pub Option-cases {ℓ} : {A : Type ℓ} (o : Option A) → (o ≡ none) ⊎ ((a : A) × (o ≡ some a))
Option-cases none = inl refl
Option-cases (some a) = inr (a, refl)

infix 50 ◌==◌
-- A type with a Boolean test of equality.
pub record Eq {ℓ} (K : Type ℓ) : Type ℓ where
  pub beq : K → K → Bool
  pub beq_iff : (x y : K) → (beq x y ≡ true) ↔ (x ≡ y)

instance abbrev pub string_eq : Eq String
string_eq = record { beq_iff = eq_iff; beq = str_eq }

instance abbrev pub nat_eq : Eq ℕ
nat_eq = record { beq_iff = nat_beq_iff; beq = nat_beq }

abbrev pub ◌==◌ {ℓ} : {K : Type ℓ} ⦃d : Eq K⦄ → K → K → Bool
◌==◌ ⦃d⦄ = d.beq

module _ {ℓ κ} {A : Type ℓ} {B : Type κ} ⦃e : Eq A⦄ ⦃d : Eq B⦄ where
  abbrev pub pair_beq : A × B → A × B → Bool
  pair_beq (a, b) (a', b') = a == a' && b == b'

  pair_beq_true :
      (a a' : A) (b b' : B) → pair_beq (a, b) (a', b') ≡ true → ◌≡◌ {A = A × B} (a, b) (a', b')
  pair_beq_true a a' b b' h = ground (arith, e.beq_iff a a', d.beq_iff b b')

  pair_beq_same :
      (a a' : A) (b b' : B) → ◌≡◌ {A = A × B} (a, b) (a', b') → pair_beq (a, b) (a', b') ≡ true
  pair_beq_same a a' b b' h = ground (arith, e.beq_iff a a', d.beq_iff b b')

  pub pair_beq_iff : (p q : A × B) → (pair_beq p q ≡ true) ↔ (p ≡ q)
  pair_beq_iff (a, b) (a', b') = (pair_beq_true a a' b b', pair_beq_same a a' b b')

  instance abbrev pub pair_eq : Eq (A × B)
  pair_eq = record { beq = pair_beq; beq_iff = pair_beq_iff }

module _ {ℓ} {A : Type ℓ} ⦃e : Eq A⦄ where
  pub eq_refl : (a : A) → (a == a) ≡ true
  eq_refl a = (e.beq_iff a a).1 refl

  pub eq_true : (a b : A) → (a == b) ≡ true → a ≡ b
  eq_true a b = (e.beq_iff a b).0

  pub ne_false : (a b : A) → a ≢ b → (a == b) ≡ false
  ne_false a b h = ground (arith, e.beq_iff a b)

  -- A split on whether a key is the one in hand.
  pub by_key {κ} : (P : A → Type κ) (k j : A) → P k → (j ≢ k → P j) → P j
  by_key P k j here other = elim (Bool-cases (k == j)) [
    | inl same ↦ subst P (eq_true k j same) here
    | inr no_key ↦ other (λ e'. ground (arith, e.beq_iff k j))
  ]

module _ {ℓ} {A : Type ℓ} ⦃e : Eq A⦄ where
  abbrev pub list_beq : List A → List A → Bool
  list_beq [] [] = true
  list_beq (x ∷ xs) (y ∷ ys) = x == y && list_beq xs ys
  list_beq _ _ = false

  list_beq-true : (xs ys : List A) → list_beq xs ys ≡ true → xs ≡ ys
  list_beq-true [] [] h = refl
  list_beq-true [] (y ∷ ys) h = cc
  list_beq-true (x ∷ xs) [] h = cc
  list_beq-true (x ∷ xs) (y ∷ ys) h = ground (arith, e.beq_iff x y, list_beq-true xs ys)

  list_beq_refl : (xs : List A) → list_beq xs xs ≡ true
  list_beq_refl [] = refl
  list_beq_refl (x ∷ xs) = ground (arith, e.beq_iff x x, list_beq_refl xs)

  pub list_beq_iff : (xs ys : List A) → (list_beq xs ys ≡ true) ↔ (xs ≡ ys)
  list_beq_iff xs ys =
      (list_beq-true xs ys, λ h. subst (λ zs. list_beq xs zs ≡ true) h (list_beq_refl xs))

  instance abbrev pub list_eq : Eq (List A)
  list_eq = record { beq = list_beq; beq_iff = list_beq_iff }

-- What `Option.map` is, where its argument is known.
pub mapped {ℓ κ} :
    {A : Type ℓ} {B : Type κ} (f : A → B) (o : Option A) (a : A) (b : B)
    → o ≡ some a
    → Option.map f o ≡ some b
    → f a ≡ b
mapped f o a b found e = let same = sym (ap (Option.map f) found) ∙ e in cc

pub if_true {ℓ} : {A : Type ℓ} (b : Bool) (x y : A) → b ≡ true → (if b then x else y) ≡ x
if_true true x y h = refl
if_true false x y h = absurd (cc)

pub if_false {ℓ} : {A : Type ℓ} (b : Bool) (x y : A) → b ≡ false → (if b then x else y) ≡ y
if_false true x y h = absurd (cc)
if_false false x y h = refl

pub some_eq {ℓ} : {A : Type ℓ} {a b : A} → some a ≡ some b → a ≡ b
some_eq e = cc
