-- ===== src/Base/Maps.antt =====
-- Go maps and `sync.Map`s as association lists: `map[K]V` with `m[k]`, `m[k] = v`, `delete`,
-- `Load`, `Store` and `LoadOrStore`. The order of the list stands for the order of one iteration.
use Prim.Native.Nat.{◌+◌, ◌≤◌, ◌<◌}
use mathlib.Core.Path.{◌≡◌, refl, sym, ◌∙◌}
use mathlib.Core.Bool.{Bool, true, false}
use mathlib.Core.Option.{Option, none, some}
use mathlib.Core.List.{List, [], ◌∷◌}
use native.Mathlib.Omega.{arith}
use p2p_dapp.Base.Tests.{Eq, ◌==◌, if◌then◌else◌, eq_refl, eq_true, Bool-cases, by_key, ne_false}
use mathlib.Core.Logic.{◌≢◌, ◌⊎◌, inl, inr}
use p2p_dapp.Base.Lists.{length, All, In, here, there}

abbrev pub Dict {ℓ κ} : Type ℓ → Type κ → Type (ℓ ⊔ κ)
Dict K V = List (K × V)

module _ {ℓ κ} {K : Type ℓ} {V : Type κ} ⦃e : Eq K⦄ where
  -- The first entry of a key counts.
  unfoldable pub lookup : K → Dict K V → Option V
  lookup key [] = none
  lookup key ((name, value) ∷ rest) = if name == key then some value else lookup key rest

  -- A write keeps the place of an entry that is there.
  unfoldable pub insert : K → V → Dict K V → Dict K V
  insert key value [] = (key, value) ∷ []
  insert key value ((name, old) ∷ rest) =
      if name == key then (key, value) ∷ rest else (name, old) ∷ insert key value rest

  unfoldable pub delete : K → Dict K V → Dict K V
  delete k [] = []
  delete k ((j, w) ∷ m) = let rest = delete k m in if j == k then rest else (j, w) ∷ rest

  pub lookup-insert :
      (key other : K) (value : V) (m : Dict K V)
      → lookup other (insert key value m) ≡ (if key == other then some value else lookup other m)
  unfolding lookup insert
  lookup-insert key other value [] = refl
  lookup-insert key other value ((name, old) ∷ m) =
      let rest = lookup-insert key other value m in
      ground (arith, rest, e.beq_iff name key, e.beq_iff key other, e.beq_iff name other)

  pub lookup-insert_self : (k : K) (v : V) (m : Dict K V) → lookup k (insert k v m) ≡ some v
  lookup-insert_self k v m = simp (lookup-insert, eq_refl)

  pub length-insert : (k : K) (v : V) (m : Dict K V) → length (insert k v m) ≤ length m + 1
  unfolding insert
  length-insert k v [] = omega arith
  length-insert k v ((i, w) ∷ m) = ground (arith, length-insert k v m)

  pub lookup-delete :
      (k j : K) (m : Dict K V) → lookup j (delete k m) ≡ (if k == j then none else lookup j m)
  unfolding lookup delete
  lookup-delete k j [] = ground arith
  lookup-delete k j ((i, w) ∷ m) =
      ground (arith, e.beq_iff k j, e.beq_iff i k, e.beq_iff i j, lookup-delete k j m)

  pub length-delete-le : (k : K) (m : Dict K V) → length (delete k m) ≤ length m
  unfolding delete
  length-delete-le k [] = omega arith
  length-delete-le k ((i, w) ∷ m) = ground (arith, length-delete-le k m)

  pub length-delete-lt :
      (k : K) (v : V) (m : Dict K V) → lookup k m ≡ some v → length (delete k m) < length m
  unfolding lookup delete
  length-delete-lt k v [] h = absurd (ground arith)
  length-delete-lt k v ((i, w) ∷ m) h = ground (arith, length-delete-lt k v m, length-delete-le k m)

  -- The key is present.
  abbrev pub Has : K → Dict K V → Type κ
  Has k m = lookup k m ≢ none

  -- `order` lists the entries of `m` as one `range` over the map meets them.
  pub record Ranges (order m : Dict K V) : Type (ℓ ⊔ κ) where
    pub sound : All (λ p. lookup p.0 m ≡ some p.1) order
    pub complete : (k : K) → lookup k order ≡ lookup k m

  -- What a list of sound entries finds, the map finds.
  pub lookup_sound :
      (order m : Dict K V) (k : K)
      → All (λ p. lookup p.0 m ≡ some p.1) order
      → (lookup k order ≡ none) ⊎ (lookup k order ≡ lookup k m)
  unfolding lookup
  lookup_sound [] m k h = inl refl
  lookup_sound ((j, w) ∷ order) m k h =
      ground (arith, e.beq_iff j k, h.0, lookup_sound order m k h.1)

  -- `LoadOrStore`: the value that is there after it, the map, and whether it was there before.
  abbrev pub load_or_store : K → V → Dict K V → V × Dict K V × Bool
  load_or_store k v m = elim (lookup k m) [
    | none ↦ (v, insert k v m, false)
    | some w ↦ (w, m, true)
  ]

  pub lookup-load_or_store :
      (k j : K) (v : V) (m : Dict K V)
      → lookup j (load_or_store k v m).1
        ≡ (if k == j then some (load_or_store k v m).0 else lookup j m)
  lookup-load_or_store k j v m = elim (Bool-cases (k == j)) [
    | inl same ↦ rw (eq_true k j same) (ground (arith, lookup-insert j j v m, e.beq_iff j j))
    | inr other ↦ ground (arith, lookup-insert k j v m)
  ]

  pub length-load_or_store :
      (k : K) (v : V) (m : Dict K V) → length (load_or_store k v m).1 ≤ length m + 1
  length-load_or_store k v m = ground (arith, length-insert k v m)

  -- An entry that the map finds is one of its entries.
  pub In-of_lookup : (m : Dict K V) (k : K) (v : V) → lookup k m ≡ some v → In (k, v) m
  unfolding lookup
  In-of_lookup [] k v h = absurd (ground arith)
  In-of_lookup ((j, w) ∷ m) k v h = elim (Bool-cases (j == k)) [
    | inl same ↦ here (ground (arith, eq_true j k same))
    | inr other ↦ there (In-of_lookup m k v (ground arith))
  ]

  -- `LoadOrStore` keeps every entry.
  pub lookup-load_or_store_kept :
      (k j : K) (v w : V) (m : Dict K V)
      → lookup j m ≡ some w
      → lookup j (load_or_store k v m).1 ≡ some w
  lookup-load_or_store_kept k j v w m h =
      by_key (λ i. lookup i m ≡ some w → lookup i (load_or_store k v m).1 ≡ some w) k j
        (λ found. ground (arith, found))
        (λ ne found. lookup-load_or_store k j v m ∙ rw (ne_false k j (λ e. ne (sym e))) found) h
