-- ===== src/FileSearch/KeySets.antt =====
-- The elements of a slice without duplicates, and of one into which an element is put.
use p2p_dapp.Base.{
  ℕ, ◌≡◌, sym, ◌∙◌, subst, ◌↔◌, ◌⊎◌, inl, inr, Bool, true, List, [], ◌∷◌, ◌++◌, map, Eq, ◌==◌,
  string_eq, nat_eq, pair_eq, eq_true, Bool-cases, Dict, insert, take, drop, take-append-drop,
  int_eq, list_eq, In, here, there, if_true, if_false,
}
use p2p_dapp.FileSearch.{key_set, remove_duplicates}

module _ {ℓ} {A : Type ℓ} ⦃e : Eq A⦄ where
  abbrev keys : Dict A Bool → List A
  keys m = map (λ p. p.0) m

  pub uncons : (x y : A) (ys : List A) → In x (y ∷ ys) → (x ≡ y) ⊎ In x ys
  uncons x y ys (here h) = inl h
  uncons x y ys (there i) = inr i

  keys_of_insert :
      (k x : A) (m : Dict A Bool) → In x (keys (insert k true m)) → (x ≡ k) ⊎ In x (keys m)
  unfolding insert
  keys_of_insert k x [] i = uncons x k [] i
  keys_of_insert k x ((j, b) ∷ m) i = elim (Bool-cases (j == k)) [
    | inl same ↦ elim (uncons x k (keys m) (subst (λ z. In x (keys z)) (if_true _ _ _ same) i)) [
      | inl h ↦ inl h
      | inr later ↦ inr (there later)
    ]
    | inr other ↦
        elim (uncons x j (keys (insert k true m))
          (subst (λ z. In x (keys z)) (if_false _ _ _ other) i)) [
            | inl h ↦ inr (here h)
            | inr later ↦ elim (keys_of_insert k x m later) [
              | inl h ↦ inl h
              | inr old ↦ inr (there old)
            ]
          ]
  ]

  In-insert : (k x : A) (m : Dict A Bool) → (x ≡ k) ⊎ In x (keys m) → In x (keys (insert k true m))
  unfolding insert
  In-insert k x [] (inl h) = here h
  In-insert k x [] (inr i) = elim i [ ]
  In-insert k x ((j, b) ∷ m) h = elim (Bool-cases (j == k)) [
    | inl same ↦
        subst (λ z. In x (keys z)) (sym (if_true _ _ _ same))
          (elim h [
            | inl new ↦ here new
            | inr old ↦ elim (uncons x j (keys m) old) [
              | inl first ↦ here (first ∙ eq_true j k same)
              | inr later ↦ there later
            ]
          ])
    | inr other ↦
        subst (λ z. In x (keys z)) (sym (if_false _ _ _ other))
          (elim h [
            | inl new ↦ there (In-insert k x m (inl new))
            | inr old ↦ elim (uncons x j (keys m) old) [
              | inl first ↦ here first
              | inr later ↦ there (In-insert k x m (inr later))
            ]
          ])
  ]

  In-key_set :
      (x : A) (xs : List A) (m : Dict A Bool)
      → In x (keys (key_set xs m)) ↔ (In x xs ⊎ In x (keys m))
  unfolding key_set
  In-key_set x [] m = ((λ i. inr i), λ h. elim h [ inl i ↦ elim i [ ] | inr i ↦ i ])
  In-key_set x (y ∷ xs) m =
      let (to, from) = In-key_set x xs (insert y true m) in
      (
        λ i. elim (to i) [
          | inl h ↦ inl (there h)
          | inr h ↦ elim (keys_of_insert y x m h) [ inl same ↦ inl (here same) | inr old ↦ inr old ]
        ],
        λ h. elim h [
          | inl i ↦ elim (uncons x y xs i) [
            | inl same ↦ from (inr (In-insert y x m (inl same)))
            | inr later ↦ from (inl later)
          ]
          | inr old ↦ from (inr (In-insert y x m (inr old)))
        ],
      )

  -- The range lists the keys of the map in some order.
  abbrev pub Keeps : (List A → List A) → Type ℓ
  Keeps range = (xs : List A) (x : A) → In x (range xs) ↔ In x xs

  pub In-remove_duplicates :
      (range : List A → List A) (x : A) (xs : List A)
      → Keeps range
      → In x (remove_duplicates range xs) ↔ In x xs
  unfolding remove_duplicates
  In-remove_duplicates range x xs keeps =
      let (out, back) = keeps (keys (key_set xs [])) x in
      let (to, from) = In-key_set x xs [] in
      (
        λ i. elim (to (out i)) [ inl h ↦ h | inr none_left ↦ elim none_left [ ] ],
        λ i. back (from (inl i)),
      )

  pub In-append : (x : A) (xs ys : List A) → In x (xs ++ ys) ↔ (In x xs ⊎ In x ys)
  In-append x [] ys = ((λ i. inr i), λ h. elim h [ inl i ↦ elim i [ ] | inr i ↦ i ])
  In-append x (y ∷ xs) ys =
      let (to, from) = In-append x xs ys in
      (
        λ i. elim (uncons x y (xs ++ ys) i) [
          | inl h ↦ inl (here h)
          | inr later ↦ elim (to later) [ inl l ↦ inl (there l) | inr r ↦ inr r ]
        ],
        λ h. elim h [
          | inl l ↦ elim (uncons x y xs l) [
            | inl first ↦ here first
            | inr later ↦ there (from (inl later))
          ]
          | inr r ↦ there (from (inr r))
        ],
      )

  -- What is put in at an index is there, with all that was there.
  pub In-insert_at :
      (x y : A) (n : ℕ) (xs : List A) → In x (take n xs ++ y ∷ drop n xs) ↔ ((x ≡ y) ⊎ In x xs)
  In-insert_at x y n xs =
      let (to, from) = In-append x (take n xs) (y ∷ drop n xs) in
      let (to', from') = In-append x (take n xs) (drop n xs) in
      let whole = take-append-drop n xs in
      (
        λ i. elim (to i) [
          | inl l ↦ inr (subst (In x) whole (from' (inl l)))
          | inr r ↦ elim (uncons x y (drop n xs) r) [
            | inl h ↦ inl h
            | inr later ↦ inr (subst (In x) whole (from' (inr later)))
          ]
        ],
        λ h. elim h [
          | inl new ↦ from (inr (here new))
          | inr old ↦ elim (to' (subst (In x) (sym whole) old)) [
            | inl l ↦ from (inl l)
            | inr r ↦ from (inr (there r))
          ]
        ],
      )
