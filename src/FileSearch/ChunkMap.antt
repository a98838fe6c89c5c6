-- ===== src/FileSearch/ChunkMap.antt =====
-- Which chunks the chunk map of a file has after an update.
use p2p_dapp.Base.{
  ℕ, zero, suc, ◌+◌, ◌*◌, ◌≤◌, ◌<◌, ◌≡◌, refl, sym, ap, ◌∙◌, subst, ◌≢◌, ◌↔◌, ◌⊎◌, inl, inr, Bool,
  true, some, List, ◌∷◌, ◌++◌, arith, ltb, leb, ◌==◌, string_eq, nat_eq, pair_eq, eq_true,
  Bool-cases, Option-cases, Dict, lookup, length, take, drop, int_eq, le→leb, list_eq, In, if_true,
  some_eq,
}
use p2p_dapp.FileSearch.KeySets.{Keeps, In-remove_duplicates, In-insert_at}
use p2p_dapp.Packet.{Bytes}
use p2p_dapp.Files.{chunk_hash}
use p2p_dapp.FileSearch.{element, insert_to_sort, remove_duplicates, update_chunk_map}

abbrev pub HasChunk : Bytes → Dict Bytes Bytes → ℕ → Type 0
HasChunk metafile stored j =
    (hash : Bytes) × (chunk : Bytes) × (chunk_hash metafile j ≡ some hash)
    × (lookup hash stored ≡ some chunk)

-- The number k is that of a chunk from i on whose data is stored.
abbrev pub Stored : Bytes → Dict Bytes Bytes → ℕ → ℕ → ℕ → Type 0
Stored metafile stored n i k =
    (j : ℕ) × (k ≡ j + 1) × (i ≤ j) × (j < i + n) × HasChunk metafile stored j

module _ (sort_search : ℕ → (ℕ → Bool) → ℕ) (range : List ℕ → List ℕ) (keeps : Keeps range)
    (metafile : Bytes) (stored : Dict Bytes Bytes) where
  In-inserted :
      (x el : ℕ) (chunks : List ℕ)
      → In x (remove_duplicates range (insert_to_sort sort_search range chunks el))
        ↔ ((x ≡ el) ⊎ In x chunks)
  unfolding insert_to_sort
  In-inserted x el chunks =
      let n = sort_search (length chunks) (λ i. ltb el (element i chunks)) in
      let (to, from) = In-remove_duplicates range x (take n chunks ++ el ∷ drop n chunks) keeps in
      let (to', from') = In-insert_at x el n chunks in (λ i. to' (to i), λ h. from (from' h))

  hash_there :
      (n i : ℕ)
      → (i + suc n) * 32 ≤ length metafile
      → (hash : Bytes) × (chunk_hash metafile i ≡ some hash)
  unfolding chunk_hash
  hash_there n i le =
      let fits : leb ((i + 1) * 32) (length metafile) ≡ true = le→leb _ _ (omega arith) in
      (take 32 (drop (i * 32) metafile), if_true _ _ _ fits)

  later_Stored :
      (n i k : ℕ) → Stored metafile stored n (i + 1) k → Stored metafile stored (suc n) i k
  later_Stored n i k (j, e, low, high, rest) = (j, e, omega arith, omega arith, rest)

  -- A chunk from i on is the first or a later one.
  split_Stored :
      (n i k : ℕ) (hash : Bytes)
      → chunk_hash metafile i ≡ some hash
      → Stored metafile stored (suc n) i k
      → ((k ≡ i + 1) × ((chunk : Bytes) × (lookup hash stored ≡ some chunk)))
        ⊎ Stored metafile stored n (i + 1) k
  split_Stored n i k hash h (j, e, low, high, (hash', chunk, h', found)) =
      elim (Bool-cases (j == i)) [
        | inl same ↦
            let first = eq_true j i same in
            let same_hash : some hash' ≡ some hash = sym h' ∙ ap (chunk_hash metafile) first ∙ h in
            inl (
              omega (arith, first),
              (chunk, subst (λ x. lookup x stored ≡ some chunk) (some_eq same_hash) found),
            )
        | inr other ↦
            let apart : j ≢ i = λ e. ground (arith, nat_eq.beq_iff j i) in
            inr (j, e, ground (arith, apart), omega arith, (hash', chunk, h', found))
      ]

  -- Where the metafile has the hashes of all chunks, the update returns, and the chunk map then has
  -- the numbers that it had and those of the chunks whose data is stored, and no other, whatever
  -- the order of the range and the place of an insertion.
  pub update_chunk_map_lem :
      (n i : ℕ) (chunks : List ℕ)
      → (i + n) * 32 ≤ length metafile
      → (chunks' : List ℕ) × (update_chunk_map sort_search range n i metafile stored chunks
          ≡ some chunks')
        × ((k : ℕ) → In k chunks' ↔ (In k chunks ⊎ Stored metafile stored n i k))
  unfolding update_chunk_map
  update_chunk_map_lem zero i chunks le = (
    chunks,
    refl,
    λ k. (
      λ h. inl h,
      λ h. elim h [ inl old ↦ old | inr (j, e, low, high, rest) ↦ absurd (omega arith) ],
    ),
  )
  update_chunk_map_lem (suc n) i chunks le =
      let (hash, h) = hash_there n i le in
      elim (Option-cases (lookup hash stored)) [
        | inl missing ↦
            let (chunks', e, ins) = update_chunk_map_lem n (i + 1) chunks (omega arith) in
            (
              chunks',
              rw (h, update_chunk_map, missing) e,
              λ k. (
                λ x. elim ((ins k).0 x) [ inl old ↦ inl old | inr s ↦ inr (later_Stored n i k s) ],
                λ x. elim x [
                  | inl old ↦ (ins k).1 (inl old)
                  | inr s ↦ elim (split_Stored n i k hash h s) [
                    | inl (e', (chunk, found)) ↦ absurd (cc)
                    | inr later ↦ (ins k).1 (inr later)
                  ]
                ],
              ),
            )
        | inr (chunk, found) ↦
            let added = remove_duplicates range (insert_to_sort sort_search range chunks (i + 1)) in
            let (chunks', e, ins) = update_chunk_map_lem n (i + 1) added (omega arith) in
            (
              chunks',
              rw (h, update_chunk_map, found) e,
              λ k. (
                λ x. elim ((ins k).0 x) [
                  | inl a ↦ elim ((In-inserted k (i + 1) chunks).0 a) [
                    | inl new ↦ inr (i, new, omega arith, omega arith, (hash, chunk, h, found))
                    | inr old ↦ inl old
                  ]
                  | inr s ↦ inr (later_Stored n i k s)
                ],
                λ x. elim x [
                  | inl old ↦ (ins k).1 (inl ((In-inserted k (i + 1) chunks).1 (inr old)))
                  | inr s ↦ elim (split_Stored n i k hash h s) [
                    | inl (e', rest) ↦ (ins k).1 (inl ((In-inserted k (i + 1) chunks).1 (inl e')))
                    | inr later ↦ (ins k).1 (inr later)
                  ]
                ],
              ),
            )
      ]
