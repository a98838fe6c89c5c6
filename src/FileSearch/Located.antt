-- ===== src/FileSearch/Located.antt =====
-- When the locations of all chunks of a file are known.

use p2p_dapp.Base.{
  if_true, if_false, ℕ, zero, suc, ◌+◌, ◌-◌, ◌*◌, ◌%◌, ◌^◌, ◌≤◌, ◌<◌, String, ◌≡◌, refl, sym, ap,
  ◌∙◌, subst, ◌↔◌, inl, inr, true, false, ◌&&◌, Option, none, some, List, [], ◌∷◌, ◌++◌, arith, leb,
  if◌then◌else◌, ◌==◌, string_eq, nat_eq, pair_eq, eq_refl, eq_true, Bool-cases, Option-cases, Dict,
  lookup, insert, lookup-insert, length, take, drop, All, int_eq, le→leb, list_eq, In, here,
}
use p2p_dapp.Packet.{Bytes}
use p2p_dapp.Files.{FileMetadata, FileHandler, chunk_hash}
use p2p_dapp.FileSearch.{
  all_located, check_all_chunks_location, owners_of, add_owner, chunk_slice, slice,
  update_chunk_owner_map,
}
use p2p_dapp.FileSearch.KeySets.{Keeps, uncons, In-append, In-remove_duplicates}

-- Some peer has the chunk of that number, counted from 0.
abbrev pub HasOwner : Bytes → Dict Bytes (List String) → ℕ → Type 0
HasOwner metafile owners j =
    (hash : Bytes) × (peer : String) × (chunk_hash metafile j ≡ some hash)
    × In peer (owners_of hash owners)

not_empty : (peer : String) (peers : List String) → In peer peers → (length peers == 0) ≡ false
not_empty peer [] i = elim i [ ]
not_empty peer (x ∷ peers) i = ground (arith, nat_eq.beq_iff (suc (length peers)) 0)

all_located_of_HasOwner :
    (n i : ℕ) (metafile : Bytes) (owners : Dict Bytes (List String))
    → ((j : ℕ) → i ≤ j → j < i + n → HasOwner metafile owners j)
    → all_located n i metafile owners ≡ some true
unfolding all_located
all_located_of_HasOwner zero i metafile owners h = refl
all_located_of_HasOwner (suc n) i metafile owners h =
    let (hash, peer, e, owns) = h i (omega arith) (omega arith) in
    let rest =
      all_located_of_HasOwner n (i + 1) metafile owners
        (λ j low high. h j (omega arith) (omega arith)) in
    let listed : (o : Option (List String))
        → lookup hash owners ≡ o
        → In peer (elim o [ none ↦ [] | some ps ↦ ps ]) =
      λ o f. subst (λ x. In peer (elim x [ none ↦ [] | some ps ↦ ps ])) f owns in
    elim (Option-cases (lookup hash owners)) [
      | inl gone ↦ elim (listed none gone) [ ]
      | inr (peers, found) ↦
          rw (e, all_located, found)
            (if_false _ _ _ (not_empty peer peers (listed (some peers) found)) ∙ rest)
    ]

HasOwner-of_all_located :
    (n i : ℕ) (metafile : Bytes) (owners : Dict Bytes (List String))
    → all_located n i metafile owners ≡ some true
    → (j : ℕ) → i ≤ j
    → j < i + n
    → HasOwner metafile owners j
unfolding all_located
HasOwner-of_all_located zero i metafile owners h j low high = absurd (omega arith)
HasOwner-of_all_located (suc n) i metafile owners h j low high =
    elim (Option-cases (chunk_hash metafile i)) [
      | inl out ↦ absurd (ground (arith, out))
      | inr (hash, e) ↦ elim (Option-cases (lookup hash owners)) [
        | inl gone ↦ absurd (ground (arith, e, gone))
        | inr ([], found) ↦ absurd (ground (arith, e, found, nat_eq.beq_iff 0 0))
        | inr (peer ∷ peers, found) ↦
            let filled = not_empty peer (peer ∷ peers) (here refl) in
            elim (Bool-cases (j == i)) [
              | inl same ↦ subst (HasOwner metafile owners) (sym (eq_true j i same)) (
                hash,
                peer,
                e,
                subst (λ o. In peer (elim o [ none ↦ [] | some ps ↦ ps ])) (sym found) (here refl),
              )
              | inr other ↦
                  HasOwner-of_all_located n (i + 1) metafile owners
                    (ground (arith, e, found, filled)) j (ground (arith, nat_eq.beq_iff j i))
                    (omega arith)
            ]
      ]
    ]

-- Where the metafile of a file is stored, the test of all chunk locations returns true exactly if
-- some peer is known for each chunk.
pub check_all_chunks_location_iff :
    (file : FileMetadata) (f : FileHandler) (metafile : Bytes)
    → lookup file.metafile_hash f.hash_data_map ≡ some metafile
    → (check_all_chunks_location file f ≡ some true)
      ↔ ((j : ℕ) → j < file.chunk_count → HasOwner metafile f.chunk_owners j)
unfolding check_all_chunks_location
check_all_chunks_location_iff file f metafile e =
    rw (check_all_chunks_location, e)
      ((
        λ h j high.
            HasOwner-of_all_located file.chunk_count 0 metafile f.chunk_owners h j (omega arith)
              (omega arith),
        λ h.
            all_located_of_HasOwner file.chunk_count 0 metafile f.chunk_owners
              (λ j low high. h j (omega arith)),
      ))

-- The numbers are those of chunks of the metafile, counted from 1.
abbrev pub InFile : Bytes → List ℕ → Type 0
InFile metafile chunks = All (λ elem. (0 < elem) × (elem * 32 ≤ length metafile)) chunks

module _ (names : List String → List String) (keeps : Keeps names) where
  owners_of-insert :
      (hash other : Bytes) (peers : List String) (owners : Dict Bytes (List String))
      → owners_of other (insert hash peers owners)
        ≡ (if hash == other then peers else owners_of other owners)
  owners_of-insert hash other peers owners = elim (Bool-cases (hash == other)) [
    | inl same ↦ ground (arith, same, lookup-insert hash other peers owners)
    | inr apart ↦ ground (arith, apart, lookup-insert hash other peers owners)
  ]

  -- A peer is an owner after the step, if it is the new one, or was one before.
  owner_added :
      (hash : Bytes) (peer : String) (owners : Dict Bytes (List String))
      → In peer (owners_of hash (add_owner names hash peer owners))
  unfolding add_owner
  owner_added hash peer owners =
      subst (In peer) (sym (owners_of-insert hash hash _ owners ∙ if_true _ _ _ (eq_refl hash))) (
        (In-remove_duplicates names peer (owners_of hash owners ++ peer ∷ []) keeps).1
          ((In-append peer (owners_of hash owners) (peer ∷ [])).1 (inr (here refl))))

  owner_kept :
      (hash other : Bytes) (peer p : String) (owners : Dict Bytes (List String))
      → In p (owners_of other owners)
      → In p (owners_of other (add_owner names hash peer owners))
  unfolding add_owner
  owner_kept hash other peer p owners i =
      subst (In p) (sym (owners_of-insert hash other _ owners)) (elim (Bool-cases (hash == other)) [
        | inl same ↦ subst (In p) (sym (if_true _ _ _ same)) (
            (In-remove_duplicates names p (owners_of hash owners ++ peer ∷ []) keeps).1 (
              (In-append p (owners_of hash owners) (peer ∷ [])).1
                (inl (subst (λ h. In p (owners_of h owners)) (sym (eq_true hash other same)) i))))
        | inr apart ↦ subst (In p) (sym (if_false _ _ _ apart)) i
      ])

  chunk_slice_hash :
      (elem : ℕ) (metafile : Bytes)
      → 0 < elem
      → elem * 32 ≤ length metafile
      → length metafile < 2 ^ 64
      → (hash : Bytes) × (chunk_slice elem metafile ≡ some hash)
        × (chunk_hash metafile (elem - 1) ≡ some hash)
  unfolding chunk_slice slice chunk_hash
  chunk_slice_hash elem metafile p le small =
      let from : (elem + (2 ^ 64 - 1)) % 2 ^ 64 * 32 % 2 ^ 64 ≡ (elem - 1) * 32 = omega arith in
      let to : elem * 32 % 2 ^ 64 ≡ elem * 32 = omega arith in
      let size : elem * 32 - (elem - 1) * 32 ≡ 32 = omega arith in
      let ordered : (leb ((elem - 1) * 32) (elem * 32) && leb (elem * 32) (length metafile))
          ≡ true =
        ground (arith, le→leb (elem * 32) (length metafile) le) in
      let fits : leb ((elem - 1 + 1) * 32) (length metafile) ≡ true = le→leb _ _ (omega arith) in
      (
        take 32 (drop ((elem - 1) * 32) metafile),
        ap (λ x. slice x (elem * 32 % 2 ^ 64) metafile) from
            ∙ ap (λ x. slice ((elem - 1) * 32) x metafile) to
            ∙ if_true _ _ _ ordered
            ∙ ap (λ n. some (take n (drop ((elem - 1) * 32) metafile))) size,
        if_true _ _ _ fits,
      )

  -- Where all numbers are in the file, the owners are updated; the peer then has every chunk that
  -- was named, and no owner is lost.
  pub owners_updated :
      (peer : String) (chunks : List ℕ) (metafile : Bytes) (owners : Dict Bytes (List String))
      → InFile metafile chunks
      → length metafile < 2 ^ 64
      → (owners' : Dict Bytes (List String)) × (update_chunk_owner_map names peer chunks metafile
            owners
          ≡ some owners')
        × ((elem : ℕ) → In elem chunks → HasOwner metafile owners' (elem - 1))
        × ((hash : Bytes) (p : String)
            → In p (owners_of hash owners)
            → In p (owners_of hash owners'))
  unfolding update_chunk_owner_map
  owners_updated peer [] metafile owners ok small =
      (owners, refl, (λ elem i. elim i [ ]), λ hash p i. i)
  owners_updated peer (c ∷ chunks) metafile owners ok small =
      let (hash, sliced, chunk) = chunk_slice_hash c metafile ok.0.0 ok.0.1 small in
      let added = add_owner names hash peer owners in
      let (owners', e, owned, kept) = owners_updated peer chunks metafile added ok.1 small in
      (
        owners',
        rw (sliced, update_chunk_owner_map) e,
        λ elem i. elim (uncons elem c chunks i) [
          | inl first ↦
              subst (λ x. HasOwner metafile owners' (x - 1)) (sym first)
                (hash, peer, chunk, kept hash peer (owner_added hash peer owners))
          | inr later ↦ owned elem later
        ],
        λ other p i. kept other p (owner_kept hash other peer p owners i),
      )
