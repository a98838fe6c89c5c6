-- ===== src/FileSearch.antt =====
-- The results of a search: gossiper/filesearching.go, the chunk maps and the owners of chunks of
-- gossiper/filehandler.go, `containsKeyword` of gossiper/utils.go and the slices of
-- helpers/generalhelpers.go. What the Go library does is an argument: `matches` says whether a
-- keyword matches a name, `sort_search` is `sort.Search`, and the ranges give the order of the keys of a
-- map that is ranged over.
pub mod KeySets
pub mod ChunkMap
pub mod Located
pub mod Window
pub mod Ticks
use mathlib.Core.Option
use p2p_dapp.Base.{
  ℕ, zero, suc, ◌+◌, ◌-◌, ◌*◌, ◌%◌, ◌^◌, String, Bool, true, false, not, ◌&&◌, ◌||◌, Option, none,
  some, List, [], ◌∷◌, ◌++◌, map, ltb, leb, if◌then◌else◌, Eq, ◌==◌, string_eq, nat_eq, pair_eq,
  Dict, lookup, insert, length, take, drop, int_eq, list_eq,
}
use p2p_dapp.Packet.{Bytes, SearchResult}
use p2p_dapp.Files.{FileMetadata, FileHandler, chunk_hash}

abbrev pub match_threshold : ℕ
match_threshold = 2

abbrev pub max_budget : ℕ
max_budget = 32

-- 500 ms in ns.
abbrev pub search_request_duplicate_timeout : ℕ
search_request_duplicate_timeout = 500000000

-- `isRecentSearchRequest` at a time, for the key of the origin and the keywords.
unfoldable pub is_recent_search_request : String → ℕ → FileHandler → FileHandler × Bool
is_recent_search_request key now f =
    let taken = record f { last_search_requests = insert key now f.last_search_requests } in
    elim (lookup key f.last_search_requests) [
      | none ↦ (taken, false)
      | some stored ↦
          if ltb (stored + search_request_duplicate_timeout) now then (taken, false) else (f, true)
    ]

-- The timer of `searchFilesWithTimeout`: for each tick, whether the threshold of matches is reached.
-- The result has the budgets of the requests that are forwarded, and whether the search is over.
unfoldable pub search_loop : Bool → ℕ → List Bool → List ℕ × Bool
search_loop increment budget [] = ([], false)
search_loop increment budget (found ∷ ticks) =
    let next = if increment then budget * 2 % 2 ^ 64 else budget in
    let rest = search_loop increment next ticks in
    if ltb max_budget budget || found
    then ([], true)
    else ((next + (2 ^ 64 - 1)) % 2 ^ 64 ∷ rest.0, rest.1)

-- `searchFilesWithTimeout`
unfoldable pub search_files_with_timeout : Bool → ℕ → List Bool → List ℕ × Bool
unfolding search_loop
search_files_with_timeout increment budget ticks =
    let run = search_loop increment budget ticks in
    if budget == 0 then ([], true) else ((budget - 1) ∷ run.0, run.1)

-- `metafile[from:to]`, `none` where the slice is out of range, a panic.
unfoldable pub slice : ℕ → ℕ → Bytes → Option Bytes
slice from to metafile =
    if leb from to && leb to (length metafile)
    then some (take (to - from) (drop from metafile))
    else none

-- The slice of `updateChunkOwnerMap` for an element of the chunk map, a uint64.
unfoldable pub chunk_slice : ℕ → Bytes → Option Bytes
unfolding slice
chunk_slice elem metafile =
    slice ((elem + (2 ^ 64 - 1)) % 2 ^ 64 * 32 % 2 ^ 64) (elem * 32 % 2 ^ 64) metafile

-- The keys of a map in which the elements of a slice are set.
unfoldable pub key_set {ℓ} : {A : Type ℓ} → ⦃e : Eq A⦄ → List A → Dict A Bool → Dict A Bool
key_set [] m = m
key_set (x ∷ xs) m = key_set xs (insert x true m)

-- `RemoveDuplicatesFromStringSlice` and `RemoveDuplicatesFromUint64Slice`.
unfoldable pub remove_duplicates {ℓ} :
    {A : Type ℓ} → ⦃e : Eq A⦄ → (List A → List A) → List A → List A
unfolding key_set
remove_duplicates range xs = range (map (λ e. e.0) (key_set xs []))

-- The loop of `checkAllChunksLocation` from round i, with the rounds left.
unfoldable pub all_located : ℕ → ℕ → Bytes → Dict Bytes (List String) → Option Bool
all_located zero i metafile owners = some true
all_located (suc n) i metafile owners = elim (chunk_hash metafile i) [
  | none ↦ none
  | some hash ↦ elim (lookup hash owners) [
    | none ↦ some false
    | some peers ↦
        let rest = all_located n (i + 1) metafile owners in
        if length peers == 0 then some false else rest
  ]
]

-- `checkAllChunksLocation`; `none` is a slice out of range.
unfoldable pub check_all_chunks_location : FileMetadata → FileHandler → Option Bool
unfolding all_located
check_all_chunks_location file f = elim (lookup file.metafile_hash f.hash_data_map) [
  | none ↦ some false
  | some metafile ↦ all_located file.chunk_count 0 metafile f.chunk_owners
]

-- The owners of a chunk, none where the map has no entry.
abbrev pub owners_of : Bytes → Dict Bytes (List String) → List String
owners_of hash owners = elim (lookup hash owners) [ none ↦ [] | some peers ↦ peers ]

module _ (range : List String → List String) where
  -- One more owner of a chunk.
  unfoldable pub add_owner : Bytes → String → Dict Bytes (List String) → Dict Bytes (List String)
  unfolding remove_duplicates
  add_owner hash peer owners =
      insert hash (remove_duplicates range (owners_of hash owners ++ peer ∷ [])) owners

  -- `updateChunkOwnerMap`; `none` is a slice out of range.
  unfoldable pub update_chunk_owner_map :
      String → List ℕ → Bytes → Dict Bytes (List String) → Option (Dict Bytes (List String))
  unfolding chunk_slice add_owner
  update_chunk_owner_map peer [] metafile owners = some owners
  update_chunk_owner_map peer (elem ∷ chunks) metafile owners = elim (chunk_slice elem metafile) [
    | none ↦ none
    | some hash ↦ update_chunk_owner_map peer chunks metafile (add_owner hash peer owners)
  ]

-- The element of a slice, 0 out of range.
abbrev pub element : ℕ → List ℕ → ℕ
element i [] = 0
element zero (x ∷ xs) = x
element (suc i) (x ∷ xs) = element i xs

module _ (sort_search : ℕ → (ℕ → Bool) → ℕ) (range : List ℕ → List ℕ) where
  -- `InsertToSortUint64Slice`
  unfoldable pub insert_to_sort : List ℕ → ℕ → List ℕ
  insert_to_sort xs el =
      let index = sort_search (length xs) (λ i. ltb el (element i xs)) in
      take index xs ++ el ∷ drop index xs

  -- The loop of `updateChunkMap` from round i, with the rounds left.
  unfoldable pub update_chunk_map : ℕ → ℕ → Bytes → Dict Bytes Bytes → List ℕ → Option (List ℕ)
  unfolding insert_to_sort remove_duplicates
  update_chunk_map zero i metafile stored chunks = some chunks
  update_chunk_map (suc n) i metafile stored chunks = elim (chunk_hash metafile i) [
    | none ↦ none
    | some hash ↦ elim (lookup hash stored) [
      | none ↦ update_chunk_map n (i + 1) metafile stored chunks
      | some chunk ↦
          update_chunk_map n (i + 1) metafile stored
            (remove_duplicates range (insert_to_sort chunks (i + 1)))
    ]
  ]

module _ (matches : String → String → Bool) where
  -- `containsKeyword`
  unfoldable pub contains_keyword : String → List String → Bool
  contains_keyword name [] = false
  contains_keyword name (keyword ∷ keywords) =
      matches keyword name || contains_keyword name keywords

  -- `searchMatchingLocalFiles` over the files in the order of a range.
  unfoldable pub search_matching_local_files : List FileMetadata → List String → List SearchResult
  unfolding contains_keyword
  search_matching_local_files [] keywords = []
  search_matching_local_files (file ∷ files) keywords =
      let rest = search_matching_local_files files keywords in
      if contains_keyword file.file_name keywords && not (length file.chunk_map == 0)
      then record {
        file_name = file.file_name;
        metafile_hash = file.metafile_hash;
        chunk_map = file.chunk_map;
        chunk_count = file.chunk_count;
      }
        ∷ rest
      else rest
