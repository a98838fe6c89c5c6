-- ===== src/Tests/Results.antt =====
-- A search and the results of it at concrete inputs: the file "f" has two chunks.

use p2p_dapp.Base.{
  ℕ, zero, suc, ◌+◌, ◌≤◌, ◌<◌, String, ◌≡◌, refl, ◌↔◌, ◌⊎◌, Bool, true, false, none, some, List, [],
  ◌∷◌, ◌++◌, arith, if◌then◌else◌, ◌==◌, string_eq, nat_eq, pair_eq, lookup, length, All, int_eq,
  list_eq, In, here, there,
}
use p2p_dapp.Packet.{Bytes, SearchResult}
use p2p_dapp.Files.{FileMetadata, FileHandler, new_file_handler}
use p2p_dapp.FileSearch.{contains_keyword, update_chunk_map, search_files_with_timeout}
use p2p_dapp.FileSearch.KeySets.{Keeps}
use p2p_dapp.FileSearch.ChunkMap.{Stored, update_chunk_map_lem}
use p2p_dapp.FileSearch.Window.{log, Windowed, log-Windowed}
use p2p_dapp.FileSearch.Ticks.{unfound, repeated, search_ends, search_repeats}
use p2p_dapp.Results.{load_metafile, handle_search_result, found_match}
use p2p_dapp.Results.Match.{handle_search_result-found_match}

abbrev hash_of : ℕ → ℕ → Bytes
hash_of x zero = []
hash_of x (suc n) = x ∷ hash_of x n

-- The hashes of two chunks: 32 ones and 32 twos.
abbrev metafile : Bytes
metafile = hash_of 1 32 ++ hash_of 2 32

abbrev match : SearchResult
match = record { file_name = "f"; metafile_hash = 7 ∷ []; chunk_map = 1 ∷ 2 ∷ []; chunk_count = 2 }

-- `sort.Search` by a linear search, and ranges in the order of insertion.
abbrev first_index : ℕ → ℕ → (ℕ → Bool) → ℕ
first_index zero i test = i
first_index (suc n) i test = if test i then i else first_index n (i + 1) test

abbrev linear : ℕ → (ℕ → Bool) → ℕ
linear n test = first_index n 0 test

abbrev ordered : List ℕ → List ℕ
ordered xs = xs

abbrev named : List String → List String
named xs = xs

abbrev equal : String → String → Bool
equal keyword name = keyword == name

abbrev handler : FileHandler
handler = record new_file_handler {
  hash_data_map = (hash_of 2 32, 9 ∷ []) ∷ (7 ∷ [], metafile) ∷ [];
}

ordered-Keeps : Keeps ordered
ordered-Keeps xs x = (λ i. i, λ i. i)

named-Keeps : Keeps named
named-Keeps xs x = (λ i. i, λ i. i)

stored :
    (lookup (7 ∷ []) handler.hash_data_map ≡ some metafile)
    × (contains_keyword equal "f" ("f" ∷ []) ≡ true)
unfolding lookup contains_keyword
stored = (refl, refl)

loads : load_metafile (7 ∷ []) none handler.hash_data_map ≡ some (metafile, handler.hash_data_map)
unfolding load_metafile lookup
loads = refl

both_named : (j : ℕ) → j < 2 → In (j + 1) (1 ∷ 2 ∷ [])
both_named zero low = here (omega arith)
both_named (suc zero) low = there (here (omega arith))
both_named (suc (suc j)) low = absurd (omega arith)

handle_search_result-found_match_example :
    (g : FileHandler) × (file : FileMetadata) × (handle_search_result linear ordered named "b" match
        none handler
      ≡ some g)
    × (lookup (7 ∷ [], "f") g.found_metadata ≡ some file)
    × (found_match equal file ("f" ∷ []) g ≡ some true)
unfolding lookup
handle_search_result-found_match_example =
    handle_search_result-found_match linear ordered named equal ("f" ∷ []) "b" match none metafile
      handler.hash_data_map handler ordered-Keeps named-Keeps refl loads (omega arith) (omega arith)
      ((omega arith, omega arith), ((omega arith, omega arith), tt)) both_named stored.1

update_chunk_map_lem_example :
    (chunks : List ℕ) × (update_chunk_map linear ordered 2 0 metafile handler.hash_data_map []
      ≡ some chunks)
    × ((k : ℕ) → In k chunks ↔ (In k [] ⊎ Stored metafile handler.hash_data_map 2 0 k))
update_chunk_map_lem_example =
    update_chunk_map_lem linear ordered ordered-Keeps metafile handler.hash_data_map 2 0 []
      (omega arith)

log-Windowed_example :
    Windowed none
      (log "k" (("k", 1) ∷ ("x", 2) ∷ ("k", 3) ∷ ("k", 600000000) ∷ []) new_file_handler)
unfolding lookup
log-Windowed_example =
    log-Windowed "k" (("k", 1) ∷ ("x", 2) ∷ ("k", 3) ∷ ("k", 600000000) ∷ []) new_file_handler

search_ends_example :
    (later : List ℕ) × (search_files_with_timeout true 2 (unfound 7) ≡ (1 ∷ later, true))
    × (length later ≤ 6)
    × All (λ b. b < 64) later
search_ends_example = search_ends 2 (unfound 7) (omega arith) (omega arith)

search_repeats_example : search_files_with_timeout false 5 (unfound 3) ≡ (4 ∷ repeated 3 4, false)
search_repeats_example = search_repeats 5 3 (omega arith) (omega arith)
