-- ===== src/Results/Match.antt =====
-- A result that names all chunks of a file makes the file a match.

use p2p_dapp.Base.{
  ℕ, ◌+◌, ◌-◌, ◌*◌, ◌^◌, ◌≤◌, ◌<◌, String, ◌≡◌, refl, subst, inl, inr, Bool, true, Option, none,
  some, List, [], arith, string_eq, nat_eq, pair_eq, Option-cases, Dict, lookup, insert,
  lookup-insert_self, length, int_eq, list_eq, In,
}
use p2p_dapp.Packet.{Bytes, SearchResult}
use p2p_dapp.Files.{FileMetadata, FileHandler}
use p2p_dapp.FileSearch.{contains_keyword, check_all_chunks_location}
use p2p_dapp.FileSearch.KeySets.{Keeps}
use p2p_dapp.FileSearch.ChunkMap.{update_chunk_map_lem}
use p2p_dapp.FileSearch.Located.{HasOwner, InFile, owners_updated, check_all_chunks_location_iff}
use p2p_dapp.Results.{load_metafile, metadata_of, note_owners, handle_search_result, found_match}

load_metafile_stored :
    (hash : Bytes) (downloaded : Option Bytes) (stored stored' : Dict Bytes Bytes)
    (metafile : Bytes)
    → load_metafile hash downloaded stored ≡ some (metafile, stored')
    → lookup hash stored' ≡ some metafile
unfolding load_metafile
load_metafile_stored hash downloaded stored stored' metafile e =
    elim (Option-cases (lookup hash stored)) [
      | inr (m, found) ↦ ground (arith, e, found)
      | inl gone ↦ elim (Option-cases downloaded) [
        | inl fails ↦ absurd (ground (arith, e, gone, fails))
        | inr (m, got) ↦ ground (arith, e, gone, got, lookup-insert_self hash m stored)
      ]
    ]

-- A peer answers a search with a file that has no entry yet, whose metafile is at hand or is
-- downloaded, and names all of its chunks, each of which has its hash in the metafile. Then the
-- result is handled without a panic, and the file that it leaves under the name counts as a match
-- for keywords that match the name.
pub handle_search_result-found_match :
    (sort_search : ℕ → (ℕ → Bool) → ℕ) (range : List ℕ → List ℕ) (names : List String → List String)
    (matches : String → String → Bool) (keywords : List String) (origin : String)
    (res : SearchResult) (downloaded : Option Bytes) (metafile : Bytes) (stored : Dict Bytes Bytes)
    (f : FileHandler)
    → Keeps range
    → Keeps names
    → lookup (res.metafile_hash, res.file_name) f.found_metadata ≡ none
    → load_metafile res.metafile_hash downloaded f.hash_data_map ≡ some (metafile, stored)
    → length metafile < 2 ^ 64
    → res.chunk_count * 32 ≤ length metafile
    → InFile metafile res.chunk_map
    → ((j : ℕ) → j < res.chunk_count → In (j + 1) res.chunk_map)
    → contains_keyword matches res.file_name keywords ≡ true
    → (g : FileHandler) × (file : FileMetadata) × (handle_search_result sort_search range names
          origin res downloaded f
        ≡ some g)
      × (lookup (res.metafile_hash, res.file_name) g.found_metadata ≡ some file)
      × (found_match matches file keywords g ≡ some true)
unfolding handle_search_result note_owners found_match
handle_search_result-found_match sort_search range names matches keywords origin res downloaded
      metafile stored f keeps keeps_names new loaded small long ok all match =
    let key : Bytes × String = (res.metafile_hash, res.file_name) in
    let (owners, owned, has, kept) =
      owners_updated names keeps_names origin res.chunk_map metafile f.chunk_owners ok small in
    let (chunks, mapped_chunks, _) =
      update_chunk_map_lem sort_search range keeps metafile stored res.chunk_count 0 []
        (omega arith) in
    let files = insert key (metadata_of res) f.found_metadata in
    let file = record (metadata_of res) { chunk_map = chunks } in
    let g = record f {
      hash_data_map = stored;
      chunk_owners = owners;
      found_metadata = insert key file files;
    } in
    let located : check_all_chunks_location file g ≡ some true =
      (check_all_chunks_location_iff file g metafile (
          load_metafile_stored res.metafile_hash downloaded f.hash_data_map stored metafile
            loaded)).1
        (λ j low.
          let same : j + 1 - 1 ≡ j = omega arith in
          subst (HasOwner metafile owners) same (has (j + 1) (all j low))) in
    (
      g,
      file,
      rw (new, handle_search_result, loaded, note_owners, owned, mapped_chunks) refl,
      lookup-insert_self key file files,
      ground (arith, match, located, nat_eq.beq_iff 0 0),
    )
