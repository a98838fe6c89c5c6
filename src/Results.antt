-- ===== src/Results.antt =====
-- Search requests and replies: `handleSearchResult` and `isFileMatchThresholdReached` of
-- gossiper/filesearching.go, `processSearchRequest` and `processSearchReply` of
-- gossiper/mainhandler.go.
pub mod Match
use mathlib.Core.Option
use p2p_dapp.Base.{
  ℕ, ◌+◌, ◌-◌, ◌%◌, ◌^◌, String, Bool, false, ◌&&◌, Option, none, some, List, [], ◌∷◌, ◌++◌, map,
  if◌then◌else◌, ◌==◌, string_eq, nat_eq, pair_eq, Dict, lookup, insert, length, int_eq, list_eq,
}
use p2p_dapp.Packet.{
  Bytes, GossipPacket, ExtendedGossipPacket, SearchReply, SearchRequest, SearchResult, empty_packet,
}
use p2p_dapp.Files.{FileMetadata, FileHandler}
use p2p_dapp.Routing.{HopField, forward_private_message}
use p2p_dapp.Search.{forward_search_request_with_budget}
use p2p_dapp.FileSearch.{
  match_threshold, is_recent_search_request, contains_keyword, search_matching_local_files,
  check_all_chunks_location, update_chunk_owner_map, update_chunk_map,
}
use p2p_dapp.Gossiper.{Gossiper, Sent, sent_to}

module _ (matches : String → String → Bool) where
  -- Whether a file counts as a match that was found.
  unfoldable pub found_match : FileMetadata → List String → FileHandler → Option Bool
  found_match file keywords f =
      let located = check_all_chunks_location file f in
      if contains_keyword matches file.file_name keywords && file.size == 0
      then located
      else some false

  -- The range of `isFileMatchThresholdReached` over the files in an order, with the matches so far.
  unfoldable pub count_matches : List FileMetadata → List String → FileHandler → ℕ → Option ℕ
  unfolding found_match
  count_matches [] keywords f n = some n
  count_matches (file ∷ files) keywords f n = elim (found_match file keywords f) [
    | none ↦ none
    | some is_match ↦
        let n' = if is_match then n + 1 else n in
        let rest = count_matches files keywords f n' in
        if n' == match_threshold then some n' else rest
  ]

  -- `isFileMatchThresholdReached`
  unfoldable pub is_file_match_threshold_reached :
      List FileMetadata → List String → FileHandler → Option Bool
  unfolding count_matches
  is_file_match_threshold_reached files keywords f =
      Option.map (λ n. n == match_threshold) (count_matches files keywords f 0)

-- The metafile at hand, or the one that `downloadMetafile` has stored, if it did.
unfoldable pub load_metafile :
    Bytes → Option Bytes → Dict Bytes Bytes → Option (Bytes × Dict Bytes Bytes)
load_metafile hash downloaded stored = elim (lookup hash stored) [
  | some metafile ↦ some (metafile, stored)
  | none ↦ Option.map (λ metafile. (metafile, insert hash metafile stored)) downloaded
]

-- The entry of a result.
abbrev pub metadata_of : SearchResult → FileMetadata
metadata_of res = record {
  file_name = res.file_name;
  metafile_hash = res.metafile_hash;
  chunk_count = res.chunk_count;
  chunk_map = [];
  size = 0;
}

module _ (sort_search : ℕ → (ℕ → Bool) → ℕ) (range : List ℕ → List ℕ)
    (names : List String → List String) where
  -- The owners and the chunk map of a file, from the result of a peer.
  unfoldable pub note_owners :
      String → SearchResult → FileMetadata → Bytes → FileHandler → Option FileHandler
  note_owners origin res file metafile f =
      elim (update_chunk_owner_map names origin res.chunk_map metafile f.chunk_owners) [
        | none ↦ none
        | some owners ↦
            Option.map
              (λ chunks. record f {
                chunk_owners = owners;
                found_metadata =
                    insert (res.metafile_hash, res.file_name) (record file { chunk_map = chunks })
                      f.found_metadata;
              })
              (update_chunk_map sort_search range file.chunk_count 0 metafile f.hash_data_map
                file.chunk_map)
      ]

  -- `handleSearchResult`, with the metafile that a download gets. A result for a file that has an
  -- entry changes nothing. `none` is a slice out of range, a panic.
  unfoldable pub handle_search_result :
      String → SearchResult → Option Bytes → FileHandler → Option FileHandler
  unfolding load_metafile note_owners
  handle_search_result origin res downloaded f =
      elim (lookup (res.metafile_hash, res.file_name) f.found_metadata) [
        | some file ↦ some f
        | none ↦
            let file = metadata_of res in
            let files = insert (res.metafile_hash, res.file_name) file f.found_metadata in
            elim (load_metafile res.metafile_hash downloaded f.hash_data_map) [
              | none ↦ some (record f { found_metadata = files })
              | some (metafile, stored) ↦
                  note_owners origin res file metafile
                    (record f { found_metadata = files; hash_data_map = stored })
            ]
      ]

  -- The results of a reply, each with what its download gets.
  unfoldable pub handle_search_results :
      String → List (SearchResult × Option Bytes) → FileHandler → Option FileHandler
  unfolding handle_search_result
  handle_search_results origin [] f = some f
  handle_search_results origin ((res, downloaded) ∷ results) f =
      elim (handle_search_result origin res downloaded f) [
        | none ↦ none
        | some f' ↦ handle_search_results origin results f'
      ]

  -- `processSearchReply`; the first argument is what the download of a result gets.
  unfoldable pub process_search_reply :
      (SearchResult → Option Bytes) → ExtendedGossipPacket → Gossiper → Option (Gossiper × Sent)
  unfolding handle_search_results sent_to
  process_search_reply download e g = elim e.packet.search_reply [
    | none ↦ none
    | some reply ↦
        if reply.destination == g.name
        then Option.map (λ f. (record g { files = f }, []))
            (handle_search_results reply.origin (map (λ res. (res, download res)) reply.results)
              g.files)
        else some (
          g,
          sent_to
              (forward_private_message HopField.search_reply e.packet reply.destination g.routing),
        )
  ]

-- The reply to a request with the files that match, if there are any.
unfoldable pub answer_search :
    (String → String → Bool) → List FileMetadata → SearchRequest → Gossiper → Sent
unfolding sent_to
answer_search matches files q g =
    let results = search_matching_local_files matches files q.keywords in
    let reply : SearchReply = record {
      origin = g.name;
      destination = q.origin;
      hop_limit = g.hop_limit % 2 ^ 32;
      results = results;
    } in
    if length results == 0
    then []
    else sent_to (
        forward_private_message HopField.search_reply
          (record empty_packet { search_reply = some reply }) q.origin g.routing)

-- `processSearchRequest` at a time, with the files in the order of a range; `key` makes the key of
-- the origin and the sorted keywords, and the fuel and the random indices are those of the forwarding.
-- The budget is a uint64: 0 becomes the highest one.
unfoldable pub process_search_request :
    (String → String → Bool)
    → (String → List String → String)
    → (List String → List String)
    → ℕ
    → (ℕ → ℕ → ℕ)
    → List FileMetadata
    → ℕ
    → ExtendedGossipPacket
    → Gossiper
    → Option (Gossiper × Sent)
unfolding is_recent_search_request answer_search
process_search_request matches key sort fuel random files now e g = elim e.packet.search_request [
  | none ↦ none
  | some q ↦
      let sorted : SearchRequest = record q { keywords = sort q.keywords } in
      let (f, recent) = is_recent_search_request (key q.origin sorted.keywords) now g.files in
      let answer = if q.origin == g.name then [] else answer_search matches files sorted g in
      let forwarded =
        forward_search_request_with_budget fuel random g.peers e.sender_addr
          ((q.budget + (2 ^ 64 - 1)) % 2 ^ 64) in
      if recent
      then some (record g { files = f }, [])
      else Option.map
          (λ sent. (
            record g { files = f },
            answer
                ++ map
                    (λ s. (
                      record (e.packet) { search_request = some (record sorted { budget = s.1 }) },
                      s.0,
                    ))
                    sent,
          ))
          forwarded
]
