-- ===== src/Download/RoundTrip.antt =====
-- A file that one peer indexes, another peer downloads from it.
use mathlib.Core.Option
use p2p_dapp.Base.{
  ℕ, ◌*◌, ◌/◌, String, ◌≡◌, refl, sym, ap, ◌∙◌, subst, ◌≢◌, inl, inr, Bool, true, false, none, some,
  List, [], ◌∷◌, ◌++◌, arith, ◌==◌, string_eq, nat_eq, pair_eq, eq_true, ne_false, Bool-cases,
  Option-cases, Dict, lookup, insert, length, take, int_eq, load_or_store, list_eq, if_true,
}
use p2p_dapp.Packet.{Bytes}
use p2p_dapp.Files.{
  Assembly, FileHandler, FileMetadata, file_chunk, zeros, index_file, num_file_chunks,
  assemble_loop, assemble,
}
use p2p_dapp.Files.Chunks.{split, length-hashes_of}
use p2p_dapp.Files.Index.{Apart, metafile_of, index_file-assemble}
use p2p_dapp.FileSearch.KeySets.{Keeps}
use p2p_dapp.FileSearch.ChunkMap.{update_chunk_map_lem}
use p2p_dapp.Download.{
  Answer, finish, get_metafile, download_chunks, entry_of, download_entry, download_file_chunks,
}
use p2p_dapp.Download.Gathered.{Serves, Agrees, got, stored-Agrees, download_loop-assemble}

-- What it takes that a file is assembled.
assembled :
    (count : ℕ) (metafile : Bytes) (source : Dict Bytes Bytes) (content : Bytes)
    → assemble count metafile source ≡ some (some content)
    → (b : Assembly) × (assemble_loop count 0 metafile source
          (record { chunks_data = zeros (count * file_chunk); retrieved = 0; size = 0 })
        ≡ some b)
      × (b.retrieved ≡ count)
      × (take b.size b.chunks_data ≡ content)
unfolding assemble
assembled count metafile source content h =
    elim (Option-cases (
      assemble_loop count 0 metafile source
        (record { chunks_data = zeros (count * file_chunk); retrieved = 0; size = 0 }))) [
          | inl out ↦ absurd (ground (arith, h, out))
          | inr (b, e) ↦ elim (Bool-cases (count == b.retrieved)) [
            | inl same ↦ (b, e, sym (eq_true count b.retrieved same), ground (arith, h, e, same))
            | inr other ↦ absurd (ground (arith, h, e, other))
          ]
        ]

module _ (sort_search : ℕ → (ℕ → Bool) → ℕ) (range : List ℕ → List ℕ)
    (names : List String → List String) (answers : Bytes → String → List Answer)
    (destination : String) (source : Dict Bytes Bytes) (known : (destination == "") ≡ false)
    (serves : Serves answers destination source) where
  chunks_downloaded :
      (name : String) (meta_hash metafile content : Bytes) (file : FileMetadata) (f : FileHandler)
      → Agrees f.hash_data_map source
      → assemble file.chunk_count metafile source ≡ some (some content)
      → (f' : FileHandler) × (download_chunks sort_search range names answers destination name
            meta_hash metafile file f
          ≡ some (f', some content))
  unfolding download_chunks finish
  chunks_downloaded name meta_hash metafile content file f agrees whole =
      let (b, e, count, contents) = assembled file.chunk_count metafile source content whole in
      let (p', run, same) =
        download_loop-assemble sort_search range names answers destination source known serves
          file.chunk_count 0 metafile
          (record {
            files = f;
            chunk_map = file.chunk_map;
            assembly = record {
              chunks_data = zeros (file.chunk_count * file_chunk);
              retrieved = 0;
              size = 0;
            };
          })
          b agrees e (omega arith) in
      let done = finish sort_search range names answers destination name meta_hash file p' in
      let all : (file.chunk_count == p'.assembly.retrieved) ≡ true =
        (nat_eq.beq_iff file.chunk_count p'.assembly.retrieved).1
          (sym (ap (λ a. a.retrieved) same ∙ count)) in
      let saved : done.1 ≡ some content =
        if_true _ _ _ all ∙ ap some (ap (λ a. take a.size a.chunks_data) same ∙ contents) in
      (
        done.0,
        ap (Option.map (finish sort_search range names answers destination name meta_hash file)) run
            ∙ ap (λ o. some (done.0, o)) saved,
      )

  metafile_got :
      (meta_hash metafile : Bytes) (stored : Dict Bytes Bytes)
      → Agrees stored source
      → lookup meta_hash source ≡ some metafile
      → (stored' : Dict Bytes Bytes) × (get_metafile sort_search range names answers destination
            meta_hash stored
          ≡ some (metafile, stored'))
        × Agrees stored' source
  unfolding get_metafile
  metafile_got meta_hash metafile stored agrees has =
      elim (Option-cases (lookup meta_hash stored)) [
        | inr (m, at_hand) ↦ (
          stored,
          rw (get_metafile, at_hand)
              (ap (λ x. some (x, stored)) (agrees meta_hash m metafile at_hand has)),
          agrees,
        )
        | inl new ↦
            let (kept, found) = stored-Agrees meta_hash metafile stored source agrees has new in
            let reply = got answers destination source serves meta_hash metafile stored has in
            (
              (load_or_store meta_hash metafile stored).1,
              rw (get_metafile, new, reply, known, found) refl,
              kept,
            )
      ]

  file_downloaded :
      (name : String) (meta_hash metafile content : Bytes) (stored : Dict Bytes Bytes)
      (f : FileHandler)
      → Keeps range
      → get_metafile sort_search range names answers destination meta_hash f.hash_data_map
        ≡ some (metafile, stored)
      → Agrees stored source
      → lookup (meta_hash, name) f.files_metadata ≡ none
      → assemble (length metafile / 32) metafile source ≡ some (some content)
      → (f' : FileHandler) × (download_file_chunks sort_search range names answers destination name
            meta_hash f
          ≡ some (f', some content))
  unfolding download_file_chunks
  file_downloaded name meta_hash metafile content stored f keeps loaded agrees new whole =
      let count = length metafile / 32 in
      let (chunks, updated, _) =
        update_chunk_map_lem sort_search range keeps metafile stored count 0 [] (omega arith) in
      let file = entry_of sort_search range names answers destination name meta_hash metafile in
      let files = insert (meta_hash, name) file f.files_metadata in
      let file' : FileMetadata = record file { chunk_map = chunks } in
      let (f', run) =
        chunks_downloaded name meta_hash metafile content file'
          (record f {
            hash_data_map = stored;
            files_metadata = insert (meta_hash, name) file' files;
          })
          agrees whole in
      let begins : download_file_chunks sort_search range names answers destination name meta_hash f
          ≡ download_entry sort_search range names answers destination name meta_hash f
              (metafile, stored) (load_or_store (meta_hash, name) file f.files_metadata) =
        rw (download_file_chunks, loaded) refl in
      let entry : load_or_store (meta_hash, name) file f.files_metadata ≡ (file, files, false) =
        ap (λ o. elim o [ none ↦ (file, files, false) | some w ↦ (w, f.files_metadata, true) ])
          new in
      (
        f',
        begins
            ∙ ap
                (download_entry sort_search range names answers destination name meta_hash f
                  (metafile, stored))
                entry
            ∙ rw (download_entry, updated) run,
      )

chunk_count_index :
    (sha256 : Bytes → Bytes) (name : String) (content : Bytes) (g : FileHandler)
    → (index_file sha256 name content g).0.chunk_count ≡ num_file_chunks (length content)
unfolding index_file
chunk_count_index sha256 name content g = refl

-- A peer indexes a file, with 32-byte hashes and no collision among its stored data, the chunks and
-- the metafile, and replies to every request for its data before the timer stops it. Another peer,
-- whose stored data is the same where the two have the same hash, and which has no entry for the
-- file, then downloads the file from it by the metafile hash: it does not panic, and saves
-- the content, whatever peers it also knows, and whatever the order of its ranges.
pub download_file_chunks-index_file :
    (sha256 : Bytes → Bytes) (sort_search : ℕ → (ℕ → Bool) → ℕ) (range : List ℕ → List ℕ)
    (names : List String → List String) (answers : Bytes → String → List Answer)
    (destination name own_name : String) (content : Bytes) (g f : FileHandler)
    → ((x : Bytes) → length (sha256 x) ≡ 32)
    → Apart sha256 g.hash_data_map
        (split (num_file_chunks (length content)) content ++ metafile_of sha256 content ∷ [])
    → Keeps range
    → destination ≢ ""
    → Serves answers destination (index_file sha256 name content g).1.hash_data_map
    → Agrees f.hash_data_map (index_file sha256 name content g).1.hash_data_map
    → lookup ((index_file sha256 name content g).0.metafile_hash, own_name) f.files_metadata ≡ none
    → (f' : FileHandler) × (download_file_chunks sort_search range names answers destination
          own_name
          (index_file sha256 name content g).0.metafile_hash
          f
        ≡ some (f', some content))
unfolding download_file_chunks
download_file_chunks-index_file sha256 sort_search range names answers destination name own_name
      content g f len apart keeps known serves agrees new =
    let source = (index_file sha256 name content g).1.hash_data_map in
    let meta_hash = (index_file sha256 name content g).0.metafile_hash in
    let metafile = metafile_of sha256 content in
    let (has, numbered, whole) = index_file-assemble sha256 name content g len apart in
    let named : (destination == "") ≡ false = ne_false destination "" known in
    let (stored, loaded, kept) =
      metafile_got sort_search range names answers destination source named serves meta_hash
        metafile f.hash_data_map agrees has in
    let n = num_file_chunks (length content) in
    let count : n ≡ length metafile / 32 = omega (arith, length-hashes_of sha256 n content len) in
    file_downloaded sort_search range names answers destination source named serves own_name
      meta_hash metafile content stored f keeps loaded kept new
      (subst (λ c. assemble c metafile source ≡ some (some content))
        (chunk_count_index sha256 name content g ∙ count) whole)
