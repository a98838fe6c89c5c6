-- ===== src/Download.antt =====
-- gossiper/filesharing.go: the download of data from a peer, and of the chunks of a file from the
-- peers that have them. What comes for a request before its timer stops is an argument.
pub mod Gathered
pub mod RoundTrip
use mathlib.Core.Option
use p2p_dapp.Base.{
  ℕ, zero, suc, ◌+◌, ◌*◌, ◌/◌, String, Bool, true, false, not, ◌&&◌, Option, none, some, List, [],
  ◌∷◌, map, if◌then◌else◌, ◌==◌, string_eq, nat_eq, pair_eq, Dict, lookup, insert, length, take,
  int_eq, load_or_store, list_eq,
}
use p2p_dapp.Packet.{Bytes}
use p2p_dapp.Files.{FileMetadata, FileHandler, Assembly, chunk_hash, put_chunk, file_chunk, zeros}
use p2p_dapp.FileSearch.{owners_of, add_owner, insert_to_sort, remove_duplicates, update_chunk_map}

-- What the loop of `downloadDataFromPeer` gets: the data of a reply, or the tick at which the
-- request is sent again. After the last of them the timer stops the download.
pub data Answer : Type 0 where
  reply : Bytes → Answer
  resend : Answer

-- `downloadDataFromPeer`: the data, and whether it was got.
unfoldable pub download_data_from_peer :
    List Answer → Bytes → Dict Bytes Bytes → Dict Bytes Bytes × Bool
download_data_from_peer [] hash stored = (stored, false)
download_data_from_peer (Answer.reply contents ∷ answers) hash stored =
    ((load_or_store hash contents stored).1, true)
download_data_from_peer (Answer.resend ∷ answers) hash stored =
    download_data_from_peer answers hash stored

-- The peers are tried one after the other: the data, and the peer that it is from.
unfoldable pub download_from_peers :
    (Bytes → String → List Answer)
    → List String
    → Bytes
    → Dict Bytes Bytes
    → Dict Bytes Bytes × Option String
unfolding download_data_from_peer
download_from_peers answers [] hash stored = (stored, none)
download_from_peers answers (peer ∷ peers) hash stored =
    let (after, got) = download_data_from_peer (answers hash peer) hash stored in
    let rest = download_from_peers answers peers hash after in
    if got then (after, some peer) else rest

-- What the loop over the chunks keeps: the handler, the chunk map and the buffer.
pub record Gathering : Type 0 where
  pub files : FileHandler
  pub chunk_map : List ℕ
  pub assembly : Assembly

module _ (sort_search : ℕ → (ℕ → Bool) → ℕ) (range : List ℕ → List ℕ)
    (names : List String → List String) (answers : Bytes → String → List Answer)
    (destination : String) where
  -- The peers that may have a chunk, the destination first.
  unfoldable pub peers_with_chunk : Bytes → FileHandler → List String
  peers_with_chunk hash f =
      if destination == ""
      then owners_of hash f.chunk_owners
      else destination ∷ owners_of hash f.chunk_owners

  -- A chunk that was got from a peer: the owners, if it is the destination, and the chunk map.
  unfoldable pub note_chunk : ℕ → Bytes → String → Dict Bytes Bytes → Gathering → Gathering
  unfolding insert_to_sort remove_duplicates add_owner
  note_chunk i hash peer stored p = record p {
    files = record (p.files) {
      hash_data_map = stored;
      chunk_owners =
          if peer == destination
          then add_owner names hash peer p.files.chunk_owners
          else p.files.chunk_owners;
    };
    chunk_map = remove_duplicates range (insert_to_sort sort_search range p.chunk_map (i + 1));
  }

  -- The outcome of the peers: the chunk is loaded, if one of them had it.
  unfoldable pub downloaded :
      ℕ → Bytes → Gathering → Dict Bytes Bytes × Option String → Gathering × Option Bytes
  unfolding note_chunk
  downloaded i hash p (stored, none) = (p, none)
  downloaded i hash p (stored, some peer) = (note_chunk i hash peer stored p, lookup hash stored)

  -- The chunk with a hash, if it is there or can be downloaded.
  unfoldable pub fetch_chunk : ℕ → Bytes → Gathering → Gathering × Option Bytes
  unfolding download_from_peers peers_with_chunk downloaded
  fetch_chunk i hash p = elim (lookup hash p.files.hash_data_map) [
    | some chunk ↦ (p, some chunk)
    | none ↦
        downloaded i hash p
          (download_from_peers answers (peers_with_chunk hash p.files) hash p.files.hash_data_map)
  ]

  -- The loop over the chunks, from round i, with the rounds left.
  unfoldable pub download_loop : ℕ → ℕ → Bytes → Gathering → Option Gathering
  unfolding fetch_chunk put_chunk
  download_loop zero i metafile p = some p
  download_loop (suc n) i metafile p = elim (chunk_hash metafile i) [
    | none ↦ none
    | some hash ↦
        let (p', chunk) = fetch_chunk i hash p in
        elim (put_chunk i chunk p.assembly) [
          | none ↦ none
          | some a ↦ download_loop n (i + 1) metafile (record p' { assembly = a })
        ]
  ]

  -- The metafile at hand or from the destination, with the data.
  unfoldable pub get_metafile : Bytes → Dict Bytes Bytes → Option (Bytes × Dict Bytes Bytes)
  unfolding download_data_from_peer
  get_metafile meta_hash stored = elim (lookup meta_hash stored) [
    | some metafile ↦ some (metafile, stored)
    | none ↦
        let (after, got) =
          download_data_from_peer (answers meta_hash destination) meta_hash stored in
        if not (destination == "") && got
        then Option.map (λ metafile. (metafile, after)) (lookup meta_hash after)
        else none
  ]

  -- The end of `downloadFileChunks`: the handler, and the file that is saved, if all chunks are there.
  unfoldable pub finish : String → Bytes → FileMetadata → Gathering → FileHandler × Option Bytes
  finish name meta_hash file p =
      let all = file.chunk_count == p.assembly.retrieved in
      let file' : FileMetadata = record file {
        chunk_map = p.chunk_map;
        size = if all then p.assembly.size else file.size;
      } in
      (
        record (p.files) { files_metadata = insert (meta_hash, name) file' p.files.files_metadata },
        if all then some (take p.assembly.size p.assembly.chunks_data) else none,
      )

  -- The chunks of a file, of which the entry is at hand.
  unfoldable pub download_chunks :
      String → Bytes → Bytes → FileMetadata → FileHandler → Option (FileHandler × Option Bytes)
  unfolding download_loop finish
  download_chunks name meta_hash metafile file f =
      let buffer = zeros (file.chunk_count * file_chunk) in
      Option.map (finish name meta_hash file) (
        download_loop file.chunk_count 0 metafile (record {
          files = f;
          chunk_map = file.chunk_map;
          assembly = record { chunks_data = buffer; retrieved = 0; size = 0 };
        }))

  -- The download with the metafile, the data, and the entry of the file with all entries: the chunk
  -- map is brought up to date, and a file that has a size is there already.
  unfoldable pub download_entry :
      String
      → Bytes
      → FileHandler
      → Bytes × Dict Bytes Bytes
      → FileMetadata × Dict (Bytes × String) FileMetadata × Bool
      → Option (FileHandler × Option Bytes)
  unfolding download_chunks update_chunk_map
  download_entry name meta_hash f (metafile, stored) (file, files, loaded) =
      elim (update_chunk_map sort_search range file.chunk_count 0 metafile stored file.chunk_map) [
        | none ↦ none
        | some chunks ↦
            let file' : FileMetadata = record file { chunk_map = chunks } in
            let f' : FileHandler = record f {
              hash_data_map = stored;
              files_metadata = insert (meta_hash, name) file' files;
            } in
            let rest = download_chunks name meta_hash metafile file' f' in
            if file.size == 0 then rest else some (f', none)
      ]

  -- The entry of a file that has none.
  abbrev pub entry_of : String → Bytes → Bytes → FileMetadata
  entry_of name meta_hash metafile = record {
    file_name = name;
    metafile_hash = meta_hash;
    chunk_count = length metafile / 32;
    chunk_map = [];
    size = 0;
  }

  -- `downloadFileChunks`: the handler, and the file that is saved, if one is. `none` is a slice out
  -- of range, a panic.
  unfoldable pub download_file_chunks :
      String → Bytes → FileHandler → Option (FileHandler × Option Bytes)
  unfolding get_metafile download_entry
  download_file_chunks name meta_hash f = elim (get_metafile meta_hash f.hash_data_map) [
    | none ↦ some (f, none)
    | some r ↦
        download_entry name meta_hash f r
          (load_or_store (meta_hash, name) (entry_of name meta_hash r.0) f.files_metadata)
  ]
