-- ===== src/Files.antt =====
-- gossiper/filehandler.go and gossiper/filesharing.go: files cut into chunks, stored by their
-- hashes, and put together again. SHA-256 is an argument. A map by the hexadecimal form of a hash
-- is a map by the hash.
pub mod Chunks
pub mod Index
pub mod RoundTrip
use p2p_dapp.Base.{
  ℕ, zero, suc, ◌+◌, ◌-◌, ◌*◌, ◌/◌, min, String, Bool, Option, none, some, List, [], ◌∷◌, ◌++◌, leb,
  if◌then◌else◌, ◌==◌, string_eq, nat_eq, pair_eq, Dict, lookup, length, take, drop, int_eq,
  load_or_store, list_eq,
}
use p2p_dapp.Packet.{Bytes, Address}

unfoldable pub file_chunk : ℕ
file_chunk = 8192

-- `FileMetadata`
pub record FileMetadata : Type 0 where
  pub file_name : String
  pub metafile_hash : Bytes
  pub chunk_count : ℕ
  pub chunk_map : List ℕ
  pub size : ℕ

-- The data by hash and the peers that have a chunk. The map `filesMetadata` is two maps by the hash
-- of the metafile and the name: one for the keys that are hashed (`getKeyFromString`), and one for
-- those that `handleSearchResult` takes as they are. `last_search_requests` has the time of the last
-- request that was taken.
pub record FileHandler : Type 0 where
  pub hash_data_map : Dict Bytes Bytes
  pub chunk_owners : Dict Bytes (List String)
  pub files_metadata : Dict (Bytes × String) FileMetadata
  pub found_metadata : Dict (Bytes × String) FileMetadata
  pub last_search_requests : Dict String ℕ

abbrev pub new_file_handler : FileHandler
new_file_handler = record {
  hash_data_map = [];
  chunk_owners = [];
  files_metadata = [];
  found_metadata = [];
  last_search_requests = [];
}

-- `ceil(fileSize / fileChunk)`, exact for the sizes that a float64 holds exactly.
unfoldable pub num_file_chunks : ℕ → ℕ
unfolding file_chunk
num_file_chunks size = (size + (file_chunk - 1)) / file_chunk

-- What the loop of indexFile writes: the hashes one after the other, the chunk map and the data.
pub record Indexed : Type 0 where
  pub hashes : Bytes
  pub chunk_map : List ℕ
  pub stored : Dict Bytes Bytes

module _ (sha256 : Bytes → Bytes) where
  -- The loop of indexFile from round i, with the rounds left and what is left to read. A read of a
  -- regular file gives the bytes that are asked for.
  unfoldable pub index_loop : ℕ → ℕ → ℕ → Bytes → Indexed → Indexed
  index_loop zero i size rest acc = acc
  index_loop (suc n) i size rest acc =
      let part_size = min file_chunk (size - i * file_chunk) in
      let part = take part_size rest in
      index_loop n (i + 1) size (drop part_size rest) (record {
        hashes = acc.hashes ++ sha256 part;
        chunk_map = acc.chunk_map ++ (i + 1) ∷ [];
        stored = (load_or_store (sha256 part) part acc.stored).1;
      })

  -- `indexFile` on a file that can be read: the metadata, which is stored if the file has
  -- none, and the data with all chunks and the metafile.
  unfoldable pub index_file : String → Bytes → FileHandler → FileMetadata × FileHandler
  unfolding index_loop num_file_chunks
  index_file name content f =
      let size = length content in
      let n = num_file_chunks size in
      let r =
        index_loop n 0 size content
          (record { hashes = []; chunk_map = []; stored = f.hash_data_map }) in
      let metahash = sha256 r.hashes in
      let metadata : FileMetadata = record {
        file_name = name;
        metafile_hash = metahash;
        chunk_count = n;
        chunk_map = r.chunk_map;
        size = size;
      } in
      (
        metadata,
        record f {
          hash_data_map = (load_or_store metahash r.hashes r.stored).1;
          files_metadata = (load_or_store (metahash, name) metadata f.files_metadata).1;
        },
      )

  -- `hash32` of checkHash: the first 32 bytes, padded with zeros.
  unfoldable pub to_hash32 : Bytes → ℕ → Bytes
  to_hash32 hash zero = []
  to_hash32 [] (suc n) = 0 ∷ to_hash32 [] n
  to_hash32 (x ∷ hash) (suc n) = x ∷ to_hash32 hash n

  unfoldable pub check_hash : Bytes → Bytes → Bool
  unfolding to_hash32
  check_hash hash content = to_hash32 hash 32 == sha256 content

-- `metafile[i*32 : (i+1)*32]`, `none` where the slice is out of range, a panic.
unfoldable pub chunk_hash : Bytes → ℕ → Option Bytes
chunk_hash metafile i =
    if leb ((i + 1) * 32) (length metafile) then some (take 32 (drop (i * 32) metafile)) else none

-- `copy(buffer[from : from+len(chunk)], chunk)`, `none` where that is out of range, a panic.
unfoldable pub copy_at : ℕ → Bytes → Bytes → Option Bytes
copy_at from chunk buffer =
    if leb (from + length chunk) (length buffer)
    then some (take from buffer ++ chunk ++ drop (from + length chunk) buffer)
    else none

abbrev pub zeros : ℕ → Bytes
zeros zero = []
zeros (suc n) = 0 ∷ zeros n

-- What the loop of downloadFileChunks keeps.
pub record Assembly : Type 0 where
  pub chunks_data : Bytes
  pub retrieved : ℕ
  pub size : ℕ

-- A chunk that is there is copied to its place; one that is missing is left out.
unfoldable pub put_chunk : ℕ → Option Bytes → Assembly → Option Assembly
unfolding copy_at
put_chunk i none a = some a
put_chunk i (some chunk) a = elim (copy_at (i * file_chunk) chunk a.chunks_data) [
  | none ↦ none
  | some buffer ↦
      some
        (record { chunks_data = buffer; retrieved = a.retrieved + 1; size = a.size + length chunk })
]

-- The loop of downloadFileChunks over the data at hand, from round i, with the rounds left.
unfoldable pub assemble_loop : ℕ → ℕ → Bytes → Dict Bytes Bytes → Assembly → Option Assembly
unfolding chunk_hash put_chunk
assemble_loop zero i metafile stored a = some a
assemble_loop (suc n) i metafile stored a = elim (chunk_hash metafile i) [
  | none ↦ none
  | some hash ↦ elim (put_chunk i (lookup hash stored) a) [
    | none ↦ none
    | some a' ↦ assemble_loop n (i + 1) metafile stored a'
  ]
]

-- The file that downloadFileChunks saves: `none` is a panic, `some none` a file of which chunks
-- are missing.
unfoldable pub assemble : ℕ → Bytes → Dict Bytes Bytes → Option (Option Bytes)
unfolding assemble_loop
assemble count metafile stored =
    elim (assemble_loop count 0 metafile stored
      (record { chunks_data = zeros (count * file_chunk); retrieved = 0; size = 0 })) [
        | none ↦ none
        | some a ↦
            if count == a.retrieved then some (some (take a.size a.chunks_data)) else some none
      ]
