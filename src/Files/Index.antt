-- ===== src/Files/Index.antt =====
-- Indexing a file stores all its chunks, and the metafile has their hashes.
use mathlib.Core.List.{append_assoc, append-nil}
use p2p_dapp.Base.{
  lookup-load_or_store_kept, ℕ, zero, suc, ◌+◌, ◌-◌, ◌*◌, min, String, ◌≡◌, refl, sym, ap, ◌∙◌, inl,
  inr, some, List, [], ◌∷◌, ◌++◌, arith, string_eq, nat_eq, pair_eq, ne_false, Option-cases, Dict,
  lookup, lookup-insert_self, length, take, drop, length-drop, int_eq, load_or_store,
  lookup-load_or_store, by_key, list_eq, In, here, there,
}
use p2p_dapp.Packet.{Bytes}
use p2p_dapp.Files.{
  file_chunk, num_file_chunks, FileHandler, Indexed, index_loop, index_file, assemble,
}
use p2p_dapp.Files.Chunks.{split, hashes_of}
use p2p_dapp.Files.RoundTrip.{Stores, assemble-split}

-- The numbers i + 1, ..., i + n.
pub count_from : ℕ → ℕ → List ℕ
count_from i zero = []
count_from i (suc n) = (i + 1) ∷ count_from (i + 1) n

-- What is stored under the hash of a value is that value, and no two values of the list have one
-- hash: no collision among the data in hand.
pub record Apart (sha256 : Bytes → Bytes) (stored : Dict Bytes Bytes) (values : List Bytes)
    : Type 0 where
  pub kept : (v w : Bytes) → In v values → lookup (sha256 v) stored ≡ some w → w ≡ v
  pub distinct : (v w : Bytes) → In v values → In w values → sha256 v ≡ sha256 w → v ≡ w

take-nil : (n : ℕ) → take {A = ℕ} n [] ≡ []
take-nil zero = refl
take-nil (suc n) = refl

drop-nil : (n : ℕ) → drop {A = ℕ} n [] ≡ []
drop-nil zero = refl
drop-nil (suc n) = refl

min_zero : (n : ℕ) → min 0 n ≡ 0
min_zero n = omega arith

min-suc : (n m : ℕ) → min (suc n) (suc m) ≡ suc (min n m)
min-suc n m = omega arith

take-min : (n : ℕ) (xs : Bytes) → take (min n (length xs)) xs ≡ take n xs
take-min n [] = take-nil (min n 0) ∙ sym (take-nil n)
take-min zero (x ∷ xs) = ap (λ k. take k (x ∷ xs)) (min_zero (suc (length xs)))
take-min (suc n) (x ∷ xs) =
    ap (λ k. take k (x ∷ xs)) (min-suc n (length xs)) ∙ ap (◌∷◌ x) (take-min n xs)

drop-min : (n : ℕ) (xs : Bytes) → drop (min n (length xs)) xs ≡ drop n xs
drop-min n [] = drop-nil (min n 0) ∙ sym (drop-nil n)
drop-min zero (x ∷ xs) = ap (λ k. drop k (x ∷ xs)) (min_zero (suc (length xs)))
drop-min (suc n) (x ∷ xs) = ap (λ k. drop k (x ∷ xs)) (min-suc n (length xs)) ∙ drop-min n xs

module _ (sha256 : Bytes → Bytes) where
  abbrev step : Bytes → ℕ → Indexed → Indexed
  step part i acc = record {
    hashes = acc.hashes ++ sha256 part;
    chunk_map = acc.chunk_map ++ (i + 1) ∷ [];
    stored = (load_or_store (sha256 part) part acc.stored).1;
  }

  -- The loop reads the chunks of the description, one after the other.
  store_all : List Bytes → Dict Bytes Bytes → Dict Bytes Bytes
  store_all [] stored = stored
  store_all (c ∷ cs) stored = store_all cs (load_or_store (sha256 c) c stored).1

  index_loop-suc :
      (n i size : ℕ) (rest : Bytes) (acc : Indexed)
      → size - i * file_chunk ≡ length rest
      → index_loop sha256 (suc n) i size rest acc
        ≡ index_loop sha256 n
            (i + 1)
            size
            (drop file_chunk rest)
            (step (take file_chunk rest) i acc)
  unfolding index_loop
  index_loop-suc n i size rest acc e =
      rw (e, index_loop, take-min file_chunk rest, drop-min file_chunk rest)

  index_loop-split :
      (n i size : ℕ) (rest : Bytes) (acc : Indexed)
      → size - i * file_chunk ≡ length rest
      → let r = index_loop sha256 n i size rest acc in
        (r.hashes ≡ acc.hashes ++ hashes_of sha256 (split n rest))
        × (r.chunk_map ≡ acc.chunk_map ++ count_from i n)
        × (r.stored ≡ store_all (split n rest) acc.stored)
  unfolding split hashes_of count_from store_all
  index_loop-split zero i size rest acc e =
      unfold index_loop in (sym (append-nil acc.hashes), sym (append-nil acc.chunk_map), refl)
  index_loop-split (suc n) i size rest acc e =
      let c = take file_chunk rest in
      let (h, m, st) =
        index_loop-split n (i + 1) size (drop file_chunk rest) (step c i acc)
          (omega (arith, length-drop file_chunk rest)) in
      rw (index_loop-suc n i size rest acc e) (
        h ∙ append_assoc acc.hashes (sha256 c) _,
        m ∙ append_assoc acc.chunk_map ((i + 1) ∷ []) (count_from (i + 1) n),
        st,
      )

  -- A value that has its place keeps it, whatever else is stored.
  store_all-keeps :
      (cs : List Bytes) (stored : Dict Bytes Bytes) (h v : Bytes)
      → lookup h stored ≡ some v
      → lookup h (store_all cs stored) ≡ some v
  unfolding store_all
  store_all-keeps [] stored h v e = e
  store_all-keeps (c ∷ cs) stored h v e =
      store_all-keeps cs (load_or_store (sha256 c) c stored).1 h v
        (lookup-load_or_store_kept (sha256 c) h c v stored e)

  stores_first :
      (c : Bytes) (cs : List Bytes) (stored : Dict Bytes Bytes)
      → Apart sha256 stored (c ∷ cs)
      → lookup (sha256 c) (load_or_store (sha256 c) c stored).1 ≡ some c
  stores_first c cs stored a = elim (Option-cases (lookup (sha256 c) stored)) [
    | inl e ↦ ground (arith, e, lookup-insert_self (sha256 c) c stored)
    | inr (w, e) ↦ ground (arith, e, a.kept c w (here refl) e)
  ]

  Apart-later :
      (c : Bytes) (cs : List Bytes) (stored : Dict Bytes Bytes)
      → Apart sha256 stored (c ∷ cs)
      → Apart sha256 (load_or_store (sha256 c) c stored).1 cs
  Apart-later c cs stored a = record {
    kept = λ v w i.
        by_key (λ h. sha256 v ≡ h → lookup h (load_or_store (sha256 c) c stored).1 ≡ some w → w ≡ v)
          (sha256 c) (sha256 v)
          (λ same e.
            let found : some c ≡ some w = sym (stores_first c cs stored a) ∙ e in
            let eq : w ≡ c = ground arith in eq ∙ sym (a.distinct v c (there i) (here refl) same))
          (λ ne same e. a.kept v w (there i) (
            sym (
              lookup-load_or_store (sha256 c) (sha256 v) c stored
              ∙ rw (ne_false (sha256 c) (sha256 v) (λ q. ne (sym q))) refl)
            ∙ e))
          refl;
    distinct = λ v w i j. a.distinct v w (there i) (there j);
  }

  store_all-Stores :
      (cs : List Bytes) (stored : Dict Bytes Bytes)
      → Apart sha256 stored cs
      → Stores sha256 (store_all cs stored) cs
  unfolding store_all
  store_all-Stores [] stored a = tt
  store_all-Stores (c ∷ cs) stored a = (
    store_all-keeps cs (load_or_store (sha256 c) c stored).1 (sha256 c) c
        (stores_first c cs stored a),
    store_all-Stores cs (load_or_store (sha256 c) c stored).1 (Apart-later c cs stored a),
  )

  store_all-append :
      (cs : List Bytes) (c : Bytes) (stored : Dict Bytes Bytes)
      → store_all (cs ++ c ∷ []) stored ≡ (load_or_store (sha256 c) c (store_all cs stored)).1
  unfolding store_all
  store_all-append [] c stored = refl
  store_all-append (d ∷ cs) c stored = store_all-append cs c (load_or_store (sha256 d) d stored).1

  Stores-append :
      (cs : List Bytes) (c : Bytes) (stored : Dict Bytes Bytes)
      → Stores sha256 stored (cs ++ c ∷ [])
      → Stores sha256 stored cs × (lookup (sha256 c) stored ≡ some c)
  Stores-append [] c stored h = (tt, h.0)
  Stores-append (d ∷ cs) c stored h =
      let (all, last) = Stores-append cs c stored h.1 in ((h.0, all), last)

-- The metafile of a content: the hashes of its chunks.
abbrev pub metafile_of : (Bytes → Bytes) → Bytes → Bytes
metafile_of sha256 content = hashes_of sha256 (split (num_file_chunks (length content)) content)

-- A file that is indexed can be put together again. With 32-byte hashes and no collision among the
-- stored data, the chunks and the metafile: the data under the metafile hash is the list of the
-- hashes of the chunks, the chunk map has the numbers from 1 to the chunk count, and assembling
-- from the stored data gives the content.
pub index_file-assemble :
    (sha256 : Bytes → Bytes) (name : String) (content : Bytes) (f : FileHandler)
    → ((x : Bytes) → length (sha256 x) ≡ 32)
    → Apart sha256 f.hash_data_map
        (split (num_file_chunks (length content)) content ++ metafile_of sha256 content ∷ [])
    → let (meta, g) = index_file sha256 name content f in
      (lookup meta.metafile_hash g.hash_data_map ≡ some (metafile_of sha256 content))
      × (meta.chunk_map ≡ count_from 0 meta.chunk_count)
      × (assemble meta.chunk_count (metafile_of sha256 content) g.hash_data_map
          ≡ some (some content))
unfolding index_file lookup hashes_of count_from assemble
index_file-assemble sha256 name content f len apart =
    let n = num_file_chunks (length content) in
    let cs = split n content in
    let m = metafile_of sha256 content in
    let (h, map_eq, st) =
      index_loop-split sha256 n 0 (length content) content
        (record { hashes = []; chunk_map = []; stored = f.hash_data_map }) (omega arith) in
    let (all, last) =
      Stores-append sha256 cs m (store_all sha256 (cs ++ m ∷ []) f.hash_data_map)
        (store_all-Stores sha256 (cs ++ m ∷ []) f.hash_data_map apart) in
    rw (index_file, h, map_eq, st, sym (store_all-append sha256 cs m f.hash_data_map))
      (
        last,
        refl,
        assemble-split sha256 content (store_all sha256 (cs ++ m ∷ []) f.hash_data_map) len all,
      )
