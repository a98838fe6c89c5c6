-- ===== src/Files/RoundTrip.antt =====
-- Assembling the chunks of a file gives the file back.
use mathlib.Core.List.{append_assoc, append-nil}
use p2p_dapp.Base.{
  ℕ, zero, suc, ◌+◌, ◌-◌, ◌*◌, ◌≤◌, ◌<◌, ◌≡◌, refl, sym, ap, ◌∙◌, true, some, List, [], ◌∷◌, ◌++◌,
  arith, leb, ◌==◌, string_eq, nat_eq, pair_eq, Dict, lookup, length, take, drop, length-append,
  take-append-drop, length-take, length-drop, All, int_eq, le→leb, list_eq, take-append_self,
  drop-append_self, drop-drop,
}
use p2p_dapp.Packet.{Bytes}
use p2p_dapp.Files.{
  file_chunk, num_file_chunks, zeros, chunk_hash, copy_at, Assembly, put_chunk, assemble_loop,
  assemble,
}
use p2p_dapp.Files.Chunks.{split, Fits, hashes_of, Fits-num, length-zeros, drop-zeros}

-- A chunk is written behind what is there, over the zeros.
copy_at-end :
    (done chunk : Bytes) (z : ℕ)
    → length chunk ≤ z
    → copy_at (length done) chunk (done ++ zeros z)
      ≡ some ((done ++ chunk) ++ zeros (z - length chunk))
unfolding copy_at
copy_at-end done chunk z le =
    let fits : leb (length done + length chunk) (length (done ++ zeros z)) ≡ true =
      le→leb _ _ (omega (arith, length-append done (zeros z), length-zeros z)) in
    rw (
      fits,
      take-append_self done (zeros z),
      ← drop-drop (length done) (length chunk) (done ++ zeros z),
      drop-append_self done (zeros z),
      drop-zeros (length chunk) z,
    )

-- The i-th hash of the metafile, where the hashes from there on are known.
chunk_hash-next :
    (metafile : Bytes) (i : ℕ) (hash later : Bytes)
    → length hash ≡ 32
    → drop (i * 32) metafile ≡ hash ++ later
    → (chunk_hash metafile i ≡ some hash) × (drop ((i + 1) * 32) metafile ≡ later)
unfolding chunk_hash
chunk_hash-next metafile i hash later len e =
    let whole : (i + 1) * 32 ≤ length metafile =
      omega (arith, ap length e, length-drop (i * 32) metafile, length-append hash later, len) in
    let next : (i + 1) * 32 ≡ i * 32 + 32 = omega arith in
    (
      rw (le→leb _ _ whole, e)
          (ap some (ap (λ k. take k (hash ++ later)) (sym len) ∙ take-append_self hash later)),
      rw (next, ← drop-drop (i * 32) 32 metafile, e)
          (ap (λ k. drop k (hash ++ later)) (sym len) ∙ drop-append_self hash later),
    )

-- Every chunk is stored under its hash.
abbrev pub Stores : (Bytes → Bytes) → Dict Bytes Bytes → List Bytes → Type 0
Stores sha256 stored cs = All (λ c. lookup (sha256 c) stored ≡ some c) cs

Fits-pos : (n : ℕ) (r : Bytes) → 0 < n → Fits n r → 0 < length r
Fits-pos zero r more fits = absurd (omega arith)
Fits-pos (suc n) r more fits = fits.0

Fits-le : (n : ℕ) (r : Bytes) → Fits n r → length r ≤ n * file_chunk
Fits-le zero r fits = omega arith
Fits-le (suc n) r fits =
    omega (arith, Fits-le n (drop file_chunk r) fits.1, length-drop file_chunk r)

-- The state of the loop with this content written and counted, before z zeros.
abbrev written : Bytes → ℕ → ℕ → Assembly
written done z k = record { chunks_data = done ++ zeros z; retrieved = k; size = length done }

written_cong :
    {d d' : Bytes} {z z' k k' : ℕ}
    → d ≡ d'
    → z ≡ z'
    → k ≡ k'
    → some (written d z k) ≡ some (written d' z' k')
written_cong e f g = cc

module _ (sha256 : Bytes → Bytes) (len : (x : Bytes) → length (sha256 x) ≡ 32) (metafile : Bytes)
    (stored : Dict Bytes Bytes) where
  abbrev HasChunks : List Bytes → Type 0
  HasChunks = Stores sha256 stored

  put_chunk-written :
      (i k : ℕ) (done chunk : Bytes) (z : ℕ)
      → i * file_chunk ≡ length done
      → length chunk ≤ z
      → put_chunk i (some chunk) (written done z k)
        ≡ some (written (done ++ chunk) (z - length chunk) (k + 1))
  unfolding put_chunk
  put_chunk-written i k done chunk z at_end room =
      rw (at_end, put_chunk, copy_at-end done chunk z room, length-append done chunk)

  assemble_step :
      (n i k : ℕ) (done r : Bytes) (z : ℕ)
      → drop (i * 32) metafile ≡ hashes_of sha256 (split (suc n) r)
      → HasChunks (split (suc n) r)
      → i * file_chunk ≡ length done
      → length r ≤ z
      → assemble_loop (suc n) i metafile stored (written done z k)
        ≡ assemble_loop n
            (i + 1)
            metafile
            stored
            (written (done ++ take file_chunk r) (z - length (take file_chunk r)) (k + 1))
  unfolding assemble_loop hashes_of split
  assemble_step n i k done r z at_hash has at_end room =
      let c = take file_chunk r in
      let found = (chunk_hash-next metafile i (sha256 c) _ (len c) at_hash).0 in
      rw (found, assemble_loop, has.0)
        (rw (
          put_chunk-written i k done c z at_end (omega (arith, length-take file_chunk r)),
          assemble_loop,
        ))

  -- The loop ends with the content written and counted.
  assemble_loop-all :
      (n i k : ℕ) (done r : Bytes) (z : ℕ)
      → drop (i * 32) metafile ≡ hashes_of sha256 (split n r)
      → HasChunks (split n r)
      → Fits n r
      → (0 < n → i * file_chunk ≡ length done)
      → length r ≤ z
      → assemble_loop n i metafile stored (written done z k)
        ≡ some (written (done ++ r) (z - length r) (k + n))
  assemble_loop-all zero i k done [] z at_hash has fits at_end room =
      unfold assemble_loop in written_cong (sym (append-nil done)) (omega arith) (omega arith)
  assemble_loop-all zero i k done (x ∷ r) z at_hash has fits at_end room = absurd (omega arith)
  assemble_loop-all (suc n) i k done r z at_hash has fits at_end room =
      let c = take file_chunk r in
      let next =
        (chunk_hash-next metafile i (sha256 c) (hashes_of sha256 (split n (drop file_chunk r)))
          (len c) (unfold split hashes_of in at_hash)).1 in
      assemble_step n i k done r z at_hash has (at_end (omega arith)) room
      ∙ assemble_loop-all n (i + 1) (k + 1) (done ++ c) (drop file_chunk r) (z - length c) next
          (unfold split in has.1) fits.1
          (λ more. omega (
            arith,
            at_end (omega arith),
            Fits-pos n (drop file_chunk r) more fits.1,
            length-append done c,
            length-take file_chunk r,
            length-drop file_chunk r,
          ))
          (omega (arith, length-take file_chunk r, length-drop file_chunk r))
      ∙ written_cong
          (append_assoc done c (drop file_chunk r) ∙ ap (◌++◌ done) (take-append-drop file_chunk r))
          (omega (arith, length-take file_chunk r, length-drop file_chunk r)) (omega arith)

-- The metafile of a content, all of whose chunks are stored under their hashes, is assembled to the
-- content, whatever else is stored.
pub assemble-split :
    (sha256 : Bytes → Bytes) (content : Bytes) (stored : Dict Bytes Bytes)
    → ((x : Bytes) → length (sha256 x) ≡ 32)
    → Stores sha256 stored (split (num_file_chunks (length content)) content)
    → assemble
        (num_file_chunks (length content))
        (hashes_of sha256 (split (num_file_chunks (length content)) content))
        stored
      ≡ some (some content)
unfolding assemble
assemble-split sha256 content stored len has =
    let n = num_file_chunks (length content) in
    let fits = Fits-num n content refl in
    let looped =
      assemble_loop-all sha256 len (hashes_of sha256 (split n content)) stored n 0 0 [] content
        (n * file_chunk) refl has fits (λ _. omega arith) (Fits-le n content fits) in
    let all : (n == (0 + n)) ≡ true = (nat_eq.beq_iff n (0 + n)).1 (omega arith) in
    rw (looped, assemble, all)
      (ap (λ r. some (some r)) (take-append_self content (zeros (n * file_chunk - length content))))
