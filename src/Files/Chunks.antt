-- ===== src/Files/Chunks.antt =====
-- The chunks of a file, as lists: the description that indexing and assembling are held against.
use p2p_dapp.Base.{
  ℕ, zero, suc, ◌-◌, ◌*◌, ◌<◌, ◌≡◌, refl, sym, ap, ◌∙◌, List, [], ◌∷◌, ◌++◌, arith, length, take,
  drop, length-append, take-append-drop, length-drop,
}
use p2p_dapp.Packet.{Bytes}
use p2p_dapp.Files.{file_chunk, num_file_chunks, zeros}

-- The first n chunks of the content.
unfoldable pub split : ℕ → Bytes → List Bytes
split zero r = []
split (suc n) r = take file_chunk r ∷ split n (drop file_chunk r)

pub join : List Bytes → Bytes
join [] = []
join (c ∷ cs) = c ++ join cs

-- The content has exactly n chunks, and none of them is empty.
abbrev pub Fits : ℕ → Bytes → Type 0
Fits zero r = length r ≡ 0
Fits (suc n) r = (0 < length r) × Fits n (drop file_chunk r)

-- The hashes of the chunks, one after the other.
unfoldable pub hashes_of : (Bytes → Bytes) → List Bytes → Bytes
hashes_of sha256 [] = []
hashes_of sha256 (c ∷ cs) = sha256 c ++ hashes_of sha256 cs

pub length-hashes_of :
    (sha256 : Bytes → Bytes) (n : ℕ) (r : Bytes)
    → ((x : Bytes) → length (sha256 x) ≡ 32)
    → length (hashes_of sha256 (split n r)) ≡ n * 32
unfolding hashes_of split
length-hashes_of sha256 zero r h = omega arith
length-hashes_of sha256 (suc n) r h = omega (
  arith,
  length-append (sha256 (take file_chunk r)) (hashes_of sha256 (split n (drop file_chunk r))),
  h (take file_chunk r),
  length-hashes_of sha256 n (drop file_chunk r) h,
)

pub join-split : (n : ℕ) (r : Bytes) → Fits n r → join (split n r) ≡ r
unfolding join split
join-split zero [] h = refl
join-split zero (x ∷ r) h = absurd (omega arith)
join-split (suc n) r h = rw (join-split n (drop file_chunk r) h.1) (take-append-drop file_chunk r)

num-zero : (size : ℕ) → zero ≡ num_file_chunks size → size ≡ 0
unfolding num_file_chunks file_chunk
num-zero size e = omega arith

num-suc :
    (n size : ℕ)
    → suc n ≡ num_file_chunks size
    → (0 < size) × (n ≡ num_file_chunks (size - file_chunk))
unfolding num_file_chunks file_chunk
num-suc n size e = omega arith

-- The number of chunks that the code computes fits the content.
pub Fits-num : (n : ℕ) (r : Bytes) → n ≡ num_file_chunks (length r) → Fits n r
Fits-num zero r e = num-zero (length r) e
Fits-num (suc n) r e =
    let (more, next) = num-suc n (length r) e in
    (
      more,
      Fits-num n (drop file_chunk r) (next ∙ ap num_file_chunks (sym (length-drop file_chunk r))),
    )

pub length-zeros : (n : ℕ) → length (zeros n) ≡ n
length-zeros zero = refl
length-zeros (suc n) = ap suc (length-zeros n)

pub drop-zeros : (n m : ℕ) → drop n (zeros m) ≡ zeros (m - n)
drop-zeros zero m = let e : m ≡ m - 0 = omega arith in ap zeros e
drop-zeros (suc n) zero = let e : 0 ≡ 0 - suc n = omega arith in ap zeros e
drop-zeros (suc n) (suc m) =
    let e : m - n ≡ suc m - suc n = omega arith in drop-zeros n m ∙ ap zeros e
