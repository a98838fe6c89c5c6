-- ===== src/Tests/Shares.antt =====
-- Files at concrete inputs. The hash of the tests has 32 bytes: the length of its input and the
-- start of it.
use p2p_dapp.Base.{
  ℕ, zero, suc, String, ◌≡◌, refl, sym, ap, ◌∙◌, ◌⊎◌, inl, inr, Bool, none, some, List, [], ◌∷◌,
  arith, string_eq, nat_eq, pair_eq, Dict, lookup, length, int_eq, list_eq, In, here, there,
}
use p2p_dapp.FileSearch.KeySets.{Keeps}
use p2p_dapp.Download.{Answer, download_file_chunks}
use p2p_dapp.Download.Gathered.{Serves, Agrees}
use p2p_dapp.Download.RoundTrip.{download_file_chunks-index_file}
use p2p_dapp.Packet.{Bytes}
use p2p_dapp.Files.{
  FileMetadata, FileHandler, new_file_handler, num_file_chunks, file_chunk, index_file, assemble,
}
use p2p_dapp.Files.Chunks.{split, hashes_of}
use p2p_dapp.Files.Index.{Apart, count_from, metafile_of, index_file-assemble}

abbrev pub pad : ℕ → Bytes → Bytes
pad zero x = []
pad (suc n) [] = 0 ∷ pad n []
pad (suc n) (b ∷ x) = b ∷ pad n x

abbrev pub mark : Bytes → Bytes
mark x = length x ∷ pad 31 x

length-pad : (n : ℕ) (x : Bytes) → length (pad n x) ≡ n
length-pad zero x = refl
length-pad (suc n) [] = ap suc (length-pad n [])
length-pad (suc n) (b ∷ x) = ap suc (length-pad n x)

length-mark : (x : Bytes) → length (mark x) ≡ 32
length-mark x = ap suc (length-pad 31 x)

abbrev pub content : Bytes
content = 7 ∷ 8 ∷ 9 ∷ []

abbrev head : Bytes → ℕ
head [] = 0
head (b ∷ x) = b

content-Apart : Apart mark [] (content ∷ mark content ∷ [])
unfolding lookup
content-Apart = record { kept = λ v w i e. absurd (cc); distinct = pairs }
  where
    two : (v : Bytes) → In v (content ∷ mark content ∷ []) → (v ≡ content) ⊎ (v ≡ mark content)
    two v (here e) = inl e
    two v (there (here e)) = inr e
    two v (there (there i)) = elim i [ ]

    pairs :
        (v w : Bytes)
        → In v (content ∷ mark content ∷ [])
        → In w (content ∷ mark content ∷ [])
        → mark v ≡ mark w
        → v ≡ w
    pairs v w i j same =
        let s : length v ≡ length w = ap head same in
        elim (two v i) [
          | inl e ↦ elim (two w j) [
            | inl f ↦ e ∙ sym f
            | inr f ↦ absurd (omega (arith, ap length e, ap length f))
          ]
          | inr e ↦ elim (two w j) [
            | inl f ↦ absurd (omega (arith, ap length e, ap length f))
            | inr f ↦ e ∙ sym f
          ]
        ]

index_file-assemble_example :
    let (meta, g) = index_file mark "f" content new_file_handler in
    (lookup meta.metafile_hash g.hash_data_map ≡ some (metafile_of mark content))
    × (meta.chunk_map ≡ count_from 0 meta.chunk_count)
    × (assemble meta.chunk_count (metafile_of mark content) g.hash_data_map ≡ some (some content))
unfolding split hashes_of num_file_chunks file_chunk
index_file-assemble_example =
    index_file-assemble mark "f" content new_file_handler length-mark content-Apart

-- A peer that replies to each request at the second tick.
abbrev replies : Dict Bytes Bytes → Bytes → String → List Answer
replies source hash peer = elim (lookup hash source) [
  | none ↦ []
  | some chunk ↦ Answer.resend ∷ Answer.reply chunk ∷ []
]

replies-Serves : (source : Dict Bytes Bytes) (peer : String) → Serves (replies source) peer source
replies-Serves source peer hash chunk e =
    (1, [], ap (λ o. elim o [ none ↦ [] | some c ↦ Answer.resend ∷ Answer.reply c ∷ [] ]) e)

abbrev first_place : ℕ → (ℕ → Bool) → ℕ
first_place n test = 0

abbrev in_order : List ℕ → List ℕ
in_order xs = xs

abbrev no_names : List String → List String
no_names xs = xs

in_order-Keeps : Keeps in_order
in_order-Keeps xs x = (λ i. i, λ i. i)

nothing-Agrees : (source : Dict Bytes Bytes) → Agrees [] source
unfolding lookup
nothing-Agrees source h c s e f = absurd (cc)

abbrev shared : FileMetadata × FileHandler
shared = index_file mark "f" content new_file_handler

download_file_chunks-index_file_example :
    (f' : FileHandler) × (download_file_chunks first_place in_order no_names
        (replies shared.1.hash_data_map)
        "b"
        "g"
        shared.0.metafile_hash
        new_file_handler
      ≡ some (f', some content))
unfolding split hashes_of num_file_chunks file_chunk lookup
download_file_chunks-index_file_example =
    download_file_chunks-index_file mark first_place in_order no_names
      (replies shared.1.hash_data_map) "b" "f" "g" content new_file_handler new_file_handler
      length-mark content-Apart in_order-Keeps (λ e. ground (arith, string_eq.beq_iff "b" ""))
      (replies-Serves shared.1.hash_data_map "b") (nothing-Agrees shared.1.hash_data_map) refl
