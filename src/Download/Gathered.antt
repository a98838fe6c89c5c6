-- ===== src/Download/Gathered.antt =====
-- The download gathers what the peer that serves it has.
use p2p_dapp.Base.{
  ℕ, zero, suc, ◌+◌, ◌*◌, ◌≤◌, String, ◌≡◌, refl, sym, ap, ◌∙◌, subst, inl, inr, Bool, true, false,
  Option, none, some, List, ◌∷◌, arith, ◌==◌, string_eq, nat_eq, pair_eq, eq_true, Bool-cases,
  Option-cases, Dict, lookup, lookup-insert, lookup-insert_self, int_eq, load_or_store, list_eq,
  if_false, some_eq,
}
use p2p_dapp.Packet.{Bytes}
use p2p_dapp.Files.{Assembly, file_chunk, chunk_hash, put_chunk, copy_at, assemble_loop}
use p2p_dapp.FileSearch.{owners_of}
use p2p_dapp.Download.{
  Answer, Gathering, download_data_from_peer, download_from_peers, peers_with_chunk, note_chunk,
  downloaded, fetch_chunk, download_loop,
}

-- Answers after some ticks.
abbrev pub late : ℕ → List Answer → List Answer
late zero answers = answers
late (suc n) answers = Answer.resend ∷ late n answers

-- The peer replies to every request for data of the map with that data, before the timer stops.
abbrev pub Serves : (Bytes → String → List Answer) → String → Dict Bytes Bytes → Type 0
Serves answers peer source =
    (hash chunk : Bytes)
    → lookup hash source ≡ some chunk
    → (n : ℕ) × (rest : List Answer) × (answers hash peer ≡ late n (Answer.reply chunk ∷ rest))

-- Where both maps have data under a hash, it is the same.
abbrev pub Agrees : Dict Bytes Bytes → Dict Bytes Bytes → Type 0
Agrees stored source =
    (hash c s : Bytes) → lookup hash stored ≡ some c → lookup hash source ≡ some s → c ≡ s

got_late :
    (n : ℕ) (chunk : Bytes) (rest : List Answer) (hash : Bytes) (stored : Dict Bytes Bytes)
    → download_data_from_peer (late n (Answer.reply chunk ∷ rest)) hash stored
      ≡ ((load_or_store hash chunk stored).1, true)
unfolding download_data_from_peer
got_late zero chunk rest hash stored = refl
got_late (suc n) chunk rest hash stored = got_late n chunk rest hash stored

pub got :
    (answers : Bytes → String → List Answer) (peer : String) (source : Dict Bytes Bytes)
    → Serves answers peer source
    → (hash chunk : Bytes) (stored : Dict Bytes Bytes) → lookup hash source ≡ some chunk
    → download_data_from_peer (answers hash peer) hash stored
      ≡ ((load_or_store hash chunk stored).1, true)
got answers peer source serves hash chunk stored e =
    let (n, rest, same) = serves hash chunk e in
    ap (λ a. download_data_from_peer a hash stored) same ∙ got_late n chunk rest hash stored

-- Data that the source has under the hash can be stored.
pub stored-Agrees :
    (hash chunk : Bytes) (stored source : Dict Bytes Bytes)
    → Agrees stored source
    → lookup hash source ≡ some chunk
    → lookup hash stored ≡ none
    → Agrees (load_or_store hash chunk stored).1 source
      × (lookup hash (load_or_store hash chunk stored).1 ≡ some chunk)
stored-Agrees hash chunk stored source agrees e new = (
  λ h c s found has. elim (Bool-cases (hash == h)) [
    | inl same ↦
        let has' : lookup h source ≡ some chunk =
          subst (λ k. lookup k source ≡ some chunk) (eq_true hash h same) e in
        ground (arith, new, same, found, has, has', lookup-insert hash h chunk stored)
    | inr other ↦
        agrees h c s (ground (arith, new, other, found, lookup-insert hash h chunk stored)) has
  ],
  ground (arith, new, lookup-insert_self hash chunk stored),
)

module _ (sort_search : ℕ → (ℕ → Bool) → ℕ) (range : List ℕ → List ℕ)
    (names : List String → List String) (answers : Bytes → String → List Answer)
    (destination : String) (source : Dict Bytes Bytes) (known : (destination == "") ≡ false)
    (serves : Serves answers destination source) where
  first_peer :
      (peers : List String) (hash chunk : Bytes) (stored : Dict Bytes Bytes)
      → lookup hash source ≡ some chunk
      → download_from_peers answers (destination ∷ peers) hash stored
        ≡ ((load_or_store hash chunk stored).1, some destination)
  unfolding download_from_peers
  first_peer peers hash chunk stored e =
      let reply = got answers destination source serves hash chunk stored e in
      rw (download_from_peers, reply) refl

  -- What is fetched is the chunk of the source; the buffer stays.
  abbrev Fetched : ℕ → Bytes → Bytes → Gathering → Gathering × Option Bytes → Type 0
  Fetched i hash chunk p r =
      (r.1 ≡ some chunk) × Agrees r.0.files.hash_data_map source × (r.0.assembly ≡ p.assembly)

  fetch_chunk-Fetched :
      (i : ℕ) (hash chunk : Bytes) (p : Gathering)
      → Agrees p.files.hash_data_map source
      → lookup hash source ≡ some chunk
      → Fetched i hash chunk p (fetch_chunk sort_search range names answers destination i hash p)
  unfolding fetch_chunk peers_with_chunk downloaded note_chunk
  fetch_chunk-Fetched i hash chunk p agrees e =
      elim (Option-cases (lookup hash p.files.hash_data_map)) [
        | inr (c, at_hand) ↦
            rw (fetch_chunk, at_hand) (ap some (agrees hash c chunk at_hand e), agrees, refl)
        | inl new ↦
            let stored = p.files.hash_data_map in
            let (kept, found) = stored-Agrees hash chunk stored source agrees e new in
            let reply = got answers destination source serves hash chunk stored e in
            let first : peers_with_chunk sort_search range names answers destination hash p.files
                ≡ destination ∷ owners_of hash p.files.chunk_owners =
              if_false _ _ _ known in
            let down =
              ap (λ ps. download_from_peers answers ps hash stored) first
              ∙ first_peer (owners_of hash p.files.chunk_owners) hash chunk stored e in
            let start : fetch_chunk sort_search range names answers destination i hash p
                ≡ downloaded sort_search range names answers destination i hash p (
                    download_from_peers answers
                      (peers_with_chunk sort_search range names answers destination hash p.files)
                      hash stored) =
              rw (fetch_chunk, new) refl in
            subst (Fetched i hash chunk p)
              (sym
                (start ∙ ap (downloaded sort_search range names answers destination i hash p) down))
              (found, kept, refl)
      ]

  retrieved-put :
      (i : ℕ) (chunk : Option Bytes) (a a' : Assembly)
      → put_chunk i chunk a ≡ some a'
      → a'.retrieved ≤ a.retrieved + 1
  unfolding put_chunk
  retrieved-put i none a a' h = ground (arith, h)
  retrieved-put i (some chunk) a a' h =
      elim (Option-cases (copy_at (i * file_chunk) chunk a.chunks_data)) [
        | inl out ↦ absurd (ground (arith, h, out))
        | inr (buffer, e) ↦ ground (arith, h, e)
      ]

  retrieved-assemble :
      (n i : ℕ) (metafile : Bytes) (a b : Assembly)
      → assemble_loop n i metafile source a ≡ some b
      → b.retrieved ≤ a.retrieved + n
  unfolding assemble_loop
  retrieved-assemble zero i metafile a b h = ground (arith, h)
  retrieved-assemble (suc n) i metafile a b h = elim (Option-cases (chunk_hash metafile i)) [
    | inl out ↦ absurd (ground (arith, h, out))
    | inr (hash, e) ↦ elim (Option-cases (put_chunk i (lookup hash source) a)) [
      | inl out ↦ absurd (ground (arith, h, e, out))
      | inr (a', put) ↦
          let one = retrieved-put i (lookup hash source) a a' put in
          let more = retrieved-assemble n (i + 1) metafile a' b (ground (arith, h, e, put)) in
          omega arith
    ]
  ]

  -- Where the data of the source makes a whole, the loop of the download makes the same of it.
  pub download_loop-assemble :
      (n i : ℕ) (metafile : Bytes) (p : Gathering) (b : Assembly)
      → Agrees p.files.hash_data_map source
      → assemble_loop n i metafile source p.assembly ≡ some b
      → b.retrieved ≡ p.assembly.retrieved + n
      → (p' : Gathering) × (download_loop sort_search range names answers destination n i metafile p
          ≡ some p')
        × (p'.assembly ≡ b)
  unfolding download_loop assemble_loop
  download_loop-assemble zero i metafile p b agrees h all = (p, refl, some_eq h)
  download_loop-assemble (suc n) i metafile p b agrees h all =
      elim (Option-cases (chunk_hash metafile i)) [
        | inl out ↦ absurd (ground (arith, h, out))
        | inr (hash, e) ↦ elim (Option-cases (lookup hash source)) [
          | inl missing ↦
              let more =
                retrieved-assemble n (i + 1) metafile p.assembly b
                  (ground (arith, h, e, missing)) in
              absurd (omega arith)
          | inr (chunk, has) ↦ elim (Option-cases (put_chunk i (some chunk) p.assembly)) [
            | inl out ↦ absurd (ground (arith, h, e, has, out))
            | inr (a, put) ↦
                let r = fetch_chunk sort_search range names answers destination i hash p in
                let (fetched, kept, same) = fetch_chunk-Fetched i hash chunk p agrees has in
                let put' : put_chunk i r.1 p.assembly ≡ some a =
                  ap (λ c. put_chunk i c p.assembly) fetched ∙ put in
                let rest : assemble_loop n (i + 1) metafile source a ≡ some b =
                  ground (arith, h, e, has, put) in
                let one = retrieved-put i (some chunk) p.assembly a put in
                let more = retrieved-assemble n (i + 1) metafile a b rest in
                let (p', run, whole) =
                  download_loop-assemble n (i + 1) metafile (record (r.0) { assembly = a }) b kept
                    rest (omega arith) in
                (p', rw (download_loop, e, put') run, whole)
          ]
        ]
      ]
