-- ===== src/Blockchain/Chain/View.antt =====
-- What is shown of the chain: the file names of `printConsensusMessage` (gossiper/printhandler.go)
-- and `GetBlockchain` (gossiper/uifunctions.go).
use mathlib.Core.List.{reverse, reverse-cons, append_assoc, append-nil}
use p2p_dapp.Base.{
  ℕ, zero, suc, ◌+◌, ◌<◌, String, ◌≡◌, refl, sym, ap, ◌∙◌, ◌≢◌, Option, none, some, List, [], ◌∷◌,
  ◌++◌, map, arith, if◌then◌else◌, string_eq, nat_eq, pair_eq, lookup, length, int_eq, list_eq,
}
use p2p_dapp.Packet.{Bytes, BlockPublish}
use p2p_dapp.Blockchain.{BlockchainHandler, zero_hash, is_zero}
use p2p_dapp.Blockchain.Chain.Walk.{History, Chain, is_zero_iff, not-is_zero}

-- The loop of printConsensusMessage, with the names so far; a name is put in front of them. The
-- outer `none` is the end of the fuel, `some none` the panic on a hash that is not there.
pub filenames : ℕ → Bytes → List String → History → Option (Option (List String))
filenames zero h names history = none
filenames (suc fuel) h names history =
    let rest : Option (Option (List String)) = elim (lookup h history) [
      | none ↦ some none
      | some block ↦ filenames fuel block.prev_hash (block.transaction.name ∷ names) history
    ] in
    if is_zero h then some (some names) else rest

-- `GetBlockchain`: the loop loads the top in every round. A file is shown by its block.
pub collect :
    ℕ → Bytes → List BlockPublish → BlockchainHandler → Option (Option (List BlockPublish))
collect zero h files b = none
collect (suc fuel) h files b =
    let rest : Option (Option (List BlockPublish)) =
      elim (lookup b.top_blockchain_hash b.committed_history) [
        | none ↦ some none
        | some block ↦ collect fuel block.prev_hash (files ++ block ∷ []) b
      ] in
    if is_zero h then some (some files) else rest

pub get_blockchain : ℕ → BlockchainHandler → Option (Option (List BlockPublish))
unfolding collect
get_blockchain fuel b = collect fuel b.top_blockchain_hash [] b

abbrev pub name_of : BlockPublish → String
name_of block = block.transaction.name

reverse_onto {ℓ} :
    {A : Type ℓ} (xs : List A) (x : A) (ys : List A)
    → reverse xs ++ (x ∷ ys) ≡ reverse (x ∷ xs) ++ ys
reverse_onto xs x ys =
    sym (ap (λ l. l ++ ys) (reverse-cons x xs) ∙ append_assoc (reverse xs) (x ∷ []) ys)

filenames-Chain :
    (fuel : ℕ) (h : Bytes) (names : List String) (history : History) (bs : List BlockPublish)
    → length bs < fuel
    → Chain history h bs
    → filenames fuel h names history ≡ some (some (reverse (map name_of bs) ++ names))
unfolding filenames
filenames-Chain zero h names history bs le c = absurd (omega arith)
filenames-Chain (suc fuel) h names history [] le c = rw ((is_zero_iff h).1 c)
filenames-Chain (suc fuel) h names history (b ∷ bs) le c =
    rw (not-is_zero h c.0, c.1, filenames)
      (filenames-Chain fuel b.prev_hash (b.transaction.name ∷ names) history bs (omega arith) c.2
        ∙ ap (λ l. some (some l)) (reverse_onto (map name_of bs) b.transaction.name names))

-- The printed names are those of all blocks of the chain, the oldest first.
pub printed_names :
    (b : BlockchainHandler) (bs : List BlockPublish)
    → Chain b.committed_history b.top_blockchain_hash bs
    → filenames (length bs + 1) b.top_blockchain_hash [] b.committed_history
      ≡ some (some (reverse (map name_of bs)))
printed_names b bs c =
    filenames-Chain (length bs + 1) b.top_blockchain_hash [] b.committed_history bs (omega arith) c
    ∙ ap (λ l. some (some l)) (append-nil (reverse (map name_of bs)))

stuck :
    (fuel : ℕ) (h : Bytes) (files : List BlockPublish) (b : BlockchainHandler) (top : BlockPublish)
    → h ≢ zero_hash
    → lookup b.top_blockchain_hash b.committed_history ≡ some top
    → top.prev_hash ≢ zero_hash
    → collect fuel h files b ≡ none
unfolding collect
stuck zero h files b top ne found more = refl
stuck (suc fuel) h files b top ne found more =
    rw (not-is_zero h ne, found, collect)
      (stuck fuel top.prev_hash (files ++ top ∷ []) b top more found more)

-- On a chain of two blocks or more the loop of `GetBlockchain` never ends, whatever the fuel.
pub get_blockchain_loops :
    (b : BlockchainHandler) (bs : List BlockPublish)
    → Chain b.committed_history b.top_blockchain_hash bs
    → 1 < length bs
    → (fuel : ℕ) → get_blockchain fuel b ≡ none
unfolding get_blockchain
get_blockchain_loops b [] c lt fuel = absurd (omega arith)
get_blockchain_loops b (t ∷ []) c lt fuel = absurd (omega arith)
get_blockchain_loops b (t ∷ u ∷ bs) c lt fuel =
    stuck fuel b.top_blockchain_hash [] b t c.0 c.1 c.2.0
