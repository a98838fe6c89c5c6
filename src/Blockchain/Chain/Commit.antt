-- ===== src/Blockchain/Chain/Commit.antt =====
-- The end of `qscRound` of gossiper/qsc.go: a block that is agreed on is appended to the chain.
use p2p_dapp.Base.{
  ◌≤◌, ◌≡◌, sym, ap, subst, ◌≢◌, Option, none, some, List, [], ◌∷◌, arith, string_eq, nat_eq,
  pair_eq, ne_false, lookup, insert, lookup-insert, lookup-insert_self, length, int_eq, by_key,
  list_eq,
}
use p2p_dapp.Packet.{Bytes, BlockPublish, TlcMessage}
use p2p_dapp.Blockchain.{BlockchainHandler, zero_hash}
use p2p_dapp.Blockchain.Hash.{block_hash}
use p2p_dapp.Blockchain.Chain.Walk.{History, Chain, Chain-unique}

module _ (sha256 : Bytes → Bytes) where
  -- `chosenBlock.PrevHash = topBlockchainHash`
  unfoldable pub on_top : BlockPublish → BlockchainHandler → BlockPublish
  on_top block b = record block { prev_hash = b.top_blockchain_hash }

  -- The consensus, or its absence, with the fittest message of round s + 1.
  unfoldable pub settle : Option TlcMessage → TlcMessage → BlockchainHandler → BlockchainHandler
  unfolding on_top
  settle none highest b = record b { previous_block_hash = block_hash sha256 highest.tx_block }
  settle (some m) highest b =
      let chosen = on_top m.tx_block b in
      let hash = block_hash sha256 chosen in
      record b {
        committed_history = insert hash chosen b.committed_history;
        top_blockchain_hash = hash;
        previous_block_hash = hash;
      }

-- An entry that is put into the history leaves a chain as it was, if its key starts no part of it.
Chain-insert :
    (history : History) (k : Bytes) (new : BlockPublish) (h : Bytes) (bs full : List BlockPublish)
    → length bs ≤ length full
    → ((old : BlockPublish) → lookup k history ≡ some old → Chain history old.prev_hash full)
    → Chain history h bs
    → Chain (insert k new history) h bs
Chain-insert history k new h [] full le far c = c
Chain-insert history k new h (b ∷ bs) full le far c = (
  c.0,
  by_key (λ j. lookup j history ≡ some b → lookup j (insert k new history) ≡ some b) k h
      (λ f.
        absurd (omega (arith, ap length (Chain-unique history b.prev_hash bs full c.2 (far b f)))))
      (λ ne f. rw (lookup-insert, ne_false k h (λ e. ne (sym e))) f) c.1,
  Chain-insert history k new b.prev_hash bs full (omega arith) far c.2,
)

module _ (sha256 : Bytes → Bytes) (b : BlockchainHandler) (m highest : TlcMessage)
    (bs : List BlockPublish) where
  -- Where the top starts a chain, the chosen block's hash is not zero, and no committed block of
  -- another previous hash has that hash, the new top starts the chain of the chosen block before
  -- the old ones: no committed block is lost or replaced in the chain.
  pub settle-Chain :
      Chain b.committed_history b.top_blockchain_hash bs
      → block_hash sha256 (on_top sha256 m.tx_block b) ≢ zero_hash
      → ((old : BlockPublish)
          → lookup (block_hash sha256 (on_top sha256 m.tx_block b)) b.committed_history ≡ some old
          → old.prev_hash ≡ b.top_blockchain_hash)
      → let b' = settle sha256 (some m) highest b in
        Chain b'.committed_history b'.top_blockchain_hash (on_top sha256 m.tx_block b ∷ bs)
  unfolding settle
  settle-Chain c nonzero apart = (
    nonzero,
    lookup-insert_self (block_hash sha256 (on_top sha256 m.tx_block b)) _ b.committed_history,
    Chain-insert b.committed_history _ _ b.top_blockchain_hash bs bs (omega arith)
        (λ old f. subst (λ h. Chain b.committed_history h bs) (sym (apart old f)) c) c,
  )
