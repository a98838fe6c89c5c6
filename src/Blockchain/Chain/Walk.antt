-- ===== src/Blockchain/Chain/Walk.antt =====
-- The walk over the previous hashes, and `isTxBlockValid` of gossiper/qsc.go.
use p2p_dapp.Base.{
  some_eq, ℕ, zero, suc, ◌+◌, ◌<◌, String, ◌≡◌, refl, sym, ◌∙◌, subst, ◌≢◌, ◌↔◌, inl, inr, Bool,
  true, false, ◌||◌, Option, none, some, List, [], ◌∷◌, arith, if◌then◌else◌, ◌==◌, string_eq,
  nat_eq, pair_eq, Bool-cases, Option-cases, Dict, lookup, length, All, int_eq, Ranges, list_eq,
  All-In, All_of_In, In-of_lookup,
}
use p2p_dapp.Packet.{Bytes, BlockPublish}
use mathlib.Core.Path.{ap₂}
use p2p_dapp.Blockchain.{BlockchainHandler, zero_hash, is_zero}

abbrev pub History : Type 0
History = Dict Bytes BlockPublish

-- From a hash the previous hashes lead through these blocks to the zero hash, newest first.
abbrev pub Chain : History → Bytes → List BlockPublish → Type 0
Chain history h [] = h ≡ zero_hash
Chain history h (b ∷ bs) =
    (h ≢ zero_hash) × (lookup h history ≡ some b) × Chain history b.prev_hash bs

unfoldable pub name_taken : String → History → Bool
name_taken name [] = false
name_taken name ((h, block) ∷ history) = block.transaction.name == name || name_taken name history

-- `for blockHash != [32]byte{}` of isTxBlockValid.
unfoldable pub history_known : ℕ → Bytes → History → Option Bool
history_known zero h history = none
history_known (suc fuel) h history =
    let rest : Option Bool = elim (lookup h history) [
      | none ↦ some false
      | some block ↦ history_known fuel block.prev_hash history
    ] in
    if is_zero h then some true else rest

-- The first history is the map in the order of its range.
unfoldable pub is_tx_block_valid : ℕ → History → BlockPublish → BlockchainHandler → Option Bool
unfolding name_taken history_known
is_tx_block_valid fuel order block b =
    if name_taken block.transaction.name order
    then some false
    else history_known fuel block.prev_hash b.committed_history

pub is_zero_iff : (h : Bytes) → (is_zero h ≡ true) ↔ (h ≡ zero_hash)
unfolding is_zero
is_zero_iff h = list_eq.beq_iff h zero_hash

pub not-is_zero : (h : Bytes) → h ≢ zero_hash → is_zero h ≡ false
not-is_zero h ne = ground (arith, is_zero_iff h)

-- A hash starts at most one chain.
pub Chain-unique :
    (history : History) (h : Bytes) (bs cs : List BlockPublish)
    → Chain history h bs
    → Chain history h cs
    → bs ≡ cs
Chain-unique history h [] [] p q = refl
Chain-unique history h [] (c ∷ cs) p q = absurd (q.0 p)
Chain-unique history h (b ∷ bs) [] p q = absurd (p.0 q)
Chain-unique history h (b ∷ bs) (c ∷ cs) p q =
    let e : b ≡ c = some_eq (sym p.1 ∙ q.1) in
    ap₂ ◌∷◌ e (
      Chain-unique history b.prev_hash bs cs p.2
        (subst (λ x. Chain history x.prev_hash cs) (sym e) q.2))

not-name_taken :
    (name : String) (order : History)
    → (name_taken name order ≡ false) ↔ All (λ p. p.1.transaction.name ≢ name) order
unfolding name_taken
not-name_taken name [] = (λ _. tt, λ _. refl)
not-name_taken name ((h, block) ∷ order) =
    let same = string_eq.beq_iff block.transaction.name name in
    (
      λ q. (λ e. ground (arith, same), (not-name_taken name order).0 (ground arith)),
      λ k. ground (arith, k.0, same, (not-name_taken name order).1 k.1),
    )

known_of_Chain :
    (fuel : ℕ) (h : Bytes) (history : History) (bs : List BlockPublish)
    → length bs < fuel
    → Chain history h bs
    → history_known fuel h history ≡ some true
unfolding history_known
known_of_Chain zero h history bs le c = absurd (omega arith)
known_of_Chain (suc fuel) h history [] le c = rw ((is_zero_iff h).1 c)
known_of_Chain (suc fuel) h history (b ∷ bs) le c =
    rw (not-is_zero h c.0, c.1, history_known)
      (known_of_Chain fuel b.prev_hash history bs (omega arith) c.2)

Chain-of_known :
    (fuel : ℕ) (h : Bytes) (history : History)
    → history_known fuel h history ≡ some true
    → (bs : List BlockPublish) × Chain history h bs
unfolding history_known
Chain-of_known zero h history e = absurd (cc)
Chain-of_known (suc fuel) h history e = elim (Bool-cases (is_zero h)) [
  | inl ends ↦ ([], (is_zero_iff h).0 ends)
  | inr more ↦ elim (Option-cases (lookup h history)) [
    | inl gone ↦ absurd (ground (arith, more, gone))
    | inr (b, found) ↦
        let (bs, c) = Chain-of_known fuel b.prev_hash history (ground (arith, more, found)) in
        (b ∷ bs, ((λ z. ground (arith, more, is_zero_iff h)), found, c))
  ]
]

accepted :
    (taken : Bool) (known : Option Bool)
    → (if taken then some false else known) ≡ some true
    → (taken ≡ false) × (known ≡ some true)
accepted true known e = absurd (cc)
accepted false known e = (refl, e)

-- No block of the history has the name.
abbrev pub Fresh : String → History → Type 0
Fresh name history =
    (h : Bytes) (c : BlockPublish) → lookup h history ≡ some c → c.transaction.name ≢ name

-- A block that is accepted has a name that no committed block has, and its previous hash leads
-- through committed blocks to the zero hash.
valid_sound :
    (fuel : ℕ) (order : History) (block : BlockPublish) (b : BlockchainHandler)
    → Ranges order b.committed_history
    → is_tx_block_valid fuel order block b ≡ some true
    → Fresh block.transaction.name b.committed_history
      × ((bs : List BlockPublish) × Chain b.committed_history block.prev_hash bs)
unfolding is_tx_block_valid
valid_sound fuel order block b r e =
    let (fresh, known) = accepted (name_taken block.transaction.name order) _ e in
    (
      λ h c f.
          All-In (λ p. p.1.transaction.name ≢ block.transaction.name)
            ((not-name_taken block.transaction.name order).0 fresh)
            (In-of_lookup order h c (r.complete h ∙ f)),
      Chain-of_known fuel block.prev_hash b.committed_history known,
    )

-- A block whose name no committed block has, and whose previous hash leads through committed
-- blocks to the zero hash, is accepted: one more round of the loop than blocks is enough.
valid_complete :
    (order : History) (block : BlockPublish) (b : BlockchainHandler) (bs : List BlockPublish)
    → Ranges order b.committed_history
    → Chain b.committed_history block.prev_hash bs
    → Fresh block.transaction.name b.committed_history
    → is_tx_block_valid (length bs + 1) order block b ≡ some true
unfolding is_tx_block_valid
valid_complete order block b bs r c fresh =
    rw
      ((not-name_taken block.transaction.name order).1 (
        All_of_In (λ p. p.1.transaction.name ≢ block.transaction.name) order
          (λ p i.
            fresh p.0 p.1 (All-In (λ p. lookup p.0 b.committed_history ≡ some p.1) r.sound i))))
      (known_of_Chain (length bs + 1) block.prev_hash b.committed_history bs (omega arith) c)

-- A block is accepted, with some fuel, exactly when no committed block has its name and its previous
-- hash leads through committed blocks to the zero hash.
pub is_tx_block_valid_iff :
    (order : History) (block : BlockPublish) (b : BlockchainHandler)
    → Ranges order b.committed_history
    → ((fuel : ℕ) × (is_tx_block_valid fuel order block b ≡ some true)) ↔ (
        Fresh block.transaction.name b.committed_history
        × ((bs : List BlockPublish) × Chain b.committed_history block.prev_hash bs))
is_tx_block_valid_iff order block b r = (
  λ (fuel, e). valid_sound fuel order block b r e,
  λ (fresh, (bs, c)). (length bs + 1, valid_complete order block b bs r c fresh),
)
