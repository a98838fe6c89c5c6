-- ===== src/Network/Storing.antt =====
-- What storing a message does to the messages of a handler, whatever else the handler holds.
use p2p_dapp.Base.{
  ℕ, String, ◌≡◌, refl, sym, ap, ◌∙◌, ◌⊎◌, inl, inr, Bool, none, some, [], arith, if◌then◌else◌,
  ◌==◌, string_eq, nat_eq, pair_eq, eq_refl, Option-cases, lookup, insert, lookup-insert, int_eq,
  load_or_store, lookup-load_or_store, list_eq, lookup-load_or_store_kept,
}
use p2p_dapp.Packet.{GossipPacket}
use p2p_dapp.GossipHandler.{GossipHandler, messages_of, store_message}

-- The packet is the one new message, if there is one.
pub record Adds (packet : GossipPacket) (origin : String) (id : ℕ) (h h' : GossipHandler)
    : Type 0 where
  pub keeps :
      (o : String) (i : ℕ) (q : GossipPacket)
      → lookup i (messages_of o h) ≡ some q
      → lookup i (messages_of o h') ≡ some q
  pub news :
      (o : String) (i : ℕ) (q : GossipPacket)
      → lookup i (messages_of o h') ≡ some q
      → (lookup i (messages_of o h) ≡ some q) ⊎ ((q ≡ packet) × (o ≡ origin) × (i ≡ id))
  pub puts :
      lookup id (messages_of origin h) ≡ none → lookup id (messages_of origin h') ≡ some packet
  pub same_seq : h'.seq_id ≡ h.seq_id

-- The handler after storing, but for its clock.
storage-store_message :
    (packet : GossipPacket) (origin : String) (id : ℕ) (h h' : GossipHandler) (loaded : Bool)
    → store_message packet origin id h ≡ some (h', loaded)
    → (h'.seq_id ≡ h.seq_id)
      × (h'.message_storage
          ≡ insert origin
              (load_or_store id packet (messages_of origin h)).1
              (load_or_store origin [] h.message_storage).1)
unfolding store_message
storage-store_message packet origin id h h' loaded e =
    elim (Option-cases (lookup origin h.message_storage)) [
      | inl gone ↦ ground (arith, gone)
      | inr (m, found) ↦ ground (arith, found)
    ]

pub messages-store_message :
    (packet : GossipPacket) (origin : String) (id : ℕ) (h h' : GossipHandler) (loaded : Bool)
    → store_message packet origin id h ≡ some (h', loaded)
    → (o : String)
    → messages_of o h' ≡ (
        if origin == o then (load_or_store id packet (messages_of origin h)).1 else messages_of o h)
messages-store_message packet origin id h h' loaded e o =
    let (seq, storage) = storage-store_message packet origin id h h' loaded e in
    let mine = (load_or_store id packet (messages_of origin h)).1 in
    ground (
      arith,
      storage,
      lookup-insert origin o mine (load_or_store origin [] h.message_storage).1,
      lookup-load_or_store origin o [] h.message_storage,
    )

pub store_message-Adds :
    (packet : GossipPacket) (origin : String) (id : ℕ) (h h' : GossipHandler) (loaded : Bool)
    → store_message packet origin id h ≡ some (h', loaded)
    → Adds packet origin id h h'
store_message-Adds packet origin id h h' loaded e = record {
  keeps = λ o i q f.
      let known = lookup-load_or_store_kept id i packet q (messages_of origin h) in
      ground (
        arith,
        messages-store_message packet origin id h h' loaded e o,
        string_eq.beq_iff origin o,
        known,
      );
  news = λ o i q f. ground (
    arith,
    messages-store_message packet origin id h h' loaded e o,
    string_eq.beq_iff origin o,
    nat_eq.beq_iff id i,
    lookup-load_or_store id i packet (messages_of origin h),
  );
  puts = λ f. ground (
    arith,
    messages-store_message packet origin id h h' loaded e origin,
    eq_refl origin,
    f,
    lookup-load_or_store id id packet (messages_of origin h),
  );
  same_seq = (storage-store_message packet origin id h h' loaded e).0;
}

-- The messages and the next sequence number are all that counts.
pub Adds-same :
    {packet : GossipPacket} {origin : String} {id : ℕ} {h g h' : GossipHandler}
    → Adds packet origin id h g
    → h'.message_storage ≡ g.message_storage
    → h'.seq_id ≡ g.seq_id
    → Adds packet origin id h h'
Adds-same {g = g} {h' = h'} adds storage seq =
    let same : (o : String) → messages_of o h' ≡ messages_of o g = λ o. rw storage refl in
    record {
      keeps = λ o i q f. ap (lookup i) (same o) ∙ adds.keeps o i q f;
      news = λ o i q f. adds.news o i q (sym (ap (lookup i) (same o)) ∙ f);
      puts = λ f. ap (lookup _) (same _) ∙ adds.puts f;
      same_seq = seq ∙ adds.same_seq;
    }
