-- ===== src/Qsc/Staged.antt =====
-- One stage of `qscRound`: the handler stays ready for the messages of the next ones.
use mathlib.Core.Option
use p2p_dapp.Base.{
  ℕ, ◌+◌, ◌-◌, ◌%◌, ◌^◌, ◌≤◌, ◌<◌, ◌≡◌, refl, sym, ap, ◌∙◌, subst, inl, inr, Bool, true, false,
  Option, none, some, List, arith, string_eq, nat_eq, pair_eq, eq_refl, Option-cases, lookup,
  length, ℤ, pos, minus_one, int_eq, length-load_or_store, list_eq, some_eq,
}
use p2p_dapp.Packet.{BlockPublish, TlcMessage}
use p2p_dapp.GossipHandler.{GossipHandler, messages_of}
use p2p_dapp.GossipHandler.Storage.{store_message-Stored}
use p2p_dapp.GossipHandler.Least.{IsConsistent}
use p2p_dapp.Network.Storing.{messages-store_message}
use p2p_dapp.Tlc.{
  Setting, Gossiping, Event, create_tlc_message, confirm, tlc_packet, new_tlc,
  gossip_with_confirmation,
}
use p2p_dapp.Tlc.Majority.{Clocked, After, created_first, gossip-After}
use p2p_dapp.Qsc.{Stage, tlc_round, reached, stage, next_stage}

-- The handler is consistent, and the peer has stored at most so many messages of its own.
abbrev pub IsReady : Setting → ℕ → GossipHandler → Type 0
IsReady p k g = IsConsistent g × (length (messages_of p.name g) ≤ k)

IsReady-suc : (p : Setting) (k : ℕ) (g : GossipHandler) → IsReady p k g → IsReady p (k + 1) g
IsReady-suc p k g r = (r.0, omega (arith, r.1))

create-IsReady :
    (p : Setting) (block : BlockPublish) (confirmed : ℤ) (fitness : ℕ) (k : ℕ) (g : GossipHandler)
    → k + 1 < 2 ^ 32 - 1
    → IsReady p k g
    → (r : GossipHandler × TlcMessage) × (create_tlc_message p block confirmed fitness g ≡ some r)
      × IsReady p (k + 1) r.0
unfolding create_tlc_message
create-IsReady p block confirmed fitness k g room (c, few) =
    let m = new_tlc p block confirmed fitness g in
    let raised = record g { seq_id = (g.seq_id + 1) % 2 ^ 32 } in
    let (h', loaded, e, stored) =
      store_message-Stored (tlc_packet m) p.name g.seq_id raised
        (record { least = c.least; started = c.started }) (omega arith) in
    let count : length (messages_of p.name h') ≤ k + 1 = ground (
      arith,
      messages-store_message (tlc_packet m) p.name g.seq_id raised h' loaded e p.name,
      eq_refl p.name,
      length-load_or_store g.seq_id (tlc_packet m) (messages_of p.name g),
    ) in
    ((h', m), rw e refl, (stored.consistent, count))

-- A stage does not fail; where its round is over, the peer is ready and at the time.
abbrev pub IsStaged : Setting → ℕ → ℕ → Option Stage → Type 0
IsStaged p k time none = ⊥
IsStaged p k time (some (Stage.waiting s)) = Unit {0}
IsStaged p k time (some (Stage.unconfirmed s)) = Unit {0}
IsStaged p k time (some (Stage.confirmed s messages)) =
    IsReady p k s.gossip × (s.blockchain.my_time ≡ time)

confirmed-IsReady :
    (p : Setting) (tlc : TlcMessage) (g : GossipHandler) (k : ℕ) (r : GossipHandler × TlcMessage)
    → k + 1 < 2 ^ 32 - 1
    → IsReady p k g
    → confirm p tlc g ≡ some r
    → IsReady p (k + 1) r.0
unfolding confirm
confirmed-IsReady p tlc g k r room ready e =
    let (r', e', ready') = create-IsReady p tlc.tx_block (pos tlc.id) tlc.fitness k g room ready in
    subst (λ x. IsReady p (k + 1) x.0) (some_eq (sym e' ∙ e)) ready'

reached-IsStaged :
    (p : Setting) (k time round : ℕ) (g : GossipHandler) (s : Gossiping)
    → s.gossip ≡ g
    → IsReady p k g
    → s.blockchain.my_time ≡ time
    → IsStaged p k time (some (reached round (s, true)))
unfolding reached
reached-IsStaged p k time round g s e ready t =
    elim (Option-cases (lookup round s.blockchain.confirmations)) [
      | inl gone ↦ rw (gone, reached) tt
      | inr (messages, found) ↦ rw (found, reached) (subst (IsReady p k) (sym e) ready, t)
    ]

module _ (stubborn_timeout : ℕ) (p : Setting) (stubborn : 0 < stubborn_timeout) where
  pub stage-IsStaged :
      (k time round : ℕ) (m : TlcMessage) (events : List Event) (s : Gossiping)
      → k + 1 < 2 ^ 32 - 1
      → Clocked events
      → IsReady p k s.gossip
      → s.blockchain.my_time ≡ time
      → IsStaged p (k + 1) ((time + 1) % 2 ^ 32) (stage stubborn_timeout p round m events s)
  unfolding stage tlc_round reached
  stage-IsStaged k time round m events s room clocked ready t =
      let q = record p { wait_confirmations = true } in
      let few : length (messages_of p.name s.gossip) + 1 < 2 ^ 32 - 1 = omega (arith, ready.1) in
      let first = created_first q m s.gossip s.blockchain.my_time refl ready.0 few in
      let next : IsReady p (k + 1) first.0.0 =
        confirmed-IsReady q m s.gossip k first.0 room ready first.1 in
      go (gossip_with_confirmation stubborn_timeout q m events s)
        (gossip-After q m events s stubborn_timeout refl stubborn clocked ready.0 few) next
    where
      go :
          (o : Option (Gossiping × Bool))
          → After
              (record p { wait_confirmations = true })
              m
              s.gossip
              s.blockchain.my_time
              refl
              ready.0
              (omega (arith, ready.1))
              o
          → IsReady p
              (k + 1)
              (created_first
                (record p { wait_confirmations = true })
                m
                s.gossip
                s.blockchain.my_time
                refl
                ready.0
                (omega (arith, ready.1))).0.0
          → IsStaged p (k + 1) ((time + 1) % 2 ^ 32) (Option.map (reached round) o)
      go none a next = a
      go (some (u, false)) a next = tt
      go (some (u, true)) a next =
          reached-IsStaged p (k + 1) ((time + 1) % 2 ^ 32) round _ u a.2 next
            (a.1 ∙ ap (λ x. (x + 1) % 2 ^ 32) t)

  pub next_stage-IsStaged :
      (k time round : ℕ) (highest : TlcMessage) (events : List Event) (s : Gossiping)
      → k + 2 < 2 ^ 32 - 1
      → Clocked events
      → IsReady p k s.gossip
      → s.blockchain.my_time ≡ time
      → IsStaged p
          (k + 2)
          ((time + 1) % 2 ^ 32)
          (next_stage stubborn_timeout p round highest events s)
  unfolding next_stage
  next_stage-IsStaged k time round highest events s room clocked ready t =
      let ((g, m), e, ready') =
        create-IsReady p highest.tx_block minus_one highest.fitness k s.gossip (omega arith)
          ready in
      let two : k + 1 + 1 ≡ k + 2 = omega arith in
      rw (e, next_stage)
        (subst
          (λ n.
            IsStaged p n ((time + 1) % 2 ^ 32)
              (stage stubborn_timeout p round m events (record s { gossip = g })))
          two
          (stage-IsStaged (k + 1) time round m events (record s { gossip = g }) (omega arith)
            clocked ready' t))
