-- ===== src/Interface/Nodes.antt =====
-- The peers that the user interface adds with POST /node, and shows with GET /node.
use p2p_dapp.Base.{
  ℕ, String, ◌≡◌, refl, sym, ap, ◌∙◌, subst, ◌⊎◌, inl, inr, Bool, true, false, Option, none, some,
  List, [], ◌∷◌, ◌++◌, arith, ◌==◌, string_eq, nat_eq, pair_eq, eq_true, Bool-cases, Option-cases,
  int_eq, list_eq, In, here, there, some_eq,
}
use mathlib.Core.List.{append-nil, append_assoc}
use p2p_dapp.Base.Shared.{Distinct}
use p2p_dapp.Packet.{Bytes, Address}
use p2p_dapp.Search.{member, add_peer}
use p2p_dapp.Interface.{
  Webserver, Request, Response, get_array_string_from_addresses, post_node_handler, route, serve,
}

true-ne-false : ◌≡◌ {A = Bool} true false → ⊥
true-ne-false e = cc

none-ne-some {ℓ} : {A : Type ℓ} {a : A} → none ≡ some a → ⊥
none-ne-some e = cc

member-In : (a : Address) (peers : List Address) → member a peers ≡ true → In a peers
unfolding member
member-In a [] h = absurd (cc)
member-In a (b ∷ peers) h = elim (Bool-cases (b == a)) [
  | inl same ↦ here (sym (eq_true b a same))
  | inr other ↦ there (member-In a peers (ground (arith, other)))
]

In-member : (a : Address) (peers : List Address) → In a peers → member a peers ≡ true
unfolding member
In-member a [] i = elim i [ ]
In-member a (b ∷ peers) (here e) = ground (arith, string_eq.beq_iff b a)
In-member a (b ∷ peers) (there i) = ground (arith, In-member a peers i)

In-append :
    (a : Address) (peers : List Address) (b : Address)
    → In a (peers ++ b ∷ [])
    → In a peers ⊎ (a ≡ b)
In-append a [] b (here e) = inr e
In-append a [] b (there i) = elim i [ ]
In-append a (c ∷ peers) b (here e) = inl (here e)
In-append a (c ∷ peers) b (there i) = elim (In-append a peers b i) [
  | inl j ↦ inl (there j)
  | inr e ↦ inr e
]

append-In : (a : Address) (peers more : List Address) → In a peers → In a (peers ++ more)
append-In a [] more i = elim i [ ]
append-In a (c ∷ peers) more (here e) = here e
append-In a (c ∷ peers) more (there i) = there (append-In a peers more i)

last-In : (a : Address) (peers : List Address) → In a (peers ++ a ∷ [])
last-In a [] = here refl
last-In a (c ∷ peers) = there (last-In a peers)

append-Distinct :
    (peers : List Address) (a : Address)
    → (In a peers → ⊥)
    → Distinct peers
    → Distinct (peers ++ a ∷ [])
append-Distinct [] a new d = (λ i. elim i [ ], tt)
append-Distinct (b ∷ peers) a new d = (
  λ i. elim (In-append b peers a i) [ inl j ↦ d.0 j | inr e ↦ new (here (sym e)) ],
  append-Distinct peers a (λ i. new (there i)) d.1,
)

-- What the addition of one address does to the peers.
record Added (a : Address) (peers peers' : List Address) : Type 0 where
  distinct : Distinct peers → Distinct peers'
  known : In a peers'
  more : (new : List Address) × (peers' ≡ peers ++ new)

add_peer-Added : (a : Address) (peers : List Address) → Added a peers (add_peer a peers)
unfolding add_peer
add_peer-Added a peers = elim (Bool-cases (member a peers)) [
  | inl old ↦ rw old (record {
    distinct = λ d. d;
    known = member-In a peers old;
    more = ([], sym (append-nil peers));
  })
  | inr new ↦ rw new (record {
    distinct = append-Distinct peers a (λ i. true-ne-false (sym (In-member a peers i) ∙ new));
    known = last-In a peers;
    more = (a ∷ [], refl);
  })
]

array-is : (peers : List Address) → get_array_string_from_addresses peers ≡ peers
unfolding get_array_string_from_addresses
array-is [] = refl
array-is (p ∷ peers) = ap (◌∷◌ p) (array-is peers)

module _ (resolve : String → Option Address) (decode : String → Option Bytes)
    (parse_uint : String → ℕ) (fuel : ℕ) where
  -- The server after requests with these bodies to POST /node.
  pub post_all : List String → Webserver → Option Webserver
  post_all [] w = some w
  post_all (body ∷ bodies) w =
      elim (serve resolve decode parse_uint fuel (route "POST" "/node")
        (record { body = body; form = λ key. "" }) w) [ none ↦ none | some r ↦ post_all bodies r.0 ]

  -- What the requests leave of one server and its peers.
  pub record Posted (bodies : List String) (w w' : Webserver) : Type 0 where
    pub distinct : Distinct w.gossiper.peers → Distinct w'.gossiper.peers
    pub known :
        (body : String) (a : Address)
        → In body bodies
        → resolve body ≡ some a
        → In a w'.gossiper.peers
    pub more : (new : List Address) × (w'.gossiper.peers ≡ w.gossiper.peers ++ new)

  post_none :
      (body : String) (bodies : List String) (w : Webserver)
      → resolve body ≡ none
      → post_all (body ∷ bodies) w ≡ post_all bodies w
  unfolding post_all serve route post_node_handler
  post_none body bodies w e = ground (arith, e)

  post_some :
      (body : String) (bodies : List String) (w : Webserver) (a : Address)
      → resolve body ≡ some a
      → post_all (body ∷ bodies) w
        ≡ post_all bodies
            (record w { gossiper = record (w.gossiper) { peers = add_peer a w.gossiper.peers } })
  unfolding post_all serve route post_node_handler
  post_some body bodies w a e = ground (arith, e)

  unresolved-Posted :
      (body : String) (bodies : List String) (w w' : Webserver)
      → resolve body ≡ none
      → Posted bodies w w'
      → Posted (body ∷ bodies) w w'
  unresolved-Posted body bodies w w' e p = record {
    distinct = p.distinct;
    known = λ other a i f. elim i [
      | here same ↦ absurd (none-ne-some (sym e ∙ ap resolve (sym same) ∙ f))
      | there j ↦ p.known other a j f
    ];
    more = p.more;
  }

  module _ (body : String) (a : Address) (w : Webserver) (e : resolve body ≡ some a) where
    abbrev with_peer : Webserver
    with_peer = record w { gossiper = record (w.gossiper) { peers = add_peer a w.gossiper.peers } }

    added-Posted :
        (bodies : List String) (w' : Webserver)
        → Posted bodies with_peer w'
        → Posted (body ∷ bodies) w w'
    added-Posted bodies w' p =
        let added = add_peer-Added a w.gossiper.peers in
        record {
          distinct = λ d. p.distinct (added.distinct d);
          known = λ other b i f. elim i [
            | here same ↦
                let ab : a ≡ b = some_eq (sym e ∙ ap resolve (sym same) ∙ f) in
                subst (λ x. In x w'.gossiper.peers) ab
                  (subst (In a) (sym p.more.1)
                    (append-In a (add_peer a w.gossiper.peers) p.more.0 added.known))
            | there j ↦ p.known other b j f
          ];
          more = (
            added.more.0 ++ p.more.0,
            p.more.1
                ∙ ap (λ l. l ++ p.more.0) added.more.1
                ∙ append_assoc w.gossiper.peers added.more.0 p.more.0,
          );
        }

  posted :
      (bodies : List String) (w : Webserver)
      → (w' : Webserver) × (post_all bodies w ≡ some w') × Posted bodies w w'
  unfolding post_all
  posted [] w = (
    w,
    refl,
    record {
      distinct = λ d. d;
      known = λ body a i. elim i [ ];
      more = ([], sym (append-nil w.gossiper.peers));
    },
  )
  posted (body ∷ bodies) w = elim (Option-cases (resolve body)) [
    | inl e ↦
        let (w', done, p) = posted bodies w in
        (w', post_none body bodies w e ∙ done, unresolved-Posted body bodies w w' e p)
    | inr (a, e) ↦
        let (w', done, p) = posted bodies (with_peer body a w e) in
        (w', post_some body bodies w a e ∙ done, added-Posted body a w e bodies w' p)
  ]

  -- After any requests to POST /node, the peers that were known are known as before, those of the
  -- requests whose address can be resolved come after them, no peer is known twice if none was, and
  -- GET /node shows the peers.
  pub nodes_posted :
      (bodies : List String) (w : Webserver) (q : Request)
      → (w' : Webserver) × (post_all bodies w ≡ some w')
        × Posted bodies w w'
        × (serve resolve decode parse_uint fuel (route "GET" "/node") q w'
            ≡ some (w', Response.texts w'.gossiper.peers))
  unfolding serve route
  nodes_posted bodies w q =
      let (w', done, p) = posted bodies w in
      (w', done, p, ap (λ l. some (w', Response.texts l)) (array-is w'.gossiper.peers))
