-- ===== src/Routing/Table.antt =====
-- What the routing table holds after any sequence of packets.
use p2p_dapp.Base.{
  ℕ, ◌≤◌, ◌<◌, String, ◌≡◌, refl, sym, ap, ◌∙◌, subst, ◌⊎◌, inl, inr, Option, none, some, List, [],
  ◌∷◌, ◌++◌, arith, ltb, string_eq, nat_eq, pair_eq, ne_false, Bool-cases, lookup, insert,
  lookup-insert, lookup-insert_self, All, ltb→lt, int_eq, by_key,
}
use p2p_dapp.Packet.{Address}
use p2p_dapp.Routing.{RoutingHandler, new_routing_handler, update_routing_table}

-- One packet, as the routing table sees it.
pub record Heard : Type 0 where
  pub origin : String
  pub id : ℕ
  pub address : Address

pub hear : RoutingHandler → List Heard → RoutingHandler
hear r [] = r
hear r (p ∷ ps) = hear (update_routing_table p.origin p.id p.address r) ps

abbrev Above : Option ℕ → ℕ → Type 0
Above none id = Unit {0}
Above (some n) id = n < id

abbrev Within : Option ℕ → ℕ → Type 0
Within none id = ⊥
Within (some n) id = id ≤ n

abbrev pub From : String → (ℕ → Type 0) → Heard → Type 0
From o P p = p.origin ≡ o → P p.id

-- `best` is the first packet from its origin with the highest id from there.
pub record IsBest (o : String) (ps : List Heard) (best : Heard) : Type 0 where
  pub before : List Heard
  pub later : List Heard
  pub splits : ps ≡ before ++ (best ∷ later)
  pub origin : best.origin ≡ o
  pub highest : All (From o (λ id. id < best.id)) before
  pub first : All (From o (λ id. id ≤ best.id)) later

record Kept (o : String) (r : RoutingHandler) (ps : List Heard) : Type 0 where
  same_id : lookup o (hear r ps).origin_last_id ≡ lookup o r.origin_last_id
  same_route : lookup o (hear r ps).routing_table ≡ lookup o r.routing_table
  within : All (From o (Within (lookup o r.origin_last_id))) ps

record Improved (o : String) (r : RoutingHandler) (ps : List Heard) : Type 0 where
  best : Heard
  is_best : IsBest o ps best
  above : Above (lookup o r.origin_last_id) best.id
  new_id : lookup o (hear r ps).origin_last_id ≡ some best.id
  new_route : lookup o (hear r ps).routing_table ≡ some best.address

-- One packet either changes nothing for the origin or is a new best.
data Heeds (o : String) (r : RoutingHandler) (p : Heard) (r' : RoutingHandler) : Type 0 where
  ignores :
      lookup o r'.origin_last_id ≡ lookup o r.origin_last_id
      → lookup o r'.routing_table ≡ lookup o r.routing_table
      → From o (Within (lookup o r.origin_last_id)) p
      → Heeds o r p r'
  takes :
      p.origin ≡ o
      → Above (lookup o r.origin_last_id) p.id
      → lookup o r'.origin_last_id ≡ some p.id
      → lookup o r'.routing_table ≡ some p.address
      → Heeds o r p r'

Above-or-Within : (x : Option ℕ) (id : ℕ) → Above x id ⊎ Within x id
Above-or-Within none id = inl tt
Above-or-Within (some n) id = elim (Bool-cases (ltb n id)) [
  | inl above ↦ inl (ltb→lt n id above)
  | inr within ↦ inr (ground arith)
]

update-Above :
    (origin : String) (id : ℕ) (a : Address) (r : RoutingHandler)
    → Above (lookup origin r.origin_last_id) id
    → update_routing_table origin id a r ≡ record {
      routing_table = insert origin a r.routing_table;
      origin_last_id = insert origin id r.origin_last_id;
    }
unfolding update_routing_table
update-Above origin id a r h = ground arith

update-Within :
    (origin : String) (id : ℕ) (a : Address) (r : RoutingHandler)
    → Within (lookup origin r.origin_last_id) id
    → update_routing_table origin id a r ≡ r
unfolding update_routing_table
update-Within origin id a r h = ground arith

update-Heeds :
    (o : String) (r : RoutingHandler) (p : Heard)
    → Heeds o r p (update_routing_table p.origin p.id p.address r)
update-Heeds o r p = elim (Above-or-Within (lookup p.origin r.origin_last_id) p.id) [
  | inl above ↦ rw (update-Above p.origin p.id p.address r above) (
      by_key (λ j. Heeds j r p _) p.origin o
        (takes refl above (lookup-insert_self p.origin p.id r.origin_last_id)
          (lookup-insert_self p.origin p.address r.routing_table))
        (λ ne.
          ignores (rw (lookup-insert p.origin o, ne_false p.origin o (λ e. ne (sym e))))
            (rw (lookup-insert p.origin o, ne_false p.origin o (λ e. ne (sym e))))
            (λ e. absurd (ne (sym e)))))
  | inr within ↦
      rw (update-Within p.origin p.id p.address r within)
        (ignores refl refl (λ e. subst (λ j. Within (lookup j r.origin_last_id) p.id) e within))
]

Within-Above : (x : Option ℕ) (a b : ℕ) → Within x a → Above x b → a < b
Within-Above none a b w h = absurd w
Within-Above (some n) a b w h = omega arith

Above-trans : (x : Option ℕ) (a b : ℕ) → Above x a → a < b → Above x b
Above-trans none a b h k = tt
Above-trans (some n) a b h k = omega arith

-- A packet that is below a later best, and after which `r` is as good as `r'` was.
Improved-earlier :
    {o : String} {r r' : RoutingHandler} {p : Heard} {ps : List Heard}
    → hear r (p ∷ ps) ≡ hear r' ps
    → (m : Improved o r' ps) → From o (λ id. id < m.best.id) p
    → Above (lookup o r.origin_last_id) m.best.id
    → Improved o r (p ∷ ps)
Improved-earlier {p = p} e m below above = record {
  best = m.best;
  is_best = record {
    before = p ∷ m.is_best.before;
    later = m.is_best.later;
    splits = ap (◌∷◌ p) m.is_best.splits;
    origin = m.is_best.origin;
    highest = (below, m.is_best.highest);
    first = m.is_best.first;
  };
  above = above;
  new_id = rw e m.new_id;
  new_route = rw e m.new_route;
}

hear_step :
    (o : String) (r r' : RoutingHandler) (p : Heard) (ps : List Heard)
    → hear r (p ∷ ps) ≡ hear r' ps
    → Heeds o r p r'
    → Kept o r' ps ⊎ Improved o r' ps
    → Kept o r (p ∷ ps) ⊎ Improved o r (p ∷ ps)
hear_step o r r' p ps e (ignores i t w) (inl k) = inl (record {
  same_id = rw e (k.same_id ∙ i);
  same_route = rw e (k.same_route ∙ t);
  within = (w, subst (λ x. All (From o (Within x)) ps) i k.within);
})
hear_step o r r' p ps e (ignores i t w) (inr m) =
    let above = subst (λ x. Above x m.best.id) i m.above in
    inr (Improved-earlier e m (λ q. Within-Above (lookup o r.origin_last_id) _ _ (w q) above) above)
hear_step o r r' p ps e (takes q ab i t) (inl k) = inr (record {
  best = p;
  is_best = record {
    before = [];
    later = ps;
    splits = refl;
    origin = q;
    highest = tt;
    first = subst (λ x. All (From o (Within x)) ps) i k.within;
  };
  above = ab;
  new_id = rw e (k.same_id ∙ i);
  new_route = rw e (k.same_route ∙ t);
})
hear_step o r r' p ps e (takes q ab i t) (inr m) =
    let below = subst (λ x. Above x m.best.id) i m.above in
    inr (
      Improved-earlier e m (λ _. below)
        (Above-trans (lookup o r.origin_last_id) p.id m.best.id ab below))

hear_cases : (o : String) (r : RoutingHandler) (ps : List Heard) → Kept o r ps ⊎ Improved o r ps
hear_cases o r [] = unfold hear in inl (record { same_id = refl; same_route = refl; within = tt })
hear_cases o r (p ∷ ps) =
    hear_step o r (update_routing_table p.origin p.id p.address r) p ps (unfold hear in refl)
      (update-Heeds o r p) (hear_cases o (update_routing_table p.origin p.id p.address r) ps)

-- After any updates of the routing table, each for a name, with an id and an address, from an empty
-- table: a name has no route and none of the updates is for it, or its route is the address of the
-- first update with the highest id for it, and that id is the one noted.
pub route_exact :
    (o : String) (ps : List Heard)
    → let r = hear new_routing_handler ps in
      ((lookup o r.routing_table ≡ none) × All (From o (λ id. ⊥)) ps)
      ⊎ ((best : Heard) × IsBest o ps best
          × (lookup o r.routing_table ≡ some best.address)
          × (lookup o r.origin_last_id ≡ some best.id))
unfolding lookup
route_exact o ps = elim (hear_cases o new_routing_handler ps) [
  | inl k ↦ inl (k.same_route, k.within)
  | inr m ↦ inr (m.best, m.is_best, m.new_route, m.new_id)
]
