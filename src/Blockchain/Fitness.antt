-- ===== src/Blockchain/Fitness.antt =====
-- `get_tlc_with_highest_fitness`: what it picks does not depend on the order of the range, but for
-- ties.
use p2p_dapp.Base.{
  ◌≤◌, ◌<◌, String, ◌≡◌, refl, ap, ◌∙◌, ◌⊎◌, inl, inr, some, [], ◌∷◌, arith, ltb, string_eq, nat_eq,
  pair_eq, Bool-cases, lookup, All, ltb→lt, int_eq, Ranges, list_eq, In, here, there, All-In,
  In-of_lookup,
}
use p2p_dapp.Packet.{TlcMessage}
use p2p_dapp.Blockchain.{TlcMessages, no_message, fitter, fittest, get_tlc_with_highest_fitness}

fitter_cases :
    (best m : TlcMessage)
    → ((fitter best m ≡ m) × (best.fitness < m.fitness))
      ⊎ ((fitter best m ≡ best) × (m.fitness ≤ best.fitness))
unfolding fitter
fitter_cases best m = elim (Bool-cases (ltb best.fitness m.fitness)) [
  | inl more ↦ inl (rw more, ltb→lt _ _ more)
  | inr less ↦ inr (rw less, ground arith)
]

fitter-ge :
    (best m : TlcMessage)
    → (best.fitness ≤ (fitter best m).fitness) × (m.fitness ≤ (fitter best m).fitness)
unfolding fitter
fitter-ge best m = ground arith

fittest-ge :
    (best : TlcMessage) (messages : TlcMessages)
    → (best.fitness ≤ (fittest best messages).fitness)
      × All (λ p. p.1.fitness ≤ (fittest best messages).fitness) messages
unfolding fittest
fittest-ge best [] = (omega arith, tt)
fittest-ge best ((o, m) ∷ messages) =
    let rest = fittest-ge (fitter best m) messages in
    let (low, next) = fitter-ge best m in
    (omega (arith, rest.0, low), (omega (arith, rest.0, next), rest.1))

abbrev Fitter : TlcMessage → TlcMessage → TlcMessage → Type 0
Fitter f best m = ((f ≡ m) × (best.fitness < m.fitness)) ⊎ ((f ≡ best) × (m.fitness ≤ best.fitness))

-- The pick is the first message or a fitter one of the list.
abbrev Picks : TlcMessage → TlcMessage → TlcMessages → Type 0
Picks pick best messages =
    (pick ≡ best) ⊎ ((o : String) × In (o, pick) messages × (best.fitness < pick.fitness))

Picks-cons :
    (best : TlcMessage) (o : String) (m : TlcMessage) (messages : TlcMessages) (pick f : TlcMessage)
    → Fitter f best m
    → Picks pick f messages
    → Picks pick best ((o, m) ∷ messages)
Picks-cons best o m messages pick f (inl (e, more)) (inl q) =
    inr (o, here (ap (λ t. (o, t)) (q ∙ e)), rw (q ∙ e) more)
Picks-cons best o m messages pick f (inr (e, less)) (inl q) = inl (q ∙ e)
Picks-cons best o m messages pick f (inl (e, more)) (inr (j, i, q)) =
    inr (j, there i, omega (arith, ap (λ (t : TlcMessage). t.fitness) e))
Picks-cons best o m messages pick f (inr (e, less)) (inr (j, i, q)) =
    inr (j, there i, omega (arith, ap (λ (t : TlcMessage). t.fitness) e))

fittest-Picks :
    (best : TlcMessage) (messages : TlcMessages) → Picks (fittest best messages) best messages
unfolding fittest
fittest-Picks best [] = inl refl
fittest-Picks best ((o, m) ∷ messages) =
    (Picks-cons best o m messages _ (fitter best m) (fitter_cases best m)
      (fittest-Picks (fitter best m) messages))

picked :
    (order messages : TlcMessages)
    → Ranges order messages
    → (pick : TlcMessage) → Picks pick no_message order
    → (pick ≡ no_message) ⊎ ((o : String) × (lookup o messages ≡ some pick) × (0 < pick.fitness))
picked order messages r pick (inl e) = inl e
picked order messages r pick (inr (o, i, more)) =
    inr (o, All-In (λ p. lookup p.0 messages ≡ some p.1) r.sound i, more)

-- The pick is at least as fit as every confirmation of the round, and it is one of them unless all
-- have fitness 0, when it is the empty message; so two ranges over the map pick equal fitnesses.
pub highest_fitness :
    (order messages : TlcMessages)
    → Ranges order messages
    → let best = get_tlc_with_highest_fitness order in
      ((o : String) (m : TlcMessage) → lookup o messages ≡ some m → m.fitness ≤ best.fitness)
      × ((best ≡ no_message)
          ⊎ ((o : String) × (lookup o messages ≡ some best) × (0 < best.fitness)))
unfolding get_tlc_with_highest_fitness
highest_fitness order messages r = (
  λ o m e.
      All-In (λ p. p.1.fitness ≤ _) (fittest-ge no_message order).1
        (In-of_lookup order o m (r.complete o ∙ e)),
  picked order messages r (fittest no_message order) (fittest-Picks no_message order),
)
