-- ===== src/Interface/Polls.antt =====
-- What the polls of the user interface get, in whatever order the goroutines send the rumors; and what
-- two polls at once do.
use p2p_dapp.Base.{
  ℕ, zero, suc, ◌+◌, ◌*◌, ◌≤◌, ◌<◌, min, ◌≡◌, refl, sym, ap, ◌∙◌, subst, inl, inr, Option, none,
  some, List, [], ◌∷◌, ◌++◌, arith, if◌then◌else◌, ◌==◌, string_eq, nat_eq, pair_eq, Bool-cases,
  length, take, drop, length-append, take-append-drop, length-drop, int_eq, list_eq,
}
use mathlib.Core.List.{append-nil, append_assoc, Perm}
use mathlib.Core.List.Perm
use p2p_dapp.Packet.{RumorMessage}
use p2p_dapp.GossipHandler.{GossipHandler, show_rumor}
use p2p_dapp.Interface.{latest_messages_buffer, receive, buffered, get_messages_list}

-- Two goroutines that are next to each other in the order in which they send, the nth and the one
-- behind it, change places.
pub swap_at {ℓ} : {A : Type ℓ} → ℕ → List A → List A
swap_at n [] = []
swap_at n (x ∷ []) = x ∷ []
swap_at zero (x ∷ y ∷ l) = y ∷ x ∷ l
swap_at (suc n) (x ∷ y ∷ l) = x ∷ swap_at n (y ∷ l)

-- A rumor is shown, a goroutine that sends one overtakes another, or the user interface polls with
-- GET /message.
pub data UiEvent : Type 0 where
  shows : RumorMessage → UiEvent
  overtakes : ℕ → UiEvent
  polls : UiEvent

-- The rumors that the polls get, and the handler after the events; `none` is a poll that never
-- returns.
unfoldable pub run_events :
    List UiEvent → GossipHandler → Option (List RumorMessage × GossipHandler)
unfolding swap_at
run_events [] h = some ([], h)
run_events (UiEvent.shows r ∷ events) h = run_events events (show_rumor r h)
run_events (UiEvent.overtakes n ∷ events) h =
    run_events events (record h { latest_rumors = swap_at n h.latest_rumors })
run_events (UiEvent.polls ∷ events) h = elim (get_messages_list h.latest_rumors) [
  | none ↦ none
  | some (got, rest) ↦ elim (run_events events (record h { latest_rumors = rest })) [
    | none ↦ none
    | some (more, h') ↦ some (got ++ more, h')
  ]
]

-- The rumors that have a text.
abbrev pub with_text : List UiEvent → List RumorMessage
with_text [] = []
with_text (UiEvent.shows r ∷ events) =
    let rest = with_text events in if r.text == "" then rest else r ∷ rest
with_text (UiEvent.overtakes n ∷ events) = with_text events
with_text (UiEvent.polls ∷ events) = with_text events

abbrev pub poll_times : ℕ → List UiEvent
poll_times zero = []
poll_times (suc k) = UiEvent.polls ∷ poll_times k

receive_lem {ℓ} :
    {A : Type ℓ} (n : ℕ) (channel : List A)
    → n ≤ length channel
    → receive n channel ≡ some (take n channel, drop n channel)
unfolding receive
receive_lem zero channel h = refl
receive_lem (suc n) [] h = absurd (omega arith)
receive_lem (suc n) (m ∷ channel) h = rw (receive_lem n channel (omega arith)) refl

receive_stuck {ℓ} :
    {A : Type ℓ} (n : ℕ) (channel : List A) → length channel < n → receive n channel ≡ none
unfolding receive
receive_stuck zero channel h = absurd (omega arith)
receive_stuck (suc n) [] h = refl
receive_stuck (suc n) (m ∷ channel) h = rw (receive_stuck n channel (omega arith)) refl

poll :
    (channel : List RumorMessage)
    → get_messages_list channel
      ≡ some (take (min 30 (length channel)) channel, drop (min 30 (length channel)) channel)
unfolding get_messages_list buffered
poll channel = receive_lem (min 30 (length channel)) channel (omega arith)

polled_then :
    (events : List UiEvent) (h h' : GossipHandler) (more : List RumorMessage)
    → run_events events
        (record h { latest_rumors = drop (min 30 (length h.latest_rumors)) h.latest_rumors })
      ≡ some (more, h')
    → run_events (UiEvent.polls ∷ events) h
      ≡ some (take (min 30 (length h.latest_rumors)) h.latest_rumors ++ more, h')
unfolding run_events
polled_then events h h' more e = rw (poll h.latest_rumors, run_events) (rw e refl)

emptied :
    (l : List RumorMessage) (h : GossipHandler)
    → length l ≤ 0
    → ◌≡◌ {A = Option (List RumorMessage × GossipHandler)}
        (some ([], record h { latest_rumors = l }))
        (some (l, record h { latest_rumors = [] }))
emptied [] h few = refl
emptied (m ∷ l) h few = absurd (omega arith)

polled_none :
    (h : GossipHandler)
    → length h.latest_rumors ≤ 0
    → run_events [] h ≡ some (h.latest_rumors, record h { latest_rumors = [] })
unfolding run_events
polled_none h few = emptied h.latest_rumors h few

shown_then :
    (r : RumorMessage) (events : List UiEvent) (h : GossipHandler)
    → run_events (UiEvent.shows r ∷ events) h ≡ run_events events (show_rumor r h)
unfolding run_events
shown_then r events h = refl

-- Enough polls at the end leave nothing.
polled :
    (k : ℕ) (h : GossipHandler)
    → length h.latest_rumors ≤ 30 * k
    → run_events (poll_times k) h ≡ some (h.latest_rumors, record h { latest_rumors = [] })
polled zero h few = polled_none h few
polled (suc k) h few =
    let n = min 30 (length h.latest_rumors) in
    let rest = record h { latest_rumors = drop n h.latest_rumors } in
    polled_then (poll_times k) h (record h { latest_rumors = [] }) (drop n h.latest_rumors)
      (polled k rest (omega (arith, length-drop n h.latest_rumors)))
    ∙ ap (λ l. some (l, record h { latest_rumors = [] })) (take-append-drop n h.latest_rumors)

Perm_of_eq {ℓ} : {A : Type ℓ} {x y : List A} → x ≡ y → Perm x y
Perm_of_eq {x = x} e = subst (Perm x) e (Perm.refl x)

swap_at-Perm {ℓ} : {A : Type ℓ} (n : ℕ) (l : List A) → Perm (swap_at n l) l
unfolding swap_at
swap_at-Perm n [] = Perm.refl []
swap_at-Perm n (x ∷ []) = Perm.refl (x ∷ [])
swap_at-Perm zero (x ∷ y ∷ l) = Perm.swap x y l
swap_at-Perm (suc n) (x ∷ y ∷ l) = Perm.cons x (swap_at-Perm n (y ∷ l))

length-swap_at {ℓ} : {A : Type ℓ} (n : ℕ) (l : List A) → length (swap_at n l) ≡ length l
unfolding swap_at
length-swap_at n [] = refl
length-swap_at n (x ∷ []) = refl
length-swap_at zero (x ∷ y ∷ l) = refl
length-swap_at (suc n) (x ∷ y ∷ l) = ground (arith, length-swap_at n (y ∷ l))

overtaken_then :
    (n : ℕ) (events : List UiEvent) (h : GossipHandler)
    → run_events (UiEvent.overtakes n ∷ events) h
      ≡ run_events events (record h { latest_rumors = swap_at n h.latest_rumors })
unfolding run_events
overtaken_then n events h = refl

-- The run ends, and the polls have got these rumors in some order.
abbrev pub Delivers : List UiEvent → GossipHandler → List RumorMessage → Type 0
Delivers events h rumors =
    (got : List RumorMessage) × (run_events events h ≡ some (got, record h { latest_rumors = [] }))
    × Perm got rumors

-- Over any rumors that are shown and polls of the user interface, while the goroutines that send the
-- rumors overtake each other in any way, and then enough polls: no poll waits, and together they get
-- the rumors that were to be sent and those that are shown and have a text, each once, in some order.
pub polls_deliver :
    (events : List UiEvent) (k : ℕ) (h : GossipHandler)
    → length h.latest_rumors + length (with_text events) ≤ 30 * k
    → Delivers (events ++ poll_times k) h (h.latest_rumors ++ with_text events)
unfolding show_rumor
polls_deliver [] k h few =
    (h.latest_rumors, polled k h (omega arith), Perm_of_eq (sym (append-nil h.latest_rumors)))
polls_deliver (UiEvent.shows r ∷ events) k h few = elim (Bool-cases (r.text == "")) [
  | inl silent ↦
      let (got, e, p) = polls_deliver events k h (ground (arith, silent)) in
      (got, shown_then r (events ++ poll_times k) h ∙ rw silent e, rw silent p)
  | inr said ↦
      let h1 = record h { latest_rumors = h.latest_rumors ++ r ∷ [] } in
      let (got, e, p) =
        polls_deliver events k h1 (ground (arith, said, length-append h.latest_rumors (r ∷ []))) in
      (
        got,
        shown_then r (events ++ poll_times k) h ∙ rw said e,
        rw said
            (Perm.trans p (Perm_of_eq (append_assoc h.latest_rumors (r ∷ []) (with_text events)))),
      )
]
polls_deliver (UiEvent.overtakes n ∷ events) k h few =
    let h1 = record h { latest_rumors = swap_at n h.latest_rumors } in
    let (got, e, p) = polls_deliver events k h1 (omega (arith, length-swap_at n h.latest_rumors)) in
    (
      got,
      overtaken_then n (events ++ poll_times k) h ∙ e,
      Perm.trans p (Perm.append (swap_at-Perm n h.latest_rumors) (Perm.refl (with_text events))),
    )
polls_deliver (UiEvent.polls ∷ events) k h few =
    let n = min 30 (length h.latest_rumors) in
    let first = take n h.latest_rumors in
    let left = drop n h.latest_rumors in
    let (got, e, p) =
      polls_deliver events k (record h { latest_rumors = left })
        (omega (arith, length-drop n h.latest_rumors)) in
    (
      first ++ got,
      polled_then (events ++ poll_times k) h (record h { latest_rumors = [] }) got e,
      Perm.trans (Perm.append (Perm.refl first) p) (
          Perm_of_eq (
            sym (append_assoc first left (with_text events))
            ∙ ap (λ l. l ++ with_text events) (take-append-drop n h.latest_rumors))),
    )

-- Two polls that have both counted the messages in the buffer before either takes one: where there
-- are some, and less than twice as many as the buffer holds, the one that loses never returns until
-- more messages come.
pub overlapping_polls_wait :
    (channel : List RumorMessage)
    → 0 < length channel
    → length channel < 60
    → (got : List RumorMessage) × (rest : List RumorMessage) × (receive
          (buffered latest_messages_buffer channel)
          channel
        ≡ some (got, rest))
      × (receive (buffered latest_messages_buffer channel) rest ≡ none)
unfolding buffered
overlapping_polls_wait channel some_there few =
    let n = min 30 (length channel) in
    (
      take n channel,
      drop n channel,
      receive_lem n channel (omega arith),
      receive_stuck n (drop n channel) (omega (arith, length-drop n channel)),
    )
