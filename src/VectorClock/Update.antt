-- ===== src/VectorClock/Update.antt =====
-- `update_status` against the set of stored ids: the clock moves to the least unknown id.
use native.Mathlib.Decide.{ℕ_discrete}
use p2p_dapp.Base.{
  le→leb, ℕ, zero, suc, ◌+◌, ◌-◌, ◌%◌, ◌^◌, ◌≤◌, ◌<◌, String, ◌≡◌, refl, sym, ap, ◌∙◌, ◌≢◌, inl,
  inr, none, some, arith, ltb, if◌then◌else◌, string_eq, nat_eq, pair_eq, ne_false, Option-cases,
  Dict, lookup, insert, delete, lookup-insert, lookup-insert_self, lookup-delete, length-delete-lt,
  length, int_eq, Has,
}
use p2p_dapp.VectorClock.{VectorClock, advance, next_id, update_status}

module _ {ℓ} {V : Type ℓ} where
  -- Every id from 1 up to n, without n, is stored.
  abbrev pub Filled : Dict ℕ V → ℕ → Type ℓ
  Filled messages n = (i : ℕ) → 1 ≤ i → i < n → Has i messages

  -- As many ids as are filled take that many entries.
  pub Filled-le-length :
      (n : ℕ) (messages : Dict ℕ V) → Filled messages (suc n) → n ≤ length messages
  Filled-le-length zero messages h = omega arith
  Filled-le-length (suc n) messages h = elim (Option-cases (lookup (suc n) messages)) [
    | inl e ↦ absurd (h (suc n) (omega arith) (omega arith) e)
    | inr (v, e) ↦
        let rest : n ≤ length (delete (suc n) messages) =
          Filled-le-length n (delete (suc n) messages) (λ i low high.
            rw (lookup-delete (suc n) i messages, ne_false (suc n) i (omega arith))
              (h i low (omega arith))) in
        omega (arith, rest, length-delete-lt (suc n) v messages e)
  ]

  -- What the search leaves: it stops at `stop`, the least unknown id.
  pub record Advanced (messages : Dict ℕ V) (origin : String) (start : ℕ)
      (entries entries' : VectorClock) : Type ℓ where
    pub stop : ℕ
    pub reaches : start ≤ stop
    pub filled : Filled messages stop
    pub unknown : lookup stop messages ≡ none
    pub own : lookup origin entries' ≡ (if ltb start stop then some stop else lookup origin entries)
    pub others : (j : String) → j ≢ origin → lookup j entries' ≡ lookup j entries

  Filled-suc :
      (messages : Dict ℕ V) (n : ℕ) {v : V}
      → Filled messages n
      → lookup n messages ≡ some v
      → Filled messages (suc n)
  Filled-suc messages n h here i low high = elim (ℕ_discrete i n) [
    | yes e ↦ λ gone. cc (ap (λ j. lookup j messages) e)
    | no e ↦ h i low (omega arith)
  ]

  start-le-length :
      (messages : Dict ℕ V) (n : ℕ) → 1 ≤ n → Filled messages n → n ≤ length messages + 1
  start-le-length messages zero low h = omega arith
  start-le-length messages (suc n) low h = omega (arith, Filled-le-length n messages h)

  -- The step from `start` to `start + 1`, where the id does not wrap.
  Advanced-step :
      {messages : Dict ℕ V} {origin : String} (start : ℕ) {entries entries' : VectorClock}
      → Advanced messages origin (suc start) (insert origin (suc start) entries) entries'
      → Advanced messages origin start entries entries'
  Advanced-step {origin = o} start {entries} a = record {
    stop = a.stop;
    reaches = omega (arith, a.reaches);
    filled = a.filled;
    unknown = a.unknown;
    own = ground (arith, a.own, a.reaches, lookup-insert_self o (suc start) entries);
    others = λ j ne. a.others j ne ∙ rw (lookup-insert, ne_false o j (λ e. ne (sym e))) refl;
  }

  advance_found :
      (fuel : ℕ) (messages : Dict ℕ V) (origin : String) (start : ℕ) (entries : VectorClock) {v : V}
      → lookup start messages ≡ some v
      → (start + 1) % 2 ^ 32 ≡ suc start
      → advance (suc fuel) messages origin start entries
        ≡ advance fuel messages origin (suc start) (insert origin (suc start) entries)
  unfolding advance
  advance_found fuel messages origin start entries e wraps = rw (e, advance, wraps)

  -- The search ends, without wrapping, at the least unknown id.
  pub advance-Advanced :
      (fuel : ℕ) (messages : Dict ℕ V) (origin : String) (start : ℕ) (entries : VectorClock)
      → 1 ≤ start
      → Filled messages start
      → length messages < 2 ^ 32 - 1
      → length messages + 2 ≤ fuel + start
      → (entries' : VectorClock) × (advance fuel messages origin start entries ≡ some entries')
        × Advanced messages origin start entries entries'
  unfolding advance
  advance-Advanced zero messages origin start entries low filled size enough =
      absurd (omega (arith, start-le-length messages start low filled))
  advance-Advanced (suc fuel) messages origin start entries low filled size enough =
      elim (Option-cases (lookup start messages)) [
        | inl e ↦ (
          entries,
          rw (e, advance),
          record {
            stop = start;
            reaches = omega arith;
            filled = filled;
            unknown = e;
            own = ground arith;
            others = λ j ne. refl;
          },
        )
        | inr (v, e) ↦
            let more = Filled-suc messages start filled e in
            let bound = start-le-length messages (suc start) (omega arith) more in
            let wraps : (start + 1) % 2 ^ 32 ≡ suc start = omega (arith, bound) in
            let (es, p, a) =
              advance-Advanced fuel messages origin (suc start) (insert origin (suc start) entries)
                (omega arith) more size (omega arith) in
            (
              es,
              advance_found fuel messages origin start entries e wraps ∙ p,
              Advanced-step start a,
            )
      ]

  -- Where all messages of the origin below its entry are stored, less than 2 ^ 32 - 1 of them, and
  -- the id is not below the entry, the update of the clock ends without wrapping: the entry of the
  -- origin becomes its least unknown id, and stays away where nothing was found, and the other
  -- entries stay.
  pub update_status-Advanced :
      (origin : String) (id : ℕ) (messages : Dict ℕ V) (entries : VectorClock)
      → 1 ≤ next_id origin entries
      → Filled messages (next_id origin entries)
      → length messages < 2 ^ 32 - 1
      → next_id origin entries ≤ id
      → (entries' : VectorClock) × (update_status origin id messages entries ≡ some entries')
        × Advanced messages origin (next_id origin entries) entries entries'
  unfolding update_status
  update_status-Advanced origin id messages entries low filled size due =
      rw (le→leb (next_id origin entries) id due) (
        advance-Advanced (length messages + 1) messages origin (next_id origin entries) entries low
          filled size (omega arith))
