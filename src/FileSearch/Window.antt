-- ===== src/FileSearch/Window.antt =====
-- Which of a sequence of search requests are taken.
use p2p_dapp.Base.{
  ℕ, ◌+◌, ◌≤◌, ◌<◌, String, ◌≡◌, refl, sym, ap, subst, inl, inr, Bool, true, false, not, Option,
  none, some, List, [], ◌∷◌, arith, ltb, if◌then◌else◌, ◌==◌, string_eq, nat_eq, pair_eq, eq_true,
  Bool-cases, Option-cases, lookup, lookup-insert, lookup-insert_self, int_eq, list_eq,
}
use p2p_dapp.Files.{FileHandler}
use p2p_dapp.FileSearch.{search_request_duplicate_timeout, is_recent_search_request}

-- What becomes of the requests of a key among requests of any keys, each at its time.
unfoldable pub log : String → List (String × ℕ) → FileHandler → List (ℕ × Bool)
log key [] f = []
log key ((k, now) ∷ requests) f =
    let (f', recent) = is_recent_search_request k now f in
    let rest = log key requests f' in if k == key then (now, not recent) ∷ rest else rest

-- A request is taken if none was taken before, or the last one that was taken is more than the
-- timeout ago; the time of the others does not count.
abbrev pub Windowed : Option ℕ → List (ℕ × Bool) → Type 0
Windowed last [] = Unit {0}
Windowed none ((now, taken) ∷ rest) = (taken ≡ true) × Windowed (some now) rest
Windowed (some last) ((now, true) ∷ rest) =
    (last + search_request_duplicate_timeout < now) × Windowed (some now) rest
Windowed (some last) ((now, false) ∷ rest) =
    (now ≤ last + search_request_duplicate_timeout) × Windowed (some last) rest

other_key :
    (k key : String) (now : ℕ) (f : FileHandler)
    → (k == key) ≡ false
    → lookup key (is_recent_search_request k now f).0.last_search_requests
      ≡ lookup key f.last_search_requests
unfolding is_recent_search_request
other_key k key now f other = elim (Option-cases (lookup k f.last_search_requests)) [
  | inl gone ↦ ground (arith, gone, other, lookup-insert k key now f.last_search_requests)
  | inr (t, found) ↦ ground (arith, found, other, lookup-insert k key now f.last_search_requests)
]

-- What a request of the key does to the time of the last one, and whether it is taken.
next : Option ℕ → ℕ → Option ℕ × Bool
next none now = (some now, true)
next (some last) now =
    if ltb (last + search_request_duplicate_timeout) now
    then (some now, true)
    else (some last, false)

next-Windowed :
    (last : Option ℕ) (now : ℕ) (rest : List (ℕ × Bool))
    → Windowed (next last now).0 rest
    → Windowed last ((now, (next last now).1) ∷ rest)
unfolding next
next-Windowed none now rest w = (refl, w)
next-Windowed (some last) now rest w =
    elim (Bool-cases (ltb (last + search_request_duplicate_timeout) now)) [
      | inl later ↦ ground (arith, later)
      | inr early ↦ ground (arith, early)
    ]

same_key :
    (key : String) (now : ℕ) (f : FileHandler)
    → (
      lookup key (is_recent_search_request key now f).0.last_search_requests,
      not (is_recent_search_request key now f).1,
    )
      ≡ next (lookup key f.last_search_requests) now
unfolding is_recent_search_request next
same_key key now f = elim (Option-cases (lookup key f.last_search_requests)) [
  | inl gone ↦ ground (arith, gone, lookup-insert_self key now f.last_search_requests)
  | inr (t, found) ↦ ground (arith, found, lookup-insert_self key now f.last_search_requests)
]

-- Of the requests with one key, which is made of the origin and the sorted keywords put together, at
-- any times and among any others, those are taken that come more than the timeout after the last one
-- that was taken, and the first if there is none; no other request with that key is.
pub log-Windowed :
    (key : String) (requests : List (String × ℕ)) (f : FileHandler)
    → Windowed (lookup key f.last_search_requests) (log key requests f)
unfolding log
log-Windowed key [] f = tt
log-Windowed key ((k, now) ∷ requests) f =
    let rest = log-Windowed key requests (is_recent_search_request k now f).0 in
    elim (Bool-cases (k == key)) [
      | inr other ↦ rw (other, log, ← other_key k key now f other) rest
      | inl same ↦
          let step = same_key key now f in
          let e = eq_true k key same in
          let last = lookup key f.last_search_requests in
          let after = is_recent_search_request key now f in
          let w =
            subst
              (λ j.
                Windowed (lookup key (is_recent_search_request j now f).0.last_search_requests)
                  (log key requests (is_recent_search_request j now f).0))
              e rest in
          let kept =
            next-Windowed last now (log key requests after.0)
              (subst (λ x. Windowed x (log key requests after.0)) (ap (λ x. x.0) step) w) in
          rw (same, log)
            (subst
              (λ j. Windowed last (
                (now, not (is_recent_search_request j now f).1)
                ∷ log key requests (is_recent_search_request j now f).0))
              (sym e)
              (subst (λ b. Windowed last ((now, b) ∷ log key requests after.0))
                (sym (ap (λ x. x.1) step)) kept))
    ]
