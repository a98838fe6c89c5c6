-- ===== src/FileSearch/Ticks.antt =====
-- How long a search goes on.
use p2p_dapp.Base.{
  if_true, if_false, ℕ, zero, suc, ◌+◌, ◌-◌, ◌*◌, ◌%◌, ◌^◌, ◌≤◌, ◌<◌, ◌≡◌, refl, sym, ap, ◌∙◌,
  subst, inl, inr, Bool, true, false, ◌||◌, List, [], ◌∷◌, arith, ltb, if◌then◌else◌, ◌==◌,
  string_eq, nat_eq, pair_eq, Bool-cases, length, All, lt→ltb, int_eq, list_eq,
}
use p2p_dapp.FileSearch.{max_budget, search_loop, search_files_with_timeout}

-- No tick has found enough files.
abbrev pub unfound : ℕ → List Bool
unfound zero = []
unfound (suc n) = false ∷ unfound n

pub repeated : ℕ → ℕ → List ℕ
repeated zero x = []
repeated (suc n) x = x ∷ repeated n x

-- A budget after some doublings.
doubled : ℕ → ℕ → ℕ
doubled zero budget = budget
doubled (suc k) budget = doubled k (budget * 2)

abbrev Ends : List Bool → ℕ → List ℕ × Bool → Type 0
Ends ticks k r = (k < length ticks → r.1 ≡ true) × All (λ b. b < 64) r.0 × (length r.0 ≤ k)

-- What a tick does.
tick_over :
    (increment found : Bool) (budget : ℕ) (ticks : List Bool)
    → (ltb max_budget budget || found) ≡ true
    → search_loop increment budget (found ∷ ticks) ≡ ([], true)
unfolding search_loop
tick_over increment found budget ticks over = if_true _ _ _ over

tick_on :
    (increment found : Bool) (budget : ℕ) (ticks : List Bool)
    → (ltb max_budget budget || found) ≡ false
    → search_loop increment budget (found ∷ ticks) ≡ (
        let next = if increment then budget * 2 % 2 ^ 64 else budget in
        let rest = search_loop increment next ticks in
        ((next + (2 ^ 64 - 1)) % 2 ^ 64 ∷ rest.0, rest.1))
unfolding search_loop
tick_on increment found budget ticks goes = if_false _ _ _ goes

ends :
    (k budget : ℕ) (ticks : List Bool)
    → 0 < budget
    → 32 < doubled k budget
    → Ends ticks k (search_loop true budget ticks)
unfolding search_loop doubled
ends k budget [] p h = ((λ l. absurd (omega arith)), tt, omega arith)
ends zero budget (found ∷ ticks) p h =
    let over : (ltb max_budget budget || found) ≡ true = ground (arith, lt→ltb 32 budget h) in
    subst (Ends (found ∷ ticks) zero) (sym (tick_over true found budget ticks over))
      ((λ l. refl), tt, omega arith)
ends (suc k) budget (found ∷ ticks) p h = elim (Bool-cases (ltb max_budget budget || found)) [
  | inl over ↦
      subst (Ends (found ∷ ticks) (suc k)) (sym (tick_over true found budget ticks over))
        ((λ l. refl), tt, omega arith)
  | inr goes ↦
      let small : budget ≤ 32 = ground (arith, lt→ltb 32 budget) in
      let next : budget * 2 % 2 ^ 64 ≡ budget * 2 = omega arith in
      let (over, low, few) = ends k (budget * 2) ticks (omega arith) h in
      let sent : (budget * 2 + (2 ^ 64 - 1)) % 2 ^ 64 < 64 = omega arith in
      subst (Ends (found ∷ ticks) (suc k)) (sym (tick_on true found budget ticks goes)) (
        subst
          (λ n. Ends (found ∷ ticks) (suc k) (
            (n + (2 ^ 64 - 1)) % 2 ^ 64 ∷ (search_loop true n ticks).0,
            (search_loop true n ticks).1,
          ))
          (sym next) ((λ l. over (omega arith)), (sent, low), omega arith))
]

-- A search whose budget is doubled, from any budget but 0, is over by the seventh tick of its timer,
-- whatever the ticks find, after at most six more requests, each with a budget below 64.
pub search_ends :
    (budget : ℕ) (ticks : List Bool)
    → 0 < budget
    → 6 < length ticks
    → (later : List ℕ) × (search_files_with_timeout true budget ticks
        ≡ ((budget - 1) ∷ later, true))
      × (length later ≤ 6)
      × All (λ b. b < 64) later
unfolding search_files_with_timeout doubled
search_ends budget ticks p l =
    let (over, low, few) = ends 6 budget ticks p (omega arith) in
    let nonzero : (budget == 0) ≡ false = ground (arith, nat_eq.beq_iff budget 0) in
    (
      (search_loop true budget ticks).0,
      if_false _ _ _ nonzero
          ∙ ap (λ b. ((budget - 1) ∷ (search_loop true budget ticks).0, b)) (over l),
      few,
      low,
    )

same_again :
    (budget n : ℕ)
    → 0 < budget
    → budget ≤ max_budget
    → search_loop false budget (unfound n) ≡ (repeated n (budget - 1), false)
unfolding search_loop repeated
same_again budget zero p u = refl
same_again budget (suc n) p u =
    let goes : (ltb max_budget budget || false) ≡ false = ground arith in
    let sent : (budget + (2 ^ 64 - 1)) % 2 ^ 64 ≡ budget - 1 = omega arith in
    tick_on false false budget (unfound n) goes
    ∙ ap (λ r. ((budget + (2 ^ 64 - 1)) % 2 ^ 64 ∷ r.0, r.1)) (same_again budget n p u)
    ∙ ap (λ b. (b ∷ repeated n (budget - 1), false)) sent

-- A search whose budget is given, at most the bound, is never over as long as no tick finds enough
-- files: every tick sends the same request again.
pub search_repeats :
    (budget n : ℕ)
    → 0 < budget
    → budget ≤ max_budget
    → search_files_with_timeout false budget (unfound n)
      ≡ ((budget - 1) ∷ repeated n (budget - 1), false)
unfolding search_files_with_timeout
search_repeats budget n p u =
    let nonzero : (budget == 0) ≡ false = ground (arith, nat_eq.beq_iff budget 0) in
    if_false _ _ _ nonzero ∙ ap (λ r. ((budget - 1) ∷ r.0, r.1)) (same_again budget n p u)
