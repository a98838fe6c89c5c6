-- ===== src/Printing/Lists.antt =====
-- The lines that list entries: the loops put a separator behind each entry and cut the last one.
use Prim.Native.String.{◌++◌, slice, len}
use text.Mathlib.TextLemmas.{append_assoc}
use text.Mathlib.TextPositions.{len-append, slice-append_left}
use p2p_dapp.Base.{
  ℕ, zero, suc, ◌/◌, ◌<◌, String, ◌≡◌, refl, ap, ◌∙◌, inl, inr, true, List, [], ◌∷◌, map, arith,
  ltb, Bool-cases, Dict,
}
use p2p_dapp.Packet.{SearchResult, TlcMessage}
use p2p_dapp.Blockchain.{TlcMessages}
use p2p_dapp.Causal.{Modes}
use p2p_dapp.Printing.{
  shown, logged, digits, sprint, encode_to_string, join, add_items, without_last, round_items,
  print_round_message, print_confirm_message, print_search_match_message,
}

-- More rounds than the number change none of its digits.
digits_settle : (f g n : ℕ) → n < f → n < g → digits f n ≡ digits g n
unfolding digits
digits_settle zero g n hf hg = absurd (omega arith)
digits_settle (suc f) zero n hf hg = absurd (omega arith)
digits_settle (suc f) (suc g) n hf hg = elim (Bool-cases (ltb n 10)) [
  | inl small ↦ rw small refl
  | inr big ↦ rw (big, digits_settle f g (n / 10) (ground arith) (ground arith)) refl
]

add_items-join :
    (message item : String) (items : List String) (separator : String)
    → add_items message (item ∷ items) separator
      ≡ (message ++ join (item ∷ items) separator) ++ separator
unfolding add_items join
add_items-join message item [] separator = refl
add_items-join message item (next ∷ items) separator =
    add_items-join ((message ++ item) ++ separator) next items separator
    ∙ ap (λ m. m ++ separator) (simp append_assoc)

without_last-append : (n : ℕ) (s t : String) → len t ≡ n → without_last n (s ++ t) ≡ s
unfolding without_last
without_last-append n s t e =
    ap (slice (s ++ t) 0) (omega (arith, len-append s t)) ∙ slice-append_left s t

listed :
    (n : ℕ) (message item : String) (items : List String) (separator : String)
    → len separator ≡ n
    → without_last n (add_items message (item ∷ items) separator)
      ≡ message ++ join (item ∷ items) separator
listed n message item items separator e =
    ap (without_last n) (add_items-join message item items separator)
    ∙ without_last-append n (message ++ join (item ∷ items) separator) separator e

abbrev pub match_prefix : String → SearchResult → String
match_prefix origin res =
    "FOUND match "
    ++ res.file_name
    ++ " at "
    ++ origin
    ++ " metafile="
    ++ encode_to_string res.metafile_hash
    ++ " chunks"

-- The line before the chunks, whose last character is cut where there are none.
match_line : String → List ℕ → String
match_line before chunks = without_last 1 (add_items before (map sprint chunks) ",")

match_line_lem :
    (origin : String) (res : SearchResult) (chunks : List ℕ) (before : String)
    → before ≡ match_prefix origin res ++ "="
    → match_line before chunks ≡ elim chunks [
      | [] ↦ match_prefix origin res
      | c ∷ cs ↦ (match_prefix origin res ++ "=") ++ join (map sprint (c ∷ cs)) ","
    ]
unfolding match_line add_items
match_line_lem origin res [] before e =
    ap (without_last 1) e ∙ without_last-append 1 (match_prefix origin res) "=" refl
match_line_lem origin res (c ∷ cs) before e =
    listed 1 before (sprint c) (map sprint cs) "," refl
    ∙ ap (λ b. b ++ join (map sprint (c ∷ cs)) ",") e

-- The line of a new round lists the confirmations, the one of a confirmation the witnesses, and the
-- one of a match the chunks, with the separator between any two and none at the end; a match without
-- chunks loses the "=" instead.
pub printed_lists :
    (modes : Modes) (round id : ℕ) (e : String × TlcMessage) (es : TlcMessages) (w : String × ℕ)
    (ws : Dict String ℕ) (origin : String) (res : SearchResult)
    → modes.hw3ex2 ≡ true
    → modes.hw3ex3 ≡ true
    → (print_round_message modes round (e ∷ es)
        ≡ logged (
            ("ADVANCING TO round " ++ sprint round ++ " BASED ON CONFIRMED MESSAGES ")
            ++ join (round_items 1 (e ∷ es)) ", "))
      × (print_confirm_message modes id (w ∷ ws)
          ≡ shown (
              ("RE-BROADCAST ID " ++ sprint id ++ " WITNESSES ")
              ++ join (map (λ (x : String × ℕ). x.0) (w ∷ ws)) ", "))
      × (print_search_match_message origin res
          ≡ shown (elim res.chunk_map [
            | [] ↦ match_prefix origin res
            | c ∷ cs ↦ (match_prefix origin res ++ "=") ++ join (map sprint (c ∷ cs)) ","
          ]))
unfolding print_round_message print_confirm_message print_search_match_message round_items
    match_line
printed_lists modes round id e es w ws origin res ex2 ex3 = (
  rw ex3 (ap logged (listed 2 _ _ (round_items 2 es) ", " refl)),
  rw ex2 (ap shown (listed 2 _ _ (map (λ (x : String × ℕ). x.0) ws) ", " refl)),
  ap shown (match_line_lem origin res res.chunk_map _ (simp append_assoc)),
)
