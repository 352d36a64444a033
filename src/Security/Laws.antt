-- ===== src/Security/Laws.antt =====
-- The comparison of tokens.
use agent_feed.Prelude.{
  List, [], ap, arith, bit_or, bit_or_zero_iff, bit_xor, bit_xor_zero_iff, length, refl, true, ℕ,
  ◌↔◌, ◌∷◌, ◌≡◌,
}
use agent_feed.Security.{differences, token_matches}
use agent_feed.Text.{Str, utf8}

-- The fold is zero if and only if it began at zero and the lists agree.
differences_zero_iff :
    (acc : ℕ) (lefts rights : List ℕ)
    → length lefts ≡ length rights
    → (differences acc lefts rights ≡ 0) ↔ (acc ≡ 0) × (lefts ≡ rights)
unfolding differences
differences_zero_iff acc [] [] h = (λ e. (e, refl), λ e. e.0)
differences_zero_iff acc [] (y ∷ ys) h = absurd (omega arith)
differences_zero_iff acc (x ∷ xs) [] h = absurd (omega arith)
differences_zero_iff acc (x ∷ xs) (y ∷ ys) h =
    let rest = differences_zero_iff (bit_or acc (bit_xor x y)) xs ys (omega arith) in
    ground (arith, rest, bit_or_zero_iff acc (bit_xor x y), bit_xor_zero_iff x y)

-- `token_matches` accepts a token if and only if its bytes are those of the expected token.
pub token_matches_iff :
    (expected actual : Str) → (token_matches expected actual ≡ true) ↔ (utf8 expected ≡ utf8 actual)
unfolding token_matches
token_matches_iff expected actual =
    let lengths : utf8 expected ≡ utf8 actual → length (utf8 expected) ≡ length (utf8 actual) =
      ap length in
    ground (arith, differences_zero_iff 0 (utf8 expected) (utf8 actual), lengths)
