-- ===== src/Text/Tests.antt =====
-- Tests of the text operations.
use agent_feed.Prelude.{
  [], list_eq, nat_eq, none, option_eq, pair_eq, refl, some, true, ◌==◌, ◌∷◌, ◌≡◌,
}
use agent_feed.Text.{
  chars, contains, decimal, ends_with, hex_padded, parse_unsigned, split_terminator,
  split_whitespace, trim, utf8,
}

split_whitespace_test :
    split_whitespace (chars "  a b  cd ") ≡ chars "a" ∷ chars "b" ∷ chars "cd" ∷ []
unfolding split_whitespace
split_whitespace_test = refl

split_terminator_test :
    split_terminator (λ c. c == b'.') (chars "a.b.") ≡ chars "a" ∷ chars "b" ∷ []
unfolding split_terminator
split_terminator_test = refl

trim_test : trim (chars "  a b ") ≡ chars "a b"
unfolding trim
trim_test = refl

contains_test : contains (chars "hello world") (chars "lo w") ≡ true
unfolding contains
contains_test = refl

ends_with_test : ends_with (chars "secrets/") (chars "s/") ≡ true
unfolding ends_with
ends_with_test = refl

number_tests :
    (decimal 1205 ≡ chars "1205")
    × (decimal 0 ≡ chars "0")
    × (hex_padded 8 255 ≡ chars "000000ff")
    × (parse_unsigned 255 (chars "+75") ≡ some 75)
    × (parse_unsigned 255 (chars "256") ≡ none)
    × (parse_unsigned 255 (chars "") ≡ none)
unfolding decimal hex_padded parse_unsigned
number_tests = (refl, refl, refl, refl, refl, refl)

utf8_test : utf8 (chars "é’a") ≡ 0xC3 ∷ 0xA9 ∷ 0xE2 ∷ 0x80 ∷ 0x99 ∷ b'a' ∷ []
unfolding utf8
utf8_test = refl
