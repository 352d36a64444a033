-- ===== src/Edge/Sessions/Hex.antt =====
-- The hexadecimal text of bytes reads back to the bytes.
use agent_feed.Edge.Sessions.{hex_byte, hex_decode, hex_encode, hex_pairs, hex_value}
use agent_feed.Prelude.{
  ==_refl, All, Bool-cases, List, [], ap, arith, false, inl, inr, list_eq, ltb, nat_eq, option_eq,
  pair_eq, refl, some, suc, true, zero, ℕ, ◌%◌, ◌*◌, ◌++◌, ◌+◌, ◌/◌, ◌<◌, ◌==◌, ◌∷◌, ◌≡◌,
}
use agent_feed.Proto.Signing.{hex_digit, hex_lower}
use agent_feed.Text.{Str, digits_from, hex_padded, split_by, split_on, utf8, utf8_char}

-- A hexadecimal digit in lower case: its value, and what it is not.
pub record IsHex (c : ℕ) : Type 0 where
  pub ascii : c < 128
  pub plain : b'.' < c

hex_padded-byte :
    (byte : ℕ) → byte < 256 → hex_padded 2 byte ≡ hex_digit (byte / 16) ∷ hex_digit (byte % 16) ∷ []
unfolding hex_padded digits_from
hex_padded-byte zero small = refl
hex_padded-byte (suc k) small =
    let byte = suc k in
    elim (Bool-cases (byte / 16 == 0)) [
      | inl low ↦ let zero_high : byte / 16 ≡ 0 = ground arith in rw (low, zero_high) refl
      | inr high ↦
          let one_more : (byte / 16 / 16 == 0) ≡ true = ground arith in
          let whole : byte / 16 % 16 ≡ byte / 16 = omega arith in rw (high, one_more, whole) refl
    ]

hex_value-hex_digit : (d : ℕ) → d < 16 → hex_value (hex_digit d) ≡ some d
unfolding hex_value
hex_value-hex_digit d small = ground arith

hex_digit-IsHex : (d : ℕ) → d < 16 → IsHex (hex_digit d)
hex_digit-IsHex d small = record { ascii = ground arith; plain = ground arith }

hex_byte-hex_digits :
    (byte : ℕ) → byte < 256 → hex_byte (hex_digit (byte / 16)) (hex_digit (byte % 16)) ≡ some byte
unfolding hex_byte
hex_byte-hex_digits byte small =
    let high = hex_value-hex_digit (byte / 16) (omega arith) in
    let low = hex_value-hex_digit (byte % 16) (omega arith) in
    let no_sign : (hex_digit (byte / 16) == b'+') ≡ false =
      ground (arith, hex_digit-IsHex (byte / 16) (omega arith)) in
    let whole : byte / 16 * 16 + byte % 16 ≡ byte = omega arith in
    rw (high, low, no_sign) (ap some whole)

hex_pairs-hex_encode :
    (bytes : List ℕ) → All (λ b. b < 256) bytes → hex_pairs (hex_encode bytes) ≡ some bytes
unfolding hex_encode hex_pairs
hex_pairs-hex_encode [] small = refl
hex_pairs-hex_encode (byte ∷ bytes) small =
    rw
      (
        hex_padded-byte byte small.0,
        hex_byte-hex_digits byte small.0,
        hex_pairs-hex_encode bytes small.1,
      )
      refl

hex_encode-IsHex : (bytes : List ℕ) → All (λ b. b < 256) bytes → All IsHex (hex_encode bytes)
unfolding hex_encode
hex_encode-IsHex [] small = tt
hex_encode-IsHex (byte ∷ bytes) small = rw (hex_padded-byte byte small.0) (
  hex_digit-IsHex (byte / 16) (omega (arith, small.0)),
  (hex_digit-IsHex (byte % 16) (omega arith), hex_encode-IsHex bytes small.1),
)

utf8-IsHex : (s : Str) → All IsHex s → utf8 s ≡ s
unfolding utf8 utf8_char
utf8-IsHex [] ascii = refl
utf8-IsHex (c ∷ s) ascii =
    let low = ascii.0.ascii in
    let test : ltb c 0x80 ≡ true = ground (arith, low) in rw (test, utf8-IsHex s ascii.1) refl

-- Bytes in hexadecimal read back to the bytes.
pub hex_decode-hex_encode :
    (bytes : List ℕ) → All (λ b. b < 256) bytes → hex_decode (hex_encode bytes) ≡ some bytes
unfolding hex_decode
hex_decode-hex_encode bytes small =
    rw (utf8-IsHex (hex_encode bytes) (hex_encode-IsHex bytes small))
      (hex_pairs-hex_encode bytes small)

plain_of : (s : Str) → All IsHex s → All (λ c. b'.' < c) s
plain_of [] hex = tt
plain_of (c ∷ s) hex = (hex.0.plain, plain_of s hex.1)

-- Neither text has a dot in it.
pub hex_encode-plain :
    (bytes : List ℕ) → All (λ b. b < 256) bytes → All (λ c. b'.' < c) (hex_encode bytes)
hex_encode-plain bytes small = plain_of (hex_encode bytes) (hex_encode-IsHex bytes small)

pub hex_lower-plain : (bytes : List ℕ) → All (λ c. b'.' < c) (hex_lower bytes)
unfolding hex_lower
hex_lower-plain [] = tt
hex_lower-plain (byte ∷ bytes) = (ground arith, (ground arith, hex_lower-plain bytes))

module _ (sep : ℕ) where
  pub split_on-plain : (s : Str) → All (λ c. sep < c) s → split_on sep s ≡ s ∷ []
  unfolding split_on split_by
  split_on-plain [] plain = refl
  split_on-plain (c ∷ s) plain =
      let other : (c == sep) ≡ false = ground (arith, plain.0) in
      rw (other, split_on-plain s plain.1) refl

  pub split_on-append :
      (s rest : Str) → All (λ c. sep < c) s → split_on sep (s ++ sep ∷ rest) ≡ s ∷ split_on sep rest
  unfolding split_on split_by
  split_on-append [] rest plain = rw (==_refl sep) refl
  split_on-append (c ∷ s) rest plain =
      let other : (c == sep) ≡ false = ground (arith, plain.0) in
      rw (other, split_on-append s rest plain.1) refl
