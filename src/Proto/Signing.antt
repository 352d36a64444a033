-- ===== src/Proto/Signing.antt =====
-- `Signature` and `Signed`. The hashes (the crates sha2 and hmac) and the JSON of a value (the
-- crate serde_json, which can fail) are parameters.
use agent_feed.Prelude.{
  Bool, List, Option, [], bit_or, bit_xor, false, if◌then◌else◌, length, list_eq, ltb, map_option,
  nat_eq, not, option_eq, pair_eq, ℕ, ◌%◌, ◌&&◌, ◌++◌, ◌+◌, ◌-◌, ◌/◌, ◌==◌, ◌∷◌,
}
use agent_feed.Text.{Str, chars, utf8}

-- `Sha256::digest` and HMAC-SHA256 of a key and a message, over bytes.
pub record Hashes : Type 0 where
  pub sha256 : List ℕ → List ℕ
  pub hmac_sha256 : List ℕ → List ℕ → List ℕ

-- `serde_json::to_vec`
pub record Serialize (T : Type 0) : Type 0 where
  pub to_vec : T → Option (List ℕ)

pub record Signature : Type 0 where
  pub key_id : Str
  pub digest : Str

-- The derived `PartialEq`.
abbrev pub signature_beq : Signature → Signature → Bool
signature_beq a b = a.key_id == b.key_id && a.digest == b.digest

unfoldable pub unsigned : Signature
unsigned = record { key_id = chars "unsigned"; digest = [] }

abbrev pub signature_domain : List ℕ
signature_domain = chars "agent-feed-signature-v1"

abbrev pub hex_digit : ℕ → ℕ
hex_digit n = if ltb n 10 then b'0' + n else b'a' + (n - 10)

-- The hexadecimal digits of the bytes, high digit first.
unfoldable pub hex_lower : List ℕ → Str
hex_lower [] = []
hex_lower (byte ∷ bytes) = hex_digit (byte / 16) ∷ hex_digit (byte % 16) ∷ hex_lower bytes

-- `left.iter().zip(right).fold(0u8, …)`
unfoldable pub fold_differences : ℕ → List ℕ → List ℕ → ℕ
fold_differences acc (left ∷ lefts) (right ∷ rights) =
    fold_differences (bit_or acc (bit_xor left right)) lefts rights
fold_differences acc _ _ = acc

unfoldable pub constant_time_eq : List ℕ → List ℕ → Bool
constant_time_eq left right =
    if not (length left == length right) then false else fold_differences 0 left right == 0

module _ ⦃h : Hashes⦄ where
  unfoldable pub sha256_signature_digest : Str → List ℕ → Str
  sha256_signature_digest key_id payload =
      chars "sha256:"
      ++ hex_lower (
          h.sha256 (
            signature_domain
            ++ (0 ∷ [])
            ++ chars "sha256"
            ++ (0 ∷ [])
            ++ utf8 key_id
            ++ (0 ∷ [])
            ++ payload))

  unfoldable pub hmac_signature_digest : Str → Str → List ℕ → Str
  hmac_signature_digest key_id secret payload =
      chars "hmac-sha256:"
      ++ hex_lower (
          h.hmac_sha256 (utf8 secret) (
            signature_domain
            ++ (0 ∷ [])
            ++ chars "hmac-sha256"
            ++ (0 ∷ [])
            ++ utf8 key_id
            ++ (0 ∷ [])
            ++ payload))

  module _ {T : Type 0} ⦃s : Serialize T⦄ where
    -- `None` is the error of the serialisation.
    unfoldable pub for_value : Str → T → Option Signature
    for_value key_id value =
        map_option
          (λ payload. record { key_id = key_id; digest = sha256_signature_digest key_id payload })
          (s.to_vec value)

    unfoldable pub for_value_hmac : Str → Str → T → Option Signature
    for_value_hmac key_id secret value =
        map_option
          (λ payload. record {
            key_id = key_id;
            digest = hmac_signature_digest key_id secret payload;
          })
          (s.to_vec value)

    unfoldable pub verify_value : Signature → T → Option Bool
    verify_value signature value =
        map_option (λ expected. signature_beq expected signature) (for_value signature.key_id value)

    unfoldable pub verify_value_hmac : Signature → Str → T → Option Bool
    verify_value_hmac signature secret value =
        map_option (λ expected. constant_time_eq (utf8 expected.digest) (utf8 signature.digest))
          (for_value_hmac signature.key_id secret value)

pub record Signed (T : Type 0) : Type 0 where
  pub value : T
  pub signature : Signature

module _ ⦃h : Hashes⦄ {T : Type 0} ⦃s : Serialize T⦄ where
  unfoldable pub sign : T → Str → Option (Signed T)
  sign value key_id =
      map_option (λ signature. record { value = value; signature = signature })
        (for_value key_id value)

  unfoldable pub verify : Signed T → Option Bool
  verify signed = verify_value signed.signature signed.value

  unfoldable pub sign_with_secret : T → Str → Str → Option (Signed T)
  sign_with_secret value key_id secret =
      map_option (λ signature. record { value = value; signature = signature })
        (for_value_hmac key_id secret value)

  unfoldable pub verify_with_secret : Signed T → Str → Option Bool
  verify_with_secret signed secret = verify_value_hmac signed.signature secret signed.value
