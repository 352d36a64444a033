-- ===== src/Proto/Laws.antt =====
-- The compatibility of two peers, and the verification of signatures.
use mathlib.Core.Path.{subst}
use agent_feed.Prelude.{
  ==_iff, ==_refl, List, Option-cases, [], ap, arith, bit_or, bit_or_zero_iff, bit_xor,
  bit_xor_zero_iff, inl, inr, length, list_eq, nat_eq, option_eq, pair_eq, refl, some,
  some_injective, sym, true, ℕ, ◌↔◌, ◌∷◌, ◌≡◌,
}
use agent_feed.Proto.Compatibility.{
  ProtocolCompatibility, compatibility_message, is_compatible_with, status_with,
}
use agent_feed.Proto.Signing.{
  Hashes, Serialize, Signature, Signed, constant_time_eq, fold_differences, for_value,
  for_value_hmac, hmac_signature_digest, sha256_signature_digest, sign, sign_with_secret,
  signature_beq, verify, verify_value, verify_value_hmac, verify_with_secret,
}
use agent_feed.Text.{Str, chars, utf8}

-- Whether two peers are compatible does not depend on which of them asks.
pub is_compatible_with_sym :
    (local remote : ProtocolCompatibility)
    → is_compatible_with local remote ≡ is_compatible_with remote local
unfolding is_compatible_with
is_compatible_with_sym local remote =
    let symmetric : (local.product ≡ remote.product) ↔ (remote.product ≡ local.product) =
      (sym, sym) in
    ground
      (arith, ==_iff local.product remote.product, ==_iff remote.product local.product, symmetric)

-- The message of a status says `compatible` if and only if the peers are compatible.
pub status_with-compatible_iff :
    (local remote : ProtocolCompatibility)
    → ((status_with local remote).message ≡ chars "compatible")
      ↔ ((status_with local remote).compatible ≡ true)
unfolding status_with compatibility_message
status_with-compatible_iff local remote = ground arith

pub signature_beq_refl : (a : Signature) → signature_beq a a ≡ true
signature_beq_refl a = ground (arith, ==_refl a.key_id, ==_refl a.digest)

-- The fold is zero if and only if it began at zero and the lists agree.
fold_differences_zero_iff :
    (acc : ℕ) (lefts rights : List ℕ)
    → length lefts ≡ length rights
    → (fold_differences acc lefts rights ≡ 0) ↔ (acc ≡ 0) × (lefts ≡ rights)
unfolding fold_differences
fold_differences_zero_iff acc [] [] h = (λ e. (e, refl), λ e. e.0)
fold_differences_zero_iff acc [] (y ∷ ys) h = absurd (omega arith)
fold_differences_zero_iff acc (x ∷ xs) [] h = absurd (omega arith)
fold_differences_zero_iff acc (x ∷ xs) (y ∷ ys) h =
    let rest = fold_differences_zero_iff (bit_or acc (bit_xor x y)) xs ys (omega arith) in
    ground (arith, rest, bit_or_zero_iff acc (bit_xor x y), bit_xor_zero_iff x y)

pub constant_time_eq_iff :
    (left right : List ℕ) → (constant_time_eq left right ≡ true) ↔ (left ≡ right)
unfolding constant_time_eq
constant_time_eq_iff left right =
    let lengths : left ≡ right → length left ≡ length right = ap length in
    ground (arith, fold_differences_zero_iff 0 left right, lengths)

module _ ⦃h : Hashes⦄ {T : Type 0} ⦃s : Serialize T⦄ where
  -- A value whose signature is made by `sign` verifies.
  pub verify-sign :
      (value : T) (key_id : Str) (signed : Signed T)
      → sign value key_id ≡ some signed
      → verify signed ≡ some true
  unfolding sign verify verify_value for_value
  verify-sign value key_id signed e = elim (Option-cases (s.to_vec value)) [
    | inl lost ↦ cc (e, lost)
    | inr (payload, made) ↦
        let signature : Signature = record {
          key_id = key_id;
          digest = sha256_signature_digest key_id payload;
        } in
        let same : record { value = value; signature = signature } ≡ signed =
          some_injective (cc (e, made)) in
        subst (λ x. verify x ≡ some true) same (rw made (ap some (signature_beq_refl signature)))
  ]

  -- Where the value is encoded, a signature with a secret is accepted if and only if its digest is
  -- the keyed digest of the value, byte for byte.
  pub verify_with_secret_iff :
      (signed : Signed T) (secret : Str) (payload : List ℕ)
      → s.to_vec signed.value ≡ some payload
      → (verify_with_secret signed secret ≡ some true) ↔ (
          utf8 (hmac_signature_digest signed.signature.key_id secret payload)
          ≡ utf8 signed.signature.digest)
  unfolding verify_with_secret verify_value_hmac for_value_hmac
  verify_with_secret_iff signed secret payload e =
      let digest = hmac_signature_digest signed.signature.key_id secret payload in
      let test = constant_time_eq_iff (utf8 digest) (utf8 signed.signature.digest) in
      rw e (λ p. test.0 (some_injective p), λ q. ap some (test.1 q))

  -- A value signed with a secret verifies with that secret.
  pub verify_with_secret-sign_with_secret :
      (value : T) (key_id secret : Str) (signed : Signed T)
      → sign_with_secret value key_id secret ≡ some signed
      → verify_with_secret signed secret ≡ some true
  unfolding sign_with_secret for_value_hmac
  verify_with_secret-sign_with_secret value key_id secret signed e =
      elim (Option-cases (s.to_vec value)) [
        | inl lost ↦ cc (e, lost)
        | inr (payload, made) ↦
            let signature : Signature = record {
              key_id = key_id;
              digest = hmac_signature_digest key_id secret payload;
            } in
            let same : record { value = value; signature = signature } ≡ signed =
              some_injective (cc (e, made)) in
            subst (λ x. verify_with_secret x secret ≡ some true) same
              ((verify_with_secret_iff (record { value = value; signature = signature }) secret
                  payload made).1
                refl)
      ]
