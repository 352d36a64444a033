-- ===== src/Proto/Capsule/Laws.antt =====
-- A signed capsule verifies, under a digest and under a secret.
use mathlib.Core.Path.{subst}
use agent_feed.Prelude.{
  Option-cases, ap, inl, inr, map_option-eq-some, some, some_injective, true, ◌≡◌,
}
use agent_feed.Proto.Capsule.{
  CapsuleContent, StoryCapsule, content_hash_for, content_of, hash_content, sign_capsule,
  sign_story_capsule, verify_capsule, verify_story_capsule,
}
use agent_feed.Proto.Compatibility.{current, is_compatible_with}
use agent_feed.Proto.Laws.{signature_beq_refl}
use agent_feed.Proto.Signing.{
  Hashes, Serialize, Signature, Signed, for_value, sha256_signature_digest, unsigned, verify_value,
}
use agent_feed.Text.{Str}

module _ ⦃h : Hashes⦄ ⦃s : Serialize StoryCapsule⦄ ⦃c : Serialize CapsuleContent⦄
    (version : Str) where
  -- The capsule that is signed: without a signature, and with the hash of its content.
  hash_content-eq :
      (capsule hashed : StoryCapsule)
      → hash_content capsule ≡ some hashed
      → (hash : Str) × (record capsule { content_hash = hash } ≡ hashed)
  unfolding hash_content
  hash_content-eq capsule hashed e =
      map_option-eq-some _ (content_hash_for (content_of capsule)) hashed e

  -- A capsule of a compatible version that `sign_capsule` signs verifies.
  pub verify_capsule-sign_capsule :
      (capsule : StoryCapsule) (key_id : Str) (signed : Signed StoryCapsule)
      → is_compatible_with (current version) capsule.compatibility ≡ true
      → sign_capsule capsule key_id ≡ some signed
      → verify_capsule version signed ≡ some true
  unfolding sign_capsule sign_story_capsule verify_capsule verify_story_capsule verify_value
      for_value
  verify_capsule-sign_capsule capsule key_id signed compatible e =
      let blank = record capsule { signature = unsigned } in
      elim (Option-cases (hash_content blank)) [
        | inl lost ↦ cc (e, lost)
        | inr (hashed, made) ↦
            let (hash, shape) = hash_content-eq blank hashed made in
            let whole : StoryCapsule = record blank { content_hash = hash } in
            elim (Option-cases (s.to_vec whole)) [
              | inl lost ↦ absurd (cc (e, made, shape, lost))
              | inr (payload, told) ↦
                  let signature : Signature = record {
                    key_id = key_id;
                    digest = sha256_signature_digest key_id payload;
                  } in
                  let value : StoryCapsule = record whole { signature = signature } in
                  let same : record { value = value; signature = signature } ≡ signed =
                    some_injective (cc (e, made, shape, told)) in
                  subst (λ x. verify_capsule version x ≡ some true) same
                    (rw (signature_beq_refl signature, compatible, told)
                      (ap some (signature_beq_refl signature)))
            ]
      ]
