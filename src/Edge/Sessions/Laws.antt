-- ===== src/Edge/Sessions/Laws.antt =====
-- A token that is issued gives its session.
use mathlib.Core.List.{append_assoc}
use agent_feed.Edge.Sessions.{
  Deserialize, Int64, SessionTokenClaims, VerifiedSession, hex_encode, is_at_most,
  issue_session_token_with_claims, session_of_parts, session_of_payload, session_of_token,
  session_payload_signature, verify_session_token_v2_with_secret, verify_session_token_with_secret,
}
use agent_feed.Edge.Sessions.Hex.{
  hex_decode-hex_encode, hex_encode-plain, hex_lower-plain, split_on-append, split_on-plain,
}
use agent_feed.Prelude.{
  All, List, [], ap, arith, false, list_beq, list_ord, nat_ord, option_ord, pair_ord, refl,
  set_extend, some, some_injective, sym, true, ℕ, ◌++◌, ◌<◌, ◌∙◌, ◌∷◌, ◌≡◌,
}
use agent_feed.Proto.Laws.{constant_time_eq_iff}
use agent_feed.Proto.Signing.{Hashes, Serialize, constant_time_eq}
use agent_feed.Text.{Str, chars, split_on, utf8}

-- The session that claims stand for.
unfoldable pub session_of_claims : SessionTokenClaims → VerifiedSession
session_of_claims claims = record {
  github_user_id = claims.github_user_id;
  scopes = set_extend [] claims.scopes;
  github_orgs = set_extend [] claims.github_orgs;
  github_teams = set_extend [] claims.github_teams;
}

module _ ⦃h : Hashes⦄ ⦃s : Serialize SessionTokenClaims⦄ ⦃d : Deserialize SessionTokenClaims⦄
    (secret : Str) (now_unix : Int64) where
  session_of_parts-issued :
      (bytes : List ℕ) (claims : SessionTokenClaims)
      → All (λ b. b < 256) bytes
      → d.from_slice bytes ≡ some claims
      → is_at_most claims.expires now_unix ≡ false
      → session_of_parts
          (chars "feedv2"
            ∷ hex_encode bytes
            ∷ session_payload_signature (hex_encode bytes) secret
            ∷ [])
          secret
          now_unix
        ≡ some (session_of_claims claims)
  unfolding session_of_parts session_of_payload session_of_claims list_beq
  session_of_parts-issued bytes claims small read fresh =
      let signature = utf8 (session_payload_signature (hex_encode bytes) secret) in
      let signed : constant_time_eq signature signature ≡ true =
        (constant_time_eq_iff signature signature).1 refl in
      rw (signed, hex_decode-hex_encode bytes small, read, fresh) refl

  issued-parts :
      (bytes : List ℕ)
      → All (λ b. b < 256) bytes
      → let payload = hex_encode bytes in
        let signature = session_payload_signature payload secret in
        split_on b'.' (chars "feedv2." ++ payload ++ chars "." ++ signature)
        ≡ chars "feedv2" ∷ payload ∷ signature ∷ []
  unfolding session_payload_signature
  issued-parts bytes small =
      let payload = hex_encode bytes in
      let signature = session_payload_signature payload secret in
      let tail : (payload ++ chars ".") ++ signature ≡ payload ++ b'.' ∷ signature =
        append_assoc payload (chars ".") signature in
      split_on-append b'.' (chars "feedv2") (payload ++ chars "." ++ signature)
        (omega arith, (omega arith, (omega arith, (omega arith, (omega arith, (omega arith, tt))))))
      ∙ ap (λ rest. chars "feedv2" ∷ split_on b'.' rest) tail
      ∙ ap (λ parts. chars "feedv2" ∷ parts)
          (split_on-append b'.' payload signature (hex_encode-plain bytes small)
            ∙ ap (λ parts. payload ∷ parts) (split_on-plain b'.' signature (hex_lower-plain _)))

  -- A token that is issued with claims gives the session of the claims until it expires, where the
  -- encoding of the claims gives bytes and reads back to the claims.
  pub verify_session_token-issued :
      (claims : SessionTokenClaims) (bytes : List ℕ) (token : Str)
      → s.to_vec claims ≡ some bytes
      → All (λ b. b < 256) bytes
      → d.from_slice bytes ≡ some claims
      → is_at_most claims.expires now_unix ≡ false
      → issue_session_token_with_claims claims secret ≡ some token
      → verify_session_token_with_secret token secret now_unix ≡ some (session_of_claims claims)
  unfolding issue_session_token_with_claims verify_session_token_with_secret session_of_token
      verify_session_token_v2_with_secret list_beq
  verify_session_token-issued claims bytes token written small read fresh issued =
      let payload = hex_encode bytes in
      let signature = session_payload_signature payload secret in
      let made : issue_session_token_with_claims claims secret
          ≡ some (chars "feedv2." ++ payload ++ chars "." ++ signature) =
        rw written refl in
      let same : chars "feedv2." ++ payload ++ chars "." ++ signature ≡ token =
        some_injective (sym made ∙ issued) in
      let parts = sym (ap (split_on b'.') same) ∙ issued-parts bytes small in
      rw parts (rw parts (session_of_parts-issued bytes claims small read fresh))
