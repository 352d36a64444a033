-- ===== src/Edge/Sessions/Signed.antt =====
-- A session comes from a token that is signed with the secret and not expired.
use mathlib.Core.Path.{subst}
use agent_feed.Edge.Sessions.{
  Deserialize, Int64, SessionTokenClaims, VerifiedSession, hex_decode, is_at_most, parse_int64,
  session_of_parts, session_of_payload, session_of_plain_parts, session_of_token,
  session_payload_signature, session_signature, verify_session_token_v2_with_secret,
  verify_session_token_with_secret,
}
use agent_feed.Edge.Sessions.Laws.{session_of_claims}
use agent_feed.Prelude.{
  ==_iff, Bool-cases, List, [], and_then-eq-some, ap, arith, false, guard-eq-some, if_none-eq-some,
  inl, inr, list_eq, nat_eq, not, option_eq, or-eq-false, pair_eq, refl, some, sym, ℕ, ◌-◌, ◌==◌,
  ◌^◌, ◌||◌, ◌∙◌, ◌∷◌, ◌≡◌, ◌⊎◌,
}
use agent_feed.Proto.Laws.{constant_time_eq_iff}
use agent_feed.Proto.Signing.{Hashes, constant_time_eq}
use agent_feed.Text.{Str, chars, parse_unsigned, split_on, utf8}

module _ ⦃h : Hashes⦄ (secret : Str) (now_unix : Int64) where
  -- The claims of a payload, which are those of a session and have not expired.
  pub record IsPayload ⦃d : Deserialize SessionTokenClaims⦄ (payload : Str)
      (session : VerifiedSession) : Type 0 where
    pub bytes : List ℕ
    pub claims : SessionTokenClaims
    pub decoded : hex_decode payload ≡ some bytes
    pub parsed : d.from_slice bytes ≡ some claims
    pub fresh : is_at_most claims.expires now_unix ≡ false
    pub same : session_of_claims claims ≡ session

  -- The two forms of a token that gives a session: its parts, what they say, its signature.
  pub record IsClaimed ⦃d : Deserialize SessionTokenClaims⦄ (parts : List Str)
      (session : VerifiedSession) : Type 0 where
    pub payload : Str
    pub signature : Str
    pub shape : parts ≡ chars "feedv2" ∷ payload ∷ signature ∷ []
    pub signed : utf8 signature ≡ utf8 (session_payload_signature payload secret)
    pub claimed : IsPayload payload session

  pub record IsPlain (parts : List Str) (session : VerifiedSession) : Type 0 where
    pub id : Str
    pub expiry : Str
    pub signature : Str
    pub expires : Int64
    pub shape : parts ≡ chars "feed" ∷ id ∷ expiry ∷ signature ∷ []
    pub user : parse_unsigned (2 ^ 64 - 1) id ≡ some session.github_user_id
    pub timed : parse_int64 expiry ≡ some expires
    pub signed : utf8 signature ≡ utf8 (session_signature session.github_user_id expires secret)
    pub fresh : is_at_most expires now_unix ≡ false
    pub bare : (session.scopes ≡ []) × (session.github_orgs ≡ []) × (session.github_teams ≡ [])

  module _ ⦃d : Deserialize SessionTokenClaims⦄ where
    session_of_payload-fresh :
        (payload : Str) (session : VerifiedSession)
        → session_of_payload payload now_unix ≡ some session
        → IsPayload payload session
    unfolding session_of_payload session_of_claims
    session_of_payload-fresh payload session given =
        let (bytes, decoded, read) = and_then-eq-some (hex_decode payload) _ session given in
        let (claims, parsed, made) = and_then-eq-some (d.from_slice bytes) _ session read in
        let checked =
          guard-eq-some (is_at_most claims.expires now_unix) (session_of_claims claims) session
            made in
        record {
          bytes = bytes;
          claims = claims;
          decoded = decoded;
          parsed = parsed;
          fresh = checked.0;
          same = checked.1;
        }

    session_of_parts-signed :
        (parts : List Str) (session : VerifiedSession)
        → session_of_parts parts secret now_unix ≡ some session
        → IsClaimed parts session
    unfolding session_of_parts
    session_of_parts-signed [] session given = cc
    session_of_parts-signed (a ∷ []) session given = cc
    session_of_parts-signed (a ∷ b ∷ []) session given = cc
    session_of_parts-signed (a ∷ b ∷ c ∷ e ∷ rest) session given = cc
    session_of_parts-signed (version ∷ payload ∷ signature ∷ []) session given =
        let expected = utf8 (session_payload_signature payload secret) in
        let authentic = constant_time_eq (utf8 signature) expected in
        let (passed, made) =
          if_none-eq-some (not (version == chars "feedv2") || not authentic)
            (session_of_payload payload now_unix) session given in
        let tests = or-eq-false (not (version == chars "feedv2")) (not authentic) passed in
        let named : version ≡ chars "feedv2" =
          (==_iff version (chars "feedv2")).0 (ground (arith, tests.0)) in
        record {
          payload = payload;
          signature = signature;
          shape = ap (λ v. v ∷ payload ∷ signature ∷ []) named;
          signed = (constant_time_eq_iff (utf8 signature) expected).0 (ground (arith, tests.1));
          claimed = session_of_payload-fresh payload session made;
        }

  session_of_plain_parts-signed :
      (parts : List Str) (session : VerifiedSession)
      → session_of_plain_parts parts secret now_unix ≡ some session
      → IsPlain (chars "feed" ∷ parts) session
  unfolding session_of_plain_parts
  session_of_plain_parts-signed [] session given = cc
  session_of_plain_parts-signed (a ∷ []) session given = cc
  session_of_plain_parts-signed (a ∷ b ∷ []) session given = cc
  session_of_plain_parts-signed (a ∷ b ∷ c ∷ e ∷ rest) session given = cc
  session_of_plain_parts-signed (id ∷ expiry ∷ signature ∷ []) session given =
      let (user, named, timed) =
        and_then-eq-some (parse_unsigned (2 ^ 64 - 1) id) _ session given in
      let (expires, read, made) = and_then-eq-some (parse_int64 expiry) _ session timed in
      let expected = utf8 (session_signature user expires secret) in
      let authentic = constant_time_eq (utf8 signature) expected in
      let blank : VerifiedSession = record {
        github_user_id = user;
        scopes = [];
        github_orgs = [];
        github_teams = [];
      } in
      let (passed, same) =
        guard-eq-some (is_at_most expires now_unix || not authentic) blank session made in
      let tests = or-eq-false (is_at_most expires now_unix) (not authentic) passed in
      let signed = (constant_time_eq_iff (utf8 signature) expected).0 (ground (arith, tests.1)) in
      record {
        id = id;
        expiry = expiry;
        signature = signature;
        expires = expires;
        shape = refl;
        user = named ∙ ap (λ (s : VerifiedSession). some s.github_user_id) same;
        timed = read;
        signed =
            signed
            ∙ ap (λ (s : VerifiedSession). utf8 (session_signature s.github_user_id expires secret))
                same;
        fresh = tests.0;
        bare = (
          sym (ap (λ (s : VerifiedSession). s.scopes) same),
          sym (ap (λ (s : VerifiedSession). s.github_orgs) same),
          sym (ap (λ (s : VerifiedSession). s.github_teams) same),
        );
      }

  module _ ⦃d : Deserialize SessionTokenClaims⦄ where
    session_of_token-signed :
        (token : Str) (parts : List Str) (session : VerifiedSession)
        → session_of_token token parts secret now_unix ≡ some session
        → IsClaimed (split_on b'.' token) session ⊎ IsPlain parts session
    unfolding session_of_token verify_session_token_v2_with_secret
    session_of_token-signed token [] session given = cc
    session_of_token-signed token (version ∷ parts) session given =
        elim (Bool-cases (version == chars "feed")) [
          | inl plain ↦
              let named = (==_iff version (chars "feed")).0 plain in
              inr (
                subst (λ v. IsPlain (v ∷ parts) session) (sym named)
                  (session_of_plain_parts-signed parts session (ground (arith, plain, given))))
          | inr other ↦
              inl (
                session_of_parts-signed (split_on b'.' token) session
                  (ground (arith, other, given)))
        ]

    -- A token that gives a session has one of two forms, and its signature is the one that the
    -- secret gives of it. In the second version its payload decodes to claims that expire after the
    -- time of the check, and the session is the one that these claims stand for. In the first
    -- version its user id is that of the session, the expiry written in it lies after the time of
    -- the check, and the session has no scopes, no organisations and no teams.
    pub verify_session_token-signed :
        (token : Str) (session : VerifiedSession)
        → verify_session_token_with_secret token secret now_unix ≡ some session
        → IsClaimed (split_on b'.' token) session ⊎ IsPlain (split_on b'.' token) session
    unfolding verify_session_token_with_secret
    verify_session_token-signed token session given =
        session_of_token-signed token (split_on b'.' token) session given
