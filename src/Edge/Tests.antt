-- ===== src/Edge/Tests.antt =====
-- Runs of the sessions and of the policies, over hashes and an encoding that are easy to compute.
mod Snapshots
use mathlib.Core.List.{reverse}
use agent_feed.Edge.Access.{NetworkPublishRequest}
use agent_feed.Edge.Sessions.{
  Deserialize, Int64, SessionTokenClaims, VerifiedSession, hex_byte, hex_decode, hex_encode,
  hex_pairs, hex_value, is_at_most, issue_session_token_with_claims, session_of_parts,
  session_of_payload, session_of_token, session_payload_signature,
  verify_session_token_v2_with_secret, verify_session_token_with_secret,
}
use agent_feed.Edge.Sessions.Laws.{session_of_claims, verify_session_token-issued}
use agent_feed.Edge.Sessions.Signed.{IsClaimed, IsPlain, verify_session_token-signed}
use agent_feed.Prelude.{
  [], arith, list_beq, list_cmp, list_ord, nat_ord, none, option_ord, pair_ord, refl, set_extend,
  set_insert, some, take, ◌∷◌, ◌≡◌, ◌⊎◌,
}
use agent_feed.Proto.{FeedVisibility}
use agent_feed.Proto.Signing.{Hashes, Serialize, constant_time_eq, fold_differences, hex_lower}
use agent_feed.Text.{Str, chars, digits_from, hex_padded, split_by, split_on, utf8, utf8_char}

instance abbrev edge_hashes : Hashes
edge_hashes = record {
  sha256 = λ payload. payload;
  hmac_sha256 = λ secret payload. take 4 (reverse payload);
}

abbrev ada_claims : SessionTokenClaims
ada_claims = record {
  github_user_id = 7;
  expires = Int64.pos 100;
  scopes = chars "read:org" ∷ [];
  github_orgs = chars "acme" ∷ [];
  github_teams = chars "acme/core" ∷ [];
}

instance abbrev claims_json : Serialize SessionTokenClaims
claims_json = record { to_vec = λ claims. some (0x7B ∷ 0xFA ∷ []) }

instance abbrev claims_of_json : Deserialize SessionTokenClaims
claims_of_json = record { from_slice = λ bytes. some ada_claims }

abbrev ada : VerifiedSession
ada = record {
  github_user_id = 7;
  scopes = chars "read:org" ∷ [];
  github_orgs = chars "acme" ∷ [];
  github_teams = chars "acme/core" ∷ [];
}

abbrev ada_token : Str
ada_token = chars "feedv2.7bfa.61666237"

compute_session : Unit {0}
unfolding issue_session_token_with_claims session_payload_signature hex_encode hex_padded
    digits_from hex_lower utf8 utf8_char verify_session_token_with_secret session_of_token
    verify_session_token_v2_with_secret session_of_parts session_of_payload hex_decode hex_pairs
    hex_byte hex_value split_on split_by list_beq constant_time_eq fold_differences is_at_most
    set_extend set_insert list_cmp
compute_session = tt

ada_is_issued : issue_session_token_with_claims ada_claims (chars "key") ≡ some ada_token
unfolding compute_session
ada_is_issued = refl

ada_is_verified : verify_session_token_with_secret ada_token (chars "key") (Int64.pos 50) ≡ some ada
unfolding compute_session
ada_is_verified = refl

expired : verify_session_token_with_secret ada_token (chars "key") (Int64.pos 100) ≡ none
unfolding compute_session
expired = refl

-- A `+` stands for a digit in the hexadecimal text.
signed_digit : hex_decode (chars "+f") ≡ some (15 ∷ [])
unfolding compute_session
signed_digit = refl

verify_session_token-issued_example :
    verify_session_token_with_secret ada_token (chars "key") (Int64.pos 50)
    ≡ some (session_of_claims ada_claims)
unfolding compute_session
verify_session_token-issued_example =
    verify_session_token-issued (chars "key") (Int64.pos 50) ada_claims (0x7B ∷ 0xFA ∷ []) ada_token
      refl (omega arith, (omega arith, tt)) refl refl ada_is_issued

verify_session_token-signed_example :
    IsClaimed (chars "key") (Int64.pos 50) (split_on b'.' ada_token) ada
    ⊎ IsPlain (chars "key") (Int64.pos 50) (split_on b'.' ada_token) ada
verify_session_token-signed_example =
    verify_session_token-signed (chars "key") (Int64.pos 50) ada_token ada ada_is_verified

abbrev org_request : NetworkPublishRequest
org_request = record {
  network_id = none;
  compatibility = none;
  feed_name = none;
  feed_id = none;
  publisher = none;
  visibility = some FeedVisibility.github_org;
  github_org = some (chars " Acme ");
  github_team = none;
  capsules = [];
}
