-- ===== src/Edge/Sessions.antt =====
-- The tokens of a session: their claims, their signatures and their verification.
pub mod Laws
pub mod Hex
pub mod Signed
use agent_feed.Identity.{GithubOrgName, GithubTeamSlug}
use agent_feed.Prelude.{
  Bool, List, Option, [], and_then, any_eq, false, if◌then◌else◌, leb, list_eq, list_ord,
  map_option, nat_eq, nat_ord, none, not, option_eq, option_ord, pair_eq, pair_ord, set_extend,
  some, suc, true, zero, ℕ, ◌&&◌, ◌*◌, ◌++◌, ◌+◌, ◌-◌, ◌==◌, ◌^◌, ◌||◌, ◌∷◌,
}
use agent_feed.Proto.Signing.{Hashes, Serialize, constant_time_eq, hex_lower}
use agent_feed.Text.{
  Str, chars, decimal, hex_padded, parse_unsigned, split_on, starts_with, to_ascii_lowercase, utf8,
}

-- An i64: a number, or the number below minus one.
pub data Int64 : Type 0 where
  pos : ℕ → Int64
  negsuc : ℕ → Int64

unfoldable pub is_at_most : Int64 → Int64 → Bool
is_at_most (Int64.pos a) (Int64.pos b) = leb a b
is_at_most (Int64.pos a) (Int64.negsuc b) = false
is_at_most (Int64.negsuc a) (Int64.pos b) = true
is_at_most (Int64.negsuc a) (Int64.negsuc b) = leb b a

unfoldable pub int_text : Int64 → Str
int_text (Int64.pos a) = decimal a
int_text (Int64.negsuc a) = b'-' ∷ decimal (suc a)

abbrev pub negated : ℕ → Int64
negated zero = Int64.pos 0
negated (suc n) = Int64.negsuc n

-- `parse::<i64>()`: one sign is allowed, then digits within the range.
unfoldable pub parse_int64 : Str → Option Int64
parse_int64 [] = none
parse_int64 (c ∷ s) =
    if not (c == b'-')
    then map_option Int64.pos (parse_unsigned (2 ^ 63 - 1) (c ∷ s))
    else if starts_with s (chars "+")
    then none
    else map_option negated (parse_unsigned (2 ^ 63) s)

-- The sets are BTreeSets of names in lower case; a team is `org/team`.
pub record VerifiedSession : Type 0 where
  pub github_user_id : ℕ
  pub scopes : List Str
  pub github_orgs : List Str
  pub github_teams : List Str

unfoldable pub session_permits_org : VerifiedSession → GithubOrgName → Bool
session_permits_org session name = any_eq session.github_orgs (to_ascii_lowercase name.org)

unfoldable pub session_permits_team : VerifiedSession → GithubOrgName → GithubTeamSlug → Bool
session_permits_team session name team =
    any_eq session.github_teams
      (to_ascii_lowercase name.org ++ chars "/" ++ to_ascii_lowercase team.slug)

unfoldable pub has_scope : VerifiedSession → Str → Bool
has_scope session scope = any_eq session.scopes scope

pub record SessionTokenClaims : Type 0 where
  pub github_user_id : ℕ
  pub expires : Int64
  pub scopes : List Str
  pub github_orgs : List Str
  pub github_teams : List Str

-- `serde_json::from_slice`
pub record Deserialize (T : Type 0) : Type 0 where
  pub from_slice : List ℕ → Option T

-- `u8::from_str_radix(text, 16)` of two characters: a `+` may stand for the first digit.
unfoldable pub hex_value : ℕ → Option ℕ
hex_value c =
    if leb b'0' c && leb c b'9'
    then some (c - b'0')
    else if leb b'a' c && leb c b'f'
    then some (c - b'a' + 10)
    else if leb b'A' c && leb c b'F'
    then some (c - b'A' + 10)
    else none

unfoldable pub hex_byte : ℕ → ℕ → Option ℕ
hex_byte high low =
    let units = hex_value low in
    if high == b'+'
    then units
    else and_then (hex_value high) (λ tens. map_option (λ ones. tens * 16 + ones) units)

unfoldable pub hex_pairs : List ℕ → Option (List ℕ)
hex_pairs [] = some []
hex_pairs (last ∷ []) = none
hex_pairs (high ∷ low ∷ bytes) =
    let rest = hex_pairs bytes in
    and_then (hex_byte high low) (λ byte. map_option (λ decoded. byte ∷ decoded) rest)

-- Its errors, which say why, are one here.
unfoldable pub hex_decode : Str → Option (List ℕ)
hex_decode value = hex_pairs (utf8 value)

unfoldable pub hex_encode : List ℕ → Str
hex_encode [] = []
hex_encode (byte ∷ bytes) = hex_padded 2 byte ++ hex_encode bytes

module _ ⦃h : Hashes⦄ where
  unfoldable pub session_signature : ℕ → Int64 → Str → Str
  session_signature github_user_id expires secret = hex_lower (
      h.hmac_sha256 (utf8 secret) (
        utf8 (
          chars "agent-feed-session-v1"
          ++ decimal github_user_id
          ++ chars ":"
          ++ int_text expires)))

  unfoldable pub session_payload_signature : Str → Str → Str
  session_payload_signature payload secret =
      hex_lower (h.hmac_sha256 (utf8 secret) (utf8 (chars "agent-feed-session-v2" ++ payload)))

  unfoldable pub issue_session_token_with_claims :
      ⦃s : Serialize SessionTokenClaims⦄ → SessionTokenClaims → Str → Option Str
  issue_session_token_with_claims ⦃s⦄ claims secret =
      map_option
        (λ bytes.
          let payload = hex_encode bytes in
          chars "feedv2." ++ payload ++ chars "." ++ session_payload_signature payload secret)
        (s.to_vec claims)

  -- The session of a payload whose signature is checked.
  unfoldable pub session_of_payload :
      ⦃d : Deserialize SessionTokenClaims⦄ → Str → Int64 → Option VerifiedSession
  session_of_payload ⦃d⦄ payload now_unix = and_then (hex_decode payload) λ bytes.
      and_then (d.from_slice bytes) λ claims.
        if is_at_most claims.expires now_unix
        then none
        else some (record {
          github_user_id = claims.github_user_id;
          scopes = set_extend [] claims.scopes;
          github_orgs = set_extend [] claims.github_orgs;
          github_teams = set_extend [] claims.github_teams;
        })

  -- The parts of a token of the second version.
  unfoldable pub session_of_parts :
      ⦃d : Deserialize SessionTokenClaims⦄ → List Str → Str → Int64 → Option VerifiedSession
  session_of_parts (version ∷ payload ∷ signature ∷ []) secret now_unix =
      let expected = session_payload_signature payload secret in
      if not (version == chars "feedv2") || not (constant_time_eq (utf8 signature) (utf8 expected))
      then none
      else session_of_payload payload now_unix
  session_of_parts parts secret now_unix = none

  unfoldable pub verify_session_token_v2_with_secret :
      ⦃d : Deserialize SessionTokenClaims⦄ → Str → Str → Int64 → Option VerifiedSession
  verify_session_token_v2_with_secret token secret now_unix =
      session_of_parts (split_on b'.' token) secret now_unix

  -- The parts of a token of the first version after `feed`.
  unfoldable pub session_of_plain_parts : List Str → Str → Int64 → Option VerifiedSession
  session_of_plain_parts (id ∷ expiry ∷ signature ∷ []) secret now_unix =
      and_then (parse_unsigned (2 ^ 64 - 1) id) λ github_user_id.
        and_then (parse_int64 expiry) λ expires.
          let expected = session_signature github_user_id expires secret in
          if is_at_most expires now_unix || not (constant_time_eq (utf8 signature) (utf8 expected))
          then none
          else some (record {
            github_user_id = github_user_id;
            scopes = [];
            github_orgs = [];
            github_teams = [];
          })
  session_of_plain_parts parts secret now_unix = none

  unfoldable pub session_of_token :
      ⦃d : Deserialize SessionTokenClaims⦄ → Str → List Str → Str → Int64 → Option VerifiedSession
  session_of_token token [] secret now_unix = none
  session_of_token token (version ∷ parts) secret now_unix =
      if not (version == chars "feed")
      then verify_session_token_v2_with_secret token secret now_unix
      else session_of_plain_parts parts secret now_unix

  unfoldable pub verify_session_token_with_secret :
      ⦃d : Deserialize SessionTokenClaims⦄ → Str → Str → Int64 → Option VerifiedSession
  verify_session_token_with_secret token secret now_unix =
      session_of_token token (split_on b'.' token) secret now_unix
