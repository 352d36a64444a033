-- ===== src/Edge/Access.antt =====
-- Who may publish under a visibility, and who may see it.
pub mod Laws
use agent_feed.Directory.Entry.{org_access, permits_org, permits_team, public_access, team_access}
use agent_feed.Directory.Types.{FeedAccessPolicy}
use agent_feed.Edge.Sessions.{VerifiedSession, has_scope, session_permits_org, session_permits_team}
use agent_feed.Identity.{
  GithubOrgName, GithubTeamSlug, GithubUserId, IdentityError, parse_org, parse_team_slug,
}
use agent_feed.P2p.Messages.{identity_error_text}
use agent_feed.Prelude.{
  Bool, List, Option, any, false, if◌then◌else◌, inl, inr, is_empty, is_some_and, list_eq,
  map_option, map_or, nat_eq, not, option_eq, pair_eq, result_then, true, unwrap_or, ℕ, ◌++◌, ◌==◌,
  ◌⊎◌,
}
use agent_feed.Proto.{FeedVisibility}
use agent_feed.Proto.Capsule.{PublisherIdentity, StoryCapsule}
use agent_feed.Proto.Compatibility.{ProtocolCompatibility}
use agent_feed.Proto.Signing.{Signed}
use agent_feed.Text.{Str, chars, trim}

unfoldable pub session_can_access_policy : Option VerifiedSession → Str → FeedAccessPolicy → Bool
session_can_access_policy session visibility access =
    if visibility == chars "public"
    then true
    else if visibility == chars "github_user"
    then is_some_and session
        (λ s. any (λ (id : GithubUserId). id == s.github_user_id) access.github_users)
    else if visibility == chars "github_org"
    then is_some_and session (λ s. is_some_and access.github_org (session_permits_org s))
    else if visibility == chars "github_team"
    then is_some_and session (λ s.
      is_some_and access.github_org
        (λ name. is_some_and access.github_team (session_permits_team s name)))
    else false

unfoldable pub access_permits_org_route :
    FeedAccessPolicy → Str → GithubOrgName → Option GithubTeamSlug → Bool
access_permits_org_route access visibility name team =
    if visibility == chars "github_org"
    then permits_org access name
    else if visibility == chars "github_team"
    then is_some_and team (permits_team access name)
    else false

-- The request of a publication.
pub record NetworkPublishRequest : Type 0 where
  pub network_id : Option Str
  pub compatibility : Option ProtocolCompatibility
  pub feed_name : Option Str
  pub feed_id : Option Str
  pub publisher : Option PublisherIdentity
  pub visibility : Option FeedVisibility
  pub github_org : Option Str
  pub github_team : Option Str
  pub capsules : List (Signed StoryCapsule)

-- A response that refuses a request: its status code and its message.
pub record EdgeRefusal : Type 0 where
  pub status : ℕ
  pub message : Str

abbrev bad_request : Str → EdgeRefusal
bad_request message = record { status = 400; message = message }

abbrev forbidden : Str → EdgeRefusal
forbidden message = record { status = 403; message = message }

-- `map(str::trim).filter(…)` with the refusal of what is missing.
unfoldable pub required : Option Str → Str → EdgeRefusal ⊎ Str
required value message =
    map_or (map_option trim value) (inl (bad_request message))
      (λ v. if is_empty v then inl (bad_request message) else inr v)

unfoldable pub parsed : {A : Type 0} → IdentityError ⊎ A → EdgeRefusal ⊎ A
parsed (inl e) = inl (bad_request (identity_error_text e))
parsed (inr a) = inr a

unfoldable pub org_policy_of :
    NetworkPublishRequest → VerifiedSession → EdgeRefusal ⊎ FeedAccessPolicy
org_policy_of request session =
    if not (has_scope session (chars "read:org"))
    then inl (
        forbidden (
          chars "github org publishing requires read:org scope; "
          ++ chars "run `agent-feed auth github --github-org <org>`"))
    else result_then
        (required request.github_org (chars "github_org is required for github_org visibility"))
        λ name. result_then (parsed (parse_org name)) λ name.
          if not (session_permits_org session name)
          then inl (
              forbidden (
                chars "github org membership required: "
                ++ name.org
                ++ chars "; sign in again for this org"))
          else inr (org_access name)

unfoldable pub team_policy_of :
    NetworkPublishRequest → VerifiedSession → EdgeRefusal ⊎ FeedAccessPolicy
team_policy_of request session =
    if not (has_scope session (chars "read:org"))
    then inl (
        forbidden (
          chars "github team publishing requires read:org scope; "
          ++ chars "run `agent-feed auth github --github-org <org>`"))
    else result_then
        (required request.github_org (chars "github_org is required for github_team visibility"))
        λ name.
          result_then
            (required request.github_team
              (chars "github_team is required for github_team visibility"))
            λ team. result_then (parsed (parse_org name)) λ name.
              result_then (parsed (parse_team_slug team)) λ team.
                if not (session_permits_team session name team)
                then inl (
                    forbidden (
                      chars "github team membership required: "
                      ++ name.org
                      ++ chars "/"
                      ++ team.slug
                      ++ chars "; sign in again for this org"))
                else inr (team_access name team)

unfoldable pub policy_for :
    FeedVisibility → NetworkPublishRequest → VerifiedSession → EdgeRefusal ⊎ FeedAccessPolicy
policy_for FeedVisibility.public request session = inr public_access
policy_for FeedVisibility.github_org request session = org_policy_of request session
policy_for FeedVisibility.github_team request session = team_policy_of request session
policy_for _ request session =
    inl (bad_request (chars "edge publish supports public, github_org, and github_team visibility"))

unfoldable pub publish_access_policy :
    NetworkPublishRequest → VerifiedSession → EdgeRefusal ⊎ (FeedVisibility × FeedAccessPolicy)
publish_access_policy request session =
    let visibility = unwrap_or request.visibility FeedVisibility.public in
    result_then (policy_for visibility request session) (λ access. inr (visibility, access))
