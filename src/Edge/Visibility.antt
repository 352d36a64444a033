-- ===== src/Edge/Visibility.antt =====
-- Which headlines and feeds of the snapshot a session or a route sees.
use mathlib.Core.List.{reverse}
use agent_feed.Directory.Filters.{permits_label}
use agent_feed.Directory.Types.{OrgRouteFilter, RemoteReelFilter, RemoteUserRoute}
use agent_feed.Directory.Views.{RemoteHeadlineView, ResolveFeedView}
use agent_feed.Edge.Access.{access_permits_org_route, session_can_access_policy}
use agent_feed.Edge.Sessions.{VerifiedSession}
use agent_feed.Identity.{GithubOrgName, GithubTeamSlug}
use agent_feed.Prelude.{
  Bool, List, Option, [], any, any_eq, false, filter, if◌then◌else◌, is_empty, is_none, list_eq,
  ltb, map, nat_eq, not, option_eq, pair_eq, some, true, ℕ, ◌&&◌, ◌++◌, ◌==◌, ◌||◌, ◌∷◌,
}
use agent_feed.Summarize.Quality.{Regex}
use agent_feed.Text.{
  Str, chars, contains, contains_any, drop_while, eq_ignore_ascii_case, is_ascii_alphanumeric,
  lower_char, split_by, starts_with, to_ascii_lowercase, trim,
}

abbrev quality_issues : List Str
quality_issues =
    chars "production scaffold"
    ∷ chars "agent feed scaffold"
    ∷ chars "test gate"
    ∷ chars "test line"
    ∷ chars "tests remain red"
    ∷ chars "red run"
    ∷ chars "red runs"
    ∷ chars "failures remain"
    ∷ chars "fixture feed"
    ∷ chars "m0 signal path"
    ∷ chars "p2p capsule coverage advanced"
    ∷ chars "verification s"
    ∷ chars "command lifecycle captured"
    ∷ chars "without command output"
    ∷ chars "ci status"
    ∷ chars "checks ci status"
    ∷ chars "completed turn"
    ∷ chars "file-change pass"
    ∷ chars "planning state advanced"
    ∷ chars "plan update"
    ∷ chars "plan-state"
    ∷ chars "run state"
    ∷ chars "run state settled"
    ∷ chars "command event"
    ∷ chars "safe command"
    ∷ chars "shell check"
    ∷ chars "repository state"
    ∷ chars "records plan update"
    ∷ chars "shifts feed to edits"
    ∷ chars "two-file update"
    ∷ chars "codexci statusrun state"
    ∷ chars "confirms pass state"
    ∷ []

abbrev public_context_words : List Str
public_context_words =
    chars "auth"
    ∷ chars "broadcast"
    ∷ chars "capture"
    ∷ chars "deployment"
    ∷ chars "discovery"
    ∷ chars "edge"
    ∷ chars "github"
    ∷ chars "guardrail"
    ∷ chars "install"
    ∷ chars "network"
    ∷ chars "open source"
    ∷ chars "package"
    ∷ chars "privacy"
    ∷ chars "public"
    ∷ chars "publish"
    ∷ chars "release"
    ∷ chars "route"
    ∷ chars "security"
    ∷ chars "ship"
    ∷ chars "shipped"
    ∷ chars "stream"
    ∷ chars "subscription"
    ∷ chars "summarization"
    ∷ chars "summary"
    ∷ chars "update"
    ∷ chars "user"
    ∷ []

unfoldable pub remote_copy_has_public_context : Str → Bool
remote_copy_has_public_context normalized = contains_any normalized public_context_words

module _ ⦃r : Regex⦄ where
  unfoldable pub remote_copy_has_public_quality_issue : Str → Bool
  remote_copy_has_public_quality_issue copy =
      let normalized = to_ascii_lowercase copy in
      contains_any normalized quality_issues
      || r.is_match
          (chars "\\b(?:[0-9]+|one|two|three|four|five|six|seven|eight|nine|ten)\\s+"
            ++ chars "(?:changed\\s+)?files?\\b|\\bfiles?\\s+changed\\b")
          normalized
      || contains normalized (chars "tests passed")
        && not (remote_copy_has_public_context normalized)

-- The loop of `normalize_filter_tag`: what is written so far, reversed, and whether a `_` is last.
unfoldable pub normalize_from : Str → Bool → Str → Str
normalize_from out last_was_sep [] = out
normalize_from out last_was_sep (c ∷ s) =
    let plain = normalize_from (lower_char c ∷ out) false s in
    let sep = normalize_from (b'_' ∷ out) true s in
    let same = normalize_from out last_was_sep s in
    if is_ascii_alphanumeric c
    then plain
    else if not last_was_sep && not (is_empty out)
    then sep
    else same

unfoldable pub normalize_filter_tag : Str → Str
normalize_filter_tag value = reverse (
    drop_while (λ c. c == b'_')
      (normalize_from [] false (drop_while (λ c. c == b'@') (trim value))))

unfoldable pub headline_filter_terms : RemoteHeadlineView → List Str
headline_filter_terms headline =
    let parts =
      split_by (λ c. c == b'/' || c == 0xB7 || c == b',' || c == b'|') headline.lower_third in
    filter (λ value. not (is_empty value))
      (map normalize_filter_tag (headline.chips ++ parts ++ headline.feed_label ∷ []))

unfoldable pub filter_values_match : List Str → List Str → Bool
filter_values_match requested terms =
    is_empty requested
    || any
        (λ value.
          let wanted = normalize_filter_tag value in not (is_empty wanted) && any_eq terms wanted)
        requested

unfoldable pub headline_matches_reel_filter : RemoteHeadlineView → RemoteReelFilter → Bool
headline_matches_reel_filter headline reel_filter =
    let terms = headline_filter_terms headline in
    if not (headline.score == 0) && ltb headline.score reel_filter.min_score
    then false
    else filter_values_match reel_filter.agent_kinds terms
      && filter_values_match reel_filter.story_kinds terms
      && filter_values_match reel_filter.project_tags terms

abbrev is_local : Str → Bool
is_local feed_id = starts_with feed_id (chars "local:")

unfoldable pub feed_is_visible_for_session : ResolveFeedView → Option VerifiedSession → Bool
feed_is_visible_for_session feed session =
    not (is_local feed.feed_id) && session_can_access_policy session feed.visibility feed.access

unfoldable pub feed_matches_org_route :
    ResolveFeedView → GithubOrgName → Option GithubTeamSlug → OrgRouteFilter → Bool
feed_matches_org_route feed name team org_filter =
    not (is_local feed.feed_id)
    && access_permits_org_route feed.access feed.visibility name team
    && permits_label org_filter.stream_filter feed.label

unfoldable pub feed_matches_github_route_with_access :
    ResolveFeedView → ℕ → Str → RemoteUserRoute → Option VerifiedSession → Bool
feed_matches_github_route_with_access feed github_user_id github_login route session =
    (feed.publisher_github_user_id == some github_user_id
      || eq_ignore_ascii_case feed.publisher_login github_login)
    && feed_is_visible_for_session feed session
    && permits_label route.stream_filter feed.label

module _ ⦃r : Regex⦄ where
  unfoldable pub headline_is_visible_for_session :
      RemoteHeadlineView → Option VerifiedSession → Bool
  headline_is_visible_for_session headline session =
      session_can_access_policy session headline.visibility headline.access
      && not (is_local headline.feed_id)
      && not
          (remote_copy_has_public_quality_issue (headline.headline ++ chars " " ++ headline.deck))

  unfoldable pub headline_matches_org_route :
      RemoteHeadlineView → GithubOrgName → Option GithubTeamSlug → OrgRouteFilter → Bool
  headline_matches_org_route headline name team org_filter =
      not (is_local headline.feed_id)
      && access_permits_org_route headline.access headline.visibility name team
      && permits_label org_filter.stream_filter headline.feed_label
      && headline_matches_reel_filter headline org_filter.reel_filter
      && not
          (remote_copy_has_public_quality_issue (headline.headline ++ chars " " ++ headline.deck))

  unfoldable pub headline_matches_github_route_with_access :
      RemoteHeadlineView → ℕ → Str → RemoteUserRoute → Option VerifiedSession → Bool
  headline_matches_github_route_with_access headline github_user_id github_login route session =
      (headline.publisher_github_user_id == some github_user_id
        || is_none headline.publisher_github_user_id
          && eq_ignore_ascii_case headline.publisher_login github_login)
      && headline_is_visible_for_session headline session
      && permits_label route.stream_filter headline.feed_label
      && headline_matches_reel_filter headline route.reel_filter
