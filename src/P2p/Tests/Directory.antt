-- ===== src/P2p/Tests/Directory.antt =====
-- Runs of the directory of the network.
use agent_feed.Directory.Entry.{
  access_fits, access_matches_visibility, new_entry, restrict_entry, sign_entry, verify_entry,
}
use agent_feed.Directory.Types.{FeedAccessPolicy, FeedDirectoryEntry, GithubPrincipal}
use agent_feed.Identity.{GithubOrgName, GithubTeamSlug}
use agent_feed.P2p.Access.{
  can_follow, index_directory_entry, index_under, is_certified, is_team_certified,
  peer_can_cache_directory_entry, policy_admits,
}
use agent_feed.P2p.Discovery.{
  admit_entry, announce_directory_entry, cache_directory_entry, discover_github_org,
  discover_github_team, discover_github_user, entry_error,
}
use agent_feed.P2p.Discovery.Laws.{discover_github_user-IsListed}
use agent_feed.P2p.Fabric.{announce_feed, certify_github_org_access}
use agent_feed.P2p.Invariant.{IsListed, IsTrusted}
use agent_feed.P2p.Invariant.Methods.{
  announce_directory_entry-IsTrusted, certify_github_org_access-IsTrusted,
}
use agent_feed.P2p.Invariant.Parts.{default_network-IsTrusted}
use agent_feed.P2p.Tests.{
  alice, bob, compute_p2p, profile_of, test_capsule_json, test_content_json, test_entry_json,
  test_hashes, version,
}
use agent_feed.P2p.Types.{NetworkState, default_network, new_peer, peer_with_compatibility}
use agent_feed.Prelude.{All, Option, [], false, inr, none, refl, some, true, unwrap_or, ◌∷◌, ◌≡◌}
use agent_feed.Proto.{FeedVisibility}
use agent_feed.Proto.Topics.{github_user_topic}
use agent_feed.Text.{chars, decimal}

abbrev owner : GithubPrincipal
owner = record {
  github_user_id = 7;
  current_login = chars "alice";
  display_name = none;
  avatar = none;
  verified_by = chars "edge";
  verified_at = 1;
}

-- An entry of the feed `f` for a team, signed.
abbrev team_entry : FeedVisibility → GithubOrgName → Option GithubTeamSlug → FeedDirectoryEntry
team_entry visibility name team =
    let access : FeedAccessPolicy = record {
      github_org = some name;
      github_team = team;
      github_repo = none;
      github_users = [];
    } in
    let blank =
      new_entry version 1 (chars "net") (chars "f") owner (chars "a") (chars "desk") visibility 1 in
    let restricted = restrict_entry blank visibility access (chars "r") in
    unwrap_or (sign_entry restricted (chars "k")) restricted

abbrev org : GithubOrgName
org = record { org = chars "o" }

abbrev team : GithubTeamSlug
team = record { slug = chars "t" }

abbrev discoverable : NetworkState
discoverable =
    (announce_directory_entry version alice (team_entry FeedVisibility.github_team org (some team))
      (certify_github_org_access version bob org []
        (certify_github_org_access version alice org (team ∷ []) default_network).0).0).0

compute_directory : Unit {0}
unfolding compute_p2p new_entry restrict_entry sign_entry verify_entry access_matches_visibility
    access_fits announce_directory_entry certify_github_org_access admit_entry entry_error
    peer_can_cache_directory_entry is_team_certified is_certified index_directory_entry index_under
    policy_admits discover_github_user discover_github_org discover_github_team github_user_topic
    decimal
compute_directory = tt

-- Bob is of the organisation, not of the team: the user discovery hides the entry from him, and
-- the organisation discovery shows it.
user_hides : (discover_github_user version bob 7 discoverable).1 ≡ inr []
unfolding compute_directory
user_hides = refl

org_shows :
    (discover_github_org version bob org discoverable).1
    ≡ inr (team_entry FeedVisibility.github_team org (some team) ∷ [])
unfolding compute_directory
org_shows = refl

discoverable-IsTrusted : IsTrusted version discoverable
discoverable-IsTrusted = announce_directory_entry-IsTrusted version alice _ _ (
    certify_github_org_access-IsTrusted version bob org [] _ (
      certify_github_org_access-IsTrusted version alice org (team ∷ []) default_network
        (default_network-IsTrusted version)))

alice_sees :
    (discover_github_user version alice 7 discoverable).1
    ≡ inr (team_entry FeedVisibility.github_team org (some team) ∷ [])
unfolding compute_directory
alice_sees = refl

discover_github_user-IsListed_example :
    All
      (λ entry.
        (IsListed version entry × (entry.owner.github_user_id ≡ 7))
        × (peer_can_cache_directory_entry discoverable (chars "a") entry ≡ true))
      (team_entry FeedVisibility.github_team org (some team) ∷ [])
unfolding new_peer peer_with_compatibility
discover_github_user-IsListed_example =
    discover_github_user-IsListed version discoverable alice 7
      (team_entry FeedVisibility.github_team org (some team) ∷ []) discoverable-IsTrusted alice_sees

team_shows :
    (discover_github_team version alice org team discoverable).1
    ≡ inr (team_entry FeedVisibility.github_team org (some team) ∷ [])
unfolding compute_directory
team_shows = refl

-- The feed is of one organisation, and Bob is of another: he caches a public entry of his own
-- making under the feed's id, and may then follow the feed.
abbrev other_org : GithubOrgName
other_org = record { org = chars "p" }

abbrev org_network : NetworkState
org_network =
    (certify_github_org_access version bob other_org []
      (announce_directory_entry version alice (team_entry FeedVisibility.github_org org none)
        (certify_github_org_access version alice org []
          (announce_feed version alice (profile_of FeedVisibility.github_org)
            default_network).0).0).0).0

abbrev replaced : NetworkState
replaced =
    (cache_directory_entry version bob (team_entry FeedVisibility.public other_org none)
      org_network).0

denied_before : can_follow org_network bob (chars "f") FeedVisibility.github_org ≡ false
unfolding compute_directory
denied_before = refl

allowed_after : can_follow replaced bob (chars "f") FeedVisibility.github_org ≡ true
unfolding compute_directory cache_directory_entry
allowed_after = refl
