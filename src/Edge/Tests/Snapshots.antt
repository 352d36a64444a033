-- ===== src/Edge/Tests/Snapshots.antt =====
-- Runs of the snapshot and of a publication, with regular expressions that match nothing.
use agent_feed.Directory.Entry.{org_access}
use agent_feed.Directory.Filters.{all_visible, default_reel_filter, permits_label}
use agent_feed.Directory.Types.{NetworkSelector, ReelLayout, RemoteFeedSelection, RemoteUserRoute}
use agent_feed.Directory.Views.{RemoteHeadlineView, ResolveFeedView, view_from_headline}
use agent_feed.Edge.Access.{NetworkPublishRequest, session_can_access_policy}
use agent_feed.Edge.Publish.{network_publish_verified}
use agent_feed.Edge.Publish.Laws.{IsOwn, network_publish_verified-IsOwn}
use agent_feed.Edge.Sessions.{VerifiedSession, session_permits_org}
use agent_feed.Edge.Snapshot.{
  feed_is_within_retention, feeds_for_github_user, headline_is_within_retention,
  headlines_for_github_user, persist_snapshot, pop_to, prune_persisted_snapshot, public_headlines,
  push, upsert_feed, upsert_feed_view,
}
use agent_feed.Edge.Snapshot.Bounds.{empty_store}
use agent_feed.Edge.Snapshot.Laws.{AdmitsFeed, AdmitsHeadline, feeds_for_github_user-Admits}
use agent_feed.Edge.Visibility.{
  filter_values_match, headline_is_visible_for_session, headline_matches_github_route_with_access,
  headline_matches_reel_filter, remote_copy_has_public_quality_issue,
}
use agent_feed.Prelude.{
  All, [], any_eq, false, length, list_beq, list_eq, map, nat_eq, none, option_eq, pair_eq, refl,
  some, true, ◌∷◌, ◌≡◌, ◌⊎◌,
}
use agent_feed.Proto.Capsule.{CapsuleContent, StoryCapsule, github_publisher}
use agent_feed.Proto.Compatibility.{ProtocolCompatibility, current}
use agent_feed.Proto.Signing.{Hashes, Serialize}
use agent_feed.Summarize.Quality.{Regex}
use agent_feed.Text.{chars, contains_any, starts_with, strip_prefix, to_ascii_lowercase}

instance abbrev snapshot_hashes : Hashes
snapshot_hashes = record { sha256 = λ payload. payload; hmac_sha256 = λ secret payload. payload }

instance abbrev edge_regex : Regex
edge_regex = record {
  is_match = λ pattern text. false;
  replace_all = λ pattern text replacement. text;
}

instance abbrev edge_capsule_json : Serialize StoryCapsule
edge_capsule_json = record { to_vec = λ capsule. some [] }

instance abbrev edge_content_json : Serialize CapsuleContent
edge_content_json = record { to_vec = λ content. some [] }

abbrev edge_version : ProtocolCompatibility
edge_version = current (chars "0.1.0")

-- A headline of an organisation, and a feed of which the edge has heard.
abbrev org_headline : RemoteHeadlineView
org_headline = record {
  feed_id = chars "acme-feed";
  feed_label = chars "ci";
  compatibility = edge_version;
  visibility = chars "github_org";
  access = org_access (record { org = chars "acme" });
  created_at = some 0;
  publisher_github_user_id = some 7;
  publisher_login = chars "ada";
  publisher_display_name = none;
  publisher_avatar = none;
  verified = true;
  headline = chars "browser sync resumes";
  deck = chars "uploads complete";
  lower_third = chars "ada";
  chips = [];
  score = 80;
  image = none;
}

abbrev presence : ResolveFeedView
presence = record (view_from_headline org_headline 0) { feed_id = chars "other" }

compute_snapshot : Unit {0}
unfolding push upsert_feed upsert_feed_view persist_snapshot prune_persisted_snapshot pop_to
    public_headlines view_from_headline headline_is_within_retention feed_is_within_retention
    headline_is_visible_for_session session_can_access_policy org_access list_beq starts_with
    strip_prefix
compute_snapshot = tt

-- The presence of a feed writes the file with the public headlines only.
presence_drops_from_file :
    let pushed = (push org_headline 0 (empty_store true)).0 in
    (length pushed.file.headlines ≡ 1)
    × (length (upsert_feed presence 0 pushed).headlines ≡ 1)
    × (length (upsert_feed presence 0 pushed).file.headlines ≡ 0)
unfolding compute_snapshot
presence_drops_from_file = (refl, refl, refl)

-- The feed of another user is replaced by whoever publishes under its id.
other_publisher_replaces :
    let other = record presence { publisher_login = chars "eve" } in
    map
      (λ (feed : ResolveFeedView). feed.publisher_login)
      (upsert_feed other 0 (upsert_feed presence 0 (empty_store false))).feeds
    ≡ chars "eve" ∷ []
unfolding compute_snapshot
other_publisher_replaces = refl

abbrev ada_session : VerifiedSession
ada_session = record {
  github_user_id = 7;
  scopes = chars "read:org" ∷ [];
  github_orgs = chars "acme" ∷ [];
  github_teams = [];
}

abbrev ada_route : RemoteUserRoute
ada_route = record {
  login = record { login = chars "ada" };
  network = NetworkSelector.mainnet;
  selection = RemoteFeedSelection.wildcard;
  stream_filter = all_visible;
  reel_filter = default_reel_filter;
  layout = ReelLayout.stage;
}

feeds_for_github_user-Admits_example :
    let store = (push org_headline 0 (empty_store true)).0 in
    All
      (AdmitsHeadline (some ada_session))
      (headlines_for_github_user 7 (chars "ada") ada_route (some ada_session) 0 store)
    × All
        (AdmitsFeed (some ada_session))
        (feeds_for_github_user 7 (chars "ada") ada_route (some ada_session) 0 store)
feeds_for_github_user-Admits_example =
    feeds_for_github_user-Admits 7 (chars "ada") ada_route (some ada_session) 0
      (push org_headline 0 (empty_store true)).0

-- One headline is shown to the session of a member, and none without a session.
shown_to_members :
    let store = (push org_headline 0 (empty_store true)).0 in
    (length (headlines_for_github_user 7 (chars "ada") ada_route (some ada_session) 0 store) ≡ 1)
    × (length (headlines_for_github_user 7 (chars "ada") ada_route none 0 store) ≡ 0)
unfolding compute_snapshot headlines_for_github_user headline_matches_github_route_with_access
    session_permits_org any_eq to_ascii_lowercase remote_copy_has_public_quality_issue contains_any
    permits_label all_visible headline_matches_reel_filter default_reel_filter filter_values_match
shown_to_members = (refl, refl)

abbrev presence_request : NetworkPublishRequest
presence_request = record {
  network_id = some (chars "net");
  compatibility = some edge_version;
  feed_name = none;
  feed_id = none;
  publisher = some (github_publisher 7 (chars "ada") none none);
  visibility = none;
  github_org = none;
  github_team = none;
  capsules = [];
}

network_publish_verified-IsOwn_example :
    All
      (λ (headline : RemoteHeadlineView).
        (headline.feed_id ≡ chars "acme-feed") ⊎ IsOwn ada_session headline)
      (network_publish_verified
        (chars "0.1.0")
        (chars "json")
        0
        (chars "net")
        ada_session
        (chars "token")
        presence_request
        (push org_headline 0 (empty_store true)).0).0.headlines
unfolding compute_snapshot
network_publish_verified-IsOwn_example =
    network_publish_verified-IsOwn (chars "0.1.0") (chars "json") 0 ada_session (chars "token")
      (λ (headline : RemoteHeadlineView). headline.feed_id ≡ chars "acme-feed") (chars "net")
      presence_request (push org_headline 0 (empty_store true)).0 (refl, tt)
