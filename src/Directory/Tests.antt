-- ===== src/Directory/Tests.antt =====
-- Runs of the directory, over hashes and an encoding that are easy to compute.
use mathlib.Core.Path.{subst}
use agent_feed.Directory.Entry.{
  access_fits, access_matches_visibility, is_expired, new_entry, org_access, public_access,
  restrict_entry, sign_entry, verify_entry, with_github_org,
}
use agent_feed.Directory.Entry.Laws.{with_github-matches}
use agent_feed.Directory.Filters.{
  default_reel_filter, default_visible, min_score_param, org_all_visible, reel_filter_from_params,
}
use agent_feed.Directory.Query.{
  first_any_param, first_param, has_flag, parse_query, privacy_weakening_keys,
}
use agent_feed.Directory.Route.{
  is_bad_segment, is_named_or_wildcard, parse_route, route_layout, route_of, route_segments,
  route_selection,
}
use agent_feed.Directory.Route.Laws.{IsPrivate, parse_route-IsPrivate}
use agent_feed.Directory.Store.{
  DirectoryStore, ensure_current_compatibility, is_replayed, new_directory, publish, publish_error,
}
use agent_feed.Directory.Store.Consistency.{
  IsConsistent, history_after, new_directory-IsConsistent, publish-IsConsistent,
}
use agent_feed.Directory.Store.Laws.{IsSound, publish-accepts_iff, publish_again}
use agent_feed.Directory.Store.Signed.{publish-sign_entry}
use agent_feed.Directory.Types.{
  DirectoryError, FeedDirectoryEntry, GithubPrincipal, NetworkSelector, ReelLayout,
  RemoteFeedSelection, RemoteUserRoute, StreamDescriptor,
}
use agent_feed.Directory.Visible.{visible_entries_for_org, visible_entries_for_route}
use agent_feed.Directory.Visible.Laws.{
  IsOrgVisible, IsVisible, visible_entries_for_org-IsOrgVisible, visible_entries_for_route-Sees,
}
use agent_feed.Identity.{
  GithubOrgName, bare_name, is_valid_github_login, is_valid_github_org, parse_login, parse_org,
}
use agent_feed.Prelude.{
  All, List, [], any_eq, arith, false, get, inl, inr, list_beq, list_cmp, list_eq, list_ord, nat_eq,
  nat_ord, none, option_eq, option_ord, pair_eq, pair_ord, refl, result_then, some, true, ℕ, ◌++◌,
  ◌<◌, ◌↔◌, ◌∷◌, ◌≡◌, ◌⊎◌,
}
use agent_feed.Proto.{FeedVisibility, StoryKind}
use agent_feed.Proto.Compatibility.{current, is_compatible_with}
use agent_feed.Proto.Signing.{
  Hashes, Serialize, for_value, hex_lower, sha256_signature_digest, unsigned,
}
use agent_feed.Proto.Topics.{github_org_topic}
use agent_feed.Text.{
  Str, chars, contains, drop_while, drop_while_end, is_ascii_alphanumeric, is_ascii_digit,
  is_whitespace, lower_char, parse_unsigned, split_by, split_on, split_once, starts_with,
  strip_prefix, to_ascii_lowercase, trim, trim_start, utf8, utf8_char,
}

instance abbrev plain_hashes : Hashes
plain_hashes = record { sha256 = λ bytes. bytes; hmac_sha256 = λ key bytes. key ++ bytes }

instance abbrev entry_json : Serialize FeedDirectoryEntry
entry_json = record { to_vec = λ entry. some (utf8 entry.feed_id ++ entry.sequence ∷ []) }

compute : Unit {0}
unfolding for_value sha256_signature_digest hex_lower utf8 utf8_char verify_entry unsigned publish
    publish_error ensure_current_compatibility current is_compatible_with access_matches_visibility
    access_fits is_expired is_replayed new_directory get list_cmp list_beq
compute = tt

abbrev version : Str
version = chars "0.1.0"

abbrev owner : GithubPrincipal
owner = record {
  github_user_id = 7;
  current_login = chars "mosure";
  display_name = none;
  avatar = none;
  verified_by = chars "edge";
  verified_at = 10;
}

abbrev stream : StreamDescriptor
stream = record {
  stream_id = chars "stream";
  label = chars "workstation";
  agent_kinds = chars "codex" ∷ [];
  story_kinds = StoryKind.turn ∷ StoryKind.test ∷ [];
  visibility = FeedVisibility.public;
  summary_policy = record {
    story_only = true;
    settled_only = true;
    raw_events = false;
    min_score = 75;
  };
  access = public_access;
}

abbrev entry : ℕ → FeedDirectoryEntry
entry sequence = record {
  feed_id = chars "f";
  network_id = chars "agent-feed-mainnet";
  compatibility = current version;
  owner = owner;
  peer_id = chars "peer";
  feed_label = chars "workstation";
  display_name = chars "@mosure / workstation";
  avatar = none;
  visibility = FeedVisibility.public;
  access = public_access;
  stream_descriptors = stream ∷ [];
  rendezvous_namespace = chars "github";
  live_topic = chars "feed";
  snapshot_protocol = chars "/agent-feed/1/snapshot";
  last_seen_at = 10;
  expires_at = 1000;
  sequence = sequence;
  signature = record {
    key_id = chars "k";
    digest = sha256_signature_digest (chars "k") (utf8 (chars "f") ++ sequence ∷ []);
  };
}

-- signed_directory_record_verifies_and_replay_is_rejected
let_in : (publish version new_directory 100 (entry 1)).1 ≡ none
unfolding compute
let_in = refl

publish-accepts_iff_example :
    ((publish version new_directory 100 (entry 1)).1 ≡ none)
    ↔ IsSound version (entry 1)
      × (100 < (entry 1).expires_at)
      × (is_replayed new_directory (entry 1) ≡ false)
publish-accepts_iff_example = publish-accepts_iff version new_directory 100 (entry 1)

abbrev one_entry : DirectoryStore
one_entry = (publish version new_directory 100 (entry 1)).0

publish_again_example :
    (error : DirectoryError) × (publish version one_entry 200 (entry 1) ≡ (one_entry, some error))
publish_again_example =
    publish_again version new_directory 100 200 (entry 1) (entry 1) let_in refl (omega arith)

one_entry-IsConsistent : IsConsistent version one_entry (entry 1 ∷ [])
one_entry-IsConsistent =
    subst (λ error. IsConsistent version one_entry (history_after version [] (entry 1) error))
      let_in
      (publish-IsConsistent version new_directory 100 (entry 1) []
        (new_directory-IsConsistent version))

publish-IsConsistent_example :
    IsConsistent version
      (publish version one_entry 200 (entry 2)).0
      (history_after version (entry 1 ∷ []) (entry 2) (publish version one_entry 200 (entry 2)).1)
publish-IsConsistent_example =
    publish-IsConsistent version one_entry 200 (entry 2) (entry 1 ∷ []) one_entry-IsConsistent

abbrev route : RemoteUserRoute
route = record {
  login = record { login = chars "mosure" };
  network = NetworkSelector.mainnet;
  selection = RemoteFeedSelection.default_visible;
  stream_filter = default_visible;
  reel_filter = default_reel_filter;
  layout = ReelLayout.stage;
}

visible_entries_for_route-Sees_example :
    (visible : List FeedDirectoryEntry) × (visible_entries_for_route one_entry 7 route
      ≡ inr visible)
    × All (IsVisible 7 route) visible
visible_entries_for_route-Sees_example = visible_entries_for_route-Sees one_entry 7 route

abbrev lab : GithubOrgName
lab = record { org = chars "lab" }

visible_entries_for_org-IsOrgVisible_example :
    All
      (IsOrgVisible lab none org_all_visible)
      (visible_entries_for_org one_entry lab none org_all_visible)
visible_entries_for_org-IsOrgVisible_example =
    visible_entries_for_org-IsOrgVisible lab none org_all_visible one_entry

compute_route : Unit {0}
unfolding parse_route drop_while drop_while_end route_segments split_on split_by contains
    starts_with strip_prefix is_bad_segment list_beq route_of result_then parse_login bare_name trim
    trim_start is_whitespace is_valid_github_login utf8 utf8_char is_ascii_alphanumeric
    is_ascii_digit route_selection is_named_or_wildcard has_flag parse_query split_once first_param
    min_score_param parse_unsigned reel_filter_from_params first_any_param privacy_weakening_keys
    route_layout default_visible any_eq
compute_route = tt

abbrev asked : DirectoryError ⊎ RemoteUserRoute
asked = parse_route (chars "/mosure") (some (chars "raw=true"))

abbrev answer : RemoteUserRoute
answer = record route {
  reel_filter = record default_reel_filter { ignored_privacy_params = chars "raw" ∷ [] };
}

-- route_parser_accepts_filters_and_ignores_privacy_weakening_params
raw_ignored : asked ≡ inr answer
unfolding compute_route default_reel_filter
raw_ignored = refl

parse_route-IsPrivate_example : IsPrivate answer
parse_route-IsPrivate_example =
    parse_route-IsPrivate (chars "/mosure") (some (chars "raw=true")) answer raw_ignored

abbrev drafted : FeedDirectoryEntry
drafted =
    new_entry version 100 (chars "agent-feed-mainnet") (chars "g") owner (chars "peer")
      (chars "workstation") FeedVisibility.public 3

abbrev for_lab : FeedDirectoryEntry
for_lab =
    restrict_entry drafted FeedVisibility.github_org (org_access lab)
      (github_org_topic (chars "agent-feed-mainnet") (chars "lab"))

compute_name : Unit {0}
unfolding with_github_org result_then parse_org bare_name trim trim_start drop_while drop_while_end
    is_whitespace is_valid_github_org is_valid_github_login utf8 utf8_char is_ascii_alphanumeric
    is_ascii_digit to_ascii_lowercase lower_char new_entry
compute_name = tt

org_named : with_github_org drafted (chars "@Lab") ≡ inr for_lab
unfolding compute_name
org_named = refl

abbrev signed_for_lab : FeedDirectoryEntry
signed_for_lab = record for_lab {
  signature = record {
    key_id = chars "k";
    digest = sha256_signature_digest (chars "k") (utf8 (chars "g") ++ 3 ∷ []);
  };
}

lab_signed : sign_entry for_lab (chars "k") ≡ some signed_for_lab
unfolding sign_entry for_value restrict_entry new_entry
lab_signed = refl

publish-sign_entry_example : (publish version new_directory 200 signed_for_lab).1 ≡ none
unfolding restrict_entry new_entry is_replayed new_directory get
publish-sign_entry_example =
    publish-sign_entry version new_directory 200 for_lab signed_for_lab (chars "k") refl
      (with_github-matches drafted for_lab (chars "@Lab") (chars "release") (inl org_named))
      (omega arith) refl lab_signed
