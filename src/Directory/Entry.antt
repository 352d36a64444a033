-- ===== src/Directory/Entry.antt =====
-- The methods of `FeedDirectoryEntry` and of its access policy.
pub mod Laws
use agent_feed.Core.{Time}
use agent_feed.Directory.Types.{
  DirectoryError, FeedAccessPolicy, FeedDirectoryEntry, GithubPrincipal, StreamDescriptor,
  SummaryPolicy,
}
use agent_feed.Identity.{GithubOrgName, GithubTeamSlug, IdentityError, parse_org, parse_team_slug}
use agent_feed.Prelude.{
  Bool, Option, [], all, arith, false, inl, inr, is_none, is_some, is_some_and, leb, list_eq, map,
  map_option, nat_eq, none, option_eq, pair_eq, result_then, some, true, ℕ, ◌&&◌, ◌++◌, ◌+◌, ◌==◌,
  ◌∷◌, ◌≡◌, ◌⊎◌,
}
use agent_feed.Proto.{FeedVisibility, StoryKind}
use agent_feed.Proto.Compatibility.{current}
use agent_feed.Proto.Signing.{Hashes, Serialize, for_value, signature_beq, unsigned}
use agent_feed.Proto.Topics.{
  feed_topic, github_org_topic, github_team_topic, github_user_topic, stable_digest,
}
use agent_feed.Text.{Str, chars, utf8}

unfoldable pub public_access : FeedAccessPolicy
public_access = record {
  github_org = none;
  github_team = none;
  github_repo = none;
  github_users = [];
}

unfoldable pub org_access : GithubOrgName → FeedAccessPolicy
org_access name = record {
  github_org = some name;
  github_team = none;
  github_repo = none;
  github_users = [];
}

unfoldable pub team_access : GithubOrgName → GithubTeamSlug → FeedAccessPolicy
team_access name team = record {
  github_org = some name;
  github_team = some team;
  github_repo = none;
  github_users = [];
}

unfoldable pub permits_org : FeedAccessPolicy → GithubOrgName → Bool
permits_org access name = is_some_and access.github_org (λ value. value.org == name.org)

unfoldable pub permits_team : FeedAccessPolicy → GithubOrgName → GithubTeamSlug → Bool
permits_team access name team =
    is_some_and access.github_org (λ value. value.org == name.org)
    && is_some_and access.github_team (λ value. value.slug == team.slug)

-- What a visibility asks of the access policy.
unfoldable pub access_fits : FeedVisibility → FeedAccessPolicy → Bool
access_fits FeedVisibility.github_org access =
    is_some access.github_org && is_none access.github_team
access_fits FeedVisibility.github_team access =
    is_some access.github_org && is_some access.github_team
access_fits _ access = true

-- The derived `PartialEq` of the visibilities.
abbrev visibility_rank : FeedVisibility → ℕ
visibility_rank FeedVisibility.hidden = 0
visibility_rank FeedVisibility.github_user = 1
visibility_rank FeedVisibility.github_org = 2
visibility_rank FeedVisibility.github_team = 3
visibility_rank FeedVisibility.github_repo = 4
visibility_rank FeedVisibility.public = 5

abbrev pub same_visibility : FeedVisibility → FeedVisibility → Bool
same_visibility a b = visibility_rank a == visibility_rank b

pub same_visibility-eq : (a b : FeedVisibility) → same_visibility a b ≡ true → a ≡ b
same_visibility-eq a b h = ground arith

unfoldable pub access_matches_visibility : FeedDirectoryEntry → Bool
access_matches_visibility entry =
    access_fits entry.visibility entry.access
    && all
        (λ (stream : StreamDescriptor).
          same_visibility stream.visibility entry.visibility
          && access_fits stream.visibility stream.access)
        entry.stream_descriptors

unfoldable pub is_expired : FeedDirectoryEntry → Time → Bool
is_expired entry now = leb entry.expires_at now

unfoldable pub is_publicly_visible : FeedDirectoryEntry → Bool
is_publicly_visible entry = same_visibility entry.visibility FeedVisibility.public

module _ ⦃h : Hashes⦄ ⦃s : Serialize FeedDirectoryEntry⦄ where
  unfoldable pub sign_entry : FeedDirectoryEntry → Str → Option FeedDirectoryEntry
  sign_entry entry key_id =
      let blank = record entry { signature = unsigned } in
      map_option (λ signature. record blank { signature = signature }) (for_value key_id blank)

  unfoldable pub verify_entry : FeedDirectoryEntry → Option Bool
  verify_entry entry =
      map_option (λ expected. signature_beq expected entry.signature)
        (for_value entry.signature.key_id (record entry { signature = unsigned }))

abbrev pub default_policy : SummaryPolicy
default_policy = record {
  story_only = true;
  settled_only = true;
  raw_events = false;
  min_score = 75;
}

-- Two hours, in nanoseconds.
abbrev pub record_lifetime : Time
record_lifetime = 7200000000000

-- The errors of the identity crate.
abbrev pub identity_result : {A : Type 0} → IdentityError ⊎ A → DirectoryError ⊎ A
identity_result (inl e) = inl (DirectoryError.identity e)
identity_result (inr a) = inr a

-- The entry with a visibility, a policy and a namespace, its streams with the same two.
unfoldable pub restrict_entry :
    FeedDirectoryEntry → FeedVisibility → FeedAccessPolicy → Str → FeedDirectoryEntry
restrict_entry entry visibility access namespace = record entry {
  visibility = visibility;
  access = access;
  rendezvous_namespace = namespace;
  stream_descriptors =
      map
        (λ (stream : StreamDescriptor). record stream { visibility = visibility; access = access })
        entry.stream_descriptors;
}

module _ ⦃h : Hashes⦄ where
  -- `FeedDirectoryEntry::new`, of a package version and a clock reading
  unfoldable pub new_entry :
      Str → Time → Str → Str → GithubPrincipal → Str → Str → FeedVisibility → ℕ → FeedDirectoryEntry
  new_entry version now network_id feed_id owner peer_id feed_label visibility sequence = record {
    feed_id = feed_id;
    network_id = network_id;
    compatibility = current version;
    owner = owner;
    peer_id = peer_id;
    feed_label = feed_label;
    display_name = chars "@" ++ owner.current_login ++ chars " / " ++ feed_label;
    avatar = owner.avatar;
    visibility = visibility;
    access = public_access;
    stream_descriptors =
        (record {
          stream_id = stable_digest (utf8 (feed_id ++ chars ":" ++ feed_label));
          label = feed_label;
          agent_kinds = chars "codex" ∷ chars "claude" ∷ [];
          story_kinds = StoryKind.turn ∷ StoryKind.test ∷ StoryKind.incident ∷ [];
          visibility = visibility;
          summary_policy = default_policy;
          access = public_access;
        })
        ∷ [];
    rendezvous_namespace = github_user_topic network_id owner.github_user_id;
    live_topic = feed_topic network_id feed_id;
    snapshot_protocol = chars "/agent-feed/1/snapshot";
    last_seen_at = now;
    expires_at = now + record_lifetime;
    sequence = sequence;
    signature = unsigned;
  }

  unfoldable pub with_github_org : FeedDirectoryEntry → Str → DirectoryError ⊎ FeedDirectoryEntry
  with_github_org entry name = result_then (identity_result (parse_org name)) λ name. inr (
      restrict_entry entry FeedVisibility.github_org (org_access name)
        (github_org_topic entry.network_id name.org))

  unfoldable pub with_github_team :
      FeedDirectoryEntry → Str → Str → DirectoryError ⊎ FeedDirectoryEntry
  with_github_team entry name team = result_then (identity_result (parse_org name)) λ name.
      result_then (identity_result (parse_team_slug team)) λ team. inr (
        restrict_entry entry FeedVisibility.github_team (team_access name team)
          (github_team_topic entry.network_id name.org team.slug))
