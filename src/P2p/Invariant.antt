-- ===== src/P2p/Invariant.antt =====
-- What holds of a network: the feeds, the histories, the inboxes and the directory.
pub mod Parts
pub mod Methods
pub mod Reads
pub mod Errors
use agent_feed.Directory.Entry.{access_matches_visibility, verify_entry}
use agent_feed.Directory.Store.{ensure_current_compatibility}
use agent_feed.Directory.Types.{FeedDirectoryEntry}
use agent_feed.Identity.{GithubOrgName, GithubTeamSlug, GithubUserId}
use agent_feed.P2p.Types.{Capsules, EntryMap, NetworkState, org_ord, role_ord, team_ord}
use agent_feed.Prelude.{
  All, BtreeMap, get, length, list_ord, nat_ord, none, option_ord, pair_ord, some, true, ℕ, ◌≡◌,
  ◌≤◌,
}
use agent_feed.Proto.Capsule.{StoryCapsule, verify_capsule}
use agent_feed.Proto.Profile.{FeedProfile}
use agent_feed.Proto.Signing.{Hashes, Serialize, Signed}
use agent_feed.Proto.Topics.{feed_topic}
use agent_feed.Text.{Str}

module _ ⦃h : Hashes⦄ where
  -- A feed stands under its own id, is of the current data model, and has its topic beside it.
  pub record FeedsHold (version : Str) (feeds : BtreeMap Str FeedProfile)
      (topics : BtreeMap Str Str) : Type 0 where
    pub current_feeds :
        All
          (λ (f : Str × FeedProfile).
            (f.1.feed_id ≡ f.0) × (ensure_current_compatibility version f.1.compatibility ≡ none))
          feeds
    pub topic_of :
        (id : Str) (profile : FeedProfile)
        → get feeds id ≡ some profile
        → get topics id ≡ some (feed_topic profile.network_id id)

module _ ⦃h : Hashes⦄ ⦃s : Serialize StoryCapsule⦄ (version : Str) where
  abbrev pub IsVerified : Signed StoryCapsule → Type 0
  IsVerified signed = verify_capsule version signed ≡ some true

  -- A history is within its capacity and holds verified capsules of its feed.
  abbrev pub HistoryHolds : ℕ → Str × Capsules → Type 0
  HistoryHolds capacity history =
      (length history.1 ≤ capacity)
      × All
          (λ (signed : Signed StoryCapsule). IsVerified signed × (signed.value.feed_id ≡ history.0))
          history.1

  abbrev pub InboxHolds : Str × Capsules → Type 0
  InboxHolds inbox = All IsVerified inbox.1

-- An entry that the directory may list, with what its index says of it.
module _ ⦃h : Hashes⦄ ⦃d : Serialize FeedDirectoryEntry⦄ (version : Str) where
  pub record IsListed (entry : FeedDirectoryEntry) : Type 0 where
    pub current : ensure_current_compatibility version entry.compatibility ≡ none
    pub verified : verify_entry entry ≡ some true
    pub access : access_matches_visibility entry ≡ true

  abbrev pub IndexHolds : {K : Type 0} → (K → FeedDirectoryEntry → Type 0) → K × EntryMap → Type 0
  IndexHolds Under index =
      All (λ (e : Str × FeedDirectoryEntry). IsListed e.1 × (e.1.feed_id ≡ e.0) × Under index.0 e.1)
        index.1

  abbrev pub UnderOwner : GithubUserId → FeedDirectoryEntry → Type 0
  UnderOwner id entry = entry.owner.github_user_id ≡ id

  abbrev pub UnderOrg : GithubOrgName → FeedDirectoryEntry → Type 0
  UnderOrg name entry = entry.access.github_org ≡ some name

  abbrev pub UnderTeam : GithubOrgName × GithubTeamSlug → FeedDirectoryEntry → Type 0
  UnderTeam (name, team) entry =
      (entry.access.github_org ≡ some name) × (entry.access.github_team ≡ some team)

  pub record DirectoryHolds (directory : BtreeMap GithubUserId EntryMap)
      (org_directory : BtreeMap GithubOrgName EntryMap)
      (team_directory : BtreeMap (GithubOrgName × GithubTeamSlug) EntryMap) : Type 0 where
    pub owners : All (IndexHolds UnderOwner) directory
    pub orgs : All (IndexHolds UnderOrg) org_directory
    pub teams : All (IndexHolds UnderTeam) team_directory

module _ ⦃h : Hashes⦄ ⦃s : Serialize StoryCapsule⦄ ⦃d : Serialize FeedDirectoryEntry⦄
    (version : Str) where
  pub record IsTrusted (n : NetworkState) : Type 0 where
    pub feeds : FeedsHold version n.feeds n.topics
    pub histories : All (HistoryHolds version n.history_capacity) n.history
    pub inboxes : All (InboxHolds version) n.inboxes
    pub directory : DirectoryHolds version n.directory n.org_directory n.team_directory
