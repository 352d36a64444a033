-- ===== src/Edge/Snapshot.antt =====
-- `SnapshotStore`: the feeds and the headlines of the edge, in memory and on its disk.
pub mod Laws
pub mod Bounds
use agent_feed.Core.{Time}
use agent_feed.Directory.Types.{OrgRouteFilter, RemoteReelFilter, RemoteUserRoute}
use agent_feed.Directory.Views.{RemoteHeadlineView, ResolveFeedView, view_from_headline}
use agent_feed.Edge.Sessions.{VerifiedSession}
use agent_feed.Edge.Visibility.{
  feed_is_visible_for_session, feed_matches_github_route_with_access, feed_matches_org_route,
  headline_is_visible_for_session, headline_matches_github_route_with_access,
  headline_matches_org_route, headline_matches_reel_filter,
}
use agent_feed.Identity.{GithubOrgName, GithubTeamSlug}
use agent_feed.Prelude.{
  Bool, List, Option, [], any, drop, false, filter, if◌then◌else◌, leb, length, list_eq, ltb, map,
  map_or, nat_eq, none, not, option_eq, pair_eq, true, ℕ, ◌&&◌, ◌*◌, ◌++◌, ◌-◌, ◌==◌, ◌^◌, ◌∷◌,
}
use agent_feed.Summarize.Quality.{Regex}
use agent_feed.Text.{Str}

-- Nanoseconds. One reading of the clock serves a call and what it calls.
abbrev pub minutes : ℕ → Time
minutes n = n * 60 * 10 ^ 9

abbrev pub snapshot_headline_limit : ℕ
snapshot_headline_limit = 48

-- A time that lies ahead is within its lifetime, as a difference below zero is.
unfoldable pub headline_is_within_retention : RemoteHeadlineView → Time → Bool
headline_is_within_retention headline now =
    map_or headline.created_at true (λ created_at. leb (now - created_at) (minutes 45))

unfoldable pub feed_is_within_retention : ResolveFeedView → Time → Bool
feed_is_within_retention feed now = leb (now - feed.last_seen_at) (minutes 15)

pub record PersistedSnapshot : Type 0 where
  pub feeds : List ResolveFeedView
  pub headlines : List RemoteHeadlineView

-- The file is there where the store has a path; its writes succeed.
pub record SnapshotStore : Type 0 where
  pub feeds : List ResolveFeedView
  pub headlines : List RemoteHeadlineView
  pub has_path : Bool
  pub file : PersistedSnapshot

unfoldable pub prune_persisted_snapshot : PersistedSnapshot → Time → PersistedSnapshot
prune_persisted_snapshot snapshot now = record {
  feeds = filter (λ feed. feed_is_within_retention feed now) snapshot.feeds;
  headlines = filter (λ headline. headline_is_within_retention headline now) snapshot.headlines;
}

unfoldable pub persist_snapshot :
    List ResolveFeedView → List RemoteHeadlineView → Time → SnapshotStore → SnapshotStore
persist_snapshot feeds headlines now store = if not store.has_path then store else record store {
  file = prune_persisted_snapshot (record { feeds = feeds; headlines = headlines }) now;
}

unfoldable pub upsert_feed_view : List ResolveFeedView → ResolveFeedView → List ResolveFeedView
upsert_feed_view [] feed = feed ∷ []
upsert_feed_view (existing ∷ feeds) feed =
    let rest = upsert_feed_view feeds feed in
    if existing.feed_id == feed.feed_id then feed ∷ feeds else existing ∷ rest

-- `while views.len() > limit { views.pop_front(); }`
unfoldable pub pop_to : {A : Type 0} → ℕ → List A → List A
pop_to limit [] = []
pop_to limit (view ∷ views) =
    let rest = pop_to limit views in
    if ltb limit (length (view ∷ views)) then rest else view ∷ views

unfoldable pub merge_resolve_feed_views :
    List ResolveFeedView → List ResolveFeedView → List ResolveFeedView
merge_resolve_feed_views feeds [] = feeds
merge_resolve_feed_views feeds (feed ∷ extra) =
    merge_resolve_feed_views
      (if any (λ (existing : ResolveFeedView). existing.feed_id == feed.feed_id) feeds
        then feeds
        else feeds ++ feed ∷ [])
      extra

unfoldable pub feed_views_from_headlines : List RemoteHeadlineView → Time → List ResolveFeedView
feed_views_from_headlines headlines now =
    merge_resolve_feed_views [] (map (λ headline. view_from_headline headline now) headlines)

pub data PersistedSnapshotDisk : Type 0 where
  current_disk : PersistedSnapshot → PersistedSnapshotDisk
  legacy_headlines : List RemoteHeadlineView → PersistedSnapshotDisk

unfoldable pub snapshot_of_disk : PersistedSnapshotDisk → Time → PersistedSnapshot
snapshot_of_disk (PersistedSnapshotDisk.current_disk snapshot) now = snapshot
snapshot_of_disk (PersistedSnapshotDisk.legacy_headlines headlines) now = record {
  feeds = feed_views_from_headlines headlines now;
  headlines = headlines;
}

-- `from_path`, of the file as it reads, none where it does not.
unfoldable pub store_from_path : Option PersistedSnapshotDisk → Time → SnapshotStore
store_from_path disk now =
    let empty : PersistedSnapshot = record { feeds = []; headlines = [] } in
    let file = map_or disk empty (λ d. snapshot_of_disk d now) in
    let persisted = prune_persisted_snapshot file now in
    record {
      feeds = persisted.feeds;
      headlines = persisted.headlines;
      has_path = true;
      file = file;
    }

module _ ⦃r : Regex⦄ where
  unfoldable pub public_headlines : SnapshotStore → Time → List RemoteHeadlineView
  public_headlines store now =
      filter (λ headline. headline_is_within_retention headline now)
        (filter (λ headline. headline_is_visible_for_session headline none) store.headlines)

  unfoldable pub upsert_feed : ResolveFeedView → Time → SnapshotStore → SnapshotStore
  upsert_feed feed now store =
      let kept = filter (λ existing. feed_is_within_retention existing now) store.feeds in
      let feeds = pop_to snapshot_headline_limit (upsert_feed_view kept feed) in
      persist_snapshot feeds (public_headlines store now) now (record store { feeds = feeds })

  abbrev pub same_headline : RemoteHeadlineView → RemoteHeadlineView → Bool
  same_headline headline existing =
      existing.feed_id == headline.feed_id
      && existing.headline == headline.headline
      && existing.deck == headline.deck

  unfoldable pub push : RemoteHeadlineView → Time → SnapshotStore → SnapshotStore × Bool
  push headline now store =
      let after = upsert_feed (view_from_headline headline now) now store in
      let kept = filter (λ existing. headline_is_within_retention existing now) store.headlines in
      let headlines = pop_to snapshot_headline_limit (kept ++ headline ∷ []) in
      if not (headline_is_within_retention headline now)
      then (store, false)
      else if any (same_headline headline) kept
      then (record after { headlines = kept }, false)
      else (
        persist_snapshot after.feeds headlines now (record after { headlines = headlines }),
        true,
      )

  unfoldable pub global_discovery_headlines :
      Option RemoteReelFilter → Time → SnapshotStore → List RemoteHeadlineView
  global_discovery_headlines reel_filter now store =
      let shown =
        filter (λ headline. map_or reel_filter true (headline_matches_reel_filter headline))
          (public_headlines store now) in
      drop (length shown - snapshot_headline_limit) shown

  unfoldable pub public_feeds : Time → SnapshotStore → List ResolveFeedView
  public_feeds now store =
      merge_resolve_feed_views
        (filter (λ feed. feed_is_within_retention feed now)
          (filter (λ feed. feed_is_visible_for_session feed none) store.feeds))
        (feed_views_from_headlines (public_headlines store now) now)

  unfoldable pub headlines_for_org :
      GithubOrgName
      → Option GithubTeamSlug
      → OrgRouteFilter
      → Time
      → SnapshotStore
      → List RemoteHeadlineView
  headlines_for_org name team org_filter now store =
      filter (λ headline. headline_matches_org_route headline name team org_filter)
        (filter (λ headline. headline_is_within_retention headline now) store.headlines)

  unfoldable pub feeds_for_org :
      GithubOrgName
      → Option GithubTeamSlug
      → OrgRouteFilter
      → Time
      → SnapshotStore
      → List ResolveFeedView
  feeds_for_org name team org_filter now store =
      merge_resolve_feed_views
        (filter (λ feed. feed_matches_org_route feed name team org_filter)
          (filter (λ feed. feed_is_within_retention feed now) store.feeds))
        (feed_views_from_headlines (headlines_for_org name team org_filter now store) now)

  unfoldable pub headlines_for_github_user :
      ℕ
      → Str
      → RemoteUserRoute
      → Option VerifiedSession
      → Time
      → SnapshotStore
      → List RemoteHeadlineView
  headlines_for_github_user github_user_id github_login route session now store =
      filter
        (λ headline.
          headline_matches_github_route_with_access headline github_user_id github_login route
            session)
        (filter (λ headline. headline_is_within_retention headline now) store.headlines)

  unfoldable pub feeds_for_github_user :
      ℕ
      → Str
      → RemoteUserRoute
      → Option VerifiedSession
      → Time
      → SnapshotStore
      → List ResolveFeedView
  feeds_for_github_user github_user_id github_login route session now store =
      merge_resolve_feed_views
        (filter
          (λ feed.
            feed_matches_github_route_with_access feed github_user_id github_login route session)
          (filter (λ feed. feed_is_within_retention feed now) store.feeds))
        (feed_views_from_headlines
          (headlines_for_github_user github_user_id github_login route session now store) now)
