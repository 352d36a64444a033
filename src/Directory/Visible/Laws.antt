-- ===== src/Directory/Visible/Laws.antt =====
-- What a route and an organisation see.
use agent_feed.Directory.Entry.{is_publicly_visible, permits_org, permits_team, same_visibility-eq}
use agent_feed.Directory.Filters.{permits_label}
use agent_feed.Directory.Route.{network_id_of}
use agent_feed.Directory.Store.{DirectoryStore}
use agent_feed.Directory.Types.{
  DirectoryError, FeedDirectoryEntry, OrgRouteFilter, RemoteReelFilter, RemoteUserRoute,
  StreamDescriptor, StreamFilter,
}
use agent_feed.Directory.Visible.{
  entries_for_github_user, entry_is_org_visible, filter_entry_streams, shows_stream,
  visible_entries_for_org, visible_entries_for_route, visible_for_org, visible_for_route,
}
use agent_feed.Identity.{GithubOrgName, GithubTeamSlug}
use agent_feed.Prelude.{
  ==_iff, All, Bool, List, Option, [], arith, false, filter, if-cases, inr, list_eq, nat_eq, none,
  not, option_eq, pair_eq, refl, result_then, some, true, ℕ, ◌==◌, ◌∷◌, ◌≡◌, ◌⊎◌,
}
use agent_feed.Proto.{FeedVisibility}

-- A stream that a reel may show: permitted by the filter, settled stories, no raw events.
pub record IsShown (streams : StreamFilter) (stream : StreamDescriptor) : Type 0 where
  pub permitted : permits_label streams stream.label ≡ true
  pub story_only : stream.summary_policy.story_only ≡ true
  pub settled_only : stream.summary_policy.settled_only ≡ true
  pub raw_events : stream.summary_policy.raw_events ≡ false

-- An entry that a route of a user may show.
pub record IsVisible (id : ℕ) (route : RemoteUserRoute) (entry : FeedDirectoryEntry) : Type 0 where
  pub owner : entry.owner.github_user_id ≡ id
  pub network : entry.network_id ≡ network_id_of route.network
  pub permitted : permits_label route.stream_filter entry.feed_label ≡ true
  pub open_to_all : entry.visibility ≡ FeedVisibility.public
  pub streams : All (IsShown route.stream_filter) entry.stream_descriptors

filter-All :
    {A : Type 0} (P : A → Type 0) (p : A → Bool) (xs : List A)
    → ((x : A) → p x ≡ true → P x)
    → All P (filter p xs)
filter-All P p [] f = tt
filter-All P p (x ∷ xs) f =
    if-cases (All P) (p x) (x ∷ filter p xs) (filter p xs) (λ kept. (f x kept, filter-All P p xs f))
      (λ dropped. filter-All P p xs f)

streams-IsShown :
    (streams : StreamFilter) (reel : RemoteReelFilter) (all_streams : List StreamDescriptor)
    → All (IsShown streams) (filter (shows_stream streams reel) all_streams)
unfolding shows_stream
streams-IsShown streams reel all_streams =
    filter-All (IsShown streams) (shows_stream streams reel) all_streams λ stream kept. record {
      permitted = ground arith;
      story_only = ground arith;
      settled_only = ground arith;
      raw_events = ground arith;
    }

-- A result that succeeds, with visible entries.
abbrev Sees : ℕ → RemoteUserRoute → DirectoryError ⊎ List FeedDirectoryEntry → Type 0
Sees id route result =
    (visible : List FeedDirectoryEntry) × (result ≡ inr visible) × All (IsVisible id route) visible

filtered-IsVisible :
    (id : ℕ) (route : RemoteUserRoute) (entry : FeedDirectoryEntry)
    → (entry.owner.github_user_id == id) ≡ true
    → not (entry.network_id == network_id_of route.network) ≡ false
    → not (permits_label route.stream_filter entry.feed_label) ≡ false
    → not (is_publicly_visible entry) ≡ false
    → IsVisible id route (filter_entry_streams entry route.stream_filter route.reel_filter)
unfolding filter_entry_streams is_publicly_visible
filtered-IsVisible id route entry owned near permitted seen = record {
  owner = (==_iff entry.owner.github_user_id id).0 owned;
  network = (==_iff entry.network_id (network_id_of route.network)).0 (ground arith);
  permitted = ground arith;
  open_to_all = same_visibility-eq entry.visibility FeedVisibility.public (ground arith);
  streams = streams-IsShown route.stream_filter route.reel_filter entry.stream_descriptors;
}

-- One more entry in front of what the rest of the loop gives.
cons-Sees :
    (id : ℕ) (route : RemoteUserRoute) (entry : FeedDirectoryEntry)
    (rest : DirectoryError ⊎ List FeedDirectoryEntry)
    → IsVisible id route entry
    → Sees id route rest
    → Sees id route (result_then rest (λ visible. inr (entry ∷ visible)))
unfolding result_then
cons-Sees id route entry rest v (visible, e, h) = (entry ∷ visible, rw e refl, (v, h))

-- The loop over entries of the user succeeds, and gives visible entries.
loop-Sees :
    (id : ℕ) (route : RemoteUserRoute) (entries : List FeedDirectoryEntry)
    → All (λ (entry : FeedDirectoryEntry). (entry.owner.github_user_id == id) ≡ true) entries
    → Sees id route (visible_for_route id route entries)
unfolding visible_for_route
loop-Sees id route [] h = ([], refl, tt)
loop-Sees id route (entry ∷ entries) (owned, h) =
    let rest = loop-Sees id route entries h in
    if-cases (Sees id route) (not (entry.network_id == network_id_of route.network)) _ _
      (λ far. rest)
      (λ near.
        if-cases (Sees id route) (not (entry.owner.github_user_id == id)) _ _
          (λ stranger. absurd (ground arith))
          (λ own.
            if-cases (Sees id route) (not (permits_label route.stream_filter entry.feed_label)) _ _
              (λ left_out. rest)
              (λ permitted.
                if-cases (Sees id route) (not (is_publicly_visible entry)) _ _ (λ closed. rest)
                  (λ seen.
                    cons-Sees id route _ (visible_for_route id route entries)
                      (filtered-IsVisible id route entry owned near permitted seen) rest))))

-- A route of a user always gets its entries: each belongs to the user and to the network of the
-- route, is public and has a label that the route permits, and each stream left in it has a label
-- that the route permits and carries settled stories only, with no raw events.
pub visible_entries_for_route-Sees :
    (store : DirectoryStore) (id : ℕ) (route : RemoteUserRoute)
    → (visible : List FeedDirectoryEntry) × (visible_entries_for_route store id route ≡ inr visible)
      × All (IsVisible id route) visible
unfolding visible_entries_for_route entries_for_github_user
visible_entries_for_route-Sees store id route = loop-Sees id route _ (
    filter-All (λ (entry : FeedDirectoryEntry). (entry.owner.github_user_id == id) ≡ true)
      (λ (entry : FeedDirectoryEntry). entry.owner.github_user_id == id) _ (λ entry owned. owned))

-- Who an entry of an organisation is for: the whole of it, or the team of the view.
abbrev ForView : GithubOrgName → Option GithubTeamSlug → FeedDirectoryEntry → Type 0
ForView name team entry =
    (entry.visibility ≡ FeedVisibility.github_org)
    ⊎ ((slug : GithubTeamSlug) × (team ≡ some slug)
        × (entry.visibility ≡ FeedVisibility.github_team)
        × (permits_team entry.access name slug ≡ true))

-- An entry that a view of an organisation, or of a team of it, may show.
pub record IsOrgVisible (name : GithubOrgName) (team : Option GithubTeamSlug)
    (org_filter : OrgRouteFilter) (entry : FeedDirectoryEntry) : Type 0 where
  pub within : ForView name team entry
  pub permitted_org : permits_org entry.access name ≡ true
  pub permitted : permits_label org_filter.stream_filter entry.feed_label ≡ true
  pub streams : All (IsShown org_filter.stream_filter) entry.stream_descriptors

within_view :
    (name : GithubOrgName) (team : Option GithubTeamSlug) (entry : FeedDirectoryEntry)
    → entry_is_org_visible entry name team ≡ true
    → ForView name team entry × (permits_org entry.access name ≡ true)
unfolding entry_is_org_visible permits_org permits_team
within_view name none entry h = ground arith
within_view name (some slug) entry h = ground arith

module _ (name : GithubOrgName) (team : Option GithubTeamSlug) (org_filter : OrgRouteFilter) where
  filtered-IsOrgVisible :
      (entry : FeedDirectoryEntry)
      → not (permits_label org_filter.stream_filter entry.feed_label) ≡ false
      → not (entry_is_org_visible entry name team) ≡ false
      → IsOrgVisible name team org_filter
          (filter_entry_streams entry org_filter.stream_filter org_filter.reel_filter)
  unfolding filter_entry_streams
  filtered-IsOrgVisible entry permitted seen =
      let (within, named) = within_view name team entry (ground arith) in
      record {
        within = within;
        permitted_org = named;
        permitted = ground arith;
        streams =
            streams-IsShown org_filter.stream_filter org_filter.reel_filter
              entry.stream_descriptors;
      }

  org_loop-IsOrgVisible :
      (entries : List FeedDirectoryEntry)
      → All (IsOrgVisible name team org_filter) (visible_for_org name team org_filter entries)
  unfolding visible_for_org
  org_loop-IsOrgVisible [] = tt
  org_loop-IsOrgVisible (entry ∷ entries) =
      let P : List FeedDirectoryEntry → Type 0 = All (IsOrgVisible name team org_filter) in
      let rest = org_loop-IsOrgVisible entries in
      if-cases P (not (permits_label org_filter.stream_filter entry.feed_label)) _ _
        (λ left_out. rest)
        (λ permitted.
          if-cases P (not (entry_is_org_visible entry name team)) _ _ (λ closed. rest)
            (λ seen. (filtered-IsOrgVisible entry permitted seen, rest)))

  -- A view of an organisation, or of a team of it, shows only entries whose access policy names the
  -- organisation, that are for the whole organisation or for the team of the view, and whose label
  -- the filter permits; each stream left in them has a permitted label and carries settled stories
  -- only, with no raw events.
  pub visible_entries_for_org-IsOrgVisible :
      (store : DirectoryStore)
      → All (IsOrgVisible name team org_filter) (visible_entries_for_org store name team org_filter)
  unfolding visible_entries_for_org
  visible_entries_for_org-IsOrgVisible store = org_loop-IsOrgVisible _
