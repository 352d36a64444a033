-- ===== src/Directory/Visible.antt =====
-- The entries of the directory that a route, an organisation or a team may see.
pub mod Laws
use agent_feed.Directory.Entry.{is_publicly_visible, permits_org, permits_team}
use agent_feed.Directory.Filters.{permits_label}
use agent_feed.Directory.Route.{network_id_of}
use agent_feed.Directory.Store.{DirectoryStore}
use agent_feed.Directory.Types.{
  DirectoryError, FeedDirectoryEntry, OrgRouteFilter, RemoteReelFilter, RemoteUserRoute,
  StreamDescriptor, StreamFilter,
}
use agent_feed.Identity.{GithubOrgName, GithubTeamSlug, GithubUserId}
use agent_feed.Prelude.{
  Bool, BtreeMap, List, Option, [], any, any_eq, false, filter, if◌then◌else◌, inl, inr, is_empty,
  list_eq, map, map_or, nat_eq, not, option_eq, pair_eq, result_then, true, ◌&&◌, ◌==◌, ◌||◌, ◌∷◌,
  ◌⊎◌,
}
use agent_feed.Proto.{FeedVisibility, StoryKind}
use agent_feed.Text.{Str, chars, to_ascii_lowercase}

abbrev values : BtreeMap Str FeedDirectoryEntry → List FeedDirectoryEntry
values entries = map (λ (e : Str × FeedDirectoryEntry). e.1) entries

unfoldable pub entries_for_github_user : DirectoryStore → GithubUserId → List FeedDirectoryEntry
entries_for_github_user store id =
    filter (λ (entry : FeedDirectoryEntry). entry.owner.github_user_id == id) (values store.entries)

unfoldable pub entries_for_github_org : DirectoryStore → GithubOrgName → List FeedDirectoryEntry
entries_for_github_org store name =
    filter (λ (entry : FeedDirectoryEntry). permits_org entry.access name) (values store.entries)

unfoldable pub entries_for_github_team :
    DirectoryStore → GithubOrgName → GithubTeamSlug → List FeedDirectoryEntry
entries_for_github_team store name team =
    filter (λ (entry : FeedDirectoryEntry). permits_team entry.access name team)
      (values store.entries)

abbrev kind_names : StoryKind → List Str
kind_names StoryKind.turn =
    chars "turn" ∷ chars "turn.start" ∷ chars "turn.complete" ∷ chars "turn.fail" ∷ []
kind_names StoryKind.plan = chars "plan" ∷ chars "plan.update" ∷ []
kind_names StoryKind.test = chars "test" ∷ chars "test.pass" ∷ chars "test.fail" ∷ []
kind_names StoryKind.permission =
    chars "permission" ∷ chars "permission.request" ∷ chars "permission.denied" ∷ []
kind_names StoryKind.command = chars "command" ∷ chars "command.exec" ∷ []
kind_names StoryKind.file_change =
    chars "file-change" ∷ chars "file.changed" ∷ chars "diff.created" ∷ []
kind_names StoryKind.mcp = chars "mcp" ∷ chars "mcp.call" ∷ chars "mcp.fail" ∷ []
kind_names StoryKind.incident = chars "incident" ∷ []
kind_names StoryKind.recap = chars "recap" ∷ chars "summary.created" ∷ []

unfoldable pub story_kind_matches : StoryKind → Str → Bool
story_kind_matches available requested =
    any_eq (kind_names available) (to_ascii_lowercase requested)

-- `route_agents_match` and `org_filter_agents_match`, which read the reel filter alone.
unfoldable pub agents_match : StreamDescriptor → RemoteReelFilter → Bool
agents_match stream reel =
    is_empty reel.agent_kinds || any (any_eq reel.agent_kinds) stream.agent_kinds

-- `route_kinds_match` and `org_filter_kinds_match`
unfoldable pub kinds_match : StreamDescriptor → RemoteReelFilter → Bool
kinds_match stream reel =
    if is_empty reel.story_kinds
    then true
    else any
        (λ requested. any (λ available. story_kind_matches available requested) stream.story_kinds)
        reel.story_kinds

-- The test of `retain` in `filter_entry_streams` and in `filter_entry_streams_for_org`.
unfoldable pub shows_stream : StreamFilter → RemoteReelFilter → StreamDescriptor → Bool
shows_stream streams reel stream =
    permits_label streams stream.label
    && stream.summary_policy.story_only
    && stream.summary_policy.settled_only
    && not stream.summary_policy.raw_events
    && agents_match stream reel
    && kinds_match stream reel

unfoldable pub filter_entry_streams :
    FeedDirectoryEntry → StreamFilter → RemoteReelFilter → FeedDirectoryEntry
filter_entry_streams entry streams reel = record entry {
  stream_descriptors = filter (shows_stream streams reel) entry.stream_descriptors;
}

unfoldable pub entry_is_org_visible :
    FeedDirectoryEntry → GithubOrgName → Option GithubTeamSlug → Bool
entry_is_org_visible entry name team = elim entry.visibility [
  | FeedVisibility.github_org ↦ permits_org entry.access name
  | FeedVisibility.github_team ↦ map_or team false (permits_team entry.access name)
  | _ ↦ false
]

-- The loop of `visible_entries_for_route`.
unfoldable pub visible_for_route :
    GithubUserId
    → RemoteUserRoute
    → List FeedDirectoryEntry
    → DirectoryError ⊎ List FeedDirectoryEntry
visible_for_route id route [] = inr []
visible_for_route id route (entry ∷ entries) =
    let rest = visible_for_route id route entries in
    if not (entry.network_id == network_id_of route.network)
    then rest
    else if not (entry.owner.github_user_id == id)
    then inl DirectoryError.github_id_mismatch
    else if not (permits_label route.stream_filter entry.feed_label)
    then rest
    else if not (is_publicly_visible entry)
    then rest
    else result_then rest (λ visible.
      inr (filter_entry_streams entry route.stream_filter route.reel_filter ∷ visible))

unfoldable pub visible_entries_for_route :
    DirectoryStore → GithubUserId → RemoteUserRoute → DirectoryError ⊎ List FeedDirectoryEntry
visible_entries_for_route store id route =
    visible_for_route id route (entries_for_github_user store id)

-- The loop of `visible_entries_for_org`.
unfoldable pub visible_for_org :
    GithubOrgName
    → Option GithubTeamSlug
    → OrgRouteFilter
    → List FeedDirectoryEntry
    → List FeedDirectoryEntry
visible_for_org name team org_filter [] = []
visible_for_org name team org_filter (entry ∷ entries) =
    let rest = visible_for_org name team org_filter entries in
    if not (permits_label org_filter.stream_filter entry.feed_label)
    then rest
    else if not (entry_is_org_visible entry name team)
    then rest
    else filter_entry_streams entry org_filter.stream_filter org_filter.reel_filter ∷ rest

-- It always succeeds, so the `Result` of its type is left out.
unfoldable pub visible_entries_for_org :
    DirectoryStore
    → GithubOrgName
    → Option GithubTeamSlug
    → OrgRouteFilter
    → List FeedDirectoryEntry
visible_entries_for_org store name team org_filter =
    visible_for_org name team org_filter
      (map_or team (entries_for_github_org store name) (entries_for_github_team store name))
