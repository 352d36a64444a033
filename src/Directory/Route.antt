-- ===== src/Directory/Route.antt =====
-- `RemoteUserRoute::parse`, with the selection of feeds and the layout.
pub mod Laws
use agent_feed.Directory.Filters.{
  all_visible, default_visible, from_streams_query, min_score_param, named_streams,
  reel_filter_from_params,
}
use agent_feed.Directory.Query.{
  QueryParams, first_param, has_flag, parse_query, privacy_weakening_keys,
  validate_logical_feed_label,
}
use agent_feed.Directory.Types.{
  DirectoryError, NetworkSelector, ReelLayout, RemoteFeedSelection, RemoteUserRoute, StreamFilter,
}
use agent_feed.Identity.{GithubLogin, IdentityError, parse_login}
use agent_feed.Prelude.{
  Bool, List, Option, String, [], any, any_eq, false, head?, if◌then◌else◌, inl, inr, is_empty,
  is_some_and, length, list_eq, ltb, map_or, nat_eq, none, option_eq, pair_eq, result_then, some,
  true, unwrap_or, ◌++◌, ◌==◌, ◌||◌, ◌∷◌, ◌⊎◌,
}
use agent_feed.Text.{Str, chars, contains, drop_while, drop_while_end, split_on, starts_with}

-- `NetworkSelector::from_query`
unfoldable pub network_from_query : Str → NetworkSelector
network_from_query value =
    if is_empty value || value == chars "mainnet"
    then NetworkSelector.mainnet
    else NetworkSelector.custom value

unfoldable pub network_id_of : NetworkSelector → Str
network_id_of NetworkSelector.mainnet = chars "agent-feed-mainnet"
network_id_of (NetworkSelector.custom value) = value

unfoldable pub selection_from_segment : Str → DirectoryError ⊎ RemoteFeedSelection
selection_from_segment segment =
    if segment == chars "*"
    then inr RemoteFeedSelection.wildcard
    else result_then (validate_logical_feed_label segment)
        (λ valid. inr (RemoteFeedSelection.named segment))

unfoldable pub selection_from_filter : StreamFilter → RemoteFeedSelection
selection_from_filter (StreamFilter.all_visible flags) = RemoteFeedSelection.wildcard
selection_from_filter (StreamFilter.named (label ∷ []) flags) = RemoteFeedSelection.named label
selection_from_filter _ = RemoteFeedSelection.default_visible

unfoldable pub is_named_or_wildcard : RemoteFeedSelection → Bool
is_named_or_wildcard RemoteFeedSelection.default_visible = false
is_named_or_wildcard _ = true

unfoldable pub to_stream_filter : RemoteFeedSelection → StreamFilter
to_stream_filter RemoteFeedSelection.default_visible = default_visible
to_stream_filter RemoteFeedSelection.wildcard = all_visible
to_stream_filter (RemoteFeedSelection.named label) = named_streams (label ∷ [])

unfoldable pub route_syntax : RemoteFeedSelection → GithubLogin → Str
route_syntax RemoteFeedSelection.default_visible login = login.login
route_syntax RemoteFeedSelection.wildcard login = login.login ++ chars "/*"
route_syntax (RemoteFeedSelection.named label) login = login.login ++ chars "/" ++ label

unfoldable pub layout_from_query : Str → ReelLayout
layout_from_query value =
    if value == chars "timeline"
    then ReelLayout.timeline
    else if value == chars "wall"
    then ReelLayout.wall
    else if value == chars "ambient"
    then ReelLayout.ambient
    else if value == chars "incident"
    then ReelLayout.incident
    else if value == chars "debug"
    then ReelLayout.debug
    else ReelLayout.stage

abbrev param_is : QueryParams → String → List Str → Bool
param_is params key values = is_some_and (first_param params (chars key)) (any_eq values)

unfoldable pub route_layout : QueryParams → ReelLayout
route_layout params =
    let layout = map_or (first_param params (chars "layout")) ReelLayout.stage layout_from_query in
    let layout =
      if param_is params "view" (chars "timeline" ∷ [])
        || param_is params "timeline" (chars "1" ∷ chars "true" ∷ chars "on" ∷ [])
      then ReelLayout.timeline
      else layout in
    if param_is params "mode" (chars "incident" ∷ []) then ReelLayout.incident else layout

-- The selection of the path, or else of the query, with its filter.
unfoldable pub route_selection :
    RemoteFeedSelection
    → QueryParams
    → GithubLogin
    → DirectoryError ⊎ RemoteFeedSelection × StreamFilter
route_selection path_selection params login =
    if is_named_or_wildcard path_selection
    then inr (path_selection, to_stream_filter path_selection)
    else if has_flag params (chars "all")
    then inr (RemoteFeedSelection.wildcard, all_visible)
    else map_or (first_param params (chars "streams"))
        (inr (RemoteFeedSelection.default_visible, default_visible))
        λ streams.
          result_then (from_streams_query streams login)
            λ stream_filter. inr (selection_from_filter stream_filter, stream_filter)

unfoldable pub is_bad_segment : Str → Bool
is_bad_segment segment = is_empty segment || starts_with segment (chars ".")

-- The segments of a path, if they can be a route.
unfoldable pub route_segments : Str → Option (Str × Option Str)
route_segments path =
    let segments = split_on b'/' path in
    if is_empty path
      || contains path (chars "%")
      || ltb 2 (length segments)
      || any is_bad_segment segments
    then none
    else elim segments [ [] ↦ none | login ∷ rest ↦ some (login, head? rest) ]

-- `map_err`: the errors of the identity crate.
abbrev login_result : IdentityError ⊎ GithubLogin → DirectoryError ⊎ GithubLogin
login_result (inl e) = inl (DirectoryError.identity e)
login_result (inr login) = inr login

-- The route of two segments that passed.
unfoldable pub route_of : Str × Option Str → QueryParams → DirectoryError ⊎ RemoteUserRoute
route_of (name, feed) params = result_then (login_result (parse_login name)) λ login.
    result_then (map_or feed (inr RemoteFeedSelection.default_visible) selection_from_segment)
      λ path_selection. result_then (route_selection path_selection params login) λ selected.
        result_then (min_score_param params) λ min_score. inr (record {
          login = login;
          network =
              map_or (first_param params (chars "network")) NetworkSelector.mainnet
                network_from_query;
          selection = selected.0;
          stream_filter = selected.1;
          reel_filter = reel_filter_from_params params min_score (privacy_weakening_keys params);
          layout = route_layout params;
        })

unfoldable pub parse_route : Str → Option Str → DirectoryError ⊎ RemoteUserRoute
parse_route path query =
    let path = drop_while_end (λ c. c == b'/') (drop_while (λ c. c == b'/') path) in
    map_or (route_segments path) (inl (DirectoryError.invalid_route path))
      (λ segments. route_of segments (parse_query (unwrap_or query [])))
