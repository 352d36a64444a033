-- ===== src/Directory/Route/Laws.antt =====
-- What the filters of a parsed route ask for.
use mathlib.Core.Path.{subst}
use agent_feed.Directory.Filters.{
  all_visible, default_visible, flags_of, from_streams_query, is_every, min_score_param,
  named_streams, reel_filter_from_params, settled_stories,
}
use agent_feed.Directory.Query.{
  QueryParams, first_param, has_flag, parse_query, split_stream_labels,
}
use agent_feed.Directory.Route.{
  is_named_or_wildcard, parse_route, route_of, route_segments, route_selection, to_stream_filter,
}
use agent_feed.Directory.Types.{DirectoryError, RemoteFeedSelection, RemoteUserRoute, StreamFilter}
use agent_feed.Identity.{GithubLogin}
use agent_feed.Prelude.{
  Gives, Option, [], any_eq, false, if-cases, inl, inr, list_eq, map_or-cases, nat_eq, option_eq,
  pair_eq, refl, result_then-Gives, true, unwrap_or, ◌++◌, ◌==◌, ◌||◌, ◌≡◌, ◌⊎◌,
}
use agent_feed.Text.{Str, chars, drop_while, drop_while_end}

-- Settled stories only, and no raw events.
pub record IsPrivate (route : RemoteUserRoute) : Type 0 where
  pub streams : flags_of route.stream_filter ≡ settled_stories
  pub story_only : route.reel_filter.story_only ≡ true
  pub raw_events : route.reel_filter.raw_events ≡ false
  pub require_settled : route.reel_filter.require_settled ≡ true

abbrev AreSettled : RemoteFeedSelection × StreamFilter → Type 0
AreSettled selected = flags_of selected.1 ≡ settled_stories

Gives-any : {A : Type 0} (r : DirectoryError ⊎ A) → Gives (λ a. Unit {0}) r
Gives-any (inl e) = tt
Gives-any (inr a) = tt

to_stream_filter-settled :
    (s : RemoteFeedSelection) → flags_of (to_stream_filter s) ≡ settled_stories
unfolding flags_of to_stream_filter default_visible all_visible named_streams
to_stream_filter-settled RemoteFeedSelection.default_visible = refl
to_stream_filter-settled RemoteFeedSelection.wildcard = refl
to_stream_filter-settled (RemoteFeedSelection.named label) = refl

from_streams_query-settled :
    (value : Str) (login : GithubLogin)
    → Gives (λ f. flags_of f ≡ settled_stories) (from_streams_query value login)
unfolding from_streams_query flags_of all_visible named_streams
from_streams_query-settled value login =
    let P : StreamFilter → Type 0 = λ f. flags_of f ≡ settled_stories in
    if-cases (Gives P) (is_every value || value == (login.login ++ chars "/*")) _ _ (λ every. refl)
      (λ listed.
        result_then-Gives (λ labels. Unit {0}) P (split_stream_labels value) _
          (Gives-any (split_stream_labels value))
          (λ labels t.
            if-cases (Gives P) (any_eq labels (chars "*")) _ _ (λ star. refl) (λ names. refl)))

route_selection-settled :
    (s : RemoteFeedSelection) (params : QueryParams) (login : GithubLogin)
    → Gives AreSettled (route_selection s params login)
unfolding route_selection flags_of all_visible default_visible
route_selection-settled s params login =
    if-cases (Gives AreSettled) (is_named_or_wildcard s) _ _ (λ path. to_stream_filter-settled s)
      (λ query.
        if-cases (Gives AreSettled) (has_flag params (chars "all")) _ _ (λ every. refl)
          (λ some_streams.
            map_or-cases (Gives AreSettled) (first_param params (chars "streams")) _ _
              (λ absent. refl)
              (λ streams given.
                result_then-Gives (λ f. flags_of f ≡ settled_stories) AreSettled
                  (from_streams_query streams login) _ (from_streams_query-settled streams login)
                  (λ f settled. settled))))

route_of-IsPrivate :
    (segments : Str × Option Str) (params : QueryParams)
    → Gives IsPrivate (route_of segments params)
unfolding route_of reel_filter_from_params
route_of-IsPrivate (name, feed) params =
    result_then-Gives (λ a. Unit {0}) IsPrivate _ _ (Gives-any _)
      λ login t.
        result_then-Gives (λ a. Unit {0}) IsPrivate _ _ (Gives-any _)
          λ selection t.
            result_then-Gives AreSettled IsPrivate _ _
              (route_selection-settled selection params login)
              λ selected settled.
                result_then-Gives (λ a. Unit {0}) IsPrivate (min_score_param params) _ (Gives-any _)
                  λ min_score t. record {
                    streams = settled;
                    story_only = refl;
                    raw_events = refl;
                    require_settled = refl;
                  }

-- Whatever its path and its query, a route that parses asks for settled stories only and for no raw
-- events, in its stream filter and in its reel filter.
pub parse_route-IsPrivate :
    (path : Str) (query : Option Str) (route : RemoteUserRoute)
    → parse_route path query ≡ inr route
    → IsPrivate route
unfolding parse_route
parse_route-IsPrivate path query route h =
    let path = drop_while_end (λ c. c == b'/') (drop_while (λ c. c == b'/') path) in
    let params = parse_query (unwrap_or query []) in
    subst (Gives IsPrivate) h (
      map_or-cases (Gives IsPrivate) (route_segments path) _ _ (λ refused. tt)
        (λ segments found. route_of-IsPrivate segments params))
