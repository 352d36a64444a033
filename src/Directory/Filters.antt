-- ===== src/Directory/Filters.antt =====
-- `StreamFilter`, `RemoteReelFilter` and `OrgRouteFilter`.
use agent_feed.Directory.Query.{
  QueryParams, first_any_param, first_param, has_flag, parse_query, privacy_weakening_keys,
  split_csv, split_stream_labels,
}
use agent_feed.Directory.Types.{
  DirectoryError, OrgRouteFilter, RemoteReelFilter, StreamFilter, StreamFlags,
}
use agent_feed.Identity.{GithubLogin}
use agent_feed.Prelude.{
  Bool, List, Option, [], any_eq, false, if◌then◌else◌, inl, inr, list_eq, map_or, nat_eq,
  option_eq, pair_eq, result_then, true, unwrap_or, ℕ, ◌++◌, ◌==◌, ◌||◌, ◌∷◌, ◌⊎◌,
}
use agent_feed.Text.{Str, chars, parse_unsigned}

abbrev pub settled_stories : StreamFlags
settled_stories = record { story_only = true; raw_events = false; require_settled = true }

unfoldable pub default_visible : StreamFilter
default_visible = StreamFilter.default_visible settled_stories

unfoldable pub all_visible : StreamFilter
all_visible = StreamFilter.all_visible settled_stories

unfoldable pub named_streams : List Str → StreamFilter
named_streams labels = StreamFilter.named labels settled_stories

abbrev pub is_every : Str → Bool
is_every value = value == chars "all" || value == chars "*"

unfoldable pub from_streams_query : Str → GithubLogin → DirectoryError ⊎ StreamFilter
from_streams_query value login =
    if is_every value || value == (login.login ++ chars "/*")
    then inr all_visible
    else result_then (split_stream_labels value)
        λ labels. if any_eq labels (chars "*") then inr all_visible else inr (named_streams labels)

unfoldable pub permits_label : StreamFilter → Str → Bool
permits_label (StreamFilter.default_visible flags) label = true
permits_label (StreamFilter.all_visible flags) label = true
permits_label (StreamFilter.named labels flags) label = any_eq labels label

-- `story_only`, `raw_events` and `require_settled` of a filter.
unfoldable pub flags_of : StreamFilter → StreamFlags
flags_of (StreamFilter.default_visible flags) = flags
flags_of (StreamFilter.all_visible flags) = flags
flags_of (StreamFilter.named labels flags) = flags

abbrev list_param : Option Str → List Str
list_param value = map_or value [] split_csv

unfoldable pub reel_filter_from_params : QueryParams → ℕ → List Str → RemoteReelFilter
reel_filter_from_params params min_score ignored = record {
  agent_kinds = list_param (first_param params (chars "agents"));
  story_kinds = list_param (first_param params (chars "kinds"));
  project_tags = list_param (first_any_param params (chars "projects" ∷ chars "project" ∷ []));
  min_score = min_score;
  story_only = true;
  raw_events = false;
  require_settled = true;
  ignored_privacy_params = ignored;
}

unfoldable pub default_reel_filter : RemoteReelFilter
default_reel_filter = record {
  agent_kinds = [];
  story_kinds = [];
  project_tags = [];
  min_score = 75;
  story_only = true;
  raw_events = false;
  require_settled = true;
  ignored_privacy_params = [];
}

-- `min_score=` as a u8, 75 where it is not given.
unfoldable pub min_score_param : QueryParams → DirectoryError ⊎ ℕ
min_score_param params = map_or (first_param params (chars "min_score")) (inr 75) λ value.
    map_or (parse_unsigned 255 value) (inl (DirectoryError.invalid_min_score value))
      (λ score. inr score)

unfoldable pub reel_filter_from_query : Option Str → DirectoryError ⊎ RemoteReelFilter
reel_filter_from_query query =
    let params = parse_query (unwrap_or query []) in
    result_then (min_score_param params)
      λ min_score. inr (reel_filter_from_params params min_score (privacy_weakening_keys params))

unfoldable pub org_all_visible : OrgRouteFilter
org_all_visible = record { stream_filter = all_visible; reel_filter = default_reel_filter }

unfoldable pub org_stream_filter : QueryParams → DirectoryError ⊎ StreamFilter
org_stream_filter params =
    if has_flag params (chars "all")
    then inr all_visible
    else map_or (first_param params (chars "streams")) (inr default_visible) λ streams.
      if is_every streams
      then inr all_visible
      else result_then (split_stream_labels streams) (λ labels. inr (named_streams labels))

unfoldable pub org_filter_from_query : Option Str → DirectoryError ⊎ OrgRouteFilter
org_filter_from_query query =
    let params = parse_query (unwrap_or query []) in
    result_then (org_stream_filter params) λ stream_filter.
      result_then (min_score_param params) λ min_score. inr (record {
        stream_filter = stream_filter;
        reel_filter = reel_filter_from_params params min_score (privacy_weakening_keys params);
      })
