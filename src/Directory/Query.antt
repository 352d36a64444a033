-- ===== src/Directory/Query.antt =====
-- `QueryParams`, the comma-separated lists, and the labels of feeds.
use agent_feed.Directory.Types.{DirectoryError}
use agent_feed.Prelude.{
  Bool, List, Option, [], all, any, any_eq, filter, find, if◌then◌else◌, inl, inr, is_empty, leb,
  list_eq, ltb, map, map_option, nat_eq, none, not, option_eq, or_else, pair_eq, result_then,
  unwrap_or, ℕ, ◌&&◌, ◌++◌, ◌==◌, ◌||◌, ◌∷◌, ◌⊎◌,
}
use agent_feed.Text.{
  Str, byte_len, chars, is_ascii_alphanumeric, split_on, split_once, starts_with, trim, utf8,
}

-- `QueryParams`: the pairs of a query string in their order.
abbrev pub QueryParams : Type 0
QueryParams = List (Str × Str)

unfoldable pub parse_query : Str → QueryParams
parse_query query =
    map (λ part. unwrap_or (split_once b'=' part) (part, []))
      (filter (λ part. not (is_empty part)) (split_on b'&' query))

unfoldable pub first_param : QueryParams → Str → Option Str
first_param params key =
    map_option (λ (p : Str × Str). p.1) (find (λ (p : Str × Str). p.0 == key) params)

-- `first_any`
unfoldable pub first_any_param : QueryParams → List Str → Option Str
first_any_param params [] = none
first_any_param params (key ∷ keys) = or_else (first_param params key) (first_any_param params keys)

unfoldable pub has_flag : QueryParams → Str → Bool
has_flag params key = any (λ (p : Str × Str). p.0 == key && is_empty p.1) params

-- The parameters that would weaken the privacy of a reel.
abbrev pub weakens_privacy : Str × Str → Bool
weakens_privacy (key, value) =
    (key == chars "redact" || key == chars "redaction") && value == chars "off"
    || any_eq
        (chars "raw"
          ∷ chars "raw_events"
          ∷ chars "diffs"
          ∷ chars "prompts"
          ∷ chars "command_output"
          ∷ [])
        key
      && value == chars "true"

unfoldable pub privacy_weakening_keys : QueryParams → List Str
privacy_weakening_keys params = map (λ (p : Str × Str). p.0) (filter weakens_privacy params)

unfoldable pub split_csv : Str → List Str
split_csv value = filter (λ part. not (is_empty part)) (map trim (split_on b',' value))

unfoldable pub is_label_byte : ℕ → Bool
is_label_byte byte = is_ascii_alphanumeric byte || byte == b'-' || byte == b'_' || byte == b'.'

unfoldable pub is_valid_logical_feed_label : Str → Bool
is_valid_logical_feed_label value =
    ltb 0 (byte_len value)
    && leb (byte_len value) 64
    && not (starts_with value (chars "."))
    && all is_label_byte (utf8 value)

unfoldable pub validate_logical_feed_label : Str → DirectoryError ⊎ Unit {0}
validate_logical_feed_label value =
    if is_valid_logical_feed_label value
    then inr tt
    else inl (DirectoryError.invalid_route (chars "invalid feed label: " ++ value))

-- The loop over the labels: the first that is refused ends it.
unfoldable pub validate_labels : List Str → DirectoryError ⊎ Unit {0}
validate_labels [] = inr tt
validate_labels (label ∷ labels) =
    let rest = validate_labels labels in
    if label == chars "*"
    then rest
    else result_then (validate_logical_feed_label label) (λ valid. rest)

unfoldable pub split_stream_labels : Str → DirectoryError ⊎ List Str
split_stream_labels value =
    let labels = split_csv value in
    if is_empty labels
    then inl (DirectoryError.invalid_route (chars "empty streams filter"))
    else result_then (validate_labels labels) (λ valid. inr labels)
