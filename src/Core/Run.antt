-- ===== src/Core/Run.antt =====
-- Opens the shared operations, those on text and those of the core crate in a run.
use agent_feed.Core.{is_urgent, kind_as_str, kind_parse, new_event, score_bonus, source_as_str}
use agent_feed.Prelude.{
  any_eq, get, insert, list_beq, list_cmp, list_eq, list_ord, nat_eq, nat_ord, option_eq,
  option_ord, pair_eq, pair_ord, remove, set_extend, set_insert, wrapping_add,
}
use agent_feed.Text.{
  contains, contains_any, decimal, digits_from, drop_while, drop_while_end, ends_with,
  eq_ignore_ascii_case, hex_padded, is_ascii_alphanumeric, is_ascii_digit, is_control,
  is_whitespace, join, lower_char, parse_unsigned, replace_char, split_by, split_on, split_once,
  split_terminator, split_whitespace, starts_with, strip_prefix, strip_suffix, to_ascii_lowercase,
  trim, trim_start, utf8, utf8_char,
}

unfoldable pub run_core : Unit {0}
unfolding is_ascii_digit is_ascii_alphanumeric is_whitespace is_control lower_char
    to_ascii_lowercase utf8_char utf8 eq_ignore_ascii_case strip_prefix starts_with ends_with
    contains contains_any drop_while drop_while_end trim_start trim strip_suffix split_by split_on
    split_whitespace split_terminator split_once join replace_char digits_from decimal hex_padded
    parse_unsigned list_beq any_eq get insert remove set_insert set_extend list_cmp wrapping_add
    source_as_str score_bonus kind_as_str kind_parse is_urgent new_event
run_core = tt
