-- ===== src/Identity/Tests.antt =====
-- Runs of the parsers of names.
use agent_feed.Identity.{
  IdentityError, bare_name, is_valid_github_login, is_valid_github_org, is_valid_github_team_slug,
  parse_login, parse_org, parse_team_slug,
}
use agent_feed.Identity.Laws.{IsLogin, parse_login_iff}
use agent_feed.Prelude.{inl, inr, refl, ◌↔◌, ◌≡◌}
use agent_feed.Text.{
  chars, contains, drop_while, drop_while_end, is_ascii_alphanumeric, is_ascii_digit, is_whitespace,
  lower_char, starts_with, strip_prefix, to_ascii_lowercase, trim, trim_start, utf8, utf8_char,
}

compute : Unit {0}
unfolding bare_name trim trim_start drop_while drop_while_end is_whitespace parse_login
    is_valid_github_login utf8 utf8_char is_ascii_alphanumeric is_ascii_digit parse_team_slug
    is_valid_github_team_slug starts_with strip_prefix contains to_ascii_lowercase lower_char
    parse_org is_valid_github_org
compute = tt

-- github_login_accepts_canonical_and_at_forms
at_form : parse_login (chars " @mosure") ≡ inr (record { login = chars "mosure" })
unfolding compute
at_form = refl

leading_hyphen :
    parse_login (chars "-mosure") ≡ inl (IdentityError.invalid_github_login (chars "-mosure"))
unfolding compute
leading_hyphen = refl

team_slug : parse_team_slug (chars "Release_1") ≡ inr (record { slug = chars "release_1" })
unfolding compute
team_slug = refl

parse_login_iff_example :
    (parse_login (chars "@mosure") ≡ inr (record { login = chars "mosure" }))
    ↔ (bare_name (chars "@mosure") ≡ chars "mosure") × IsLogin (bare_name (chars "@mosure"))
parse_login_iff_example = parse_login_iff (chars "@mosure") (record { login = chars "mosure" })
