-- ===== src/Identity/Laws.antt =====
-- What the parsed names look like.
use agent_feed.Identity.{GithubLogin, bare_name, is_login_byte, is_valid_github_login, parse_login}
use agent_feed.Prelude.{all, arith, head?, inr, last?, length, some, true, ◌↔◌, ◌≡◌, ◌≢◌, ◌≤◌}
use agent_feed.Text.{Str, utf8}

-- What a valid GitHub name is: 1 to 39 bytes, no hyphen first or last, and ASCII letters, digits
-- and hyphens only.
pub record IsLogin (value : Str) : Type 0 where
  pub nonempty : 1 ≤ length (utf8 value)
  pub short : length (utf8 value) ≤ 39
  pub first : head? (utf8 value) ≢ some b'-'
  pub last : last? (utf8 value) ≢ some b'-'
  pub bytes : all is_login_byte (utf8 value) ≡ true

valid-IsLogin : (value : Str) → is_valid_github_login value ≡ true → IsLogin value
unfolding is_valid_github_login
valid-IsLogin value h = record {
  nonempty = ground arith;
  short = ground arith;
  first = ground arith;
  last = ground arith;
  bytes = ground arith;
}

IsLogin-valid : (value : Str) → IsLogin value → is_valid_github_login value ≡ true
unfolding is_valid_github_login
IsLogin-valid value l = ground (arith, l.nonempty, l.short, l.first, l.last, l.bytes)

-- A login parses if and only if what is left of it without the outer whitespace and the leading `@`
-- is a valid GitHub name, and that is then the login: 1 to 39 bytes, ASCII letters, digits and
-- hyphens, with no hyphen first or last.
pub parse_login_iff :
    (value : Str) (login : GithubLogin)
    → (parse_login value ≡ inr login) ↔ (bare_name value ≡ login.login) × IsLogin (bare_name value)
unfolding parse_login
parse_login_iff value login =
    ground (arith, valid-IsLogin (bare_name value), IsLogin-valid (bare_name value))
