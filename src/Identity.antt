-- ===== src/Identity.antt =====
-- crates/agent_feed_identity/src/lib.rs: the names of GitHub users, organisations and teams.
mod Tests
pub mod Laws
use agent_feed.Prelude.{
  Bool, all, false, head?, if◌then◌else◌, inl, inr, is_some_and, last?, leb, length, list_eq, ltb,
  nat_eq, not, option_eq, pair_eq, ℕ, ◌&&◌, ◌++◌, ◌==◌, ◌||◌, ◌⊎◌,
}
use agent_feed.Text.{
  Str, byte_len, chars, contains, decimal, drop_while, is_ascii_alphanumeric, starts_with,
  to_ascii_lowercase, trim, utf8,
}

pub data IdentityError : Type 0 where
  invalid_github_login : Str → IdentityError
  invalid_github_org : Str → IdentityError
  invalid_github_team_slug : Str → IdentityError

-- The newtypes, each with the string it wraps.
pub record GithubLogin : Type 0 where
  pub login : Str

pub record GithubOrgName : Type 0 where
  pub org : Str

pub record GithubTeamSlug : Type 0 where
  pub slug : Str

-- `GithubUserId`, a u64
abbrev pub GithubUserId : Type 0
GithubUserId = ℕ

abbrev pub is_login_byte : ℕ → Bool
is_login_byte byte = is_ascii_alphanumeric byte || byte == b'-'

abbrev pub is_slug_byte : ℕ → Bool
is_slug_byte byte = is_ascii_alphanumeric byte || byte == b'-' || byte == b'_'

unfoldable pub is_valid_github_login : Str → Bool
is_valid_github_login value =
    let bytes = utf8 value in
    if length bytes == 0 || ltb 39 (length bytes)
    then false
    else if is_some_and (head? bytes) (λ byte. byte == b'-')
        || is_some_and (last? bytes) (λ byte. byte == b'-')
    then false
    else all is_login_byte bytes

unfoldable pub is_valid_github_org : Str → Bool
is_valid_github_org value = is_valid_github_login value

unfoldable pub is_valid_github_team_slug : Str → Bool
is_valid_github_team_slug value =
    ltb 0 (byte_len value)
    && leb (byte_len value) 100
    && not (starts_with value (chars "."))
    && not (contains value (chars ".."))
    && all is_slug_byte (utf8 value)

-- `value.trim().trim_start_matches('@')`
unfoldable pub bare_name : Str → Str
bare_name value = drop_while (λ c. c == b'@') (trim value)

unfoldable pub parse_login : Str → IdentityError ⊎ GithubLogin
parse_login value =
    let value = bare_name value in
    if is_valid_github_login value
    then inr (record { login = value })
    else inl (IdentityError.invalid_github_login value)

unfoldable pub parse_org : Str → IdentityError ⊎ GithubOrgName
parse_org value =
    let value = bare_name value in
    if is_valid_github_org value
    then inr (record { org = to_ascii_lowercase value })
    else inl (IdentityError.invalid_github_org value)

unfoldable pub parse_team_slug : Str → IdentityError ⊎ GithubTeamSlug
parse_team_slug value =
    let value = trim value in
    if is_valid_github_team_slug value
    then inr (record { slug = to_ascii_lowercase value })
    else inl (IdentityError.invalid_github_team_slug value)

unfoldable pub normalized_login : GithubLogin → Str
normalized_login login = to_ascii_lowercase login.login

pub data PrincipalRef : Type 0 where
  github : GithubUserId → GithubLogin → PrincipalRef
  github_org : GithubOrgName → PrincipalRef
  github_team : GithubOrgName → GithubTeamSlug → PrincipalRef
  local : Str → PrincipalRef

unfoldable pub stable_key : PrincipalRef → Str
stable_key (PrincipalRef.github id login) = chars "github:" ++ decimal id
stable_key (PrincipalRef.github_org name) = chars "github-org:" ++ name.org
stable_key (PrincipalRef.github_team name team) =
    chars "github-team:" ++ name.org ++ chars "/" ++ team.slug
stable_key (PrincipalRef.local value) = chars "local:" ++ value
