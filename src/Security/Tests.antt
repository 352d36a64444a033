-- ===== src/Security/Tests.antt =====
-- Runs of the guards.
use agent_feed.Prelude.{false, refl, some, true, ◌↔◌, ◌≡◌}
use agent_feed.Security.{
  IpAddr, SecurityConfig, SecurityError, default_security, differences, is_loopback,
  requires_display_token, token_matches, validate_bind,
}
use agent_feed.Security.Laws.{token_matches_iff}
use agent_feed.Text.{chars, utf8, utf8_char}

compute : Unit {0}
unfolding is_loopback validate_bind requires_display_token differences token_matches utf8 utf8_char
compute = tt

abbrev open_bind : SecurityConfig
open_bind = record default_security { bind = record { ip = IpAddr.v4 0 0 0 0; port = 7777 } }

-- public_bind_requires_display_token
refused_bind : validate_bind open_bind ≡ some SecurityError.public_bind_requires_token
unfolding compute
refused_bind = refl

other_token : token_matches (chars "secret") (chars "secreT") ≡ false
unfolding compute
other_token = refl

same_token : token_matches (chars "secret") (chars "secret") ≡ true
unfolding compute
same_token = refl

token_matches_iff_example :
    (token_matches (chars "secret") (chars "secreT") ≡ true)
    ↔ (utf8 (chars "secret") ≡ utf8 (chars "secreT"))
token_matches_iff_example = token_matches_iff (chars "secret") (chars "secreT")
