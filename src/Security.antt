-- ===== src/Security.antt =====
-- crates/agent_feed_security/src/lib.rs: the guard of the bind address and the display token.
-- An address is the bytes of its octets (IPv4) or the number it stands for (IPv6), as far as
-- `is_loopback` reads it.
mod Tests
pub mod Laws
use agent_feed.Prelude.{
  Bool, List, Option, bit_or, bit_xor, false, if◌then◌else◌, is_none, is_some, length, list_eq,
  nat_eq, none, not, option_eq, pair_eq, some, true, ℕ, ◌&&◌, ◌==◌, ◌∷◌,
}
use agent_feed.Text.{Str, utf8}

pub data IpAddr : Type 0 where
  v4 : (first second third fourth : ℕ) → IpAddr
  v6 : (address : ℕ) → IpAddr

pub record SocketAddr : Type 0 where
  pub ip : IpAddr
  pub port : ℕ

pub record SecurityConfig : Type 0 where
  pub bind : SocketAddr
  pub public_bind_requires_token : Bool
  pub display_token : Option Str

pub data SecurityError : Type 0 where
  public_bind_requires_token : SecurityError

abbrev pub default_security : SecurityConfig
default_security = record {
  bind = record { ip = IpAddr.v4 127 0 0 1; port = 7777 };
  public_bind_requires_token = true;
  display_token = none;
}

-- `127.0.0.0/8` and `::1`
unfoldable pub is_loopback : IpAddr → Bool
is_loopback (IpAddr.v4 first second third fourth) = first == 127
is_loopback (IpAddr.v6 address) = address == 1

-- The error of a bind that is refused.
unfoldable pub validate_bind : SecurityConfig → Option SecurityError
validate_bind config =
    if config.public_bind_requires_token
      && not (is_loopback config.bind.ip)
      && is_none config.display_token
    then some SecurityError.public_bind_requires_token
    else none

unfoldable pub requires_display_token : SecurityConfig → Bool
requires_display_token config = not (is_loopback config.bind.ip) && is_some config.display_token

-- `left.iter().zip(right).fold(0u8, |acc, (left, right)| acc | (left ^ right))`
unfoldable pub differences : ℕ → List ℕ → List ℕ → ℕ
differences acc (left ∷ lefts) (right ∷ rights) =
    differences (bit_or acc (bit_xor left right)) lefts rights
differences acc _ _ = acc

unfoldable pub token_matches : Str → Str → Bool
token_matches expected actual =
    let left = utf8 expected in
    let right = utf8 actual in
    if not (length left == length right) then false else differences 0 left right == 0
