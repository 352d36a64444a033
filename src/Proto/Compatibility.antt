-- ===== src/Proto/Compatibility.antt =====
-- `ProtocolCompatibility`. The release version is the version of the package, set by the build.
use agent_feed.Prelude.{
  Bool, if◌then◌else◌, leb, list_eq, ltb, nat_eq, not, option_eq, pair_eq, ℕ, ◌&&◌, ◌==◌,
}
use agent_feed.Text.{Str, chars}

-- The version fields are u16.
pub record ProtocolCompatibility : Type 0 where
  pub product : Str
  pub release_version : Str
  pub protocol_version : ℕ
  pub model_version : ℕ
  pub min_model_version : ℕ

pub record CompatibilityStatus : Type 0 where
  pub compatible : Bool
  pub local : ProtocolCompatibility
  pub remote : ProtocolCompatibility
  pub message : Str

-- `ProtocolCompatibility::current`, of a package version
unfoldable pub current : Str → ProtocolCompatibility
current version = record {
  product = chars "feed";
  release_version = version;
  protocol_version = 1;
  model_version = 3;
  min_model_version = 3;
}

unfoldable pub with_model_version : ProtocolCompatibility → ℕ → ℕ → ProtocolCompatibility
with_model_version c model_version min_model_version = record c {
  model_version = model_version;
  min_model_version = min_model_version;
}

unfoldable pub with_protocol_version : ProtocolCompatibility → ℕ → ProtocolCompatibility
with_protocol_version c version = record c { protocol_version = version }

unfoldable pub is_compatible_with : ProtocolCompatibility → ProtocolCompatibility → Bool
is_compatible_with local remote =
    local.product == remote.product
    && local.protocol_version == remote.protocol_version
    && leb remote.min_model_version local.model_version
    && leb local.min_model_version remote.model_version

unfoldable pub compatibility_message : ProtocolCompatibility → ProtocolCompatibility → Str
compatibility_message local remote =
    if is_compatible_with local remote
    then chars "compatible"
    else if not (local.product == remote.product)
    then chars "incompatible product"
    else if not (local.protocol_version == remote.protocol_version)
    then chars "protocol changed; update your peer to the latest version"
    else if ltb local.model_version remote.min_model_version
    then chars "remote feed requires a newer data model; update your peer to the latest version"
    else if ltb remote.model_version local.min_model_version
    then chars "remote peer is using an older data model; ask the publisher to update"
    else chars "incompatible feed data model"

unfoldable pub status_with : ProtocolCompatibility → ProtocolCompatibility → CompatibilityStatus
status_with local remote = record {
  compatible = is_compatible_with local remote;
  local = local;
  remote = remote;
  message = compatibility_message local remote;
}
