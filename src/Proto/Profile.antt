-- ===== src/Proto/Profile.antt =====
-- `FeedProfile`, what a publisher announces of a feed.
use agent_feed.Core.{Time}
use agent_feed.Prelude.{Bool, List, Option, [], map_option, none, ℕ, ◌++◌, ◌∷◌}
use agent_feed.Proto.{FeedVisibility}
use agent_feed.Proto.Compatibility.{ProtocolCompatibility, current}
use agent_feed.Proto.Signing.{Hashes, Serialize, Signature, for_value, unsigned, verify_value}
use agent_feed.Text.{Str, chars}

-- The epoch is a u64.
pub record FeedProfile : Type 0 where
  pub feed_id : Str
  pub network_id : Str
  pub compatibility : ProtocolCompatibility
  pub owner : Str
  pub peer_id : Str
  pub label : Str
  pub display_name : Str
  pub avatar : Option Str
  pub visibility : FeedVisibility
  pub capabilities : List Str
  pub current_epoch : ℕ
  pub created_at : Time
  pub updated_at : Time
  pub signature : Signature

-- `FeedProfile::new`, of a package version and a clock reading
unfoldable pub new_profile : Str → Time → Str → Str → Str → Str → Str → FeedVisibility → FeedProfile
new_profile version now feed_id network_id owner peer_id label visibility = record {
  feed_id = feed_id;
  network_id = network_id;
  compatibility = current version;
  owner = owner;
  peer_id = peer_id;
  label = label;
  display_name = owner ++ chars " / " ++ label;
  avatar = none;
  visibility = visibility;
  capabilities = chars "story-capsule" ∷ [];
  current_epoch = 0;
  created_at = now;
  updated_at = now;
  signature = unsigned;
}

module _ ⦃h : Hashes⦄ ⦃s : Serialize FeedProfile⦄ where
  unfoldable pub sign_profile : FeedProfile → Str → Option FeedProfile
  sign_profile profile key_id =
      let blank = record profile { signature = unsigned } in
      map_option (λ signature. record blank { signature = signature }) (for_value key_id blank)

  unfoldable pub verify_profile : FeedProfile → Option Bool
  verify_profile profile = verify_value profile.signature (record profile { signature = unsigned })
