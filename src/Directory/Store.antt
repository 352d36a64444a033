-- ===== src/Directory/Store.antt =====
-- `DirectoryStore`: the entries by feed, and the highest sequence that was seen of each feed.
pub mod Laws
pub mod Consistency
pub mod Signed
use agent_feed.Core.{Time}
use agent_feed.Directory.Entry.{access_matches_visibility, is_expired, verify_entry}
use agent_feed.Directory.Types.{DirectoryError, FeedDirectoryEntry}
use agent_feed.Prelude.{
  Bool, BtreeMap, Option, [], get, if◌then◌else◌, insert, is_some_and, leb, list_eq, list_ord,
  map_or, nat_eq, nat_ord, none, not, option_eq, option_ord, pair_eq, pair_ord, some, ℕ, ◌==◌,
}
use agent_feed.Proto.Compatibility.{ProtocolCompatibility, current, is_compatible_with, status_with}
use agent_feed.Proto.Signing.{Hashes, Serialize}
use agent_feed.Text.{Str}

pub record DirectoryStore : Type 0 where
  pub entries : BtreeMap Str FeedDirectoryEntry
  pub highest_sequence : BtreeMap Str ℕ

unfoldable pub new_directory : DirectoryStore
new_directory = record { entries = []; highest_sequence = [] }

-- The error of a peer with another version than the local one, of the package version.
unfoldable pub ensure_current_compatibility : Str → ProtocolCompatibility → Option DirectoryError
ensure_current_compatibility version remote =
    let local = current version in
    if is_compatible_with local remote
    then none
    else some (DirectoryError.incompatible_protocol (status_with local remote).message)

unfoldable pub ensure_network_id : Str → Str → Option DirectoryError
ensure_network_id expected actual =
    if expected == actual then none else some (DirectoryError.network_mismatch expected actual)

unfoldable pub is_replayed : DirectoryStore → FeedDirectoryEntry → Bool
is_replayed store entry =
    is_some_and (get store.highest_sequence entry.feed_id) (λ sequence. leb entry.sequence sequence)

-- The two insertions of a publication that passed its guards.
unfoldable pub admit : DirectoryStore → FeedDirectoryEntry → DirectoryStore
admit store entry = record {
  highest_sequence = insert store.highest_sequence entry.feed_id entry.sequence;
  entries = insert store.entries entry.feed_id entry;
}

module _ ⦃h : Hashes⦄ ⦃s : Serialize FeedDirectoryEntry⦄ (version : Str) where
  -- The guards of `publish` in their order: the error of the first that refuses.
  unfoldable pub publish_error : DirectoryStore → Time → FeedDirectoryEntry → Option DirectoryError
  publish_error store now entry =
      map_or (ensure_current_compatibility version entry.compatibility)
        (map_or (verify_entry entry) (some DirectoryError.serialize) λ verified.
          if not verified
          then some DirectoryError.invalid_signature
          else if not (access_matches_visibility entry)
          then some DirectoryError.access_policy_mismatch
          else if is_expired entry now
          then some DirectoryError.expired_record
          else if is_replayed store entry
          then some DirectoryError.replayed_sequence
          else none)
        some

  -- `publish`: the store after the call, and the error of a call that fails.
  unfoldable pub publish :
      DirectoryStore → Time → FeedDirectoryEntry → DirectoryStore × Option DirectoryError
  publish store now entry =
      map_or (publish_error store now entry) (admit store entry, none)
        (λ error. (store, some error))

  unfoldable pub publish_for_network :
      DirectoryStore → Time → Str → FeedDirectoryEntry → DirectoryStore × Option DirectoryError
  publish_for_network store now expected entry =
      map_or (ensure_network_id expected entry.network_id) (publish store now entry)
        (λ error. (store, some error))
