-- ===== src/Directory/Store/Signed.antt =====
-- The publication of a record that a peer signs.
use mathlib.Core.Path.{subst}
use agent_feed.Directory.Entry.{access_matches_visibility, sign_entry}
use agent_feed.Directory.Entry.Laws.{verify_entry-sign_entry}
use agent_feed.Directory.Store.{DirectoryStore, is_replayed, publish}
use agent_feed.Directory.Store.Laws.{publish-accepts_iff}
use agent_feed.Directory.Types.{FeedDirectoryEntry}
use agent_feed.Prelude.{
  false, list_beq, map_option-eq-some, none, refl, some, sym, true, ℕ, ◌<◌, ◌≡◌,
}
use agent_feed.Proto.Compatibility.{current, is_compatible_with}
use agent_feed.Proto.Signing.{Hashes, Serialize, Signature}
use agent_feed.Text.{Str}

self_compatible : (version : Str) → is_compatible_with (current version) (current version) ≡ true
unfolding is_compatible_with current list_beq
self_compatible version = refl

module _ ⦃h : Hashes⦄ ⦃s : Serialize FeedDirectoryEntry⦄ (version : Str) where
  -- A signed entry is the entry with a signature.
  sign_entry-fields :
      (entry signed : FeedDirectoryEntry) (key_id : Str)
      → sign_entry entry key_id ≡ some signed
      → (signature : Signature) × (record entry { signature = signature } ≡ signed)
  unfolding sign_entry
  sign_entry-fields entry signed key_id e =
      map_option-eq-some (λ signature. record entry { signature = signature }) _ signed e

  -- What the guards of `publish` ask of an entry beside its signature.
  abbrev Ready : DirectoryStore → ℕ → FeedDirectoryEntry → Type 0
  Ready store now entry =
      (is_compatible_with (current version) entry.compatibility ≡ true)
      × (access_matches_visibility entry ≡ true)
      × (now < entry.expires_at)
      × (is_replayed store entry ≡ false)

  -- An entry of the current version whose access policy fits its visibility, once it is signed, is
  -- let in as long as it has not expired and no record of its feed with the same or a higher
  -- sequence was let in before.
  pub publish-sign_entry :
      (store : DirectoryStore) (now : ℕ) (entry signed : FeedDirectoryEntry) (key_id : Str)
      → entry.compatibility ≡ current version
      → access_matches_visibility entry ≡ true
      → now < entry.expires_at
      → is_replayed store entry ≡ false
      → sign_entry entry key_id ≡ some signed
      → (publish version store now signed).1 ≡ none
  unfolding access_matches_visibility is_replayed
  publish-sign_entry store now entry signed key_id made fits fresh new e =
      let (signature, same) = sign_entry-fields entry signed key_id e in
      let current_peer : is_compatible_with (current version) entry.compatibility ≡ true =
        subst (λ c. is_compatible_with (current version) c ≡ true) (sym made)
          (self_compatible version) in
      let (compatible, access, live, newer) =
        subst (Ready store now) same (current_peer, fits, fresh, new) in
      (publish-accepts_iff version store now signed).1 (
        record {
          compatible = compatible;
          verified = verify_entry-sign_entry entry signed key_id e;
          access = access;
        },
        live,
        newer,
      )
