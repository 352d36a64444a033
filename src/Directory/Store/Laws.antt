-- ===== src/Directory/Store/Laws.antt =====
-- Publication: which records are let in.
use agent_feed.Directory.Entry.{access_matches_visibility, is_expired, verify_entry}
use agent_feed.Directory.Store.{
  DirectoryStore, admit, ensure_current_compatibility, is_replayed, publish, publish_error,
}
use agent_feed.Directory.Types.{DirectoryError, FeedDirectoryEntry}
use agent_feed.Prelude.{
  Bool-cases, Option, Option-cases, ap, arith, false, get, get-insert, get-insert_self, inl, inr,
  is_eq, leb, list_cmp, list_cmp_eq_iff, list_ord, map_or-cases, nat_ord, none, option_ord,
  pair_ord, refl, some, true, ℕ, ◌<◌, ◌↔◌, ◌≡◌, ◌≤◌,
}
use agent_feed.Proto.Compatibility.{current, is_compatible_with}
use agent_feed.Proto.Signing.{Hashes, Serialize}
use agent_feed.Text.{Str}

-- After a call, the store has seen a sequence of the feed that is not below the given one.
abbrev Seen : Str → ℕ → DirectoryStore × Option DirectoryError → Type 0
Seen id before result =
    (after : ℕ) × (get result.0.highest_sequence id ≡ some after) × (before ≤ after)

module _ ⦃h : Hashes⦄ ⦃s : Serialize FeedDirectoryEntry⦄ (version : Str) where
  -- What `publish` asks of a record by itself.
  pub record IsSound (entry : FeedDirectoryEntry) : Type 0 where
    pub compatible : is_compatible_with (current version) entry.compatibility ≡ true
    pub verified : verify_entry entry ≡ some true
    pub access : access_matches_visibility entry ≡ true

  -- The guards of `publish`.
  pub gate_iff :
      (store : DirectoryStore) (now : ℕ) (entry : FeedDirectoryEntry)
      → (publish_error version store now entry ≡ none)
        ↔ IsSound entry × (now < entry.expires_at) × (is_replayed store entry ≡ false)
  unfolding publish_error ensure_current_compatibility is_expired
  gate_iff store now entry = (
    λ accepted. (
      record { compatible = ground arith; verified = ground arith; access = ground arith },
      ground arith,
      ground arith,
    ),
    λ (r, fresh, new). ground (arith, r.compatible, r.verified, r.access, fresh, new),
  )

  open_gate :
      (store : DirectoryStore) (now : ℕ) (entry : FeedDirectoryEntry)
      → (publish version store now entry).1 ≡ none
      → publish_error version store now entry ≡ none
  unfolding publish
  open_gate store now entry h = ground arith

  -- A record is let in if and only if its peer is compatible, its signature verifies, its access
  -- policy fits its visibility, it has not expired, and no record of its feed with the same or a
  -- higher sequence was let in before.
  pub publish-accepts_iff :
      (store : DirectoryStore) (now : ℕ) (entry : FeedDirectoryEntry)
      → ((publish version store now entry).1 ≡ none)
        ↔ IsSound entry × (now < entry.expires_at) × (is_replayed store entry ≡ false)
  unfolding publish
  publish-accepts_iff store now entry = (
    λ h. (gate_iff store now entry).0 (open_gate store now entry h),
    λ r. rw ((gate_iff store now entry).1 r) refl,
  )

  admit-sequence :
      (store : DirectoryStore) (entry : FeedDirectoryEntry) (id : Str) (before : ℕ)
      → get store.highest_sequence id ≡ some before
      → is_replayed store entry ≡ false
      → Seen id before (admit store entry, none)
  unfolding admit is_replayed
  admit-sequence store entry id before e new =
      let sequences = get-insert store.highest_sequence entry.feed_id entry.sequence id in
      elim (Bool-cases (is_eq (list_cmp id entry.feed_id))) [
        | inl same ↦
            let name : id ≡ entry.feed_id = ground (arith, list_cmp_eq_iff id entry.feed_id) in
            let newer : leb entry.sequence before ≡ false =
              cc (new, ap (λ i. get store.highest_sequence i) name, e) in
            (entry.sequence, cc (sequences, same), ground arith)
        | inr apart ↦ (before, cc (sequences, apart, e), omega arith)
      ]

  replayed :
      (store : DirectoryStore) (entry other : FeedDirectoryEntry)
      → other.feed_id ≡ entry.feed_id
      → other.sequence ≤ entry.sequence
      → is_replayed (admit store entry) other ≡ true
  unfolding admit is_replayed
  replayed store entry other same h =
      rw (same, get-insert_self store.highest_sequence entry.feed_id entry.sequence) (ground arith)

  -- No call lowers the sequence that the store has seen of a feed.
  pub publish-sequence :
      (store : DirectoryStore) (now : ℕ) (entry : FeedDirectoryEntry) (id : Str) (before : ℕ)
      → get store.highest_sequence id ≡ some before
      → (after : ℕ) × (get (publish version store now entry).0.highest_sequence id ≡ some after)
        × (before ≤ after)
  unfolding publish
  publish-sequence store now entry id before e =
      map_or-cases {B = DirectoryStore × Option DirectoryError} (Seen id before)
        (publish_error version store now entry) _ _
        (λ accepted.
          admit-sequence store entry id before e ((gate_iff store now entry).0 accepted).2)
        (λ error refused. (before, e, omega arith))

  -- Once a record is let in, a record of the same feed with the same or a lower sequence fails, at
  -- any time, and leaves the store as it was.
  pub publish_again :
      (store : DirectoryStore) (now later : ℕ) (entry other : FeedDirectoryEntry)
      → (publish version store now entry).1 ≡ none
      → other.feed_id ≡ entry.feed_id
      → other.sequence ≤ entry.sequence
      → let after = (publish version store now entry).0 in
        (error : DirectoryError) × (publish version after later other ≡ (after, some error))
  unfolding publish
  publish_again store now later entry other accepted same h =
      let let_in = open_gate store now entry accepted in
      let old : is_replayed (admit store entry) other ≡ true = replayed store entry other same h in
      rw let_in (elim (Option-cases (publish_error version (admit store entry) later other)) [
        | inl passed ↦ cc (old, ((gate_iff (admit store entry) later other).0 passed).2)
        | inr (error, refused) ↦ (error, rw refused refl)
      ])
