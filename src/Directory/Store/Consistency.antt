-- ===== src/Directory/Store/Consistency.antt =====
-- The invariant of the store, with the entries that were let in.
use mathlib.Core.List.{Memᴰ}
use mathlib.Core.Path.{subst}
use agent_feed.Directory.Store.{
  DirectoryStore, admit, is_replayed, new_directory, publish, publish_error,
}
use agent_feed.Directory.Store.Laws.{IsSound, gate_iff}
use agent_feed.Directory.Types.{DirectoryError, FeedDirectoryEntry}
use agent_feed.Prelude.{
  All, All-implies, Bool-cases, List, Option, [], ap, arith, false, get, get-insert,
  get-insert_self, inl, inr, is_eq, leb, list_cmp, list_cmp_eq_iff, list_ord, map_or-cases, nat_ord,
  none, option_ord, pair_ord, refl, some, some_injective, sym, ℕ, ◌∷◌, ◌≡◌, ◌≤◌,
}
use agent_feed.Proto.Signing.{Hashes, Serialize}
use agent_feed.Text.{Str}

module _ ⦃h : Hashes⦄ ⦃s : Serialize FeedDirectoryEntry⦄ (version : Str) where
  -- An entry that the store keeps: one of those let in, sound, under its own id, with the sequence
  -- that is recorded as the highest of its feed.
  pub record IsKept (store : DirectoryStore) (history : List FeedDirectoryEntry) (id : Str)
      (entry : FeedDirectoryEntry) : Type 0 where
    pub known : Memᴰ entry history
    pub keyed : entry.feed_id ≡ id
    pub latest : get store.highest_sequence id ≡ some entry.sequence
    pub fits : IsSound version entry

  -- The store keeps an entry of the feed of an earlier one, of a sequence that is not lower.
  pub record IsReplaced (store : DirectoryStore) (earlier : FeedDirectoryEntry) : Type 0 where
    pub entry : FeedDirectoryEntry
    pub found : get store.entries earlier.feed_id ≡ some entry
    pub newer : earlier.sequence ≤ entry.sequence

  -- A store after the entries of a history were let in, the last first.
  pub record IsConsistent (store : DirectoryStore) (history : List FeedDirectoryEntry)
      : Type 0 where
    pub kept :
        (id : Str) (entry : FeedDirectoryEntry)
        → get store.entries id ≡ some entry
        → IsKept store history id entry
    pub replaced : All (IsReplaced store) history

  -- The history after a call.
  abbrev pub history_after :
      List FeedDirectoryEntry → FeedDirectoryEntry → Option DirectoryError → List FeedDirectoryEntry
  history_after history entry none = entry ∷ history
  history_after history entry (some error) = history

  abbrev Follows :
      List FeedDirectoryEntry → FeedDirectoryEntry → DirectoryStore × Option DirectoryError → Type 0
  Follows history entry result = IsConsistent result.0 (history_after history entry result.1)

  admit-IsKept :
      (store : DirectoryStore) (history : List FeedDirectoryEntry) (entry : FeedDirectoryEntry)
      → IsConsistent store history
      → IsSound version entry
      → (id : Str) (other : FeedDirectoryEntry) → get (admit store entry).entries id ≡ some other
      → IsKept (admit store entry) (entry ∷ history) id other
  unfolding admit
  admit-IsKept store history entry v fit id other found =
      let entries = get-insert store.entries entry.feed_id entry id in
      let sequences = get-insert store.highest_sequence entry.feed_id entry.sequence id in
      elim (Bool-cases (is_eq (list_cmp id entry.feed_id))) [
        | inl same ↦
            let name : id ≡ entry.feed_id = ground (arith, list_cmp_eq_iff id entry.feed_id) in
            let new : entry ≡ other = some_injective (cc (entries, found, same)) in
            subst (IsKept (admit store entry) (entry ∷ history) id) new (record {
              known = Memᴰ.head refl;
              keyed = sym name;
              latest = cc (sequences, same);
              fits = fit;
            })
        | inr apart ↦
            let old = v.kept id other (cc (entries, found, apart)) in
            record {
              known = Memᴰ.tail old.known;
              keyed = old.keyed;
              latest = cc (sequences, apart, old.latest);
              fits = old.fits;
            }
      ]

  admit-IsReplaced :
      (store : DirectoryStore) (history : List FeedDirectoryEntry) (entry : FeedDirectoryEntry)
      → IsConsistent store history
      → is_replayed store entry ≡ false
      → (earlier : FeedDirectoryEntry) → IsReplaced store earlier
      → IsReplaced (admit store entry) earlier
  unfolding admit is_replayed
  admit-IsReplaced store history entry v new earlier r =
      let id = earlier.feed_id in
      let entries = get-insert store.entries entry.feed_id entry id in
      elim (Bool-cases (is_eq (list_cmp id entry.feed_id))) [
        | inl same ↦
            let name : id ≡ entry.feed_id = ground (arith, list_cmp_eq_iff id entry.feed_id) in
            let latest = (v.kept id r.entry r.found).latest in
            let below : leb entry.sequence r.entry.sequence ≡ false =
              cc (new, ap (λ i. get store.highest_sequence i) name, latest) in
            let newer = r.newer in
            record {
              entry = entry;
              found = cc (entries, same);
              newer = ground (arith, newer, below);
            }
        | inr apart ↦ record {
          entry = r.entry;
          found = cc (entries, apart, r.found);
          newer = r.newer;
        }
      ]

  admit-IsConsistent :
      (store : DirectoryStore) (history : List FeedDirectoryEntry) (entry : FeedDirectoryEntry)
      → IsConsistent store history
      → IsSound version entry
      → is_replayed store entry ≡ false
      → IsConsistent (admit store entry) (entry ∷ history)
  unfolding admit
  admit-IsConsistent store history entry v fit new = record {
    kept = admit-IsKept store history entry v fit;
    replaced = (
      record {
        entry = entry;
        found = get-insert_self store.entries entry.feed_id entry;
        newer = omega arith;
      },
      All-implies (IsReplaced store) (IsReplaced (admit store entry)) history
          (admit-IsReplaced store history entry v new) v.replaced,
    );
  }

  pub new_directory-IsConsistent : IsConsistent new_directory []
  unfolding new_directory get
  new_directory-IsConsistent = record { kept = λ id entry found. cc (found); replaced = tt }

  -- A publication keeps the store consistent with the history of the entries that were let in, to
  -- which the entry is added if the call lets it in: every entry of the store stands under its own
  -- feed id, is sound, is one of the history, and has the sequence that is recorded as the highest
  -- of its feed; and of the feed of every entry of the history the store has an entry whose
  -- sequence is not lower.
  pub publish-IsConsistent :
      (store : DirectoryStore) (now : ℕ) (entry : FeedDirectoryEntry)
      (history : List FeedDirectoryEntry)
      → IsConsistent store history
      → let result = publish version store now entry in
        IsConsistent result.0 (history_after history entry result.1)
  unfolding publish
  publish-IsConsistent store now entry history v =
      map_or-cases (Follows history entry) (publish_error version store now entry) _ _
        (λ accepted.
          let (sound, fresh, new) = (gate_iff version store now entry).0 accepted in
          admit-IsConsistent store history entry v sound new)
        (λ error refused. v)
