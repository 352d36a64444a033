-- ===== src/Edge/Snapshot/Bounds.antt =====
-- The bounds of the snapshot over any pushes.
use agent_feed.Core.{Time}
use agent_feed.Directory.Views.{RemoteHeadlineView, ResolveFeedView, view_from_headline}
use agent_feed.Edge.Snapshot.{
  SnapshotStore, feed_is_within_retention, headline_is_within_retention, persist_snapshot, pop_to,
  prune_persisted_snapshot, public_headlines, push, same_headline, upsert_feed, upsert_feed_view,
}
use agent_feed.Edge.Visibility.{headline_is_visible_for_session}
use agent_feed.Prelude.{
  Bool, Bool-cases, List, [], any, arith, filter, if-cases, inl, inr, length, ltb, none, not, suc,
  ℕ, ◌++◌, ◌∷◌, ◌≤◌,
}
use agent_feed.Summarize.Quality.{Regex}

length-pop_to-le : {A : Type 0} (limit : ℕ) (views : List A) → length (pop_to limit views) ≤ limit
unfolding pop_to
length-pop_to-le limit [] = omega arith
length-pop_to-le limit (view ∷ views) =
    let rest = length-pop_to-le limit views in
    elim (Bool-cases (ltb limit (length (view ∷ views)))) [
      | inl over ↦ rw over rest
      | inr within ↦ rw within (ground arith)
    ]

length-filter-le :
    {A : Type 0} (test : A → Bool) (items : List A) → length (filter test items) ≤ length items
length-filter-le test [] = omega arith
length-filter-le test (a ∷ items) =
    let rest = length-filter-le test items in
    if-cases (λ kept. length kept ≤ suc (length items)) (test a) (a ∷ filter test items)
      (filter test items) (λ passed. omega (arith, rest)) (λ failed. omega (arith, rest))

-- At most 48 feeds and 48 headlines, in memory and in the file.
pub record IsBounded (store : SnapshotStore) : Type 0 where
  pub feeds : length store.feeds ≤ 48
  pub headlines : length store.headlines ≤ 48
  pub file_feeds : length store.file.feeds ≤ 48
  pub file_headlines : length store.file.headlines ≤ 48

persist_snapshot-IsBounded :
    (feeds : List ResolveFeedView) (headlines : List RemoteHeadlineView) (now : Time)
    (store : SnapshotStore)
    → length feeds ≤ 48
    → length headlines ≤ 48
    → IsBounded store
    → IsBounded (persist_snapshot feeds headlines now store)
unfolding persist_snapshot prune_persisted_snapshot
persist_snapshot-IsBounded feeds headlines now store few short bounded =
    if-cases IsBounded (not store.has_path) store _ (λ none_there. bounded)
      λ there. record {
        feeds = bounded.feeds;
        headlines = bounded.headlines;
        file_feeds =
            omega (arith, few, length-filter-le (λ f. feed_is_within_retention f now) feeds);
        file_headlines =
            omega
              (arith, short, length-filter-le (λ h. headline_is_within_retention h now) headlines);
      }

module _ ⦃r : Regex⦄ where
  pub upsert_feed-IsBounded :
      (feed : ResolveFeedView) (now : Time) (store : SnapshotStore)
      → IsBounded store
      → IsBounded (upsert_feed feed now store)
  unfolding upsert_feed public_headlines
  upsert_feed-IsBounded feed now store bounded =
      let kept = filter (λ existing. feed_is_within_retention existing now) store.feeds in
      let few = length-pop_to-le 48 (upsert_feed_view kept feed) in
      let visible =
        filter (λ headline. headline_is_visible_for_session headline none) store.headlines in
      persist_snapshot-IsBounded _ _ now _ few
        (omega (
          arith,
          bounded.headlines,
          length-filter-le (λ h. headline_is_visible_for_session h none) store.headlines,
          length-filter-le (λ h. headline_is_within_retention h now) visible,
        ))
        (record {
          feeds = few;
          headlines = bounded.headlines;
          file_feeds = bounded.file_feeds;
          file_headlines = bounded.file_headlines;
        })

  pub push-IsBounded :
      (headline : RemoteHeadlineView) (now : Time) (store : SnapshotStore)
      → IsBounded store
      → IsBounded (push headline now store).0
  unfolding push
  push-IsBounded headline now store bounded =
      let view = view_from_headline headline now in
      let after = upsert_feed view now store in
      let settled = upsert_feed-IsBounded view now store bounded in
      let kept = filter (λ existing. headline_is_within_retention existing now) store.headlines in
      let short = length-pop_to-le 48 (kept ++ headline ∷ []) in
      let fewer = length-filter-le (λ h. headline_is_within_retention h now) store.headlines in
      if-cases (λ (pushed : SnapshotStore × Bool). IsBounded pushed.0)
        (not (headline_is_within_retention headline now)) _ _ (λ stale. bounded)
        λ recent.
          if-cases (λ (pushed : SnapshotStore × Bool). IsBounded pushed.0)
            (any (same_headline headline) kept) _ _
            (λ repeated. record {
              feeds = settled.feeds;
              headlines = omega (arith, bounded.headlines, fewer);
              file_feeds = settled.file_feeds;
              file_headlines = settled.file_headlines;
            })
            λ new. persist_snapshot-IsBounded after.feeds _ now _ settled.feeds short (record {
              feeds = settled.feeds;
              headlines = short;
              file_feeds = settled.file_feeds;
              file_headlines = settled.file_headlines;
            })

  abbrev pub empty_store : Bool → SnapshotStore
  empty_store has_path = record {
    feeds = [];
    headlines = [];
    has_path = has_path;
    file = record { feeds = []; headlines = [] };
  }

  -- The stores that presences and headlines lead to, at any times.
  pub data Reached : SnapshotStore → Type 0 where
    start : (has_path : Bool) → Reached (empty_store has_path)
    upserted :
        {store : SnapshotStore}
        → Reached store
        → (feed : ResolveFeedView) (now : Time) → Reached (upsert_feed feed now store)
    pushed :
        {store : SnapshotStore}
        → Reached store
        → (headline : RemoteHeadlineView) (now : Time) → Reached (push headline now store).0

  pub Reached-IsBounded : {store : SnapshotStore} → Reached store → IsBounded store
  Reached-IsBounded (start has_path) = record {
    feeds = omega arith;
    headlines = omega arith;
    file_feeds = omega arith;
    file_headlines = omega arith;
  }
  Reached-IsBounded (upserted reached feed now) =
      upsert_feed-IsBounded feed now _ (Reached-IsBounded reached)
  Reached-IsBounded (pushed reached headline now) =
      push-IsBounded headline now _ (Reached-IsBounded reached)
