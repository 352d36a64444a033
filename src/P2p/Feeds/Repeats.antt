-- ===== src/P2p/Feeds/Repeats.antt =====
-- A capsule that is published again is suppressed.
use mathlib.Core.List.{append-nil, reverse-append}
use agent_feed.P2p.Feeds.{
  accept_capsule, capsule_is_duplicate, publish_capsule, resembles, trim_history,
}
use agent_feed.P2p.Feeds.Deliveries.{copies, deliver-IsDelivered, inbox_of, receivers}
use agent_feed.P2p.Feeds.Publishing.{
  IsPublishable, accept_capsule-delivers, publish_capsule-delivers, publish_capsule-opens,
}
use agent_feed.P2p.Monad.{Ending}
use agent_feed.P2p.Types.{Capsules, NetworkState, PeerNode, org_ord, role_ord, team_ord}
use agent_feed.Prelude.{
  Bool-cases, [], ap, arith, false, get, get-insert_self, if-cases, inl, inr, insert, is_empty, leb,
  length, list_ord, ltb, nat_ord, option_ord, pair_ord, refl, true, unwrap_or, ℕ, ◌++◌, ◌<◌, ◌∙◌,
  ◌∷◌, ◌≡◌, ◌≤◌,
}
use agent_feed.Proto.{FeedVisibility, StoryKind, same_kind}
use agent_feed.Proto.Capsule.{StoryCapsule}
use agent_feed.Proto.Profile.{FeedProfile}
use agent_feed.Proto.Signing.{Hashes, Serialize, Signed}
use agent_feed.Summarize.Similarity.{normalize_text}
use agent_feed.Summarize.Similarity.Laws.{headline_similarity_self}
use agent_feed.Text.{Str}

trim_history-last :
    (capacity : ℕ) (history : Capsules) (signed : Signed StoryCapsule)
    → 1 ≤ capacity
    → (rest : Capsules) × (trim_history capacity (history ++ signed ∷ []) ≡ rest ++ signed ∷ [])
unfolding trim_history
trim_history-last capacity [] signed h =
    let fits : ltb capacity 1 ≡ false = ground arith in ([], rw fits refl)
trim_history-last capacity (first ∷ history) signed h =
    elim (Bool-cases (ltb capacity (length ((first ∷ history) ++ signed ∷ [])))) [
      | inl over ↦ let (rest, e) = trim_history-last capacity history signed h in (rest, rw over e)
      | inr fits ↦ (first ∷ history, rw fits refl)
    ]

same_kind_refl : (kind : StoryKind) → same_kind kind kind ≡ true
same_kind_refl kind = ground arith

-- A capsule resembles itself where its headline has a letter or a digit.
resembles_self :
    (capsule : StoryCapsule)
    → is_empty (normalize_text capsule.headline) ≡ false
    → resembles capsule capsule ≡ true
unfolding resembles
resembles_self capsule words =
    rw (same_kind_refl capsule.story_kind, headline_similarity_self capsule.headline words) refl

last-is_duplicate :
    (rest : Capsules) (signed : Signed StoryCapsule)
    → signed.value.score < 90
    → is_empty (normalize_text signed.value.headline) ≡ false
    → capsule_is_duplicate (rest ++ signed ∷ []) signed.value ≡ true
unfolding capsule_is_duplicate
last-is_duplicate rest signed low words =
    let mild : leb 90 signed.value.score ≡ false = ground arith in
    rw (mild, reverse-append rest (signed ∷ []), resembles_self signed.value words) refl

receivers-none :
    (n : NetworkState) (visibility : FeedVisibility) (signed : Signed StoryCapsule)
    → capsule_is_duplicate (unwrap_or (get n.history signed.value.feed_id) []) signed.value ≡ true
    → receivers n visibility signed ≡ []
unfolding receivers
receivers-none n visibility signed duplicate = rw duplicate refl

-- After a capsule was accepted, the history of its feed makes a duplicate of it.
accept_capsule-remembers :
    (n : NetworkState) (visibility : FeedVisibility) (signed : Signed StoryCapsule)
    → 1 ≤ n.history_capacity
    → signed.value.score < 90
    → is_empty (normalize_text signed.value.headline) ≡ false
    → let after = (accept_capsule visibility signed n).0 in
      capsule_is_duplicate (unwrap_or (get after.history signed.value.feed_id) []) signed.value
      ≡ true
unfolding accept_capsule
accept_capsule-remembers n visibility signed capacity low words =
    let feed_id = signed.value.feed_id in
    let history = unwrap_or (get n.history feed_id) [] in
    if-cases
      (λ (r : Ending ℕ).
        capsule_is_duplicate (unwrap_or (get r.0.history feed_id) []) signed.value ≡ true)
      (capsule_is_duplicate history signed.value) _ _
      (λ duplicate. rw (get-insert_self n.history feed_id history) duplicate)
      (λ new.
        let kept = trim_history n.history_capacity (history ++ signed ∷ []) in
        let (rest, last) = trim_history-last n.history_capacity history signed capacity in
        let published : NetworkState = record n { history = insert n.history feed_id kept } in
        let d =
          deliver-IsDelivered visibility signed (unwrap_or (get n.subscriptions feed_id) [])
            published 0 in
        rw (d.kept, get-insert_self n.history feed_id kept, last)
          (last-is_duplicate rest signed low words))

module _ ⦃h : Hashes⦄ ⦃s : Serialize StoryCapsule⦄ (version : Str) where
  -- A publishable capsule with a score below 90 and with words in its headline, in a network that
  -- keeps at least one capsule of a feed, is delivered to no one when it is published a second
  -- time: the call succeeds with a count of 0, and every inbox is as it was.
  pub publish_capsule_again :
      (n : NetworkState) (peer : PeerNode) (signed : Signed StoryCapsule) (profile : FeedProfile)
      → IsPublishable version n peer signed profile
      → 1 ≤ n.history_capacity
      → signed.value.score < 90
      → is_empty (normalize_text signed.value.headline) ≡ false
      → let once = (publish_capsule version peer signed n).0 in
        let twice = publish_capsule version peer signed once in
        (twice.1 ≡ inr 0) × ((peer_id : Str) → inbox_of twice.0 peer_id ≡ inbox_of once peer_id)
  publish_capsule_again n peer signed profile p capacity low words =
      let opened = publish_capsule-opens version n peer signed profile p in
      let accepted = accept_capsule profile.visibility signed n in
      let d = accept_capsule-delivers n profile.visibility signed in
      let again : IsPublishable version accepted.0 peer signed profile = record {
        compatible = p.compatible;
        verified = p.verified;
        found = cc (p.found, ap (λ feeds. get feeds signed.value.feed_id) d.1);
        now = p.now;
        own = p.own;
      } in
      let r = publish_capsule-delivers version accepted.0 peer signed profile again in
      let quiet : receivers accepted.0 profile.visibility signed ≡ [] =
        receivers-none accepted.0 profile.visibility signed
          (accept_capsule-remembers n profile.visibility signed capacity low words) in
      rw opened (
        r.0 ∙ ap (λ reached. inr (length reached)) quiet,
        λ peer_id.
            r.1 peer_id
            ∙ ap (λ reached. inbox_of accepted.0 peer_id ++ copies peer_id signed reached) quiet
            ∙ append-nil (inbox_of accepted.0 peer_id),
      )
