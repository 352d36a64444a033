-- ===== src/P2p/Feeds.antt =====
-- Following a feed, publishing on it, and reading it.
pub mod Laws
pub mod Deliveries
pub mod Publishing
pub mod Repeats
pub mod Reading
use mathlib.Core.List.{reverse}
use agent_feed.Directory.Entry.{same_visibility}
use agent_feed.P2p.Access.{can_follow, can_receive_peer}
use agent_feed.P2p.Fabric.{add_roles, ensure_compatible, ensure_current, open_inbox, participate}
use agent_feed.P2p.Monad.{Action, Guard, Read, check, gets, modify, refuse_if, ◌>>=◌, ◌>>◌}
use agent_feed.P2p.Types.{
  Capsules, NetworkState, P2pError, PeerNode, PeerRole, org_eq, org_ord, role_eq, role_ord, team_eq,
  team_ord,
}
use agent_feed.Prelude.{
  Bool, List, Option, [], any, any_eq, drop, false, get, if◌then◌else◌, inl, inr, insert,
  is_some_and, leb, length, list_eq, list_ord, ltb, map_or, min, nat_eq, nat_ord, not, option_eq,
  option_ord, pair_eq, pair_ord, set_insert, some, take, unwrap_or, update, ℕ, ◌&&◌, ◌++◌, ◌+◌, ◌-◌,
  ◌==◌, ◌||◌, ◌∷◌,
}
use agent_feed.Proto.{FeedVisibility, same_kind}
use agent_feed.Proto.Capsule.{StoryCapsule, verify_capsule}
use agent_feed.Proto.Profile.{FeedProfile}
use agent_feed.Proto.Signing.{Hashes, Serialize, Signed}
use agent_feed.Proto.Topics.{topic_allows_story_capsules}
use agent_feed.Summarize.Similarity.{headline_similarity}
use agent_feed.Text.{Str}

-- `capsule_is_duplicate`: the score is a u8, and only the 24 latest capsules are compared.
unfoldable pub resembles : StoryCapsule → StoryCapsule → Bool
resembles recent capsule =
    if not (same_kind recent.story_kind capsule.story_kind)
    then false
    else let headline_score = headline_similarity recent.headline capsule.headline in
      if ltb headline_score 88
      then false
      else headline_score == 100 || leb 82 (headline_similarity recent.deck capsule.deck)

unfoldable pub capsule_is_duplicate : Capsules → StoryCapsule → Bool
capsule_is_duplicate history capsule =
    if leb 90 capsule.score
    then false
    else any (λ (recent : Signed StoryCapsule). resembles recent.value capsule)
        (take 24 (reverse history))

-- `while history.len() > history_capacity { history.pop_front(); }`
unfoldable pub trim_history : ℕ → Capsules → Capsules
trim_history capacity [] = []
trim_history capacity (signed ∷ history) =
    let rest = trim_history capacity history in
    if ltb capacity (length (signed ∷ history)) then rest else signed ∷ history

-- The loop over the subscribers.
unfoldable pub deliver :
    Str → FeedVisibility → Signed StoryCapsule → List Str → NetworkState × ℕ → NetworkState × ℕ
deliver feed_id visibility signed [] result = result
deliver feed_id visibility signed (subscriber ∷ subscribers) (state, delivered) =
    deliver feed_id visibility signed subscribers (
      if not (can_receive_peer state feed_id subscriber visibility) then (state, delivered) else (
        record state {
          inboxes = update state.inboxes subscriber [] (λ inbox. inbox ++ signed ∷ []);
        },
        delivered + 1,
      ))

-- `publish_capsule` once its guards have passed: the duplicate, the history, the deliveries.
unfoldable pub accept_capsule : FeedVisibility → Signed StoryCapsule → Action ℕ
accept_capsule visibility signed state =
    let feed_id = signed.value.feed_id in
    let history = unwrap_or (get state.history feed_id) [] in
    if capsule_is_duplicate history signed.value
    then (record state { history = insert state.history feed_id history }, inr 0)
    else let kept = trim_history state.history_capacity (history ++ signed ∷ []) in
      let published = record state { history = insert state.history feed_id kept } in
      let (after, delivered) =
        deliver feed_id visibility signed (unwrap_or (get state.subscriptions feed_id) [])
          (published, 0) in
      (after, inr delivered)

unfoldable pub subscribe : Str → Str → NetworkState → NetworkState
subscribe feed_id peer_id state = record state {
  subscriptions = update state.subscriptions feed_id [] (λ peers. set_insert peers peer_id);
}

unfoldable pub is_subscribed : NetworkState → Str → Str → Bool
is_subscribed state feed_id peer_id =
    is_some_and (get state.subscriptions feed_id) (λ peers. any_eq peers peer_id)

-- The test of `feed_snapshot` for a feed that is not public.
unfoldable pub may_read : NetworkState → PeerNode → FeedProfile → Str → Bool
may_read state peer profile feed_id =
    same_visibility profile.visibility FeedVisibility.public
    || profile.peer_id == peer.peer_id
    || is_subscribed state feed_id peer.peer_id
      && can_receive_peer state feed_id peer.peer_id profile.visibility

unfoldable pub latest_capsules : ℕ → Capsules → Capsules
latest_capsules limit history =
    let keep = min limit (length history) in drop (length history - keep) history

module _ ⦃h : Hashes⦄ where
  unfoldable pub topic_error : Str → Signed StoryCapsule → Guard
  topic_error topic signed state =
      map_or (get state.feeds signed.value.feed_id)
        (some (P2pError.feed_not_found signed.value.feed_id))
        λ profile.
          refuse_if
            (not (topic_allows_story_capsules topic profile.network_id signed.value.feed_id))
            (P2pError.invalid_story_topic topic)

module _ (version : Str) where
  -- `feeds.get(feed_id)`, then `ensure_current_compatibility`
  unfoldable pub current_feed : Str → Read FeedProfile
  current_feed feed_id state =
      map_or (get state.feeds feed_id) (inl (P2pError.feed_not_found feed_id))
        λ profile. map_or (ensure_current version profile.compatibility) (inr profile) inl

  unfoldable pub follow : PeerNode → Str → Action (Unit {0})
  follow peer feed_id = do
    check (ensure_compatible version peer)
    profile ← current_feed feed_id
    λ state.
        refuse_if (not (can_follow state peer feed_id profile.visibility))
          (P2pError.subscription_denied feed_id)
    modify λ state. open_inbox peer (
        participate peer (add_roles (PeerRole.subscriber ∷ []))
          (subscribe feed_id peer.peer_id state))

  unfoldable pub grant_subscription : PeerNode → Str → PeerNode → Action (Unit {0})
  grant_subscription peer feed_id subscriber = do
    check (ensure_compatible version peer)
    check (ensure_compatible version subscriber)
    profile ← current_feed feed_id
    check (refuse_if (not (profile.peer_id == peer.peer_id)) (P2pError.subscription_denied feed_id))
    modify λ state. record state { grants = set_insert state.grants (feed_id, subscriber.peer_id) }

  unfoldable pub feed_snapshot : PeerNode → Str → ℕ → Action Capsules
  feed_snapshot peer feed_id limit = do
    profile ← current_feed feed_id
    λ state.
        refuse_if (not (may_read state peer profile feed_id)) (P2pError.subscription_denied feed_id)
    gets λ state. latest_capsules limit (unwrap_or (get state.history feed_id) [])

  unfoldable pub drain_inbox : PeerNode → Action Capsules
  drain_inbox peer = do
    check (ensure_compatible version peer)
    λ state. (
      record state { inboxes = insert state.inboxes peer.peer_id [] },
      inr (unwrap_or (get state.inboxes peer.peer_id) []),
    )

  module _ ⦃h : Hashes⦄ ⦃s : Serialize StoryCapsule⦄ where
    -- The outcome of `verify_capsule()?`
    unfoldable pub capsule_error : Signed StoryCapsule → Option P2pError
    capsule_error signed =
        map_or (verify_capsule version signed) (some P2pError.proto)
          (λ verified. refuse_if (not verified) P2pError.invalid_signature)

    unfoldable pub publish_capsule : PeerNode → Signed StoryCapsule → Action ℕ
    publish_capsule peer signed = do
      check (ensure_compatible version peer)
      check (ensure_current version signed.value.compatibility)
      check (capsule_error signed)
      profile ← current_feed signed.value.feed_id
      check (
          refuse_if (not (profile.peer_id == peer.peer_id))
            (P2pError.subscription_denied signed.value.feed_id))
      accept_capsule profile.visibility signed

    unfoldable pub publish_capsule_on_topic : PeerNode → Str → Signed StoryCapsule → Action ℕ
    publish_capsule_on_topic peer topic signed = do
      check (ensure_compatible version peer)
      topic_error topic signed
      publish_capsule peer signed
