-- ===== src/P2p/Feeds/Reading.antt =====
-- Reading a feed and an inbox.
use mathlib.Core.Path.{subst}
use agent_feed.Directory.Entry.{same_visibility-eq}
use agent_feed.Directory.Types.{FeedDirectoryEntry}
use agent_feed.P2p.Access.{can_receive_peer}
use agent_feed.P2p.Fabric.{ensure_compatible}
use agent_feed.P2p.Feeds.{
  current_feed, drain_inbox, feed_snapshot, is_subscribed, latest_capsules, may_read,
}
use agent_feed.P2p.Feeds.Deliveries.{inbox_of}
use agent_feed.P2p.Feeds.Laws.{length-latest_capsules-le}
use agent_feed.P2p.Feeds.Publishing.{current_feed-eq}
use agent_feed.P2p.Invariant.{HistoryHolds, IsTrusted}
use agent_feed.P2p.Monad.{Ending, refuse_if}
use agent_feed.P2p.Monad.Laws.{guard-cases, read-cases}
use agent_feed.P2p.Types.{
  Capsules, NetworkState, P2pError, PeerNode, org_eq, org_ord, role_eq, role_ord, team_eq, team_ord,
}
use agent_feed.Prelude.{
  ==_iff, All, All-drop, All-get, [], arith, false, get, get-insert, get-insert_self, inr, is_eq,
  length, list_cmp, list_cmp_eq_iff, list_eq, list_ord, min, nat_eq, nat_ord, not, option_eq,
  option_ord, pair_eq, pair_ord, refl, some, sym, true, unwrap_or, unwrap_or-cases, ℕ, ◌-◌, ◌≡◌,
  ◌≢◌, ◌≤◌, ◌⊎◌,
}
use agent_feed.Proto.{FeedVisibility}
use agent_feed.Proto.Capsule.{StoryCapsule, verify_capsule}
use agent_feed.Proto.Compatibility.{current, is_compatible_with}
use agent_feed.Proto.Profile.{FeedProfile}
use agent_feed.Proto.Signing.{Hashes, Serialize, Signed}
use agent_feed.Text.{Str}

module _ (version : Str) where
  -- The feed is announced and current, and it is public, the peer's own, or one whose capsules
  -- the subscribed peer may receive.
  pub record IsReadable (n : NetworkState) (peer : PeerNode) (feed_id : Str) (profile : FeedProfile)
      : Type 0 where
    pub found : get n.feeds feed_id ≡ some profile
    pub now : is_compatible_with (current version) profile.compatibility ≡ true
    pub permitted :
        (profile.visibility ≡ FeedVisibility.public)
        ⊎ (profile.peer_id ≡ peer.peer_id)
        ⊎ (is_subscribed n feed_id peer.peer_id ≡ true)
          × (can_receive_peer n feed_id peer.peer_id profile.visibility ≡ true)

  may_read-permitted :
      (n : NetworkState) (peer : PeerNode) (profile : FeedProfile) (feed_id : Str)
      → may_read n peer profile feed_id ≡ true
      → (profile.visibility ≡ FeedVisibility.public)
        ⊎ (profile.peer_id ≡ peer.peer_id)
        ⊎ (is_subscribed n feed_id peer.peer_id ≡ true)
          × (can_receive_peer n feed_id peer.peer_id profile.visibility ≡ true)
  unfolding may_read
  may_read-permitted n peer profile feed_id h = grind (
    arith,
    same_visibility-eq profile.visibility FeedVisibility.public,
    ==_iff profile.peer_id peer.peer_id,
  )

  -- A peer that gets a snapshot may read the feed, which is there and of the current version, since
  -- it is public, the peer owns it, or the peer is subscribed and may receive its visibility; and
  -- the snapshot is the last part of the history of the feed, of the length asked for.
  pub feed_snapshot-IsReadable :
      (n : NetworkState) (peer : PeerNode) (feed_id : Str) (limit : ℕ) (capsules : Capsules)
      → (feed_snapshot version peer feed_id limit n).1 ≡ inr capsules
      → (profile : FeedProfile) × IsReadable n peer feed_id profile
        × (capsules ≡ latest_capsules limit (unwrap_or (get n.history feed_id) []))
  unfolding feed_snapshot
  feed_snapshot-IsReadable n peer feed_id limit capsules =
      let Goal = λ (r : Ending Capsules).
        r.1 ≡ inr capsules
        → (profile : FeedProfile) × IsReadable n peer feed_id profile
          × (capsules ≡ latest_capsules limit (unwrap_or (get n.history feed_id) [])) in
      read-cases Goal (current_feed version feed_id n) n _ (λ e r. cc)
        λ profile found.
          guard-cases Goal
            (refuse_if (not (may_read n peer profile feed_id))
              (P2pError.subscription_denied feed_id))
            n _ (λ e r. cc)
            λ allowed r.
              let feed = (current_feed-eq version n feed_id profile).0 found in
              (
                profile,
                record {
                  found = feed.0;
                  now = feed.1;
                  permitted = may_read-permitted n peer profile feed_id (ground arith);
                },
                cc r,
              )

  -- What draining an inbox gives and leaves.
  pub drain_inbox-empties :
      (n : NetworkState) (peer : PeerNode)
      → is_compatible_with (current version) peer.compatibility ≡ true
      → let r = drain_inbox version peer n in
        (r.1 ≡ inr (inbox_of n peer.peer_id))
        × (inbox_of r.0 peer.peer_id ≡ [])
        × ((other : Str) → other ≢ peer.peer_id → inbox_of r.0 other ≡ inbox_of n other)
  unfolding drain_inbox ensure_compatible
  drain_inbox-empties n peer compatible = rw compatible (
    refl,
    rw (get-insert_self n.inboxes peer.peer_id []) refl,
    λ other apart.
        let found = get-insert n.inboxes peer.peer_id [] other in
        let test : is_eq (list_cmp other peer.peer_id) ≡ false =
          ground (arith, list_cmp_eq_iff other peer.peer_id) in
        rw (found, test) refl,
  )

module _ ⦃h : Hashes⦄ ⦃s : Serialize StoryCapsule⦄ ⦃d : Serialize FeedDirectoryEntry⦄
    (version : Str) where
  -- In a trusted network every capsule of a snapshot verifies and is of the feed, and there are no
  -- more of them than were asked for.
  pub feed_snapshot-verified :
      (n : NetworkState) (peer : PeerNode) (feed_id : Str) (limit : ℕ) (capsules : Capsules)
      → IsTrusted version n
      → (feed_snapshot version peer feed_id limit n).1 ≡ inr capsules
      → (length capsules ≤ limit)
        × All
            (λ (signed : Signed StoryCapsule).
              (verify_capsule version signed ≡ some true) × (signed.value.feed_id ≡ feed_id))
            capsules
  unfolding latest_capsules
  feed_snapshot-verified n peer feed_id limit capsules v r =
      let (profile, readable, same) =
        feed_snapshot-IsReadable version n peer feed_id limit capsules r in
      let Fits = λ (signed : Signed StoryCapsule).
        (verify_capsule version signed ≡ some true) × (signed.value.feed_id ≡ feed_id) in
      let history = unwrap_or (get n.history feed_id) [] in
      let held : All Fits history =
        unwrap_or-cases (All Fits) (get n.history feed_id) [] (λ absent. tt)
          (λ c found.
            (All-get (HistoryHolds version n.history_capacity) n.history feed_id c v.histories
              found).1) in
      subst (λ c. (length c ≤ limit) × All Fits c) (sym same)
        (
          length-latest_capsules-le limit history,
          All-drop Fits (length history - min limit (length history)) history held,
        )
