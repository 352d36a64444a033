-- ===== src/P2p/Feeds/Publishing.antt =====
-- Who may publish a capsule, and what its publication does.
use mathlib.Core.List.{append-nil}
use mathlib.Core.Path.{subst}
use agent_feed.Directory.Store.{ensure_current_compatibility}
use agent_feed.P2p.Fabric.{ensure_compatible, ensure_current}
use agent_feed.P2p.Feeds.{
  accept_capsule, capsule_error, capsule_is_duplicate, current_feed, publish_capsule, trim_history,
}
use agent_feed.P2p.Feeds.Deliveries.{
  IsDelivered, copies, deliver-IsDelivered, delivery, inbox_of, reaches-history, receivers,
}
use agent_feed.P2p.Monad.{Ending, either, refuse_if}
use agent_feed.P2p.Monad.Laws.{guard-cases, read-cases}
use agent_feed.P2p.Types.{
  NetworkState, P2pError, PeerNode, org_eq, org_ord, role_eq, role_ord, team_eq, team_ord,
}
use agent_feed.Prelude.{
  ==_iff, Bool-cases, Option-cases, [], ap, arith, filter, get, inl, inr, insert, length, list_eq,
  list_ord, nat_eq, nat_ord, none, not, option_eq, option_ord, pair_eq, pair_ord, refl, some, sym,
  true, unwrap_or, ℕ, ◌++◌, ◌==◌, ◌↔◌, ◌∷◌, ◌≡◌,
}
use agent_feed.Proto.{FeedVisibility}
use agent_feed.Proto.Capsule.{StoryCapsule, verify_capsule}
use agent_feed.Proto.Compatibility.{current, is_compatible_with}
use agent_feed.Proto.Profile.{FeedProfile}
use agent_feed.Proto.Signing.{Hashes, Serialize, Signed}
use agent_feed.Text.{Str}

module _ (version : Str) where
  pub ensure_compatible-none :
      (peer : PeerNode)
      → ensure_compatible version peer ≡ none
      → is_compatible_with (current version) peer.compatibility ≡ true
  unfolding ensure_compatible
  ensure_compatible-none peer h = ground arith

  pub current_feed-eq :
      (n : NetworkState) (feed_id : Str) (profile : FeedProfile)
      → (current_feed version feed_id n ≡ inr profile)
        ↔ (get n.feeds feed_id ≡ some profile)
          × (is_compatible_with (current version) profile.compatibility ≡ true)
  unfolding current_feed ensure_current_compatibility
  current_feed-eq n feed_id profile = elim (Option-cases (get n.feeds feed_id)) [
    | inl absent ↦ (λ e. cc, λ (e, now). cc)
    | inr (p, there) ↦ (λ e. ground arith, λ (e, now). ground arith)
  ]

-- An accepted capsule reaches the peers that `receivers` names, and no other inbox.
pub accept_capsule-delivers :
    (n : NetworkState) (visibility : FeedVisibility) (signed : Signed StoryCapsule)
    → let r = accept_capsule visibility signed n in
      let reached = receivers n visibility signed in
      (r.1 ≡ inr (length reached))
      × (r.0.feeds ≡ n.feeds)
      × ((peer_id : Str)
          → inbox_of r.0 peer_id ≡ inbox_of n peer_id ++ copies peer_id signed reached)
unfolding accept_capsule receivers
accept_capsule-delivers n visibility signed =
    let feed_id = signed.value.feed_id in
    let history = unwrap_or (get n.history feed_id) [] in
    elim (Bool-cases (capsule_is_duplicate history signed.value)) [
      | inl duplicate ↦ rw duplicate (refl, refl, λ peer_id. sym (append-nil (inbox_of n peer_id)))
      | inr new ↦
          let kept = trim_history n.history_capacity (history ++ signed ∷ []) in
          let published : NetworkState = record n { history = insert n.history feed_id kept } in
          let subscribers = unwrap_or (get n.subscriptions feed_id) [] in
          let after = delivery visibility signed subscribers (published, 0) in
          let d =
            subst
              (λ reach. IsDelivered published after.0 signed (filter reach subscribers) 0 after.1)
              (reaches-history visibility signed n published.history)
              (deliver-IsDelivered visibility signed subscribers published 0) in
          rw new (ap inr (omega (arith, d.counted)), d.listed, d.inboxes)
    ]

module _ ⦃h : Hashes⦄ ⦃s : Serialize StoryCapsule⦄ (version : Str) where
  -- A compatible peer, a verified capsule, and a feed of the current model that the peer owns.
  pub record IsPublishable (n : NetworkState) (peer : PeerNode) (signed : Signed StoryCapsule)
      (profile : FeedProfile) : Type 0 where
    pub compatible : is_compatible_with (current version) peer.compatibility ≡ true
    pub verified : verify_capsule version signed ≡ some true
    pub found : get n.feeds signed.value.feed_id ≡ some profile
    pub now : is_compatible_with (current version) profile.compatibility ≡ true
    pub own : profile.peer_id ≡ peer.peer_id

  verified-now :
      (signed : Signed StoryCapsule)
      → verify_capsule version signed ≡ some true
      → is_compatible_with (current version) signed.value.compatibility ≡ true
  unfolding verify_capsule
  verified-now signed h = ground arith

  pub capsule_error-none :
      (signed : Signed StoryCapsule)
      → capsule_error version signed ≡ none
      → verify_capsule version signed ≡ some true
  unfolding capsule_error
  capsule_error-none signed h = ground arith

  -- The guards of `publish_capsule` let a publishable capsule through.
  pub publish_capsule-opens :
      (n : NetworkState) (peer : PeerNode) (signed : Signed StoryCapsule) (profile : FeedProfile)
      → IsPublishable n peer signed profile
      → publish_capsule version peer signed n ≡ accept_capsule profile.visibility signed n
  unfolding publish_capsule ensure_compatible ensure_current_compatibility capsule_error either
  publish_capsule-opens n peer signed profile p =
      let feed = (current_feed-eq version n signed.value.feed_id profile).1 (p.found, p.now) in
      let test : (profile.peer_id == peer.peer_id) ≡ true =
        (==_iff profile.peer_id peer.peer_id).1 p.own in
      rw (p.compatible, verified-now signed p.verified, p.verified, feed, test) refl

  publish_capsule-IsPublishable :
      (n : NetworkState) (peer : PeerNode) (signed : Signed StoryCapsule) (count : ℕ)
      → (publish_capsule version peer signed n).1 ≡ inr count
      → (profile : FeedProfile) × IsPublishable n peer signed profile
  unfolding publish_capsule
  publish_capsule-IsPublishable n peer signed count =
      let Goal = λ (r : Ending ℕ).
        r.1 ≡ inr count → (profile : FeedProfile) × IsPublishable n peer signed profile in
      guard-cases Goal (ensure_compatible version peer) n _ (λ e r. cc)
        λ compatible.
          guard-cases Goal (ensure_current version signed.value.compatibility) n _ (λ e r. cc)
            λ now.
              guard-cases Goal (capsule_error version signed) n _ (λ e r. cc)
                λ sound.
                  read-cases Goal (current_feed version signed.value.feed_id n) n _ (λ e r. cc)
                    λ profile found.
                      guard-cases Goal
                        (refuse_if (not (profile.peer_id == peer.peer_id))
                          (P2pError.subscription_denied signed.value.feed_id))
                        n _ (λ e r. cc)
                        λ own r.
                          let feed =
                            (current_feed-eq version n signed.value.feed_id profile).0 found in
                          (
                            profile,
                            record {
                              compatible = ensure_compatible-none version peer compatible;
                              verified = capsule_error-none signed sound;
                              found = feed.0;
                              now = feed.1;
                              own = (==_iff profile.peer_id peer.peer_id).0 (ground arith);
                            },
                          )

  -- A capsule is accepted if and only if its peer is compatible, the capsule verifies, and its feed
  -- is there, is of the current version and is owned by the peer.
  pub publish_capsule-accepts_iff :
      (n : NetworkState) (peer : PeerNode) (signed : Signed StoryCapsule)
      → ((count : ℕ) × ((publish_capsule version peer signed n).1 ≡ inr count))
        ↔ ((profile : FeedProfile) × IsPublishable n peer signed profile)
  publish_capsule-accepts_iff n peer signed = (
    λ (count, accepted). publish_capsule-IsPublishable n peer signed count accepted,
    λ (profile, p). rw (publish_capsule-opens n peer signed profile p) (
      length (receivers n profile.visibility signed),
      (accept_capsule-delivers n profile.visibility signed).0,
    ),
  )

  -- A publishable capsule is counted once for each subscriber that it reaches, and goes to the end
  -- of the inbox of each of these and of no other peer: it reaches no one if it repeats a capsule
  -- of the history, and otherwise the subscribers that may receive the visibility of the feed.
  pub publish_capsule-delivers :
      (n : NetworkState) (peer : PeerNode) (signed : Signed StoryCapsule) (profile : FeedProfile)
      → IsPublishable n peer signed profile
      → let r = publish_capsule version peer signed n in
        let reached = receivers n profile.visibility signed in
        (r.1 ≡ inr (length reached))
        × ((peer_id : Str)
            → inbox_of r.0 peer_id ≡ inbox_of n peer_id ++ copies peer_id signed reached)
  publish_capsule-delivers n peer signed profile p =
      let d = accept_capsule-delivers n profile.visibility signed in
      rw (publish_capsule-opens n peer signed profile p) (d.0, d.2)
