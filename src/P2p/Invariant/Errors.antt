-- ===== src/P2p/Invariant/Errors.antt =====
-- Every method is atomic.
use agent_feed.Directory.Types.{FeedDirectoryEntry}
use agent_feed.Identity.{GithubOrgName, GithubTeamSlug, GithubUserId}
use agent_feed.P2p.Access.{can_follow, is_certified, is_team_certified}
use agent_feed.P2p.Discovery.{
  admit_entry, announce_directory_entry, cache_directory_entry, discover_github_org,
  discover_github_team, discover_github_user,
}
use agent_feed.P2p.Fabric.{
  announce_feed, certify_github_org_access, ensure_compatible, ensure_current, ensure_network,
  join_fabric, register_browser_handoff,
}
use agent_feed.P2p.Feeds.{
  accept_capsule, capsule_error, current_feed, drain_inbox, feed_snapshot, follow,
  grant_subscription, may_read, publish_capsule,
}
use agent_feed.P2p.Monad.{refuse_if}
use agent_feed.P2p.Monad.Atomic.{IsAtomic, done-Undone, guard-Undone, read-Undone}
use agent_feed.P2p.Types.{P2pError, PeerNode, PeerRole, org_eq, role_eq, team_eq}
use agent_feed.Prelude.{List, arith, list_eq, nat_eq, not, option_eq, pair_eq, ℕ, ◌++◌, ◌==◌}
use agent_feed.Proto.{FeedVisibility}
use agent_feed.Proto.Capsule.{StoryCapsule}
use agent_feed.Proto.Profile.{FeedProfile}
use agent_feed.Proto.Signing.{Hashes, Serialize, Signed}
use agent_feed.Text.{Str, chars}

module _ (version : Str) where
  pub join_fabric-IsAtomic :
      (peer : PeerNode) (roles : List PeerRole) → IsAtomic (join_fabric version peer roles)
  unfolding join_fabric
  join_fabric-IsAtomic peer roles n =
      guard-Undone n (ensure_compatible version peer) _ (done-Undone n _ _)

  pub register_browser_handoff-IsAtomic :
      (peer : PeerNode) (addrs : List Str) → IsAtomic (register_browser_handoff version peer addrs)
  unfolding register_browser_handoff
  register_browser_handoff-IsAtomic peer addrs n =
      guard-Undone n (ensure_compatible version peer) _ (done-Undone n _ _)

  pub certify_github_org_access-IsAtomic :
      (peer : PeerNode) (name : GithubOrgName) (teams : List GithubTeamSlug)
      → IsAtomic (certify_github_org_access version peer name teams)
  unfolding certify_github_org_access
  certify_github_org_access-IsAtomic peer name teams n =
      guard-Undone n (ensure_compatible version peer) _ (done-Undone n _ _)

  pub drain_inbox-IsAtomic : (peer : PeerNode) → IsAtomic (drain_inbox version peer)
  unfolding drain_inbox
  drain_inbox-IsAtomic peer n =
      guard-Undone n (ensure_compatible version peer) _ (done-Undone n _ _)

  pub discover_github_user-IsAtomic :
      (peer : PeerNode) (id : GithubUserId) → IsAtomic (discover_github_user version peer id)
  unfolding discover_github_user
  discover_github_user-IsAtomic peer id n =
      guard-Undone n (ensure_compatible version peer) _ (done-Undone n _ _)

  pub discover_github_org-IsAtomic :
      (peer : PeerNode) (name : GithubOrgName) → IsAtomic (discover_github_org version peer name)
  unfolding discover_github_org
  discover_github_org-IsAtomic peer name n = guard-Undone n (ensure_compatible version peer) _ (
      guard-Undone n
        (refuse_if (not (is_certified n peer.peer_id name))
          (P2pError.subscription_denied (chars "github-org:" ++ name.org)))
        _ (done-Undone n _ _))

  pub discover_github_team-IsAtomic :
      (peer : PeerNode) (name : GithubOrgName) (team : GithubTeamSlug)
      → IsAtomic (discover_github_team version peer name team)
  unfolding discover_github_team
  discover_github_team-IsAtomic peer name team n =
      guard-Undone n (ensure_compatible version peer) _ (
        guard-Undone n
          (refuse_if (not (is_team_certified n peer.peer_id name team)) (
            P2pError.subscription_denied
              (chars "github-team:" ++ name.org ++ chars "/" ++ team.slug)))
          _ (done-Undone n _ _))

  pub feed_snapshot-IsAtomic :
      (peer : PeerNode) (feed_id : Str) (limit : ℕ)
      → IsAtomic (feed_snapshot version peer feed_id limit)
  unfolding feed_snapshot
  feed_snapshot-IsAtomic peer feed_id limit n =
      read-Undone n (current_feed version feed_id n) _ (λ profile.
        guard-Undone n
          (refuse_if (not (may_read n peer profile feed_id)) (P2pError.subscription_denied feed_id))
          _ (done-Undone n _ _))

  pub follow-IsAtomic : (peer : PeerNode) (feed_id : Str) → IsAtomic (follow version peer feed_id)
  unfolding follow
  follow-IsAtomic peer feed_id n = guard-Undone n (ensure_compatible version peer) _ (
      read-Undone n (current_feed version feed_id n) _ (λ profile.
        guard-Undone n
          (refuse_if (not (can_follow n peer feed_id profile.visibility))
            (P2pError.subscription_denied feed_id))
          _ (done-Undone n _ _)))

  pub grant_subscription-IsAtomic :
      (peer : PeerNode) (feed_id : Str) (subscriber : PeerNode)
      → IsAtomic (grant_subscription version peer feed_id subscriber)
  unfolding grant_subscription
  grant_subscription-IsAtomic peer feed_id subscriber n =
      guard-Undone n (ensure_compatible version peer) _ (
        guard-Undone n (ensure_compatible version subscriber) _ (
          read-Undone n (current_feed version feed_id n) _ (λ profile.
            guard-Undone n
              (refuse_if (not (profile.peer_id == peer.peer_id))
                (P2pError.subscription_denied feed_id))
              _ (done-Undone n _ _))))

  module _ ⦃h : Hashes⦄ where
    pub announce_feed-IsAtomic :
        (peer : PeerNode) (profile : FeedProfile) → IsAtomic (announce_feed version peer profile)
    unfolding announce_feed
    announce_feed-IsAtomic peer profile n = guard-Undone n (ensure_compatible version peer) _ (
        guard-Undone n (ensure_network version peer.network_id profile.network_id) _
          (guard-Undone n (ensure_current version profile.compatibility) _ (done-Undone n _ _)))

  module _ ⦃h : Hashes⦄ ⦃d : Serialize FeedDirectoryEntry⦄ where
    pub announce_directory_entry-IsAtomic :
        (peer : PeerNode) (entry : FeedDirectoryEntry)
        → IsAtomic (announce_directory_entry version peer entry)
    unfolding announce_directory_entry
    announce_directory_entry-IsAtomic peer entry n =
        guard-Undone n (admit_entry version peer entry n) _ (
          guard-Undone n
            (refuse_if (not (entry.peer_id == peer.peer_id))
              (P2pError.subscription_denied entry.feed_id))
            _ (done-Undone n _ _))

    pub cache_directory_entry-IsAtomic :
        (peer : PeerNode) (entry : FeedDirectoryEntry)
        → IsAtomic (cache_directory_entry version peer entry)
    unfolding cache_directory_entry
    cache_directory_entry-IsAtomic peer entry n =
        guard-Undone n (admit_entry version peer entry n) _ (done-Undone n _ _)

  accept_capsule-IsAtomic :
      (visibility : FeedVisibility) (signed : Signed StoryCapsule)
      → IsAtomic (accept_capsule visibility signed)
  unfolding accept_capsule
  accept_capsule-IsAtomic visibility signed n e failed = ground arith

  module _ ⦃h : Hashes⦄ ⦃s : Serialize StoryCapsule⦄ where
    pub publish_capsule-IsAtomic :
        (peer : PeerNode) (signed : Signed StoryCapsule)
        → IsAtomic (publish_capsule version peer signed)
    unfolding publish_capsule
    publish_capsule-IsAtomic peer signed n = guard-Undone n (ensure_compatible version peer) _ (
        guard-Undone n (ensure_current version signed.value.compatibility) _ (
          guard-Undone n (capsule_error version signed) _ (
            read-Undone n (current_feed version signed.value.feed_id n) _ (λ profile.
              guard-Undone n
                (refuse_if (not (profile.peer_id == peer.peer_id))
                  (P2pError.subscription_denied signed.value.feed_id))
                _ (accept_capsule-IsAtomic profile.visibility signed n)))))
