-- ===== src/P2p/Invariant/Methods.antt =====
-- Every method that changes the network keeps the invariant, whether it succeeds or fails.
use agent_feed.Directory.Types.{FeedDirectoryEntry}
use agent_feed.Identity.{GithubOrgName, GithubTeamSlug}
use agent_feed.P2p.Access.{can_follow}
use agent_feed.P2p.Discovery.{admit_entry, announce_directory_entry, cache_directory_entry}
use agent_feed.P2p.Fabric.{
  announce_feed, certify_github_org_access, ensure_compatible, ensure_current, ensure_network,
  join_fabric, register_browser_handoff,
}
use agent_feed.P2p.Feeds.{
  capsule_error, current_feed, drain_inbox, follow, grant_subscription, publish_capsule, subscribe,
}
use agent_feed.P2p.Feeds.Publishing.{capsule_error-none}
use agent_feed.P2p.Invariant.{InboxHolds, IsTrusted}
use agent_feed.P2p.Invariant.Parts.{
  accept_capsule-IsTrusted, admit_entry-IsListed, index_directory_entry-IsTrusted,
  list_feed-IsTrusted, open_inbox-IsTrusted, participate-IsTrusted,
}
use agent_feed.P2p.Monad.{refuse_if}
use agent_feed.P2p.Monad.Laws.{guard-cases, read-cases}
use agent_feed.P2p.Types.{
  NetworkState, P2pError, PeerNode, PeerRole, org_eq, org_ord, role_eq, role_ord, team_eq, team_ord,
}
use agent_feed.Prelude.{
  All-insert, List, [], arith, list_eq, list_ord, nat_eq, nat_ord, not, option_eq, option_ord,
  pair_eq, pair_ord, ◌==◌,
}
use agent_feed.Proto.Capsule.{StoryCapsule}
use agent_feed.Proto.Profile.{FeedProfile}
use agent_feed.Proto.Signing.{Hashes, Serialize, Signed}
use agent_feed.Text.{Str}

module _ ⦃h : Hashes⦄ ⦃s : Serialize StoryCapsule⦄ ⦃d : Serialize FeedDirectoryEntry⦄
    (version : Str) where
  pub join_fabric-IsTrusted :
      (peer : PeerNode) (roles : List PeerRole) (n : NetworkState)
      → IsTrusted version n
      → IsTrusted version (join_fabric version peer roles n).0
  unfolding join_fabric
  join_fabric-IsTrusted peer roles n v =
      guard-cases (λ r. IsTrusted version r.0) (ensure_compatible version peer) n _ (λ e. v)
        (λ passed. open_inbox-IsTrusted version peer _ (participate-IsTrusted version peer _ n v))

  pub register_browser_handoff-IsTrusted :
      (peer : PeerNode) (addrs : List Str) (n : NetworkState)
      → IsTrusted version n
      → IsTrusted version (register_browser_handoff version peer addrs n).0
  unfolding register_browser_handoff
  register_browser_handoff-IsTrusted peer addrs n v =
      guard-cases (λ r. IsTrusted version r.0) (ensure_compatible version peer) n _ (λ e. v)
        (λ passed. open_inbox-IsTrusted version peer _ (participate-IsTrusted version peer _ n v))

  pub certify_github_org_access-IsTrusted :
      (peer : PeerNode) (name : GithubOrgName) (teams : List GithubTeamSlug) (n : NetworkState)
      → IsTrusted version n
      → IsTrusted version (certify_github_org_access version peer name teams n).0
  unfolding certify_github_org_access
  certify_github_org_access-IsTrusted peer name teams n v =
      guard-cases (λ r. IsTrusted version r.0) (ensure_compatible version peer) n _ (λ e. v)
        (λ passed. record {
          feeds = v.feeds;
          histories = v.histories;
          inboxes = v.inboxes;
          directory = v.directory;
        })

  pub announce_feed-IsTrusted :
      (peer : PeerNode) (profile : FeedProfile) (n : NetworkState)
      → IsTrusted version n
      → IsTrusted version (announce_feed version peer profile n).0
  unfolding announce_feed
  announce_feed-IsTrusted peer profile n v =
      guard-cases (λ r. IsTrusted version r.0) (ensure_compatible version peer) n _ (λ e. v)
        λ passed.
          guard-cases (λ r. IsTrusted version r.0)
            (ensure_network version peer.network_id profile.network_id) n _ (λ e. v)
            λ local.
              guard-cases (λ r. IsTrusted version r.0)
                (ensure_current version profile.compatibility) n _ (λ e. v)
                λ now. open_inbox-IsTrusted version peer _ (
                  participate-IsTrusted version peer _ _
                    (list_feed-IsTrusted version profile n v (ground arith)))

  pub announce_directory_entry-IsTrusted :
      (peer : PeerNode) (entry : FeedDirectoryEntry) (n : NetworkState)
      → IsTrusted version n
      → IsTrusted version (announce_directory_entry version peer entry n).0
  unfolding announce_directory_entry
  announce_directory_entry-IsTrusted peer entry n v =
      guard-cases (λ r. IsTrusted version r.0) (admit_entry version peer entry n) n _ (λ e. v)
        λ admitted.
          guard-cases (λ r. IsTrusted version r.0)
            (refuse_if (not (entry.peer_id == peer.peer_id))
              (P2pError.subscription_denied entry.feed_id))
            n _ (λ e. v)
            λ own. participate-IsTrusted version peer _ _ (
              index_directory_entry-IsTrusted version entry n v
                (admit_entry-IsListed version peer entry n admitted))

  pub cache_directory_entry-IsTrusted :
      (peer : PeerNode) (entry : FeedDirectoryEntry) (n : NetworkState)
      → IsTrusted version n
      → IsTrusted version (cache_directory_entry version peer entry n).0
  unfolding cache_directory_entry
  cache_directory_entry-IsTrusted peer entry n v =
      guard-cases (λ r. IsTrusted version r.0) (admit_entry version peer entry n) n _ (λ e. v)
        λ admitted. open_inbox-IsTrusted version peer _ (
          participate-IsTrusted version peer _ _ (
            index_directory_entry-IsTrusted version entry n v
              (admit_entry-IsListed version peer entry n admitted)))

  pub follow-IsTrusted :
      (peer : PeerNode) (feed_id : Str) (n : NetworkState)
      → IsTrusted version n
      → IsTrusted version (follow version peer feed_id n).0
  unfolding follow subscribe
  follow-IsTrusted peer feed_id n v =
      guard-cases (λ r. IsTrusted version r.0) (ensure_compatible version peer) n _ (λ e. v)
        λ passed.
          read-cases (λ r. IsTrusted version r.0) (current_feed version feed_id n) n _ (λ e. v)
            λ profile found.
              guard-cases (λ r. IsTrusted version r.0)
                (refuse_if (not (can_follow n peer feed_id profile.visibility))
                  (P2pError.subscription_denied feed_id))
                n _ (λ e. v)
                λ allowed. open_inbox-IsTrusted version peer _ (
                  participate-IsTrusted version peer _ _ (record {
                    feeds = v.feeds;
                    histories = v.histories;
                    inboxes = v.inboxes;
                    directory = v.directory;
                  }))

  pub grant_subscription-IsTrusted :
      (peer : PeerNode) (feed_id : Str) (subscriber : PeerNode) (n : NetworkState)
      → IsTrusted version n
      → IsTrusted version (grant_subscription version peer feed_id subscriber n).0
  unfolding grant_subscription
  grant_subscription-IsTrusted peer feed_id subscriber n v =
      guard-cases (λ r. IsTrusted version r.0) (ensure_compatible version peer) n _ (λ e. v)
        λ passed.
          guard-cases (λ r. IsTrusted version r.0) (ensure_compatible version subscriber) n _
            (λ e. v)
            λ passed2.
              read-cases (λ r. IsTrusted version r.0) (current_feed version feed_id n) n _ (λ e. v)
                λ profile found.
                  guard-cases (λ r. IsTrusted version r.0)
                    (refuse_if (not (profile.peer_id == peer.peer_id))
                      (P2pError.subscription_denied feed_id))
                    n _ (λ e. v)
                    λ own. record {
                      feeds = v.feeds;
                      histories = v.histories;
                      inboxes = v.inboxes;
                      directory = v.directory;
                    }

  pub drain_inbox-IsTrusted :
      (peer : PeerNode) (n : NetworkState)
      → IsTrusted version n
      → IsTrusted version (drain_inbox version peer n).0
  unfolding drain_inbox
  drain_inbox-IsTrusted peer n v =
      guard-cases (λ r. IsTrusted version r.0) (ensure_compatible version peer) n _ (λ e. v)
        (λ passed. record {
          feeds = v.feeds;
          histories = v.histories;
          inboxes = All-insert (InboxHolds version) n.inboxes peer.peer_id [] v.inboxes tt;
          directory = v.directory;
        })

  pub publish_capsule-IsTrusted :
      (peer : PeerNode) (signed : Signed StoryCapsule) (n : NetworkState)
      → IsTrusted version n
      → IsTrusted version (publish_capsule version peer signed n).0
  unfolding publish_capsule
  publish_capsule-IsTrusted peer signed n v =
      guard-cases (λ r. IsTrusted version r.0) (ensure_compatible version peer) n _ (λ e. v)
        λ passed.
          guard-cases (λ r. IsTrusted version r.0)
            (ensure_current version signed.value.compatibility) n _ (λ e. v)
            λ now.
              guard-cases (λ r. IsTrusted version r.0) (capsule_error version signed) n _ (λ e. v)
                λ sound.
                  read-cases (λ r. IsTrusted version r.0)
                    (current_feed version signed.value.feed_id n) n _ (λ e. v)
                    λ profile found.
                      guard-cases (λ r. IsTrusted version r.0)
                        (refuse_if (not (profile.peer_id == peer.peer_id))
                          (P2pError.subscription_denied signed.value.feed_id))
                        n _ (λ e. v)
                        λ own.
                          accept_capsule-IsTrusted version profile.visibility signed n v
                            (capsule_error-none version signed sound)
