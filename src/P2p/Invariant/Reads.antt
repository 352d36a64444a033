-- ===== src/P2p/Invariant/Reads.antt =====
-- The methods that only read leave the network as it is.
use agent_feed.Identity.{GithubOrgName, GithubTeamSlug, GithubUserId}
use agent_feed.P2p.Access.{is_certified, is_team_certified}
use agent_feed.P2p.Discovery.{discover_github_org, discover_github_team, discover_github_user}
use agent_feed.P2p.Fabric.{ensure_compatible, participation_of}
use agent_feed.P2p.Feeds.{current_feed, feed_snapshot, may_read}
use agent_feed.P2p.Monad.{refuse_if}
use agent_feed.P2p.Monad.Laws.{guard-cases, read-cases}
use agent_feed.P2p.Types.{NetworkState, P2pError, PeerNode}
use agent_feed.Prelude.{not, refl, ℕ, ◌++◌, ◌≡◌}
use agent_feed.Text.{Str, chars}

module _ (version : Str) where
  pub participation_of-reads :
      (peer : PeerNode) (id : Str) (n : NetworkState) → (participation_of version peer id n).0 ≡ n
  unfolding participation_of
  participation_of-reads peer id n =
      guard-cases (λ r. r.0 ≡ n) (ensure_compatible version peer) n _ (λ e. refl) (λ passed. refl)

  pub discover_github_user-reads :
      (peer : PeerNode) (id : GithubUserId) (n : NetworkState)
      → (discover_github_user version peer id n).0 ≡ n
  unfolding discover_github_user
  discover_github_user-reads peer id n =
      guard-cases (λ r. r.0 ≡ n) (ensure_compatible version peer) n _ (λ e. refl) (λ passed. refl)

  pub discover_github_org-reads :
      (peer : PeerNode) (name : GithubOrgName) (n : NetworkState)
      → (discover_github_org version peer name n).0 ≡ n
  unfolding discover_github_org
  discover_github_org-reads peer name n =
      guard-cases (λ r. r.0 ≡ n) (ensure_compatible version peer) n _ (λ e. refl)
        λ passed.
          guard-cases (λ r. r.0 ≡ n)
            (refuse_if (not (is_certified n peer.peer_id name))
              (P2pError.subscription_denied (chars "github-org:" ++ name.org)))
            n _ (λ e. refl) (λ certified. refl)

  pub discover_github_team-reads :
      (peer : PeerNode) (name : GithubOrgName) (team : GithubTeamSlug) (n : NetworkState)
      → (discover_github_team version peer name team n).0 ≡ n
  unfolding discover_github_team
  discover_github_team-reads peer name team n =
      guard-cases (λ r. r.0 ≡ n) (ensure_compatible version peer) n _ (λ e. refl)
        λ passed.
          guard-cases (λ r. r.0 ≡ n)
            (refuse_if (not (is_team_certified n peer.peer_id name team)) (
              P2pError.subscription_denied
                (chars "github-team:" ++ name.org ++ chars "/" ++ team.slug)))
            n _ (λ e. refl) (λ certified. refl)

  pub feed_snapshot-reads :
      (peer : PeerNode) (feed_id : Str) (limit : ℕ) (n : NetworkState)
      → (feed_snapshot version peer feed_id limit n).0 ≡ n
  unfolding feed_snapshot
  feed_snapshot-reads peer feed_id limit n =
      read-cases (λ r. r.0 ≡ n) (current_feed version feed_id n) n _ (λ e. refl)
        λ profile found.
          guard-cases (λ r. r.0 ≡ n)
            (refuse_if (not (may_read n peer profile feed_id))
              (P2pError.subscription_denied feed_id))
            n _ (λ e. refl) (λ allowed. refl)
