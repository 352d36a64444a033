-- ===== src/P2p/Runtime/Invariant.antt =====
-- The invariant of the network over every run of the runtime.
use mathlib.Core.Path.{subst}
use agent_feed.Directory.Types.{FeedDirectoryEntry}
use agent_feed.P2p.Discovery.{
  announce_directory_entry, cache_directory_entry, discover_github_org, discover_github_team,
  discover_github_user,
}
use agent_feed.P2p.Fabric.{announce_feed, certify_github_org_access, participation_of}
use agent_feed.P2p.Feeds.{drain_inbox, feed_snapshot, follow, grant_subscription, publish_capsule}
use agent_feed.P2p.Invariant.{IsTrusted}
use agent_feed.P2p.Invariant.Methods.{
  announce_directory_entry-IsTrusted, announce_feed-IsTrusted, cache_directory_entry-IsTrusted,
  certify_github_org_access-IsTrusted, drain_inbox-IsTrusted, follow-IsTrusted,
  grant_subscription-IsTrusted, join_fabric-IsTrusted, publish_capsule-IsTrusted,
  register_browser_handoff-IsTrusted,
}
use agent_feed.P2p.Invariant.Parts.{default_network-IsTrusted}
use agent_feed.P2p.Invariant.Reads.{
  discover_github_org-reads, discover_github_team-reads, discover_github_user-reads,
  feed_snapshot-reads, participation_of-reads,
}
use agent_feed.P2p.Messages.{P2pCommand, P2pEvent}
use agent_feed.P2p.Monad.{Action, Ending}
use agent_feed.P2p.Plane.{P2pNetworkConfig}
use agent_feed.P2p.Runtime.{
  Outcome, P2pRuntime, after_call, call, drain_events, emit, emit_participation, finish, handle,
  handle_inner, is_shutdown_command, new_runtime, publish_outcome, report, upsert_peer, with_peer,
}
use agent_feed.P2p.Types.{NetworkState, PeerNode, PeerParticipation, org_ord, role_ord, team_ord}
use agent_feed.Prelude.{
  Option, get, if-cases, inl, inr, list_ord, map_or-cases, nat_ord, none, not, option_ord, pair_ord,
  some, sym, ℕ, ◌&&◌,
}
use agent_feed.Proto.Capsule.{StoryCapsule}
use agent_feed.Proto.Signing.{Hashes, Serialize}
use agent_feed.Text.{Str}

-- A predicate of the network that the call and what follows it keep.
module _ (Q : NetworkState → Type 0) where
  pub after_call-keeps :
      {A : Type 0} (runtime : P2pRuntime) (k : A → P2pRuntime → Outcome) (r : Ending A)
      → Q r.0
      → ((a : A) (after : P2pRuntime) → Q after.network → Q (k a after).0.network)
      → Q (after_call runtime k r).0.network
  unfolding after_call
  after_call-keeps runtime k (network, inl e) q next = q
  after_call-keeps runtime k (network, inr a) q next = next a _ q

  pub with_peer-keeps :
      (id : Str) (runtime : P2pRuntime) (k : PeerNode → P2pRuntime → Outcome)
      → Q runtime.network
      → ((peer : PeerNode) → Q (k peer runtime).0.network)
      → Q (with_peer id runtime k).0.network
  unfolding with_peer
  with_peer-keeps id runtime k q next =
      map_or-cases {B = Outcome} (λ o. Q o.0.network) (get runtime.peers id) _ _ (λ absent. q)
        (λ peer found. next peer)

  -- A command that ends with the event of its call.
  pub finish-keeps :
      {A : Type 0} (id : Str) (runtime : P2pRuntime) (m : PeerNode → Action A)
      (event : PeerNode → A → P2pEvent)
      → Q runtime.network
      → ((peer : PeerNode) → Q (m peer runtime.network).0)
      → Q (with_peer id runtime (λ peer. call (m peer) (λ a. finish (event peer a)))).0.network
  unfolding emit
  finish-keeps id runtime m event q next =
      with_peer-keeps id runtime _ q
        (λ peer. after_call-keeps runtime _ (m peer runtime.network) (next peer) (λ a after p. p))

  pub emit_participation-keeps :
      (event : PeerParticipation → P2pEvent) (found : Option PeerParticipation)
      (runtime : P2pRuntime)
      → Q runtime.network
      → Q (emit_participation event found runtime).0.network
  unfolding emit
  emit_participation-keeps event none runtime q = q
  emit_participation-keeps event (some participation) runtime q = q

module _ ⦃h : Hashes⦄ ⦃s : Serialize StoryCapsule⦄ ⦃d : Serialize FeedDirectoryEntry⦄
    (version json_error : Str) where
  abbrev Trusts : P2pRuntime → Type 0
  Trusts runtime = IsTrusted version runtime.network

  participation_of-Trusts :
      (peer : PeerNode) (id : Str) (event : PeerParticipation → P2pEvent) (after : P2pRuntime)
      → Trusts after
      → Trusts (call (participation_of version peer id) (emit_participation event) after).0
  participation_of-Trusts peer id event after v =
      after_call-keeps (IsTrusted version) after _ _
        (subst (IsTrusted version) (sym (participation_of-reads version peer id after.network)) v)
        (λ found last. emit_participation-keeps (IsTrusted version) event found last)

  publish_outcome-Trusts :
      (peer_id feed_id : Str) (runtime : P2pRuntime) (r : Ending ℕ)
      → IsTrusted version r.0
      → Trusts (publish_outcome json_error peer_id feed_id runtime r).0
  unfolding emit
  publish_outcome-Trusts peer_id feed_id runtime (network, inl e) v = v
  publish_outcome-Trusts peer_id feed_id runtime (network, inr n) v = v

  handle_inner-IsTrusted :
      (command : P2pCommand) (runtime : P2pRuntime)
      → Trusts runtime
      → Trusts (handle_inner version json_error command runtime).0
  unfolding handle_inner emit upsert_peer
  handle_inner-IsTrusted (P2pCommand.join_fabric spec roles) runtime v =
      after_call-keeps (IsTrusted version) _ _ _ (join_fabric-IsTrusted version _ roles _ v)
        (λ joined after w. participation_of-Trusts _ _ P2pEvent.network_joined after w)
  handle_inner-IsTrusted (P2pCommand.register_browser_handoff peer_id addrs) runtime v =
      with_peer-keeps (IsTrusted version) peer_id runtime _ v λ peer.
        after_call-keeps (IsTrusted version) runtime _ _
          (register_browser_handoff-IsTrusted version peer addrs _ v)
          (λ registered after w.
            participation_of-Trusts _ _ P2pEvent.browser_handoff_registered after w)
  handle_inner-IsTrusted (P2pCommand.announce_feed peer_id profile) runtime v =
      finish-keeps (IsTrusted version) peer_id runtime (λ peer. announce_feed version peer profile)
        _ v (λ peer. announce_feed-IsTrusted version peer profile _ v)
  handle_inner-IsTrusted (P2pCommand.announce_directory_entry peer_id entry) runtime v =
      finish-keeps (IsTrusted version) peer_id runtime
        (λ peer. announce_directory_entry version peer entry) _ v
        (λ peer. announce_directory_entry-IsTrusted version peer entry _ v)
  handle_inner-IsTrusted (P2pCommand.cache_directory_entry peer_id entry) runtime v =
      finish-keeps (IsTrusted version) peer_id runtime
        (λ peer. cache_directory_entry version peer entry) _ v
        (λ peer. cache_directory_entry-IsTrusted version peer entry _ v)
  handle_inner-IsTrusted (P2pCommand.discover_github_user peer_id id) runtime v =
      finish-keeps (IsTrusted version) peer_id runtime
        (λ peer. discover_github_user version peer id) _ v
        (λ peer. subst (IsTrusted version) (sym (discover_github_user-reads version peer id _)) v)
  handle_inner-IsTrusted (P2pCommand.discover_github_org peer_id name) runtime v =
      finish-keeps (IsTrusted version) peer_id runtime
        (λ peer. discover_github_org version peer name) _ v
        (λ peer. subst (IsTrusted version) (sym (discover_github_org-reads version peer name _)) v)
  handle_inner-IsTrusted (P2pCommand.discover_github_team peer_id name team) runtime v =
      finish-keeps (IsTrusted version) peer_id runtime
        (λ peer. discover_github_team version peer name team) _ v
        (λ peer.
          subst (IsTrusted version) (sym (discover_github_team-reads version peer name team _)) v)
  handle_inner-IsTrusted (P2pCommand.follow_feed peer_id feed_id) runtime v =
      finish-keeps (IsTrusted version) peer_id runtime (λ peer. follow version peer feed_id) _ v
        (λ peer. follow-IsTrusted version peer feed_id _ v)
  handle_inner-IsTrusted (P2pCommand.grant_subscription publisher subscriber feed_id) runtime v =
      with_peer-keeps (IsTrusted version) publisher runtime _ v λ peer.
        finish-keeps (IsTrusted version) subscriber runtime
          (λ other. grant_subscription version peer feed_id other) _ v
          (λ other. grant_subscription-IsTrusted version peer feed_id other _ v)
  handle_inner-IsTrusted (P2pCommand.certify_github_org_access peer_id name teams) runtime v =
      finish-keeps (IsTrusted version) peer_id runtime
        (λ peer. certify_github_org_access version peer name teams) _ v
        (λ peer. certify_github_org_access-IsTrusted version peer name teams _ v)
  handle_inner-IsTrusted (P2pCommand.publish_capsule peer_id capsule) runtime v =
      with_peer-keeps (IsTrusted version) peer_id runtime _ v (λ peer.
        publish_outcome-Trusts peer_id capsule.value.feed_id runtime
          (publish_capsule version peer capsule runtime.network)
          (publish_capsule-IsTrusted version peer capsule runtime.network v))
  handle_inner-IsTrusted (P2pCommand.request_snapshot peer_id feed_id limit) runtime v =
      finish-keeps (IsTrusted version) peer_id runtime
        (λ peer. feed_snapshot version peer feed_id limit) _ v
        (λ peer.
          subst (IsTrusted version) (sym (feed_snapshot-reads version peer feed_id limit _)) v)
  handle_inner-IsTrusted (P2pCommand.drain_inbox peer_id) runtime v =
      finish-keeps (IsTrusted version) peer_id runtime (λ peer. drain_inbox version peer) _ v
        (λ peer. drain_inbox-IsTrusted version peer _ v)
  handle_inner-IsTrusted P2pCommand.shutdown runtime v = v

  report-Trusts : (o : Outcome) → Trusts o.0 → Trusts (report json_error o).0
  unfolding emit
  report-Trusts (runtime, none) v = v
  report-Trusts (runtime, some e) v = v

  pub handle-IsTrusted :
      (command : P2pCommand) (runtime : P2pRuntime)
      → Trusts runtime
      → Trusts (handle version json_error command runtime).0
  unfolding handle emit
  handle-IsTrusted command runtime v =
      if-cases (λ (o : Outcome). Trusts o.0)
        (runtime.is_shutdown && not (is_shutdown_command command)) _ _ (λ down. v)
        (λ up.
          report-Trusts (handle_inner version json_error command runtime)
            (handle_inner-IsTrusted command runtime v))

  -- The runs of a runtime: it starts anew, handles commands and has its events drained.
  pub data Reach : P2pRuntime → Type 0 where
    start : (config : P2pNetworkConfig) → Reach (new_runtime version config)
    command :
        {runtime : P2pRuntime}
        → Reach runtime
        → (command : P2pCommand) → Reach (handle version json_error command runtime).0
    drained : {runtime : P2pRuntime} → Reach runtime → Reach (drain_events runtime).0

  -- After any commands and drains of a new runtime, whether they succeed or fail, the network is
  -- trusted: every feed is of the current version and has its topic, every history holds no more
  -- than its capacity and only verified capsules of its feed, every inbox holds verified capsules
  -- only, and every listed entry is of the current version, verifies, has an access policy that
  -- fits its visibility, and stands under its feed and under its owner, its organisation and its
  -- team.
  pub Reach-IsTrusted : {runtime : P2pRuntime} → Reach runtime → Trusts runtime
  unfolding new_runtime drain_events emit
  Reach-IsTrusted (start config) = default_network-IsTrusted version
  Reach-IsTrusted (command r c) = handle-IsTrusted c _ (Reach-IsTrusted r)
  Reach-IsTrusted (drained r) = Reach-IsTrusted r
