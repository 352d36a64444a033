-- ===== src/P2p/Runtime.antt =====
-- `P2pRuntime`: the commands, run on the network for the peers that have joined, and their events.
pub mod Invariant
pub mod Reports
pub mod Rejoin
use agent_feed.Directory.Types.{FeedDirectoryEntry}
use agent_feed.P2p.Discovery.{
  announce_directory_entry, cache_directory_entry, discover_github_org, discover_github_team,
  discover_github_user,
}
use agent_feed.P2p.Fabric.{
  announce_feed, certify_github_org_access, join_fabric, participation_of, register_browser_handoff,
}
use agent_feed.P2p.Feeds.{drain_inbox, feed_snapshot, follow, grant_subscription, publish_capsule}
use agent_feed.P2p.Messages.{P2pCommand, P2pEvent, P2pPeerSpec, p2p_error_text}
use agent_feed.P2p.Monad.{Action}
use agent_feed.P2p.Plane.{P2pNetworkConfig, P2pRuntimeStatus, config_status}
use agent_feed.P2p.Types.{
  NetworkState, P2pError, PeerNode, PeerParticipation, PeerRole, default_network, is_subscriber,
  org_eq, org_ord, peer_with_compatibility, role_eq, role_ord, team_eq, team_ord,
}
use agent_feed.Prelude.{
  Bool, BtreeMap, List, Option, [], any_eq, false, filter, get, if◌then◌else◌, inl, inr, insert,
  length, list_eq, list_ord, map, map_or, nat_eq, nat_ord, none, not, option_eq, option_ord,
  pair_eq, pair_ord, some, true, unwrap_or, ℕ, ◌&&◌, ◌++◌, ◌∷◌, ◌⊎◌,
}
use agent_feed.Proto.Capsule.{StoryCapsule}
use agent_feed.Proto.Signing.{Hashes, Serialize}
use agent_feed.Text.{Str, chars}

pub record P2pRuntime : Type 0 where
  pub config : P2pNetworkConfig
  pub network : NetworkState
  pub peers : BtreeMap Str PeerNode
  pub events : List P2pEvent
  pub is_shutdown : Bool

-- What a command leaves: the runtime, and its error where it fails.
abbrev pub Outcome : Type 0
Outcome = P2pRuntime × Option P2pError

unfoldable pub emit : P2pEvent → P2pRuntime → P2pRuntime
emit event runtime = record runtime { events = runtime.events ++ event ∷ [] }

-- A last event, and `Ok(())`.
abbrev pub finish : P2pEvent → P2pRuntime → Outcome
finish event runtime = (emit event runtime, none)

unfoldable pub after_call :
    {A : Type 0} → P2pRuntime → (A → P2pRuntime → Outcome) → NetworkState × (P2pError ⊎ A) → Outcome
after_call runtime k (network, inl e) = (record runtime { network = network }, some e)
after_call runtime k (network, inr a) = k a (record runtime { network = network })

-- A method of a peer on the runtime's network, with `?`.
abbrev pub call : {A : Type 0} → Action A → (A → P2pRuntime → Outcome) → P2pRuntime → Outcome
call m k runtime = after_call runtime k (m runtime.network)

-- `self.peer(&peer_id)?`
unfoldable pub with_peer : Str → P2pRuntime → (PeerNode → P2pRuntime → Outcome) → Outcome
with_peer peer_id runtime k =
    map_or (get runtime.peers peer_id) (runtime, some (P2pError.peer_not_found peer_id))
      (λ peer. k peer runtime)

unfoldable pub node_of_spec : P2pPeerSpec → PeerNode
node_of_spec spec =
    peer_with_compatibility spec.network_id spec.peer_id spec.principal spec.compatibility

-- `upsert_peer`: the peer that is there stays.
unfoldable pub upsert_peer : P2pPeerSpec → P2pRuntime → P2pRuntime × PeerNode
upsert_peer spec runtime =
    let peer = unwrap_or (get runtime.peers spec.peer_id) (node_of_spec spec) in
    (record runtime { peers = insert runtime.peers spec.peer_id peer }, peer)

-- The event of a participation that is there.
abbrev pub emit_participation :
    (PeerParticipation → P2pEvent) → Option PeerParticipation → P2pRuntime → Outcome
emit_participation event none runtime = (runtime, none)
emit_participation event (some participation) runtime = finish (event participation) runtime

unfoldable pub drain_events : P2pRuntime → P2pRuntime × List P2pEvent
drain_events runtime = (record runtime { events = [] }, runtime.events)

abbrev pub is_shutdown_command : P2pCommand → Bool
is_shutdown_command P2pCommand.shutdown = true
is_shutdown_command _ = false

module _ (json_error : Str) where
  -- The answer to the match on the result of `publish_capsule`.
  abbrev pub publish_outcome : Str → Str → P2pRuntime → NetworkState × (P2pError ⊎ ℕ) → Outcome
  publish_outcome peer_id feed_id runtime (network, inl e) = (
    emit (P2pEvent.publish_rejected peer_id (some feed_id) (p2p_error_text json_error e))
        (record runtime { network = network }),
    some e,
  )
  publish_outcome peer_id feed_id runtime (network, inr delivered) =
      finish (P2pEvent.publish_accepted peer_id feed_id delivered)
        (record runtime { network = network })

  -- The event of an error, after the command's own.
  abbrev pub report : Outcome → Outcome
  report (runtime, none) = (runtime, none)
  report (runtime, some e) = (emit (P2pEvent.error (p2p_error_text json_error e)) runtime, some e)

module _ (version : Str) where
  unfoldable pub participations : P2pRuntime → List PeerNode → List PeerParticipation
  participations runtime [] = []
  participations runtime (peer ∷ peers) =
      let rest = participations runtime peers in
      elim (participation_of version peer peer.peer_id runtime.network).1 [
        | inl e ↦ rest
        | inr found ↦ map_or found rest (λ participation. participation ∷ rest)
      ]

  unfoldable pub runtime_status : P2pRuntime → P2pRuntimeStatus
  runtime_status runtime =
      let present = participations runtime (map (λ (e : Str × PeerNode). e.1) runtime.peers) in
      record (config_status version runtime.config) {
        fabric_peers = length (filter (λ p. any_eq p.roles PeerRole.fabric) present);
        subscribed_feeds = length (filter is_subscriber present);
      }

  unfoldable pub new_runtime : P2pNetworkConfig → P2pRuntime
  new_runtime config =
      let runtime : P2pRuntime = record {
        config = config;
        network = default_network;
        peers = [];
        events = [];
        is_shutdown = false;
      } in
      emit (P2pEvent.ready (runtime_status runtime)) runtime

  module _ (json_error : Str) ⦃h : Hashes⦄ ⦃s : Serialize StoryCapsule⦄
      ⦃d : Serialize FeedDirectoryEntry⦄ where
    unfoldable pub handle_inner : P2pCommand → P2pRuntime → Outcome
    handle_inner (P2pCommand.join_fabric spec roles) runtime =
        let (registered, peer) = upsert_peer spec runtime in
        call (join_fabric version peer roles)
          (λ joined.
            call (participation_of version peer peer.peer_id)
              (emit_participation P2pEvent.network_joined))
          registered
    handle_inner (P2pCommand.register_browser_handoff peer_id addrs) runtime =
        with_peer peer_id runtime λ peer.
          call (register_browser_handoff version peer addrs) λ registered.
            call (participation_of version peer peer.peer_id)
              (emit_participation P2pEvent.browser_handoff_registered)
    handle_inner (P2pCommand.announce_feed peer_id profile) runtime =
        with_peer peer_id runtime λ peer.
          call (announce_feed version peer profile)
            (λ announced. finish (P2pEvent.publish_accepted peer_id profile.feed_id 0))
    handle_inner (P2pCommand.announce_directory_entry peer_id entry) runtime =
        with_peer peer_id runtime λ peer.
          call (announce_directory_entry version peer entry)
            (λ announced. finish (P2pEvent.directory_entry_received entry))
    handle_inner (P2pCommand.cache_directory_entry peer_id entry) runtime =
        with_peer peer_id runtime λ peer.
          call (cache_directory_entry version peer entry)
            (λ cached. finish (P2pEvent.directory_entry_received entry))
    handle_inner (P2pCommand.discover_github_user peer_id id) runtime =
        with_peer peer_id runtime λ peer.
          call (discover_github_user version peer id)
            (λ entries. finish (P2pEvent.feed_discovered entries))
    handle_inner (P2pCommand.discover_github_org peer_id name) runtime =
        with_peer peer_id runtime λ peer.
          call (discover_github_org version peer name)
            (λ entries. finish (P2pEvent.feed_discovered entries))
    handle_inner (P2pCommand.discover_github_team peer_id name team) runtime =
        with_peer peer_id runtime λ peer.
          call (discover_github_team version peer name team)
            (λ entries. finish (P2pEvent.feed_discovered entries))
    handle_inner (P2pCommand.follow_feed peer_id feed_id) runtime =
        with_peer peer_id runtime λ peer.
          call (follow version peer feed_id)
            (λ followed. finish (P2pEvent.feed_followed peer_id feed_id))
    handle_inner (P2pCommand.grant_subscription publisher_peer_id subscriber_peer_id feed_id)
          runtime =
        with_peer publisher_peer_id runtime λ publisher runtime.
          with_peer subscriber_peer_id runtime λ subscriber.
            call (grant_subscription version publisher feed_id subscriber)
              (λ granted. finish (P2pEvent.publish_accepted publisher_peer_id feed_id 0))
    handle_inner (P2pCommand.certify_github_org_access peer_id name teams) runtime =
        with_peer peer_id runtime λ peer.
          call (certify_github_org_access version peer name teams)
            (λ certified. finish (P2pEvent.publish_accepted peer_id (chars "github-org-access") 0))
    handle_inner (P2pCommand.publish_capsule peer_id capsule) runtime =
        with_peer peer_id runtime λ peer runtime.
          publish_outcome json_error peer_id capsule.value.feed_id runtime
            (publish_capsule version peer capsule runtime.network)
    handle_inner (P2pCommand.request_snapshot peer_id feed_id limit) runtime =
        with_peer peer_id runtime λ peer.
          call (feed_snapshot version peer feed_id limit)
            (λ capsules. finish (P2pEvent.snapshot_received peer_id feed_id capsules))
    handle_inner (P2pCommand.drain_inbox peer_id) runtime = with_peer peer_id runtime λ peer.
        call (drain_inbox version peer)
          (λ capsules. finish (P2pEvent.story_received peer_id capsules))
    handle_inner P2pCommand.shutdown runtime =
        finish (P2pEvent.degraded none (chars "p2p runtime shut down"))
          (record runtime { is_shutdown = true })

    unfoldable pub handle : P2pCommand → P2pRuntime → Outcome
    handle command runtime =
        if runtime.is_shutdown && not (is_shutdown_command command)
        then finish (P2pEvent.degraded none (chars "p2p runtime is shut down")) runtime
        else report json_error (handle_inner command runtime)
