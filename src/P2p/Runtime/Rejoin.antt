-- ===== src/P2p/Runtime/Rejoin.antt =====
-- A peer that failed to join stays registered, and cannot join again.
use agent_feed.Directory.Types.{FeedDirectoryEntry}
use agent_feed.P2p.Fabric.{ensure_compatible, join_fabric}
use agent_feed.P2p.Messages.{P2pCommand, P2pPeerSpec}
use agent_feed.P2p.Runtime.{
  P2pRuntime, after_call, emit, handle, handle_inner, node_of_spec, upsert_peer,
}
use agent_feed.P2p.Types.{
  P2pError, PeerNode, PeerRole, org_ord, peer_with_compatibility, role_ord, team_ord,
}
use agent_feed.Prelude.{
  List, false, get, get-insert_self, list_ord, nat_ord, none, option_ord, pair_ord, refl, some, ◌≡◌,
}
use agent_feed.Proto.Capsule.{StoryCapsule}
use agent_feed.Proto.Compatibility.{current, is_compatible_with}
use agent_feed.Proto.Signing.{Hashes, Serialize}
use agent_feed.Text.{Str}

module _ ⦃h : Hashes⦄ ⦃s : Serialize StoryCapsule⦄ ⦃d : Serialize FeedDirectoryEntry⦄
    (version json_error : Str) where
  -- A peer that is registered with an incompatible version.
  record IsLocked (runtime : P2pRuntime) (peer_id : Str) (peer : PeerNode) : Type 0 where
    registered : get runtime.peers peer_id ≡ some peer
    outdated : is_compatible_with (current version) peer.compatibility ≡ false

  locked-fails :
      (runtime : P2pRuntime) (peer_id : Str) (peer : PeerNode) (spec : P2pPeerSpec)
      (roles : List PeerRole)
      → IsLocked runtime peer_id peer
      → spec.peer_id ≡ peer_id
      → runtime.is_shutdown ≡ false
      → (error : P2pError) × ((handle version json_error
            (P2pCommand.join_fabric spec roles)
            runtime).1
          ≡ some error)
  unfolding handle handle_inner upsert_peer join_fabric ensure_compatible after_call emit
  locked-fails runtime peer_id peer spec roles locked same up =
      rw (up, same, locked.registered, locked.outdated) (_, refl)

  join_fabric-locks :
      (runtime : P2pRuntime) (spec : P2pPeerSpec) (roles : List PeerRole)
      → get runtime.peers spec.peer_id ≡ none
      → is_compatible_with (current version) spec.compatibility ≡ false
      → runtime.is_shutdown ≡ false
      → let after = (handle version json_error (P2pCommand.join_fabric spec roles) runtime).0 in
        IsLocked after spec.peer_id (node_of_spec spec) × (after.is_shutdown ≡ false)
  unfolding handle handle_inner upsert_peer join_fabric ensure_compatible after_call emit
      node_of_spec peer_with_compatibility
  join_fabric-locks runtime spec roles fresh outdated up =
      rw (up, fresh, outdated)
        (
          record {
            registered = get-insert_self runtime.peers spec.peer_id (node_of_spec spec);
            outdated = outdated;
          },
          refl,
        )

  -- In a runtime that is not shut down, once a peer that was not registered has asked to join with
  -- a version that is not compatible, a later command to join of the same peer fails too, whatever
  -- its version.
  pub join_fabric-fails_again :
      (runtime : P2pRuntime) (spec next : P2pPeerSpec) (roles next_roles : List PeerRole)
      → runtime.is_shutdown ≡ false
      → get runtime.peers spec.peer_id ≡ none
      → is_compatible_with (current version) spec.compatibility ≡ false
      → next.peer_id ≡ spec.peer_id
      → let after = (handle version json_error (P2pCommand.join_fabric spec roles) runtime).0 in
        (error : P2pError) × ((handle version json_error
            (P2pCommand.join_fabric next next_roles)
            after).1
          ≡ some error)
  join_fabric-fails_again runtime spec next roles next_roles up fresh outdated same =
      let locked = join_fabric-locks runtime spec roles fresh outdated up in
      locked-fails _ spec.peer_id (node_of_spec spec) next next_roles locked.0 same locked.1
