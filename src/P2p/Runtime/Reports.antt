-- ===== src/P2p/Runtime/Reports.antt =====
-- What the events say of a command: one event of a success, the error of a failure.
use mathlib.Core.List.{append-nil}
use agent_feed.Directory.Types.{FeedDirectoryEntry}
use agent_feed.P2p.Discovery.{
  announce_directory_entry, cache_directory_entry, discover_github_org, discover_github_team,
  discover_github_user,
}
use agent_feed.P2p.Fabric.{
  announce_feed, certify_github_org_access, ensure_compatible, join_fabric, open_inbox, participate,
  participation_of, register_browser_handoff,
}
use agent_feed.P2p.Feeds.{drain_inbox, feed_snapshot, follow, grant_subscription, publish_capsule}
use agent_feed.P2p.Invariant.Errors.{
  announce_directory_entry-IsAtomic, announce_feed-IsAtomic, cache_directory_entry-IsAtomic,
  certify_github_org_access-IsAtomic, discover_github_org-IsAtomic, discover_github_team-IsAtomic,
  discover_github_user-IsAtomic, drain_inbox-IsAtomic, feed_snapshot-IsAtomic, follow-IsAtomic,
  grant_subscription-IsAtomic, publish_capsule-IsAtomic,
}
use agent_feed.P2p.Messages.{P2pCommand, P2pEvent, p2p_error_text}
use agent_feed.P2p.Monad.{Action, Ending, check, modify, ◌>>◌}
use agent_feed.P2p.Monad.Atomic.{IsAtomic, Undone}
use agent_feed.P2p.Runtime.{
  Outcome, P2pRuntime, after_call, call, emit, emit_participation, finish, handle, handle_inner,
  is_shutdown_command, publish_outcome, report, upsert_peer, with_peer,
}
use agent_feed.P2p.Types.{
  NetworkState, PeerNode, PeerParticipation, new_participation, org_ord, role_ord, team_ord,
}
use agent_feed.Prelude.{
  List, Option-cases, [], ap, get, get-update, if-cases, inl, inr, list_cmp_eq_iff, list_ord,
  map_or-cases, nat_ord, none, not, option_ord, pair_ord, refl, some, sym, unwrap_or, ℕ, ◌&&◌, ◌++◌,
  ◌∙◌, ◌∷◌, ◌≡◌,
}
use agent_feed.Proto.Capsule.{StoryCapsule}
use agent_feed.Proto.Signing.{Hashes, Serialize}
use agent_feed.Text.{Str}

-- A call inside the runtime: one event, or an error that leaves the network alone.
abbrev Answers : P2pRuntime → Outcome → Type 0
Answers before (after, none) = (event : P2pEvent) × (after.events ≡ before.events ++ event ∷ [])
Answers before (after, some e) =
    (after.network ≡ before.network) × (own : List P2pEvent) × (after.events ≡ before.events ++ own)

-- A command: a failure has the text of its error as the last event.
module _ (json_error : Str) where
  abbrev pub Reports : P2pRuntime → Outcome → Type 0
  Reports before (after, none) = (event : P2pEvent) × (after.events ≡ before.events ++ event ∷ [])
  Reports before (after, some e) =
      (after.network ≡ before.network)
      × (own : List P2pEvent) × (after.events
          ≡ before.events ++ own ++ P2pEvent.error (p2p_error_text json_error e) ∷ [])

  report-Reports :
      (before : P2pRuntime) (o : Outcome) → Answers before o → Reports before (report json_error o)
  unfolding emit
  report-Reports before (after, none) a = a
  report-Reports before (after, some e) (same, own, events) = (same, own, cc events)

with_peer-Answers :
    (id : Str) (runtime : P2pRuntime) (k : PeerNode → P2pRuntime → Outcome)
    → ((peer : PeerNode) → Answers runtime (k peer runtime))
    → Answers runtime (with_peer id runtime k)
unfolding with_peer
with_peer-Answers id runtime k next =
    map_or-cases {B = Outcome} (Answers runtime) (get runtime.peers id) _ _
      (λ absent. (refl, [], sym (append-nil runtime.events))) (λ peer found. next peer)

-- A call of an atomic method that ends with its event.
after_call-Answers :
    {A : Type 0} (before runtime : P2pRuntime) (event : A → P2pEvent) (r : Ending A)
    → runtime.network ≡ before.network
    → runtime.events ≡ before.events
    → Undone runtime.network r
    → Answers before (after_call runtime (λ a. finish (event a)) r)
unfolding after_call emit
after_call-Answers before runtime event (n, inl e) network events undone =
    (undone e refl ∙ network, [], events ∙ sym (append-nil before.events))
after_call-Answers before runtime event (n, inr a) network events undone =
    (event a, ap (λ past. past ++ event a ∷ []) events)

finish-Answers :
    {A : Type 0} (id : Str) (runtime : P2pRuntime) (m : PeerNode → Action A)
    (event : PeerNode → A → P2pEvent)
    → ((peer : PeerNode) → IsAtomic (m peer))
    → Answers runtime (with_peer id runtime (λ peer. call (m peer) (λ a. finish (event peer a))))
finish-Answers id runtime m event atomic = with_peer-Answers id runtime _ (λ peer.
    after_call-Answers runtime runtime (event peer) (m peer runtime.network) refl refl
      (atomic peer runtime.network))

publish_outcome-Answers :
    (json_error peer_id feed_id : Str) (runtime : P2pRuntime) (r : Ending ℕ)
    → Undone runtime.network r
    → Answers runtime (publish_outcome json_error peer_id feed_id runtime r)
unfolding emit
publish_outcome-Answers json_error peer_id feed_id runtime (n, inl e) undone =
    (undone e refl, _, refl)
publish_outcome-Answers json_error peer_id feed_id runtime (n, inr delivered) undone = (_, refl)

-- The event of a participation that is there.
participation_of-Answers :
    (version : Str) (before runtime : P2pRuntime) (peer : PeerNode)
    (event : PeerParticipation → P2pEvent) (participation : PeerParticipation)
    → runtime.events ≡ before.events
    → ensure_compatible version peer ≡ none
    → get runtime.network.participants peer.peer_id ≡ some participation
    → Answers before
        (call (participation_of version peer peer.peer_id) (emit_participation event) runtime)
unfolding after_call emit participation_of
participation_of-Answers version before runtime peer event participation events passed found =
    rw (passed, found) (event participation, ap (λ past. past ++ event participation ∷ []) events)

participate-found :
    (peer : PeerNode) (change : PeerParticipation → PeerParticipation) (n : NetworkState)
    → (participation : PeerParticipation) × (get
          (open_inbox peer (participate peer change n)).participants
          peer.peer_id
        ≡ some participation)
unfolding open_inbox participate
participate-found peer change n = (
  change (unwrap_or (get n.participants peer.peer_id) (new_participation peer)),
  cc (
    get-update n.participants peer.peer_id (new_participation peer) change peer.peer_id,
    (list_cmp_eq_iff peer.peer_id peer.peer_id).1 refl,
  ),
)

-- A method that joins the peer, and the event of its participation.
join-Answers :
    (version : Str) (before runtime : P2pRuntime) (peer : PeerNode)
    (change : PeerParticipation → PeerParticipation) (event : PeerParticipation → P2pEvent)
    → runtime.network ≡ before.network
    → runtime.events ≡ before.events
    → Answers before (
        call
          (check (ensure_compatible version peer)
            >> modify (λ n. open_inbox peer (participate peer change n)))
          (λ joined. call (participation_of version peer peer.peer_id) (emit_participation event))
          runtime)
unfolding after_call
join-Answers version before runtime peer change event network events =
    elim (Option-cases (ensure_compatible version peer)) [
      | inl passed ↦
          let (participation, found) = participate-found peer change runtime.network in
          rw passed
            (participation_of-Answers version before _ peer event participation events passed found)
      | inr (e, refused) ↦ rw refused (network, [], events ∙ sym (append-nil before.events))
    ]

module _ ⦃h : Hashes⦄ ⦃s : Serialize StoryCapsule⦄ ⦃d : Serialize FeedDirectoryEntry⦄
    (version json_error : Str) where
  handle_inner-Answers :
      (command : P2pCommand) (runtime : P2pRuntime)
      → Answers runtime (handle_inner version json_error command runtime)
  unfolding handle_inner emit upsert_peer join_fabric register_browser_handoff
  handle_inner-Answers (P2pCommand.join_fabric spec roles) runtime =
      join-Answers version runtime _ _ _ P2pEvent.network_joined refl refl
  handle_inner-Answers (P2pCommand.register_browser_handoff peer_id addrs) runtime =
      with_peer-Answers peer_id runtime _ (λ peer.
        join-Answers version runtime runtime peer _ P2pEvent.browser_handoff_registered refl refl)
  handle_inner-Answers (P2pCommand.announce_feed peer_id profile) runtime =
      finish-Answers peer_id runtime (λ peer. announce_feed version peer profile) _
        (λ peer. announce_feed-IsAtomic version peer profile)
  handle_inner-Answers (P2pCommand.announce_directory_entry peer_id entry) runtime =
      finish-Answers peer_id runtime (λ peer. announce_directory_entry version peer entry) _
        (λ peer. announce_directory_entry-IsAtomic version peer entry)
  handle_inner-Answers (P2pCommand.cache_directory_entry peer_id entry) runtime =
      finish-Answers peer_id runtime (λ peer. cache_directory_entry version peer entry) _
        (λ peer. cache_directory_entry-IsAtomic version peer entry)
  handle_inner-Answers (P2pCommand.discover_github_user peer_id id) runtime =
      finish-Answers peer_id runtime (λ peer. discover_github_user version peer id) _
        (λ peer. discover_github_user-IsAtomic version peer id)
  handle_inner-Answers (P2pCommand.discover_github_org peer_id name) runtime =
      finish-Answers peer_id runtime (λ peer. discover_github_org version peer name) _
        (λ peer. discover_github_org-IsAtomic version peer name)
  handle_inner-Answers (P2pCommand.discover_github_team peer_id name team) runtime =
      finish-Answers peer_id runtime (λ peer. discover_github_team version peer name team) _
        (λ peer. discover_github_team-IsAtomic version peer name team)
  handle_inner-Answers (P2pCommand.follow_feed peer_id feed_id) runtime =
      finish-Answers peer_id runtime (λ peer. follow version peer feed_id) _
        (λ peer. follow-IsAtomic version peer feed_id)
  handle_inner-Answers (P2pCommand.grant_subscription publisher subscriber feed_id) runtime =
      with_peer-Answers publisher runtime _ λ peer.
        finish-Answers subscriber runtime (λ other. grant_subscription version peer feed_id other) _
          (λ other. grant_subscription-IsAtomic version peer feed_id other)
  handle_inner-Answers (P2pCommand.certify_github_org_access peer_id name teams) runtime =
      finish-Answers peer_id runtime (λ peer. certify_github_org_access version peer name teams) _
        (λ peer. certify_github_org_access-IsAtomic version peer name teams)
  handle_inner-Answers (P2pCommand.publish_capsule peer_id capsule) runtime =
      with_peer-Answers peer_id runtime _ (λ peer.
        publish_outcome-Answers json_error peer_id capsule.value.feed_id runtime
          (publish_capsule version peer capsule runtime.network)
          (publish_capsule-IsAtomic version peer capsule runtime.network))
  handle_inner-Answers (P2pCommand.request_snapshot peer_id feed_id limit) runtime =
      finish-Answers peer_id runtime (λ peer. feed_snapshot version peer feed_id limit) _
        (λ peer. feed_snapshot-IsAtomic version peer feed_id limit)
  handle_inner-Answers (P2pCommand.drain_inbox peer_id) runtime =
      finish-Answers peer_id runtime (λ peer. drain_inbox version peer) _
        (λ peer. drain_inbox-IsAtomic version peer)
  handle_inner-Answers P2pCommand.shutdown runtime = (_, refl)

  -- A command that succeeds adds one event. A command that fails leaves the network as it was, adds
  -- the text of its error as the last event, and takes back no event.
  pub handle-Reports :
      (command : P2pCommand) (runtime : P2pRuntime)
      → Reports json_error runtime (handle version json_error command runtime)
  unfolding handle emit
  handle-Reports command runtime =
      if-cases (Reports json_error runtime)
        (runtime.is_shutdown && not (is_shutdown_command command)) _ _ (λ down. (_, refl))
        (λ up.
          report-Reports json_error runtime (handle_inner version json_error command runtime)
            (handle_inner-Answers command runtime))
