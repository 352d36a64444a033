-- ===== src/P2p/Plane.antt =====
-- The configuration of the network: the data plane, the bootstrap peers and the edge fallback.
pub mod Laws
use agent_feed.P2p.Types.{P2pError, org_eq, role_eq, team_eq}
use agent_feed.Prelude.{
  Bool, List, Option, [], and_then, false, head?, if◌then◌else◌, inl, inr, is_some, is_some_and,
  list_eq, map, nat_eq, none, not, option_eq, pair_eq, some, true, ℕ, ◌&&◌, ◌++◌, ◌==◌, ◌∷◌, ◌⊎◌,
}
use agent_feed.Proto.Compatibility.{ProtocolCompatibility, current}
use agent_feed.Text.{Str, chars, split_on}

pub data EdgeFallbackMode : Type 0 where
  auto : EdgeFallbackMode
  on : EdgeFallbackMode
  off : EdgeFallbackMode

unfoldable pub fallback_as_str : EdgeFallbackMode → Str
fallback_as_str EdgeFallbackMode.auto = chars "auto"
fallback_as_str EdgeFallbackMode.on = chars "on"
fallback_as_str EdgeFallbackMode.off = chars "off"

unfoldable pub allows_edge_publish : EdgeFallbackMode → Bool
allows_edge_publish EdgeFallbackMode.off = false
allows_edge_publish _ = true

pub data P2pDataPlane : Type 0 where
  edge_snapshot_fallback : P2pDataPlane
  native_libp2p : P2pDataPlane
  browser_libp2p : P2pDataPlane

unfoldable pub plane_as_str : P2pDataPlane → Str
plane_as_str P2pDataPlane.edge_snapshot_fallback = chars "edge_snapshot_fallback"
plane_as_str P2pDataPlane.native_libp2p = chars "native_libp2p"
plane_as_str P2pDataPlane.browser_libp2p = chars "browser_libp2p"

pub record P2pDataPlaneCapability : Type 0 where
  pub data_plane : P2pDataPlane
  pub available : Bool
  pub production_default : Bool
  pub publish_available : Bool
  pub subscribe_available : Bool
  pub reason : Str
  pub next_step : Str
  pub protocols : List Str
  pub transports : List Str

abbrev edge_snapshot_protocols : List Str
edge_snapshot_protocols =
    chars "edge_directory_snapshot"
    ∷ chars "signed_story_capsule"
    ∷ chars "github_identity"
    ∷ chars "feed_presence"
    ∷ []

abbrev edge_snapshot_transports : List Str
edge_snapshot_transports = chars "https" ∷ []

abbrev native_libp2p_protocols : List Str
native_libp2p_protocols =
    chars "identify"
    ∷ chars "ping"
    ∷ chars "rendezvous"
    ∷ chars "kad_provider"
    ∷ chars "gossipsub"
    ∷ chars "request_response"
    ∷ chars "relay_client"
    ∷ chars "autonat"
    ∷ []

abbrev native_libp2p_transports : List Str
native_libp2p_transports =
    chars "tcp" ∷ chars "quic_v1" ∷ chars "websocket" ∷ chars "webrtc_direct" ∷ chars "relay" ∷ []

abbrev browser_libp2p_protocols : List Str
browser_libp2p_protocols =
    chars "signed_browser_seed"
    ∷ chars "gossipsub"
    ∷ chars "request_response"
    ∷ chars "relay_client"
    ∷ chars "https_snapshot_fallback"
    ∷ []

abbrev browser_libp2p_transports : List Str
browser_libp2p_transports =
    chars "webrtc_direct" ∷ chars "webtransport" ∷ chars "relay" ∷ chars "https" ∷ []

unfoldable pub capability : P2pDataPlane → EdgeFallbackMode → P2pDataPlaneCapability
capability P2pDataPlane.edge_snapshot_fallback edge_fallback =
    let edge_enabled = allows_edge_publish edge_fallback in
    record {
      data_plane = P2pDataPlane.edge_snapshot_fallback;
      available = edge_enabled;
      production_default = true;
      publish_available = edge_enabled;
      subscribe_available = edge_enabled;
      reason =
          if edge_enabled
          then chars "edge directory and snapshot endpoints are the active production data plane"
          else chars "edge snapshot fallback is disabled by configuration";
      next_step =
          if edge_enabled
          then chars "keep edge publish enabled until native libp2p is available"
          else chars "enable edge fallback or build a native libp2p data plane";
      protocols = edge_snapshot_protocols;
      transports = edge_snapshot_transports;
    }
capability P2pDataPlane.native_libp2p edge_fallback = record {
  data_plane = P2pDataPlane.native_libp2p;
  available = false;
  production_default = false;
  publish_available = false;
  subscribe_available = false;
  reason = chars "native libp2p transport is not linked into this build";
  next_step =
      chars "implement the native swarm with identify, rendezvous, kad, gossipsub, "
      ++ chars "request-response, relay, and autonat";
  protocols = native_libp2p_protocols;
  transports = native_libp2p_transports;
}
capability P2pDataPlane.browser_libp2p edge_fallback = record {
  data_plane = P2pDataPlane.browser_libp2p;
  available = false;
  production_default = false;
  publish_available = false;
  subscribe_available = false;
  reason =
      chars "browser libp2p live transport is staged behind the static shell and edge seed path";
  next_step =
      chars "wire signed browser seeds to browser-compatible transports and keep https snapshot "
      ++ chars "fallback explicit";
  protocols = browser_libp2p_protocols;
  transports = browser_libp2p_transports;
}

pub data BootstrapTopology : Type 0 where
  single_bootstrap : BootstrapTopology
  multi_bootstrap : BootstrapTopology

unfoldable pub topology_as_str : BootstrapTopology → Str
topology_as_str BootstrapTopology.single_bootstrap = chars "single_bootstrap"
topology_as_str BootstrapTopology.multi_bootstrap = chars "multi_bootstrap"

pub record P2pNetworkConfig : Type 0 where
  pub network_id : Str
  pub edge_base_url : Str
  pub bootstrap_peers : List Str
  pub topology : BootstrapTopology
  pub data_plane : P2pDataPlane
  pub edge_fallback : EdgeFallbackMode

abbrev mainnet_bootstrap_host : Str
mainnet_bootstrap_host = chars "edge.feed.aberration.technology"

unfoldable pub mainnet_single_bootstrap : EdgeFallbackMode → P2pNetworkConfig
mainnet_single_bootstrap edge_fallback = record {
  network_id = chars "agent-feed-mainnet";
  edge_base_url = chars "https://api.feed.aberration.technology";
  bootstrap_peers =
      (chars "/dns4/" ++ mainnet_bootstrap_host ++ chars "/tcp/7747")
      ∷ (chars "/dns4/" ++ mainnet_bootstrap_host ++ chars "/udp/7747/quic-v1")
      ∷ (chars "/dns4/" ++ mainnet_bootstrap_host ++ chars "/udp/443/webrtc-direct")
      ∷ [];
  topology = BootstrapTopology.single_bootstrap;
  data_plane = P2pDataPlane.edge_snapshot_fallback;
  edge_fallback = edge_fallback;
}

unfoldable pub active_transport_capability : P2pNetworkConfig → P2pDataPlaneCapability
active_transport_capability config = capability config.data_plane config.edge_fallback

unfoldable pub transport_capabilities : P2pNetworkConfig → List P2pDataPlaneCapability
transport_capabilities config =
    map (λ plane. capability plane config.edge_fallback)
      (P2pDataPlane.edge_snapshot_fallback ∷ P2pDataPlane.native_libp2p
        ∷ P2pDataPlane.browser_libp2p ∷ [])

unfoldable pub with_data_plane : P2pNetworkConfig → P2pDataPlane → P2pError ⊎ P2pNetworkConfig
with_data_plane config plane =
    let found = capability plane config.edge_fallback in
    if not found.available
    then inl (P2pError.data_plane_unavailable (plane_as_str plane ++ chars ": " ++ found.reason))
    else inr (record config { data_plane = plane })

-- `dns4_host`: the part after the first part `dns4`.
unfoldable pub part_after_dns4 : List Str → Option Str
part_after_dns4 [] = none
part_after_dns4 (part ∷ parts) =
    let rest = part_after_dns4 parts in if part == chars "dns4" then head? parts else rest

unfoldable pub dns4_host : Str → Option Str
dns4_host peer = part_after_dns4 (split_on b'/' peer)

-- The loop of `single_bootstrap_host`, from the host found so far.
unfoldable pub bootstrap_host_from : Option Str → List Str → Option Str
bootstrap_host_from host [] = host
bootstrap_host_from host (peer ∷ peers) = and_then (dns4_host peer) λ candidate.
    let rest = bootstrap_host_from (some candidate) peers in
    if is_some_and host (λ existing. not (existing == candidate)) then none else rest

unfoldable pub single_bootstrap_host : List Str → Option Str
single_bootstrap_host peers = bootstrap_host_from none peers

abbrev is_single : BootstrapTopology → Bool
is_single BootstrapTopology.single_bootstrap = true
is_single BootstrapTopology.multi_bootstrap = false

unfoldable pub is_single_bootstrap_topology : P2pNetworkConfig → Bool
is_single_bootstrap_topology config =
    is_single config.topology && is_some (single_bootstrap_host config.bootstrap_peers)

pub record P2pRuntimeStatus : Type 0 where
  pub network_id : Str
  pub compatibility : ProtocolCompatibility
  pub data_plane : P2pDataPlane
  pub topology : BootstrapTopology
  pub edge_fallback : EdgeFallbackMode
  pub bootstrap_peers : List Str
  pub fabric_peers : ℕ
  pub subscribed_feeds : ℕ
  pub publishing : Bool

-- `P2pNetworkConfig::status`, of a package version
unfoldable pub config_status : Str → P2pNetworkConfig → P2pRuntimeStatus
config_status version config = record {
  network_id = config.network_id;
  compatibility = current version;
  data_plane = config.data_plane;
  topology = config.topology;
  edge_fallback = config.edge_fallback;
  bootstrap_peers = config.bootstrap_peers;
  fabric_peers = 0;
  subscribed_feeds = 0;
  publishing = false;
}

unfoldable pub projection_label : P2pRuntimeStatus → Str
projection_label status = elim status.data_plane [
  | P2pDataPlane.edge_snapshot_fallback ↦ chars "edge snapshot mode"
  | P2pDataPlane.native_libp2p ↦ chars "native p2p live"
  | P2pDataPlane.browser_libp2p ↦ chars "browser p2p live"
]

unfoldable pub transport_capability : P2pRuntimeStatus → P2pDataPlaneCapability
transport_capability status = capability status.data_plane status.edge_fallback
