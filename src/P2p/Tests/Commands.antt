-- ===== src/P2p/Tests/Commands.antt =====
-- Runs of the commands.
use agent_feed.P2p.Invariant.{IsTrusted}
use agent_feed.P2p.Messages.{P2pCommand, P2pPeerSpec, new_spec}
use agent_feed.P2p.Plane.{EdgeFallbackMode, mainnet_single_bootstrap}
use agent_feed.P2p.Runtime.{P2pRuntime, emit, handle, new_runtime}
use agent_feed.P2p.Runtime.Invariant.{Reach, Reach-IsTrusted}
use agent_feed.P2p.Runtime.Rejoin.{join_fabric-fails_again}
use agent_feed.P2p.Runtime.Reports.{Reports, handle-Reports}
use agent_feed.P2p.Tests.{
  compute_p2p, profile_of, test_capsule_json, test_content_json, test_entry_json, test_hashes,
  version,
}
use agent_feed.P2p.Types.{P2pError, org_ord, role_ord, team_ord}
use agent_feed.Prelude.{
  [], false, get, list_ord, nat_ord, none, option_ord, pair_ord, refl, some, ◌≡◌,
}
use agent_feed.Proto.{FeedVisibility}
use agent_feed.Proto.Compatibility.{current, is_compatible_with, with_model_version}
use agent_feed.Text.{chars}

abbrev runtime : P2pRuntime
runtime = new_runtime version (mainnet_single_bootstrap EdgeFallbackMode.auto)

abbrev run_command : P2pCommand → P2pRuntime → P2pRuntime
run_command command before = (handle version (chars "json") command before).0

abbrev joined : P2pRuntime
joined = run_command (P2pCommand.announce_feed (chars "a") (profile_of FeedVisibility.public)) (
    run_command (P2pCommand.join_fabric (new_spec version (chars "net") (chars "a") []) []) runtime)

joined-Reach : Reach version (chars "json") joined
joined-Reach =
    Reach.command (Reach.command (Reach.start (mainnet_single_bootstrap EdgeFallbackMode.auto)) _) _

Reach-IsTrusted_example : IsTrusted version joined.network
Reach-IsTrusted_example = Reach-IsTrusted version (chars "json") joined-Reach

handle-Reports_example :
    Reports
      (chars "json")
      joined
      (handle version (chars "json") (P2pCommand.drain_inbox (chars "a")) joined)
handle-Reports_example =
    handle-Reports version (chars "json") (P2pCommand.drain_inbox (chars "a")) joined

abbrev old_spec : P2pPeerSpec
old_spec = record {
  network_id = chars "net";
  peer_id = chars "old";
  principal = [];
  compatibility = with_model_version (current version) 2 2;
}

old_outdated : is_compatible_with (current version) old_spec.compatibility ≡ false
unfolding compute_p2p with_model_version
old_outdated = refl

runtime_up : runtime.is_shutdown ≡ false
unfolding new_runtime mainnet_single_bootstrap emit
runtime_up = refl

runtime_fresh : get runtime.peers (chars "old") ≡ none
unfolding new_runtime mainnet_single_bootstrap emit get
runtime_fresh = refl

new_spec_old : (new_spec version (chars "net") (chars "old") []).peer_id ≡ old_spec.peer_id
unfolding new_spec
new_spec_old = refl

join_fabric-fails_again_example :
    let next = P2pCommand.join_fabric (new_spec version (chars "net") (chars "old") []) [] in
    (error : P2pError) × ((handle version
        (chars "json")
        next
        (run_command (P2pCommand.join_fabric old_spec []) runtime)).1
      ≡ some error)
join_fabric-fails_again_example =
    join_fabric-fails_again version (chars "json") runtime old_spec
      (new_spec version (chars "net") (chars "old") []) [] [] runtime_up runtime_fresh old_outdated
      new_spec_old
