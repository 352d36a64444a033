-- ===== src/P2p/Tests/Publishing.antt =====
-- Runs of a publication and of a snapshot.
use agent_feed.P2p.Fabric.{announce_feed, join_fabric}
use agent_feed.P2p.Feeds.{feed_snapshot, follow, latest_capsules, publish_capsule}
use agent_feed.P2p.Feeds.Deliveries.{copies, inbox_of, receivers}
use agent_feed.P2p.Feeds.Publishing.{
  IsPublishable, publish_capsule-accepts_iff, publish_capsule-delivers,
}
use agent_feed.P2p.Feeds.Reading.{IsReadable, feed_snapshot-IsReadable}
use agent_feed.P2p.Feeds.Repeats.{publish_capsule_again}
use agent_feed.P2p.Invariant.{IsTrusted}
use agent_feed.P2p.Invariant.Methods.{
  announce_feed-IsTrusted, follow-IsTrusted, join_fabric-IsTrusted, publish_capsule-IsTrusted,
}
use agent_feed.P2p.Invariant.Parts.{default_network-IsTrusted}
use agent_feed.P2p.Tests.{
  alice, bob, capsule, compute_p2p, profile_of, signed, test_capsule_json, test_content_json,
  test_entry_json, test_hashes, version,
}
use agent_feed.P2p.Types.{NetworkState, default_network, org_ord, role_ord, team_ord}
use agent_feed.Prelude.{
  [], arith, false, get, inr, is_empty, length, list_ord, nat_ord, option_ord, pair_ord, refl, some,
  true, unwrap_or, ℕ, ◌++◌, ◌<◌, ◌↔◌, ◌∷◌, ◌≡◌, ◌≤◌,
}
use agent_feed.Proto.{FeedVisibility}
use agent_feed.Proto.Capsule.{sign_capsule, verify_capsule}
use agent_feed.Proto.Capsule.Laws.{verify_capsule-sign_capsule}
use agent_feed.Proto.Compatibility.{current, is_compatible_with}
use agent_feed.Proto.Profile.{FeedProfile, new_profile}
use agent_feed.Summarize.Similarity.{normalize_text}
use agent_feed.Text.{Str, chars}

-- Alice announces a public feed, and Bob follows it.
abbrev followed : NetworkState
followed =
    (follow version bob (chars "f")
      (announce_feed version alice (profile_of FeedVisibility.public)
        (join_fabric version alice [] default_network).0).0).0

delivered_once : (publish_capsule version alice signed followed).1 ≡ inr 1
unfolding compute_p2p
delivered_once = refl

publishable : IsPublishable version followed alice signed (profile_of FeedVisibility.public)
unfolding compute_p2p
publishable = record { compatible = refl; verified = refl; found = refl; now = refl; own = refl }

publish_capsule-accepts_iff_example :
    ((count : ℕ) × ((publish_capsule version alice signed followed).1 ≡ inr count))
    ↔ ((profile : FeedProfile) × IsPublishable version followed alice signed profile)
publish_capsule-accepts_iff_example = publish_capsule-accepts_iff version followed alice signed

publish_capsule-delivers_example :
    let r = publish_capsule version alice signed followed in
    let reached = receivers followed FeedVisibility.public signed in
    (r.1 ≡ inr (length reached))
    × ((peer_id : Str)
        → inbox_of r.0 peer_id ≡ inbox_of followed peer_id ++ copies peer_id signed reached)
unfolding new_profile
publish_capsule-delivers_example =
    publish_capsule-delivers version followed alice signed (profile_of FeedVisibility.public)
      publishable

worded : is_empty (normalize_text (chars "ab")) ≡ false
unfolding compute_p2p
worded = refl

score_of_signed : signed.value.score < 90
unfolding compute_p2p
score_of_signed = omega arith

worded_signed : is_empty (normalize_text signed.value.headline) ≡ false
unfolding compute_p2p
worded_signed = refl

room : 1 ≤ followed.history_capacity
unfolding compute_p2p
room = omega arith

publish_capsule_again_example :
    let once = (publish_capsule version alice signed followed).0 in
    let twice = publish_capsule version alice signed once in
    (twice.1 ≡ inr 0) × ((peer_id : Str) → inbox_of twice.0 peer_id ≡ inbox_of once peer_id)
publish_capsule_again_example =
    publish_capsule_again version followed alice signed (profile_of FeedVisibility.public)
      publishable room score_of_signed worded_signed

-- The network after the capsule was published.
abbrev told : NetworkState
told = (publish_capsule version alice signed followed).0

snapshot : (feed_snapshot version bob (chars "f") 5 told).1 ≡ inr (signed ∷ [])
unfolding compute_p2p
snapshot = refl

feed_snapshot-IsReadable_example :
    (profile : FeedProfile) × IsReadable version told bob (chars "f") profile
    × (signed ∷ [] ≡ latest_capsules 5 (unwrap_or (get told.history (chars "f")) []))
feed_snapshot-IsReadable_example =
    feed_snapshot-IsReadable version told bob (chars "f") 5 (signed ∷ []) snapshot

told-IsTrusted : IsTrusted version told
told-IsTrusted = publish_capsule-IsTrusted version alice signed followed (
    follow-IsTrusted version bob (chars "f") _ (
      announce_feed-IsTrusted version alice (profile_of FeedVisibility.public) _ (
        join_fabric-IsTrusted version alice [] default_network
          (default_network-IsTrusted version))))

bob_compatible : is_compatible_with (current version) bob.compatibility ≡ true
unfolding compute_p2p
bob_compatible = refl

signed_made : sign_capsule capsule (chars "k") ≡ some signed
unfolding compute_p2p
signed_made = refl

capsule_compatible : is_compatible_with (current version) capsule.compatibility ≡ true
unfolding compute_p2p
capsule_compatible = refl

verify_capsule-sign_capsule_example : verify_capsule version signed ≡ some true
verify_capsule-sign_capsule_example =
    verify_capsule-sign_capsule version capsule (chars "k") signed capsule_compatible signed_made
