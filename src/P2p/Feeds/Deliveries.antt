-- ===== src/P2p/Feeds/Deliveries.antt =====
-- Publishing a capsule: who may, and into which inboxes it goes.
use mathlib.Core.List.{append-nil, append_assoc}
use mathlib.Core.Path.{subst}
use agent_feed.P2p.Access.{can_receive_peer}
use agent_feed.P2p.Feeds.{capsule_is_duplicate, deliver}
use agent_feed.P2p.Types.{
  Capsules, NetworkState, org_eq, org_ord, role_eq, role_ord, team_eq, team_ord,
}
use agent_feed.Prelude.{
  ==_iff, Bool, Bool-cases, BtreeMap, List, [], ap, arith, false, filter, get, get-update, if-cases,
  if◌then◌else◌, inl, inr, is_eq, length, list_cmp, list_cmp_eq_iff, list_eq, list_ord, map, nat_eq,
  nat_ord, not, option_eq, option_ord, pair_eq, pair_ord, refl, sym, true, unwrap_or, update, ℕ,
  ◌++◌, ◌+◌, ◌==◌, ◌∷◌, ◌≡◌,
}
use agent_feed.Proto.{FeedVisibility}
use agent_feed.Proto.Capsule.{StoryCapsule}
use agent_feed.Proto.Signing.{Signed}
use agent_feed.Text.{Str}

-- The inbox of a peer, empty where none is open.
abbrev pub inbox_of : NetworkState → Str → Capsules
inbox_of n peer_id = unwrap_or (get n.inboxes peer_id) []

-- What the queue of the runtime gains: the capsule, once for each listing of the peer.
abbrev pub copies : Str → Signed StoryCapsule → List Str → Capsules
copies peer_id signed receivers = map (λ _. signed) (filter (λ p. p == peer_id) receivers)

-- The subscribers that a capsule reaches.
unfoldable pub receivers : NetworkState → FeedVisibility → Signed StoryCapsule → List Str
receivers n visibility signed =
    let feed_id = signed.value.feed_id in
    if capsule_is_duplicate (unwrap_or (get n.history feed_id) []) signed.value
    then []
    else filter (λ peer_id. can_receive_peer n feed_id peer_id visibility)
        (unwrap_or (get n.subscriptions feed_id) [])

inbox-push :
    (n : NetworkState) (peer_id other : Str) (signed : Signed StoryCapsule)
    → unwrap_or (get (update n.inboxes peer_id [] (λ inbox. inbox ++ signed ∷ [])) other) []
      ≡ inbox_of n other ++ (if peer_id == other then signed ∷ [] else [])
inbox-push n peer_id other signed =
    let found = get-update n.inboxes peer_id [] (λ inbox. inbox ++ signed ∷ []) other in
    elim (Bool-cases (is_eq (list_cmp other peer_id))) [
      | inl same ↦
          let name : other ≡ peer_id = ground (arith, list_cmp_eq_iff other peer_id) in
          let test : (peer_id == other) ≡ true = (==_iff peer_id other).1 (sym name) in
          rw (found, same, test) (ap (λ p. inbox_of n p ++ signed ∷ []) (sym name))
      | inr apart ↦
          let test : (peer_id == other) ≡ false =
            ground (arith, list_cmp_eq_iff other peer_id, ==_iff peer_id other) in
          rw (found, apart, test) (sym (append-nil (inbox_of n other)))
    ]

-- What the loop over the subscribers does to one inbox, and what it counts.
pub record IsDelivered (before after : NetworkState) (signed : Signed StoryCapsule)
    (reached : List Str) (delivered count : ℕ) : Type 0 where
  pub inboxes :
      (peer_id : Str)
      → inbox_of after peer_id ≡ inbox_of before peer_id ++ copies peer_id signed reached
  pub counted : count ≡ delivered + length reached
  pub kept : after.history ≡ before.history
  pub listed : after.feeds ≡ before.feeds

copies_cons :
    (peer_id other : Str) (signed : Signed StoryCapsule) (reached : List Str)
    → copies other signed (peer_id ∷ reached)
      ≡ (if peer_id == other then signed ∷ [] else []) ++ copies other signed reached
copies_cons peer_id other signed reached = elim (Bool-cases (peer_id == other)) [
  | inl same ↦ rw same refl
  | inr apart ↦ rw apart refl
]

module _ (visibility : FeedVisibility) (signed : Signed StoryCapsule) where
  abbrev pub reaches : NetworkState → Str → Bool
  reaches n peer_id = can_receive_peer n signed.value.feed_id peer_id visibility

  -- A delivery changes no one's right to receive.
  reaches-push :
      (n : NetworkState) (inboxes : BtreeMap Str Capsules)
      → reaches (record n { inboxes = inboxes }) ≡ reaches n
  unfolding can_receive_peer
  reaches-push n inboxes = refl

  pub reaches-history :
      (n : NetworkState) (history : BtreeMap Str Capsules)
      → reaches (record n { history = history }) ≡ reaches n
  unfolding can_receive_peer
  reaches-history n history = refl

  abbrev pub delivery : List Str → NetworkState × ℕ → NetworkState × ℕ
  delivery = deliver signed.value.feed_id visibility signed

  pub deliver-IsDelivered :
      (subscribers : List Str) (n : NetworkState) (delivered : ℕ)
      → let r = delivery subscribers (n, delivered) in
        IsDelivered n r.0 signed (filter (reaches n) subscribers) delivered r.1
  unfolding deliver
  deliver-IsDelivered [] n delivered = record {
    inboxes = λ other. sym (append-nil (inbox_of n other));
    counted = omega arith;
    kept = refl;
    listed = refl;
  }
  deliver-IsDelivered (peer_id ∷ peers) n delivered =
      if-cases
        (λ (r : NetworkState × ℕ).
          IsDelivered n (delivery peers r).0 signed (filter (reaches n) (peer_id ∷ peers)) delivered
            (delivery peers r).1)
        (not (reaches n peer_id)) _ _
        (λ refused.
          let test : reaches n peer_id ≡ false = ground arith in
          let rest = deliver-IsDelivered peers n delivered in
          rw test (record {
            inboxes = rest.inboxes;
            counted = rest.counted;
            kept = rest.kept;
            listed = rest.listed;
          }))
        (λ allowed.
          let test : reaches n peer_id ≡ true = ground arith in
          let pushed : NetworkState = record n {
            inboxes = update n.inboxes peer_id [] (λ inbox. inbox ++ signed ∷ []);
          } in
          let same : reaches pushed ≡ reaches n = reaches-push n pushed.inboxes in
          let rest =
            subst
              (λ reach.
                IsDelivered pushed (delivery peers (pushed, delivered + 1)).0 signed
                  (filter reach peers) (delivered + 1) (delivery peers (pushed, delivered + 1)).1)
              same (deliver-IsDelivered peers pushed (delivered + 1)) in
          rw test (record {
            inboxes = λ other. cc (
              rest.inboxes other,
              inbox-push n peer_id other signed,
              copies_cons peer_id other signed (filter (reaches n) peers),
              append_assoc (inbox_of n other) (if peer_id == other then signed ∷ [] else [])
                  (copies other signed (filter (reaches n) peers)),
            );
            counted = omega (arith, rest.counted);
            kept = rest.kept;
            listed = rest.listed;
          }))
