-- ===== src/Edge/Publish/Laws.antt =====
-- Whose headlines a publication puts into the snapshot.
use agent_feed.Core.{Time}
use agent_feed.Directory.Store.{ensure_current_compatibility}
use agent_feed.Directory.Types.{FeedAccessPolicy}
use agent_feed.Directory.Views.{
  RemoteHeadlineView, ResolveFeedView, view_from_headline, view_from_publisher,
}
use agent_feed.Edge.Access.{
  EdgeRefusal, NetworkPublishRequest, publish_access_policy, session_can_access_policy,
}
use agent_feed.Edge.Access.Laws.{IsGranted, publish_access_policy-grants}
use agent_feed.Edge.Publish.{
  NetworkPublishResponse, Published, checked_view, feed_id_of, feed_name_of, is_publisher,
  is_redacted, network_publish_verified, publish_under, push_capsules, request_error, response_of,
  view_of_capsule,
}
use agent_feed.Edge.Sessions.{VerifiedSession}
use agent_feed.Edge.Snapshot.{
  SnapshotStore, headline_is_within_retention, persist_snapshot, pop_to, push, same_headline,
  upsert_feed,
}
use agent_feed.Prelude.{
  ==_iff, All, All-append, All-implies, Bool, Gives, Gives-cases, Gives-implies, List, [],
  and-eq-true, any, arith, false, filter, if-cases, inl, inr, is_empty, length, list_eq, ltb,
  map_or, map_or-cases, nat_eq, not, option_eq, pair_eq, refl, result_then-Gives, result_then-any,
  some, true, unwrap_or, ℕ, ◌==◌, ◌∷◌, ◌≡◌, ◌⊎◌,
}
use agent_feed.Proto.{FeedVisibility}
use agent_feed.Proto.Capsule.{
  CapsuleContent, PublisherIdentity, StoryCapsule, verify_capsule_with_secret,
}
use agent_feed.Proto.Compatibility.{ProtocolCompatibility}
use agent_feed.Proto.Signing.{Hashes, Serialize, Signed}
use agent_feed.Summarize.Quality.{Regex}
use agent_feed.Text.{Str}

All-filter-keeps :
    {A : Type 0} (P : A → Type 0) (test : A → Bool) (items : List A)
    → All P items
    → All P (filter test items)
All-filter-keeps P test [] h = tt
All-filter-keeps P test (a ∷ items) h =
    let rest = All-filter-keeps P test items h.1 in
    if-cases (All P) (test a) (a ∷ filter test items) (filter test items) (λ passed. (h.0, rest))
      (λ failed. rest)

All-pop_to :
    {A : Type 0} (P : A → Type 0) (limit : ℕ) (views : List A)
    → All P views
    → All P (pop_to limit views)
unfolding pop_to
All-pop_to P limit [] h = h
All-pop_to P limit (view ∷ views) h =
    if-cases (All P) (ltb limit (length (view ∷ views))) (pop_to limit views) (view ∷ views)
      (λ over. All-pop_to P limit views h.1) (λ within. h)

module _ ⦃r : Regex⦄ (P : RemoteHeadlineView → Type 0) (now : Time) where
  abbrev Keeps : SnapshotStore → Type 0
  Keeps store = All P store.headlines

  upsert_feed-Keeps :
      (feed : ResolveFeedView) (store : SnapshotStore)
      → Keeps store
      → Keeps (upsert_feed feed now store)
  unfolding upsert_feed persist_snapshot
  upsert_feed-Keeps feed store kept =
      if-cases Keeps (not store.has_path) _ _ (λ none_there. kept) (λ there. kept)

  push-Keeps :
      (view : RemoteHeadlineView) (store : SnapshotStore)
      → P view
      → Keeps store
      → Keeps (push view now store).0
  unfolding push persist_snapshot
  push-Keeps view store p kept =
      let recent = filter (λ existing. headline_is_within_retention existing now) store.headlines in
      let still =
        All-filter-keeps P (λ e. headline_is_within_retention e now) store.headlines kept in
      if-cases (λ (pushed : SnapshotStore × Bool). Keeps pushed.0)
        (not (headline_is_within_retention view now)) _ _ (λ stale. kept)
        λ fresh.
          if-cases (λ (pushed : SnapshotStore × Bool). Keeps pushed.0)
            (any (same_headline view) recent) _ _ (λ repeated. still)
            λ new.
              let joined = All-pop_to P 48 _ (All-append P recent (view ∷ []) still (p, tt)) in
              if-cases Keeps (not (upsert_feed (view_from_headline view now) now store).has_path) _
                _ (λ none_there. joined) (λ there. joined)

  push_capsules-Keeps :
      (viewed : Signed StoryCapsule → EdgeRefusal ⊎ RemoteHeadlineView)
      (capsules : List (Signed StoryCapsule)) (store : SnapshotStore) (accepted : ℕ)
      → ((signed : Signed StoryCapsule) → Gives P (viewed signed))
      → Keeps store
      → Keeps (push_capsules now viewed capsules store accepted).0
  unfolding push_capsules
  push_capsules-Keeps viewed [] store accepted own kept = kept
  push_capsules-Keeps viewed (signed ∷ capsules) store accepted own kept =
      Gives-cases P (λ (published : Published ℕ). Keeps published.0) (viewed signed) _ _
        (own signed) (λ e. kept)
        λ view p.
          push_capsules-Keeps viewed capsules (push view now store).0 _ own
            (push-Keeps view store p kept)

  response_of-Keeps :
      (published : Published ℕ) → Keeps published.0 → Keeps (response_of now published).0
  unfolding response_of
  response_of-Keeps (store, inl e) kept = kept
  response_of-Keeps (store, inr accepted) kept = kept

-- A headline of the session's own user, verified, under a policy that lets the session in.
pub record IsOwn (session : VerifiedSession) (headline : RemoteHeadlineView) : Type 0 where
  pub publisher : headline.publisher_github_user_id ≡ some session.github_user_id
  pub verified : headline.verified ≡ true
  pub visible : session_can_access_policy (some session) headline.visibility headline.access ≡ true

module _ ⦃h : Hashes⦄ ⦃c : Serialize CapsuleContent⦄ ⦃s : Serialize StoryCapsule⦄ ⦃r : Regex⦄
    (version json_error : Str) (now : Time) (session : VerifiedSession) (token : Str) where
  view_of_capsule-IsOwn :
      (feed_name : Str) (visibility : FeedVisibility) (access : FeedAccessPolicy)
      (capsule : StoryCapsule) (publisher : PublisherIdentity)
      → IsGranted session visibility access
      → is_publisher publisher session ≡ true
      → IsOwn session (view_of_capsule feed_name visibility access session capsule publisher)
  unfolding view_of_capsule
  view_of_capsule-IsOwn feed_name visibility access capsule publisher granted same =
      let tests =
        and-eq-true (publisher.github_user_id == some session.github_user_id) publisher.verified
          same in
      record {
        publisher = (==_iff publisher.github_user_id (some session.github_user_id)).0 tests.0;
        verified = refl;
        visible = granted.own;
      }

  checked_view-IsOwn :
      (feed_name : Str) (visibility : FeedVisibility) (access : FeedAccessPolicy)
      (signed : Signed StoryCapsule)
      → IsGranted session visibility access
      → Gives
          (IsOwn session)
          (checked_view version json_error feed_name visibility access session token signed)
  unfolding checked_view
  checked_view-IsOwn feed_name visibility access signed granted =
      let Own = Gives {E = EdgeRefusal} (IsOwn session) in
      map_or-cases Own (ensure_current_compatibility version signed.value.compatibility) _ _
        (λ compatible.
          if-cases Own (not (unwrap_or (verify_capsule_with_secret version signed token) false)) _ _
            (λ forged. tt)
            λ verified.
              if-cases Own (not (is_redacted signed.value.privacy_class)) _ _ (λ open_text. tt)
                λ redacted.
                  map_or-cases Own signed.value.publisher _ _ (λ absent. tt)
                    λ publisher found.
                      if-cases Own (not (is_publisher publisher session)) _ _ (λ stranger. tt)
                        λ same.
                          view_of_capsule-IsOwn feed_name visibility access signed.value publisher
                            granted (ground arith))
        (λ e outdated. tt)

  module _ (P : RemoteHeadlineView → Type 0) where
    abbrev OldOrOwn : RemoteHeadlineView → Type 0
    OldOrOwn headline = P headline ⊎ IsOwn session headline

    publish_under-Keeps :
        (request : NetworkPublishRequest) (compatibility : ProtocolCompatibility)
        (policy : FeedVisibility × FeedAccessPolicy) (store : SnapshotStore)
        → IsGranted session policy.0 policy.1
        → All OldOrOwn store.headlines
        → All OldOrOwn
            (publish_under version json_error now request session token compatibility policy
              store).0.headlines
    unfolding publish_under
    publish_under-Keeps request compatibility policy store granted kept =
        let Kept =
          λ (published : Published NetworkPublishResponse). All OldOrOwn published.0.headlines in
        let view_of = λ (publisher : PublisherIdentity).
          view_from_publisher (feed_id_of request) (feed_name_of request) compatibility policy.0
            policy.1 publisher now in
        let announced =
          map_or-cases (Keeps OldOrOwn now) request.publisher store _ (λ absent. kept)
            (λ publisher found. upsert_feed-Keeps OldOrOwn now (view_of publisher) store kept) in
        if-cases Kept
          (map_or request.publisher false (λ publisher. not (is_publisher publisher session))) _ _
          (λ stranger. kept)
          λ own.
            if-cases Kept (is_empty request.capsules) _ _
              (λ presence. response_of-Keeps OldOrOwn now _ announced)
              λ capsules.
                if-cases Kept (ltb 16 (length request.capsules)) _ _ (λ many. announced)
                  λ few. response_of-Keeps OldOrOwn now _ (
                    push_capsules-Keeps OldOrOwn now _ request.capsules _ 0
                      (λ signed.
                        Gives-implies (IsOwn session) OldOrOwn
                          (checked_view version json_error (feed_name_of request) policy.0 policy.1
                            session token signed)
                          (checked_view-IsOwn (feed_name_of request) policy.0 policy.1 signed
                            granted)
                          (λ view own_view. inr own_view))
                      announced)

    -- Whether a publication of a session succeeds or fails, every headline of the snapshot after it
    -- is one that was there before, or is of the user of the session, is marked as verified, and
    -- has an access policy that lets the session in.
    pub network_publish_verified-IsOwn :
        (network_id : Str) (request : NetworkPublishRequest) (store : SnapshotStore)
        → All P store.headlines
        → All OldOrOwn
            (network_publish_verified version json_error now network_id session token request
              store).0.headlines
    unfolding network_publish_verified
    network_publish_verified-IsOwn network_id request store old =
        let Granted = λ (a : ProtocolCompatibility × (FeedVisibility × FeedAccessPolicy)).
          IsGranted session a.1.0 a.1.1 in
        let kept = All-implies P OldOrOwn store.headlines (λ headline p. inl p) old in
        Gives-cases Granted
          (λ (published : Published NetworkPublishResponse). All OldOrOwn published.0.headlines) _ _
          _
          (result_then-any Granted (request_error version json_error network_id request) _
            λ compatibility.
              result_then-Gives
                (λ (p : FeedVisibility × FeedAccessPolicy). IsGranted session p.0 p.1) Granted
                (publish_access_policy request session) _
                (publish_access_policy-grants request session) (λ policy granted. granted))
          (λ e. kept) (λ a granted. publish_under-Keeps request a.0 a.1 store granted kept)
