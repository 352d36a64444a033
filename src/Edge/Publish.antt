-- ===== src/Edge/Publish.antt =====
-- `network_publish_verified`: the capsules of a session go into the snapshot.
pub mod Laws
use agent_feed.Core.{PrivacyClass, Time}
use agent_feed.Directory.Store.{ensure_current_compatibility, ensure_network_id}
use agent_feed.Directory.Types.{FeedAccessPolicy}
use agent_feed.Directory.Views.{RemoteHeadlineView, view_from_publisher}
use agent_feed.Edge.Access.{EdgeRefusal, NetworkPublishRequest, publish_access_policy}
use agent_feed.Edge.Sessions.{VerifiedSession}
use agent_feed.Edge.Snapshot.{SnapshotStore, public_feeds, public_headlines, push, upsert_feed}
use agent_feed.P2p.Messages.{directory_error_text}
use agent_feed.Prelude.{
  Bool, List, Option, [], and_then, false, if◌then◌else◌, inl, inr, is_empty, length, list_eq, ltb,
  map_option, map_or, nat_eq, none, not, option_eq, pair_eq, result_then, some, true, unwrap_or, ℕ,
  ◌&&◌, ◌++◌, ◌+◌, ◌==◌, ◌∷◌, ◌⊎◌,
}
use agent_feed.Proto.{FeedVisibility, visibility_as_str}
use agent_feed.Proto.Capsule.{
  CapsuleContent, PublisherIdentity, StoryCapsule, display_label, verify_capsule_with_secret,
}
use agent_feed.Proto.Compatibility.{ProtocolCompatibility}
use agent_feed.Proto.Signing.{Hashes, Serialize, Signed}
use agent_feed.Summarize.Quality.{Regex}
use agent_feed.Text.{Str, chars, decimal, trim}

abbrev max_publish_capsules : ℕ
max_publish_capsules = 16

abbrev pub is_redacted : PrivacyClass → Bool
is_redacted PrivacyClass.redacted = true
is_redacted _ = false

-- The response of an accepted request; its compatibility is the current one.
pub record NetworkPublishResponse : Type 0 where
  pub accepted : ℕ
  pub feeds : ℕ
  pub headlines : ℕ

abbrev pub refusal : ℕ → Str → EdgeRefusal
refusal status message = record { status = status; message = message }

-- A text that is given and not blank.
unfoldable pub given_text : Option Str → Option Str
given_text value =
    and_then (map_option trim value) (λ text. if is_empty text then none else some text)

unfoldable pub feed_name_of : NetworkPublishRequest → Str
feed_name_of request = unwrap_or (given_text request.feed_name) (chars "workstation")

unfoldable pub feed_id_of : NetworkPublishRequest → Str
feed_id_of request = unwrap_or (given_text request.feed_id) (chars "local:" ++ feed_name_of request)

abbrev pub is_publisher : PublisherIdentity → VerifiedSession → Bool
is_publisher publisher session =
    publisher.github_user_id == some session.github_user_id && publisher.verified

unfoldable pub view_of_capsule :
    Str
    → FeedVisibility
    → FeedAccessPolicy
    → VerifiedSession
    → StoryCapsule
    → PublisherIdentity
    → RemoteHeadlineView
view_of_capsule feed_name visibility access session capsule publisher = record {
  feed_id = capsule.feed_id;
  feed_label = feed_name;
  compatibility = capsule.compatibility;
  visibility = visibility_as_str visibility;
  access = access;
  created_at = some capsule.created_at;
  publisher_github_user_id = publisher.github_user_id;
  publisher_login =
      unwrap_or publisher.github_login (chars "github:" ++ decimal session.github_user_id);
  publisher_display_name = publisher.display_name;
  publisher_avatar = publisher.avatar;
  verified = true;
  headline = capsule.headline;
  deck = capsule.deck;
  lower_third = display_label publisher ++ chars " / " ++ feed_name;
  chips = capsule.chips;
  score = capsule.score;
  image = capsule.image;
}

-- A store and the answer that goes with it.
abbrev pub Published : Type 0 → Type 0
Published A = SnapshotStore × (EdgeRefusal ⊎ A)

module _ ⦃r : Regex⦄ (now : Time) where
  -- The loop over the capsules; what was pushed before a refusal stays.
  unfoldable pub push_capsules :
      (Signed StoryCapsule → EdgeRefusal ⊎ RemoteHeadlineView)
      → List (Signed StoryCapsule)
      → SnapshotStore
      → ℕ
      → Published ℕ
  push_capsules viewed [] store accepted = (store, inr accepted)
  push_capsules viewed (signed ∷ capsules) store accepted = elim (viewed signed) [
    | inl e ↦ (store, inl e)
    | inr view ↦
        let (after, is_new) = push view now store in
        push_capsules viewed capsules after (if is_new then accepted + 1 else accepted)
  ]

  unfoldable pub response_of : Published ℕ → Published NetworkPublishResponse
  response_of (store, inl e) = (store, inl e)
  response_of (store, inr accepted) = (
    store,
    inr (record {
      accepted = accepted;
      feeds = length (public_feeds now store);
      headlines = length (public_headlines store now);
    }),
  )

module _ ⦃h : Hashes⦄ ⦃c : Serialize CapsuleContent⦄ ⦃s : Serialize StoryCapsule⦄
    (version json_error : Str) where
  -- The checks of a capsule, in their order, and its view.
  unfoldable pub checked_view :
      Str
      → FeedVisibility
      → FeedAccessPolicy
      → VerifiedSession
      → Str
      → Signed StoryCapsule
      → EdgeRefusal ⊎ RemoteHeadlineView
  checked_view feed_name visibility access session token signed =
      let capsule = signed.value in
      map_or (ensure_current_compatibility version capsule.compatibility)
        (if not (unwrap_or (verify_capsule_with_secret version signed token) false)
          then inl (refusal 400 (chars "invalid capsule signature"))
          else if not (is_redacted capsule.privacy_class)
          then inl (refusal 400 (chars "capsule must be redacted"))
          else map_or capsule.publisher (inl (refusal 400 (chars "verified publisher is required")))
              λ publisher.
                if not (is_publisher publisher session)
                then inl (refusal 403 (chars "publisher identity mismatch"))
                else inr (view_of_capsule feed_name visibility access session capsule publisher))
        (λ e. inl (refusal 426 (directory_error_text json_error e)))

  -- The checks of a request before its policy.
  unfoldable pub request_error : Str → NetworkPublishRequest → EdgeRefusal ⊎ ProtocolCompatibility
  request_error network_id request =
      map_or request.network_id
        (inl (refusal 400 (chars "network_id is required; update your peer to the latest version")))
        λ asked.
          map_or (ensure_network_id network_id asked)
            (map_or request.compatibility
              (inl (
                refusal 426 (
                  chars "compatibility metadata is required; "
                  ++ chars "update your peer to the latest version")))
              λ compatibility.
                map_or (ensure_current_compatibility version compatibility) (inr compatibility)
                  (λ e. inl (refusal 426 (directory_error_text json_error e))))
            (λ e. inl (refusal 400 (directory_error_text json_error e)))

module _ ⦃h : Hashes⦄ ⦃c : Serialize CapsuleContent⦄ ⦃s : Serialize StoryCapsule⦄ ⦃r : Regex⦄
    (version json_error : Str) (now : Time) where
  unfoldable pub publish_under :
      NetworkPublishRequest
      → VerifiedSession
      → Str
      → ProtocolCompatibility
      → FeedVisibility × FeedAccessPolicy
      → SnapshotStore
      → Published NetworkPublishResponse
  publish_under request session token compatibility policy store =
      let feed_name = feed_name_of request in
      let announced = map_or request.publisher store λ publisher.
        upsert_feed
          (view_from_publisher (feed_id_of request) feed_name compatibility policy.0 policy.1
            publisher now)
          now store in
      if map_or request.publisher false (λ publisher. not (is_publisher publisher session))
      then (store, inl (refusal 403 (chars "publisher identity mismatch")))
      else if is_empty request.capsules
      then response_of now (announced, inr 0)
      else if ltb max_publish_capsules (length request.capsules)
      then (announced, inl (refusal 413 (chars "publish batch exceeds 16 capsules")))
      else response_of now (
          push_capsules now
            (checked_view version json_error feed_name policy.0 policy.1 session token)
            request.capsules announced 0)

  unfoldable pub network_publish_verified :
      Str
      → VerifiedSession
      → Str
      → NetworkPublishRequest
      → SnapshotStore
      → Published NetworkPublishResponse
  network_publish_verified network_id session token request store =
      let accepted : EdgeRefusal ⊎ (ProtocolCompatibility × (FeedVisibility × FeedAccessPolicy)) =
        result_then (request_error version json_error network_id request) λ compatibility.
          result_then (publish_access_policy request session)
            λ policy. inr (compatibility, policy) in
      elim accepted [
        | inl e ↦ (store, inl e)
        | inr (compatibility, policy) ↦
            publish_under request session token compatibility policy store
      ]
