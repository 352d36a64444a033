-- ===== src/Edge/Snapshot/Laws.antt =====
-- What the snapshot shows to a session.
use agent_feed.Core.{Time}
use agent_feed.Directory.Types.{RemoteUserRoute}
use agent_feed.Directory.Views.{RemoteHeadlineView, ResolveFeedView, view_from_headline}
use agent_feed.Edge.Access.{session_can_access_policy}
use agent_feed.Edge.Sessions.{VerifiedSession}
use agent_feed.Edge.Snapshot.{
  SnapshotStore, feed_views_from_headlines, feeds_for_github_user, headlines_for_github_user,
  merge_resolve_feed_views,
}
use agent_feed.Edge.Visibility.{
  feed_is_visible_for_session, feed_matches_github_route_with_access,
  headline_is_visible_for_session, headline_matches_github_route_with_access,
}
use agent_feed.Prelude.{
  All, All-append, Bool, List, Option, [], any, arith, false, filter, if-cases, if◌then◌else◌,
  list_eq, map, nat_eq, option_eq, pair_eq, true, ℕ, ◌++◌, ◌==◌, ◌∷◌, ◌≡◌,
}
use agent_feed.Summarize.Quality.{Regex}
use agent_feed.Text.{Str, chars, starts_with}

-- The policy of a headline, and of a feed, lets the session in.
abbrev pub AdmitsHeadline : Option VerifiedSession → RemoteHeadlineView → Type 0
AdmitsHeadline session headline =
    (session_can_access_policy session headline.visibility headline.access ≡ true)
    × (starts_with headline.feed_id (chars "local:") ≡ false)

abbrev pub AdmitsFeed : Option VerifiedSession → ResolveFeedView → Type 0
AdmitsFeed session feed =
    (session_can_access_policy session feed.visibility feed.access ≡ true)
    × (starts_with feed.feed_id (chars "local:") ≡ false)

All-filter {ℓ} :
    {A : Type 0} (P : A → Type ℓ) (test : A → Bool) (items : List A)
    → ((a : A) → test a ≡ true → P a)
    → All P (filter test items)
All-filter P test [] h = tt
All-filter P test (a ∷ items) h =
    let rest = All-filter P test items h in
    if-cases (All P) (test a) (a ∷ filter test items) (filter test items)
      (λ passed. (h a passed, rest)) (λ failed. rest)

All-map :
    {A B : Type 0} (P : B → Type 0) (f : A → B) (items : List A)
    → All (λ a. P (f a)) items
    → All P (map f items)
All-map P f [] h = tt
All-map P f (a ∷ items) h = (h.0, All-map P f items h.1)

merge_resolve_feed_views-All :
    (P : ResolveFeedView → Type 0) (feeds extra : List ResolveFeedView)
    → All P feeds
    → All P extra
    → All P (merge_resolve_feed_views feeds extra)
unfolding merge_resolve_feed_views
merge_resolve_feed_views-All P feeds [] h k = h
merge_resolve_feed_views-All P feeds (feed ∷ extra) h k =
    let known = any (λ (e : ResolveFeedView). e.feed_id == feed.feed_id) feeds in
    merge_resolve_feed_views-All P (if known then feeds else feeds ++ feed ∷ []) extra
      (if-cases (All P) known feeds (feeds ++ feed ∷ []) (λ h_known. h)
        (λ new. All-append P feeds (feed ∷ []) h (k.0, tt)))
      k.1

feed_views_from_headlines-AdmitsFeed :
    (session : Option VerifiedSession) (headlines : List RemoteHeadlineView) (now : Time)
    → All (AdmitsHeadline session) headlines
    → All (AdmitsFeed session) (feed_views_from_headlines headlines now)
unfolding feed_views_from_headlines view_from_headline
feed_views_from_headlines-AdmitsFeed session headlines now h =
    merge_resolve_feed_views-All (AdmitsFeed session) [] _ tt
      (All-map (AdmitsFeed session) (λ headline. view_from_headline headline now) headlines h)

module _ ⦃r : Regex⦄ (github_user_id : ℕ) (github_login : Str) (route : RemoteUserRoute)
    (session : Option VerifiedSession) (now : Time) (store : SnapshotStore) where
  shown_headline-Admits :
      (headline : RemoteHeadlineView)
      → headline_matches_github_route_with_access headline github_user_id github_login route session
        ≡ true
      → AdmitsHeadline session headline
  unfolding headline_matches_github_route_with_access headline_is_visible_for_session
  shown_headline-Admits headline shown = (ground arith, ground arith)

  shown_feed-Admits :
      (feed : ResolveFeedView)
      → feed_matches_github_route_with_access feed github_user_id github_login route session ≡ true
      → AdmitsFeed session feed
  unfolding feed_matches_github_route_with_access feed_is_visible_for_session
  shown_feed-Admits feed shown = (ground arith, ground arith)

  headlines_for_github_user-Admits :
      All
        (AdmitsHeadline session)
        (headlines_for_github_user github_user_id github_login route session now store)
  unfolding headlines_for_github_user
  headlines_for_github_user-Admits = All-filter (AdmitsHeadline session) _ _ shown_headline-Admits

  -- Every headline and every feed of a user that the snapshot shows to a session, or without one,
  -- has an access policy that lets the session in, and is of no feed whose id starts with `local:`.
  pub feeds_for_github_user-Admits :
      All
        (AdmitsHeadline session)
        (headlines_for_github_user github_user_id github_login route session now store)
      × All
          (AdmitsFeed session)
          (feeds_for_github_user github_user_id github_login route session now store)
  unfolding feeds_for_github_user
  feeds_for_github_user-Admits = (
    headlines_for_github_user-Admits,
    merge_resolve_feed_views-All (AdmitsFeed session) _ _
        (All-filter (AdmitsFeed session) _ _ shown_feed-Admits)
        (feed_views_from_headlines-AdmitsFeed session _ now headlines_for_github_user-Admits),
  )
