-- ===== src/Summarize/Decision/Closest.antt =====
-- How the nearest of the recent summaries is found.
use agent_feed.Prelude.{
  ==_iff, All, Bool, Bool-cases, List, [], and-eq-true, any, arith, if-cases, inl, inr, list_eq,
  ltb, nat_eq, not, option_eq, pair_eq, refl, true, ℕ, ◌&&◌, ◌<◌, ◌==◌, ◌||◌, ◌∷◌, ◌≡◌, ◌≤◌, ◌⊎◌,
}
use agent_feed.Story.Keys.{is_family}
use agent_feed.Story.Signature.{StoryUpdateSignature}
use agent_feed.Summarize.Config.{PublishDecisionConfig, RecentSummary}
use agent_feed.Summarize.Decision.{Nearest, is_duplicate, nearer, nearest_of, no_nearest}
use agent_feed.Summarize.Similarity.{headline_similarity, text_similarity}
use agent_feed.Summarize.Similarity.Laws.{headline_similarity-le, text_similarity-le}
use agent_feed.Summarize.Types.{FeedSummary}

-- The pair of similarities of a nearest summary is no less, the headline first.
pub record IsAtLeast (headline deck : ℕ) (nearest : Nearest) : Type 0 where
  pub order :
      (headline < nearest.headline) ⊎ ((headline ≡ nearest.headline) × (deck ≤ nearest.deck))

-- Similarities are percentages, and zero until a summary is found.
pub record IsMeasured (nearest : Nearest) : Type 0 where
  pub headline : nearest.headline ≤ 100
  pub deck : nearest.deck ≤ 100
  pub blank : (nearest.found ≡ true) ⊎ ((nearest.headline ≡ 0) × (nearest.deck ≡ 0))

module _ (summary : FeedSummary) (signature : StoryUpdateSignature) where
  abbrev headline_of : RecentSummary → ℕ
  headline_of recent = headline_similarity summary.headline recent.headline

  abbrev deck_of : RecentSummary → ℕ
  deck_of recent = text_similarity summary.deck recent.deck

  abbrev is_rival : RecentSummary → Bool
  is_rival recent = is_family recent.story_family summary.story_family

  nearer-grows :
      (n : Nearest) (recent : RecentSummary)
      → IsAtLeast n.headline n.deck (nearer summary signature n recent)
  unfolding nearer
  nearer-grows n recent =
      if-cases (IsAtLeast n.headline n.deck) (not (is_rival recent)) n _
        (λ h. record { order = inr (refl, omega arith) })
        λ rival.
          if-cases (IsAtLeast n.headline n.deck)
            (ltb n.headline (headline_of recent)
              || headline_of recent == n.headline && ltb n.deck (deck_of recent))
            _ n (λ more. record { order = ground arith })
            (λ h. record { order = inr (refl, omega arith) })

  nearer-covers :
      (n : Nearest) (recent : RecentSummary)
      → is_rival recent ≡ true
      → IsAtLeast (headline_of recent) (deck_of recent) (nearer summary signature n recent)
  unfolding nearer
  nearer-covers n recent rival =
      if-cases (IsAtLeast (headline_of recent) (deck_of recent)) (not (is_rival recent)) n _
        (λ h. cc)
        λ same.
          if-cases (IsAtLeast (headline_of recent) (deck_of recent))
            (ltb n.headline (headline_of recent)
              || headline_of recent == n.headline && ltb n.deck (deck_of recent))
            _ n (λ more. record { order = inr (refl, omega arith) })
            (λ less. record { order = ground arith })

  nearer-IsMeasured :
      (n : Nearest) (recent : RecentSummary)
      → IsMeasured n
      → IsMeasured (nearer summary signature n recent)
  unfolding nearer
  nearer-IsMeasured n recent measured =
      if-cases IsMeasured (not (is_rival recent)) n _ (λ h. measured)
        λ rival.
          if-cases IsMeasured
            (ltb n.headline (headline_of recent)
              || headline_of recent == n.headline && ltb n.deck (deck_of recent))
            _ n
            (λ h. record {
              headline = headline_similarity-le summary.headline recent.headline;
              deck = text_similarity-le summary.deck recent.deck;
              blank = inl refl;
            })
            (λ h. measured)

  nearest_of-grows :
      (n : Nearest) (recents : List RecentSummary)
      → IsAtLeast n.headline n.deck (nearest_of summary signature n recents)
  unfolding nearest_of
  nearest_of-grows n [] = record { order = inr (refl, omega arith) }
  nearest_of-grows n (recent ∷ recents) =
      let first = nearer-grows n recent in
      let rest = nearest_of-grows (nearer summary signature n recent) recents in
      record { order = omega (arith, first.order, rest.order) }

  nearest_of-covers :
      (n : Nearest) (recents : List RecentSummary)
      → All
          (λ recent.
            is_rival recent ≡ true
            → IsAtLeast
                (headline_of recent)
                (deck_of recent)
                (nearest_of summary signature n recents))
          recents
  unfolding nearest_of
  nearest_of-covers n [] = tt
  nearest_of-covers n (recent ∷ recents) =
      let after = nearer summary signature n recent in
      (
        λ rival.
            let first = nearer-covers n recent rival in
            let rest = nearest_of-grows after recents in
            record { order = omega (arith, first.order, rest.order) },
        nearest_of-covers after recents,
      )

  nearest_of-IsMeasured :
      (n : Nearest) (recents : List RecentSummary)
      → IsMeasured n
      → IsMeasured (nearest_of summary signature n recents)
  unfolding nearest_of
  nearest_of-IsMeasured n [] measured = measured
  nearest_of-IsMeasured n (recent ∷ recents) measured =
      nearest_of-IsMeasured (nearer summary signature n recent) recents
        (nearer-IsMeasured n recent measured)

-- A nearest summary with both similarities at their most is a duplicate.
is_duplicate-IsAtLeast :
    (policy : PublishDecisionConfig) (nearest : Nearest)
    → IsMeasured nearest
    → IsAtLeast 100 100 nearest
    → is_duplicate policy nearest ≡ true
unfolding is_duplicate
is_duplicate-IsAtLeast policy nearest measured full =
    let headline : nearest.headline ≡ 100 =
      omega (arith, full.order, measured.headline, measured.deck) in
    let deck : nearest.deck ≡ 100 = omega (arith, full.order, measured.headline, measured.deck) in
    elim measured.blank [
      | inl found ↦ rw (found, headline, deck) refl
      | inr zeros ↦ absurd (omega (arith, zeros.0, headline))
    ]

-- The same family, and a headline and a deck that are wholly alike.
unfoldable pub is_exact_repeat : FeedSummary → RecentSummary → Bool
is_exact_repeat summary recent =
    is_family recent.story_family summary.story_family
    && headline_similarity summary.headline recent.headline == 100
    && text_similarity summary.deck recent.deck == 100

-- Similarities that cover an exact repeat are at their most.
exact_repeat-IsAtLeast :
    (summary : FeedSummary) (nearest : Nearest) (recents : List RecentSummary)
    → All
        (λ recent.
          is_family recent.story_family summary.story_family ≡ true
          → IsAtLeast
              (headline_similarity summary.headline recent.headline)
              (text_similarity summary.deck recent.deck)
              nearest)
        recents
    → any (is_exact_repeat summary) recents ≡ true
    → IsAtLeast 100 100 nearest
unfolding is_exact_repeat
exact_repeat-IsAtLeast summary nearest [] covered repeated = cc
exact_repeat-IsAtLeast summary nearest (recent ∷ recents) covered repeated =
    elim (Bool-cases (is_exact_repeat summary recent)) [
      | inl same ↦
          let headlines = headline_similarity summary.headline recent.headline == 100 in
          let decks = text_similarity summary.deck recent.deck == 100 in
          let family = is_family recent.story_family summary.story_family in
          let first = and-eq-true (family && headlines) decks same in
          let second = and-eq-true family headlines first.0 in
          let headline =
            (==_iff (headline_similarity summary.headline recent.headline) 100).0 second.1 in
          let deck = (==_iff (text_similarity summary.deck recent.deck) 100).0 first.1 in
          let most = covered.0 second.0 in
          record { order = omega (arith, most.order, headline, deck) }
      | inr other ↦ exact_repeat-IsAtLeast summary nearest recents covered.1 (ground arith)
    ]

pub exact_repeat-is_duplicate :
    (policy : PublishDecisionConfig) (summary : FeedSummary) (signature : StoryUpdateSignature)
    (recents : List RecentSummary)
    → any (is_exact_repeat summary) recents ≡ true
    → is_duplicate policy (nearest_of summary signature no_nearest recents) ≡ true
unfolding is_exact_repeat
exact_repeat-is_duplicate policy summary signature recents repeated =
    let nearest = nearest_of summary signature no_nearest recents in
    is_duplicate-IsAtLeast policy nearest
      (nearest_of-IsMeasured summary signature no_nearest recents
        (record { headline = omega arith; deck = omega arith; blank = inr (refl, refl) }))
      (exact_repeat-IsAtLeast summary nearest recents
        (nearest_of-covers summary signature no_nearest recents) repeated)
