-- ===== src/Summarize/Similarity/Laws.antt =====
-- A similarity is a percentage, and a text with words in it is wholly alike to itself.
use agent_feed.Prelude.{
  ==_refl, arith, false, is_empty, list_eq, nat_eq, option_eq, pair_eq, refl, ◌≡◌, ◌≤◌,
}
use agent_feed.Summarize.Similarity.{headline_similarity, normalize_text, text_similarity}
use agent_feed.Text.{Str}

pub text_similarity-le : (left right : Str) → text_similarity left right ≤ 100
unfolding text_similarity
text_similarity-le left right = ground arith

pub headline_similarity-le : (left right : Str) → headline_similarity left right ≤ 100
unfolding headline_similarity text_similarity
headline_similarity-le left right = ground arith

pub headline_similarity_self :
    (headline : Str)
    → is_empty (normalize_text headline) ≡ false
    → headline_similarity headline headline ≡ 100
unfolding headline_similarity text_similarity
headline_similarity_self headline words = rw (words, ==_refl (normalize_text headline)) refl
