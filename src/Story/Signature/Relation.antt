-- ===== src/Story/Signature/Relation.antt =====
-- `story_update_relation` as a classification of two signatures.
use agent_feed.Prelude.{==_iff, arith, list_eq, nat_eq, option_eq, pair_eq, true, ◌↔◌, ◌≡◌}
use agent_feed.Story.Signature.{
  StoryUpdateRelation, StoryUpdateSignature, same_signature, story_update_relation,
}

pub same_signature_iff : (a b : StoryUpdateSignature) → (same_signature a b ≡ true) ↔ (a ≡ b)
same_signature_iff a b = ground (
  arith,
  ==_iff a.topic_fingerprint b.topic_fingerprint,
  ==_iff a.state_fingerprint b.state_fingerprint,
  ==_iff a.impact_fingerprint b.impact_fingerprint,
)

-- Two signatures are an exact repeat if and only if they are equal.
pub relation-exact_repeat :
    (a b : StoryUpdateSignature)
    → (story_update_relation a b ≡ StoryUpdateRelation.exact_repeat) ↔ (a ≡ b)
unfolding story_update_relation
relation-exact_repeat a b = ground (arith, same_signature_iff a b)
