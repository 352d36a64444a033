-- ===== src/Story/Vocabulary/Signature.antt =====
-- The words of the update signature.
use agent_feed.Prelude.{List, [], ◌∷◌}
use agent_feed.Text.{Str, chars}

-- `is_story_signature_stopword`
abbrev pub signature_stopwords : List Str
signature_stopwords =
    chars "a"
    ∷ chars "an"
    ∷ chars "and"
    ∷ chars "are"
    ∷ chars "as"
    ∷ chars "by"
    ∷ chars "codex"
    ∷ chars "claude"
    ∷ chars "for"
    ∷ chars "from"
    ∷ chars "in"
    ∷ chars "is"
    ∷ chars "it"
    ∷ chars "of"
    ∷ chars "on"
    ∷ chars "the"
    ∷ chars "to"
    ∷ chars "with"
    ∷ chars "now"
    ∷ chars "again"
    ∷ chars "after"
    ∷ chars "before"
    ∷ chars "latest"
    ∷ chars "new"
    ∷ chars "same"
    ∷ chars "still"
    ∷ chars "one"
    ∷ chars "two"
    ∷ chars "three"
    ∷ chars "four"
    ∷ chars "five"
    ∷ chars "six"
    ∷ chars "seven"
    ∷ chars "eight"
    ∷ chars "nine"
    ∷ chars "ten"
    ∷ []

-- `is_story_update_verb`
abbrev pub update_verbs : List Str
update_verbs =
    chars "advance"
    ∷ chars "advanced"
    ∷ chars "advances"
    ∷ chars "become"
    ∷ chars "became"
    ∷ chars "becomes"
    ∷ chars "change"
    ∷ chars "changed"
    ∷ chars "changes"
    ∷ chars "finish"
    ∷ chars "finished"
    ∷ chars "finishes"
    ∷ chars "move"
    ∷ chars "moved"
    ∷ chars "moves"
    ∷ chars "shift"
    ∷ chars "shifted"
    ∷ chars "shifts"
    ∷ chars "stay"
    ∷ chars "stayed"
    ∷ chars "stays"
    ∷ chars "turn"
    ∷ chars "turned"
    ∷ chars "turns"
    ∷ chars "update"
    ∷ chars "updated"
    ∷ chars "updates"
    ∷ []
