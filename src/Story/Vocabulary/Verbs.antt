-- ===== src/Story/Vocabulary/Verbs.antt =====
-- The words of the tests on progress and outcomes, and of the update signature.
use agent_feed.Prelude.{List, [], ◌∷◌}
use agent_feed.Text.{Str, chars}

-- `active_progress_verb`
abbrev pub progress_verbs : List Str
progress_verbs =
    chars "adds"
    ∷ chars "aligns"
    ∷ chars "builds"
    ∷ chars "connects"
    ∷ chars "covers"
    ∷ chars "enables"
    ∷ chars "exposes"
    ∷ chars "extends"
    ∷ chars "hardens"
    ∷ chars "improves"
    ∷ chars "integrates"
    ∷ chars "moves"
    ∷ chars "opens"
    ∷ chars "prepares"
    ∷ chars "protects"
    ∷ chars "reduces"
    ∷ chars "removes"
    ∷ chars "resolves"
    ∷ chars "supports"
    ∷ chars "writes"
    ∷ chars "written"
    ∷ chars "tracks"
    ∷ chars "validates"
    ∷ chars "verifies"
    ∷ []

-- `active_summary_has_release_outcome`
abbrev pub outcome_words : List Str
outcome_words =
    chars "accepted"
    ∷ chars "blocked"
    ∷ chars "broken"
    ∷ chars "complete"
    ∷ chars "completed"
    ∷ chars "degraded"
    ∷ chars "deploy"
    ∷ chars "deployed"
    ∷ chars "deployment"
    ∷ chars "failed"
    ∷ chars "failure"
    ∷ chars "fixed"
    ∷ chars "finished"
    ∷ chars "generated"
    ∷ chars "green"
    ∷ chars "landed"
    ∷ chars "missing"
    ∷ chars "mismatch"
    ∷ chars "passed"
    ∷ chars "present"
    ∷ chars "preflight"
    ∷ chars "publish"
    ∷ chars "published"
    ∷ chars "publishes"
    ∷ chars "pushed"
    ∷ chars "ready"
    ∷ chars "readiness"
    ∷ chars "regressed"
    ∷ chars "reliably"
    ∷ chars "released"
    ∷ chars "rerun"
    ∷ chars "rollout"
    ∷ chars "shipped"
    ∷ chars "success"
    ∷ chars "turned green"
    ∷ chars "unblocked"
    ∷ chars "written"
    ∷ chars "works"
    ∷ []
