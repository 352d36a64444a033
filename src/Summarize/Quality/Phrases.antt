-- ===== src/Summarize/Quality/Phrases.antt =====
-- The tables of the quality gate.
use agent_feed.Prelude.{List, [], ◌∷◌}
use agent_feed.Text.{Str, chars}

abbrev pub low_signal_phrases : List Str
low_signal_phrases =
    chars "feed activity settled"
    ∷ chars "activity settled"
    ∷ chars "shell command failed"
    ∷ chars "hit project command"
    ∷ chars "hit command"
    ∷ chars "tool failures"
    ∷ chars "settled stories"
    ∷ chars "new binary started"
    ∷ chars "startup lines"
    ∷ chars "dead daemon"
    ∷ chars "7777 daemon"
    ∷ chars "self referential"
    ∷ chars "self-referential"
    ∷ []

abbrev pub no_change_patterns : List Str
no_change_patterns =
    chars
      "\\bno\\s+(?:new\\s+)?public\\s+(?:outcome|story|impact|facing\\s+outcome|facing\\s+delta)\\s+(?:change|delta|shift|landed|introduced|visible|surfaced|reported)\\b"
    ∷ chars
        "\\bno\\s+(?:new\\s+)?public\\s+outcome\\s+(?:was\\s+)?(?:introduced|landed|reported|visible|surfaced)\\b"
    ∷ chars "\\bno\\s+new\\s+public\\s+signal\\b"
    ∷ chars "\\bno\\s+additional\\s+status\\s+shift\\b"
    ∷ chars
        "\\b(?:public\\s+)?(?:outcome|status|posture|baseline|telemetry)\\s+(?:remain|remains|remained|is|was)\\s+(?:unchanged|the\\s+same)\\b"
    ∷ chars "\\bstalled\\s+baseline(?:\\s+telemetry)?\\s+unchanged\\b"
    ∷ chars "\\bopen\\s+turn\\s+paired\\s+lane\\s+verification\\b"
    ∷ chars "\\bopen\\s+turn\\s+verification\\s+posture\\s+remains\\b"
    ∷ []

abbrev pub no_change_phrases : List Str
no_change_phrases =
    chars "no public impact change"
    ∷ chars "no public outcome change"
    ∷ chars "no public story change"
    ∷ chars "no public story delta"
    ∷ chars "no public outcome shift"
    ∷ chars "no public facing outcome"
    ∷ chars "no public facing delta"
    ∷ chars "no newly reported shift"
    ∷ chars "no new final outcome"
    ∷ chars "no new outcome"
    ∷ chars "no final outcome"
    ∷ chars "no notable public shift"
    ∷ chars "no shift in public outcome"
    ∷ chars "no shift in public story"
    ∷ chars "no meaningful feed change"
    ∷ chars "no meaningful headline change"
    ∷ chars "public outcome remains unchanged"
    ∷ chars "public story remains unchanged"
    ∷ chars "remains unchanged in this interval"
    ∷ chars "does not change outcome"
    ∷ chars "does not alter public outcome"
    ∷ chars "checks remain monitored"
    ∷ chars "release checks remain monitored"
    ∷ chars "remains in monitoring"
    ∷ chars "remain in monitoring"
    ∷ chars "still in flight without a new"
    ∷ chars "same public outcome"
    ∷ chars "same public story"
    ∷ chars "remains in the same holding state"
    ∷ chars "remain in the same holding state"
    ∷ chars "same holding state"
    ∷ chars "paired-lane open-turn verification remains"
    ∷ chars "paired lane open turn verification remains"
    ∷ chars "paired checks continue"
    ∷ chars "baseline telemetry is unchanged"
    ∷ chars "baseline telemetry remains stalled"
    ∷ chars "stalled baseline telemetry"
    ∷ chars "existing verification and readiness posture remains"
    ∷ chars "all observed streams remain"
    ∷ []

abbrev pub operational_phrases : List Str
operational_phrases =
    chars "ci status"
    ∷ chars "run state"
    ∷ chars "command event"
    ∷ chars "command events"
    ∷ chars "plan state"
    ∷ chars "plan-state"
    ∷ chars "plan update"
    ∷ chars "safe command"
    ∷ chars "shell check"
    ∷ chars "shell checks"
    ∷ chars "repository state"
    ∷ chars "prior ci status"
    ∷ []

abbrev pub test_status_phrases : List Str
test_status_phrases =
    chars "tests passed"
    ∷ chars "test passed"
    ∷ chars "tests verified"
    ∷ chars "verified tests"
    ∷ chars "confirms pass state"
    ∷ chars "pass state"
    ∷ []

abbrev pub outcome_context_words : List Str
outcome_context_words =
    chars "auth"
    ∷ chars "avatar"
    ∷ chars "browser"
    ∷ chars "broadcast"
    ∷ chars "capture"
    ∷ chars "callback"
    ∷ chars "deployment"
    ∷ chars "discovery"
    ∷ chars "edge"
    ∷ chars "github"
    ∷ chars "guardrail"
    ∷ chars "install"
    ∷ chars "network"
    ∷ chars "open source"
    ∷ chars "package"
    ∷ chars "privacy"
    ∷ chars "public"
    ∷ chars "publish"
    ∷ chars "release"
    ∷ chars "route"
    ∷ chars "security"
    ∷ chars "ship"
    ∷ chars "shipped"
    ∷ chars "stream"
    ∷ chars "subscription"
    ∷ chars "summarization"
    ∷ chars "summary"
    ∷ chars "update"
    ∷ chars "user"
    ∷ []

abbrev pub banned_phrases : List Str
banned_phrases =
    chars "no public outcome change"
    ∷ chars "production scaffold"
    ∷ chars "production flow"
    ∷ chars "agent feed scaffold"
    ∷ chars "checks ci status"
    ∷ chars "completed turn"
    ∷ chars "file-change pass"
    ∷ chars "planning state advanced"
    ∷ chars "plan update"
    ∷ chars "records plan update"
    ∷ chars "run state settled"
    ∷ chars "test gate"
    ∷ chars "test line"
    ∷ chars "two-file update"
    ∷ chars "fixture-driven"
    ∷ chars "fixture events"
    ∷ chars "moved forward"
    ∷ chars "advanced across the feed"
    ∷ chars "verification s"
    ∷ chars "shifts feed to edits"
    ∷ chars "settles run state"
    ∷ chars "codexci statusrun state"
    ∷ chars "open turn paired lane"
    ∷ chars "paired-lane open-turn"
    ∷ chars "paired lane verification"
    ∷ chars "stalled baseline telemetry"
    ∷ []
