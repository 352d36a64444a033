-- ===== src/Story/Vocabulary/Labels.antt =====
-- `state_label` and `impact_label`: the class of a word.
use agent_feed.Prelude.{
  List, Option, [], any_eq, if◌then◌else◌, list_eq, nat_eq, none, option_eq, pair_eq, some, ◌∷◌,
}
use agent_feed.Text.{Str, chars}

-- The classes in order, each with its words.
abbrev state_labels : List (Str × List Str)
state_labels =
    (
      chars "blocked",
      chars "blocked"
          ∷ chars "blocker"
          ∷ chars "blocking"
          ∷ chars "stuck"
          ∷ chars "unavailable"
          ∷ chars "degraded"
          ∷ chars "down"
          ∷ [],
    )
    ∷ (
      chars "failing",
      chars "broken"
          ∷ chars "fail"
          ∷ chars "failed"
          ∷ chars "failing"
          ∷ chars "failure"
          ∷ chars "red"
          ∷ chars "regressed"
          ∷ chars "regression"
          ∷ [],
    )
    ∷ (
      chars "fixed",
      chars "fixed"
          ∷ chars "fixes"
          ∷ chars "resolved"
          ∷ chars "restored"
          ∷ chars "recovered"
          ∷ chars "cleared"
          ∷ [],
    )
    ∷ (
      chars "passing",
      chars "green" ∷ chars "pass" ∷ chars "passed" ∷ chars "passing" ∷ chars "healthy" ∷ [],
    )
    ∷ (
      chars "available",
      chars "live" ∷ chars "available" ∷ chars "connected" ∷ chars "online" ∷ [],
    )
    ∷ (
      chars "shipped",
      chars "deploy"
          ∷ chars "deployed"
          ∷ chars "deployment"
          ∷ chars "published"
          ∷ chars "released"
          ∷ chars "shipped"
          ∷ chars "launch"
          ∷ chars "launched"
          ∷ [],
    )
    ∷ (
      chars "implemented",
      chars "implemented"
          ∷ chars "added"
          ∷ chars "enabled"
          ∷ chars "supports"
          ∷ chars "support"
          ∷ [],
    )
    ∷ (
      chars "verified",
      chars "verified" ∷ chars "validated" ∷ chars "confirmed" ∷ chars "proven" ∷ [],
    )
    ∷ (chars "planned", chars "planned" ∷ chars "designed" ∷ chars "drafted" ∷ [])
    ∷ (chars "denied", chars "denied" ∷ chars "rejected" ∷ [])
    ∷ (chars "requested", chars "requested" ∷ chars "pending" ∷ chars "waiting" ∷ [])
    ∷ []

-- The classes in order, each with its words.
abbrev impact_labels : List (Str × List Str)
impact_labels =
    (
      chars "auth",
      chars "auth" ∷ chars "oauth" ∷ chars "callback" ∷ chars "signin" ∷ chars "login" ∷ [],
    )
    ∷ (
      chars "browser",
      chars "browser"
          ∷ chars "page"
          ∷ chars "pages"
          ∷ chars "ui"
          ∷ chars "ux"
          ∷ chars "mobile"
          ∷ chars "desktop"
          ∷ [],
    )
    ∷ (
      chars "capture",
      chars "capture" ∷ chars "codex" ∷ chars "claude" ∷ chars "transcript" ∷ chars "session" ∷ [],
    )
    ∷ (
      chars "deploy",
      chars "deploy" ∷ chars "deployment" ∷ chars "edge" ∷ chars "terraform" ∷ chars "aws" ∷ [],
    )
    ∷ (
      chars "network",
      chars "discovery"
          ∷ chars "feed"
          ∷ chars "feeds"
          ∷ chars "follower"
          ∷ chars "following"
          ∷ chars "network"
          ∷ chars "p2p"
          ∷ chars "peer"
          ∷ chars "peers"
          ∷ chars "subscription"
          ∷ chars "subscriptions"
          ∷ [],
    )
    ∷ (
      chars "release",
      chars "install" ∷ chars "package" ∷ chars "publish" ∷ chars "release" ∷ chars "cargo" ∷ [],
    )
    ∷ (
      chars "safety",
      chars "privacy"
          ∷ chars "redaction"
          ∷ chars "guardrail"
          ∷ chars "secret"
          ∷ chars "secrets"
          ∷ [],
    )
    ∷ (
      chars "summary",
      chars "summary"
          ∷ chars "summaries"
          ∷ chars "summarization"
          ∷ chars "headline"
          ∷ chars "story"
          ∷ chars "stories"
          ∷ [],
    )
    ∷ (
      chars "verification",
      chars "test"
          ∷ chars "tests"
          ∷ chars "ci"
          ∷ chars "check"
          ∷ chars "checks"
          ∷ chars "canary"
          ∷ [],
    )
    ∷ []

-- The class whose words hold this one.
unfoldable pub label_of : List (Str × List Str) → Str → Option Str
label_of [] word = none
label_of ((label, words) ∷ more) word =
    let rest = label_of more word in if any_eq words word then some label else rest

unfoldable pub state_label : Str → Option Str
state_label word = label_of state_labels word

unfoldable pub impact_label : Str → Option Str
impact_label word = label_of impact_labels word

-- Opens the definitions of this module in a run.
unfoldable pub run_labels : Unit {0}
unfolding label_of state_label impact_label
run_labels = tt
