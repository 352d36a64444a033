-- ===== src/Story/Vocabulary/Chatter.antt =====
-- The phrases of `summary_is_operator_chatter`.
use agent_feed.Prelude.{List, [], ◌∷◌}
use agent_feed.Text.{Str, chars}

-- An agent that talks to its operator.
abbrev pub chatter_phrases : List Str
chatter_phrases =
    chars "i am checking"
    ∷ chars "i m checking"
    ∷ chars "i'm checking"
    ∷ chars "i’m checking"
    ∷ chars "i am reading"
    ∷ chars "i m reading"
    ∷ chars "i'm reading"
    ∷ chars "i’m reading"
    ∷ chars "i ll focus"
    ∷ chars "i'll focus"
    ∷ chars "i’ll focus"
    ∷ chars "i will focus"
    ∷ chars "i ll check"
    ∷ chars "i'll check"
    ∷ chars "i’ll check"
    ∷ chars "i will check"
    ∷ chars "i am tightening"
    ∷ chars "i m tightening"
    ∷ chars "i'm tightening"
    ∷ chars "i’m tightening"
    ∷ chars "i am patching"
    ∷ chars "i m patching"
    ∷ chars "i'm patching"
    ∷ chars "i’m patching"
    ∷ chars "i am waiting"
    ∷ chars "i m waiting"
    ∷ chars "i'm waiting"
    ∷ chars "i’m waiting"
    ∷ chars "i am drilling"
    ∷ chars "i m drilling"
    ∷ chars "i'm drilling"
    ∷ chars "i’m drilling"
    ∷ chars "i am installing"
    ∷ chars "i m installing"
    ∷ chars "i'm installing"
    ∷ chars "i’m installing"
    ∷ chars "i am verifying"
    ∷ chars "i m verifying"
    ∷ chars "i'm verifying"
    ∷ chars "i’m verifying"
    ∷ chars "i am mapping"
    ∷ chars "i m mapping"
    ∷ chars "i'm mapping"
    ∷ chars "i’m mapping"
    ∷ chars "i have confirmed"
    ∷ chars "i ve confirmed"
    ∷ chars "i've confirmed"
    ∷ chars "i’ve confirmed"
    ∷ chars "i have verified"
    ∷ chars "i ve verified"
    ∷ chars "i've verified"
    ∷ chars "i’ve verified"
    ∷ chars "i found the"
    ∷ chars "i made "
    ∷ chars "i added "
    ∷ chars "i changed "
    ∷ chars "i updated "
    ∷ chars "i m past"
    ∷ chars "i'm past"
    ∷ chars "i’m past"
    ∷ chars "next i"
    ∷ chars "then i"
    ∷ chars "you are right"
    ∷ chars "you re right"
    ∷ chars "you're right"
    ∷ chars "you’re right"
    ∷ chars "your feed"
    ∷ chars "your workstation feed"
    ∷ chars "your active codex"
    ∷ chars "the live edge now has"
    ∷ chars "public edge now shows"
    ∷ chars "edge now shows"
    ∷ chars "the live state confirms"
    ∷ chars "the latest evidence is more specific"
    ∷ chars "the edge path accepted"
    ∷ chars "the daemon is now actually"
    ∷ chars "the current daemon"
    ∷ chars "the daemon itself"
    ∷ chars "the fixed daemon is running"
    ∷ chars "the new binary started"
    ∷ chars "the repo is on the pushed"
    ∷ chars "committed and pushed"
    ∷ chars "worktree is clean"
    ∷ chars "worktrees are clean"
    ∷ chars "crates are published"
    ∷ chars "cargo install"
    ∷ chars "amended commit"
    ∷ chars "ci for the amended commit"
    ∷ chars "pushed commit"
    ∷ chars "background launch"
    ∷ chars "background start"
    ∷ chars "foreground run"
    ∷ chars "same serve command under"
    ∷ chars "short timeout"
    ∷ chars "systemd"
    ∷ chars "guardrail leak"
    ∷ chars "covered by a new test"
    ∷ chars "running service has both fixes"
    ∷ chars "both fixes"
    ∷ chars "installing once more"
    ∷ chars "reinstalling once more"
    ∷ chars "source build"
    ∷ chars "hot paths"
    ∷ chars "current publisher is stuck"
    ∷ chars "story gate"
    ∷ chars "startup context"
    ∷ chars "edge snapshot request"
    ∷ chars "public snapshot"
    ∷ chars "public edge capsule"
    ∷ chars "public publish loop"
    ∷ chars "publish worker"
    ∷ chars "edge call"
    ∷ chars "debugging status"
    ∷ chars "concrete regression"
    ∷ chars "operator narration"
    ∷ chars "public feed and hides the real signal"
    ∷ chars "recent_summaries"
    ∷ chars "restart-safe duplicate memory"
    ∷ chars "stale native-smoke update"
    ∷ chars "future new work"
    ∷ chars "behavior we wanted"
    ∷ chars "correctly skipped"
    ∷ chars "this debugging session"
    ∷ chars "the bug is not no capture"
    ∷ chars "startup lines"
    ∷ chars "dead daemon"
    ∷ chars "existing 7777 daemon"
    ∷ chars "publish interval"
    ∷ chars "listening on 127.0.0.1"
    ∷ chars "127.0.0.1:7777"
    ∷ chars "the fixed binary is installed"
    ∷ chars "restart the local daemon"
    ∷ chars "live daemon capture"
    ∷ chars "the local story"
    ∷ chars "after the restart"
    ∷ chars "correctly declined"
    ∷ chars "full workspace test pass"
    ∷ chars "runtime check"
    ∷ chars "installed binary on path"
    ∷ chars "stability bug"
    ∷ chars "user-facing story"
    ∷ []
