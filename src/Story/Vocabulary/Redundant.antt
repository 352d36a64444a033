-- ===== src/Story/Vocabulary/Redundant.antt =====
-- The phrases of `summary_is_redundant`.
use agent_feed.Prelude.{List, [], ◌∷◌}
use agent_feed.Text.{Str, chars}

-- Home directories.
abbrev pub path_needles : List Str
path_needles = chars "/home/" ∷ chars "\\home\\" ∷ []

-- The keys of a processor's JSON answer.
abbrev pub processor_keys : List Str
processor_keys =
    chars "\"headline\""
    ∷ chars "\"deck\""
    ∷ chars "\"publish\""
    ∷ chars "\"memory_digest\""
    ∷ chars "\"semantic_fingerprint\""
    ∷ []

-- The openings of status lines, all but "done".
abbrev pub redundant_prefixes : List Str
redundant_prefixes =
    chars "status "
    ∷ chars "exit "
    ∷ chars "turn completed in "
    ∷ chars "i'm "
    ∷ chars "i’m "
    ∷ chars "i'll "
    ∷ chars "i’ll "
    ∷ chars "you are "
    ∷ chars "you're "
    ∷ chars "you’re "
    ∷ chars "implemented and pushed"
    ∷ chars "model "
    ∷ chars "no,"
    ∷ chars "no."
    ∷ chars "not fully"
    ∷ chars "the change is committed"
    ∷ chars "the change was committed"
    ∷ chars "all four crates are published"
    ∷ chars "all crates are published"
    ∷ chars "both active worktrees are clean"
    ∷ chars "because this changes "
    ∷ chars "implemented and shipped"
    ∷ chars "the worktree is clean"
    ∷ chars "implemented and published"
    ∷ chars "the code and crates are published"
    ∷ chars "the commit is created"
    ∷ chars "the current daemon"
    ∷ chars "with that command"
    ∷ chars "with the currently"
    ∷ []

-- Phrases of mechanical or private reports.
abbrev pub redundant_phrases : List Str
redundant_phrases =
    chars "agent message recorded"
    ∷ chars "browser peer/ui seems broken"
    ∷ chars "changed files"
    ∷ chars "checks ci status"
    ∷ chars "ci status"
    ∷ chars "cli check"
    ∷ chars "cargo install"
    ∷ chars "command events"
    ∷ chars "command lifecycle captured"
    ∷ chars "committed and pushed"
    ∷ chars "confirms pass state"
    ∷ chars "patch activity captured"
    ∷ chars "raw diff omitted"
    ∷ chars "raw diff"
    ∷ chars "raw output omitted"
    ∷ chars "raw transcript omitted"
    ∷ chars "raw content omitted"
    ∷ chars "plan updated"
    ∷ chars "plan update recorded"
    ∷ chars "planning state advanced"
    ∷ chars "question answered"
    ∷ chars "dry-run mode"
    ∷ chars "focused rust tests"
    ∷ chars "fresh crates.io install"
    ∷ chars "fresh crates io install"
    ∷ chars "i'm committing"
    ∷ chars "i’m committing"
    ∷ chars "i m drilling"
    ∷ chars "i'm drilling"
    ∷ chars "i’m drilling"
    ∷ chars "i am drilling"
    ∷ chars "implemented and pushed"
    ∷ chars "local capture is alive"
    ∷ chars "local publisher"
    ∷ chars "one more important nuance"
    ∷ chars "pushing it now"
    ∷ chars "remote fast-forward"
    ∷ chars "repository state"
    ∷ chars "run state"
    ∷ chars "safe command"
    ∷ chars "seems broken"
    ∷ chars "settles run state"
    ∷ chars "shifts feed to edits"
    ∷ chars "shell check"
    ∷ chars "shell command failed"
    ∷ chars "targeted tests"
    ∷ chars "there are no push-triggered workflows"
    ∷ chars "there's a second problem"
    ∷ chars "there s a second problem"
    ∷ chars "this session is network-disabled"
    ∷ chars "transcript sample"
    ∷ chars "test command failed"
    ∷ chars "test command passed"
    ∷ chars "worktree is clean"
    ∷ chars "the key live check passed"
    ∷ chars "without raw content"
    ∷ chars "without command output"
    ∷ []
