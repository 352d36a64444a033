-- ===== src/Story/Vocabulary/Context.antt =====
-- The words of the tests on summaries and projects.
use agent_feed.Prelude.{List, [], ◌∷◌}
use agent_feed.Text.{Str, chars}

-- `summary_has_work_context`
abbrev pub work_context_words : List Str
work_context_words =
    chars "auth"
    ∷ chars "artifact"
    ∷ chars "avatar"
    ∷ chars "aws"
    ∷ chars "browser"
    ∷ chars "broadcast"
    ∷ chars "callback"
    ∷ chars "capture"
    ∷ chars "canary"
    ∷ chars "cli"
    ∷ chars "ci"
    ∷ chars "codeql"
    ∷ chars "coverage"
    ∷ chars "deployment"
    ∷ chars "discovery"
    ∷ chars "diloco"
    ∷ chars "edge"
    ∷ chars "error"
    ∷ chars "eval"
    ∷ chars "export"
    ∷ chars "feed"
    ∷ chars "generation"
    ∷ chars "github"
    ∷ chars "glb"
    ∷ chars "guardrail"
    ∷ chars "identity"
    ∷ chars "install"
    ∷ chars "integration"
    ∷ chars "inference"
    ∷ chars "logging"
    ∷ chars "mcp"
    ∷ chars "model"
    ∷ chars "network"
    ∷ chars "open source"
    ∷ chars "package"
    ∷ chars "peer"
    ∷ chars "p2p"
    ∷ chars "privacy"
    ∷ chars "publish"
    ∷ chars "qualitative"
    ∷ chars "release"
    ∷ chars "render"
    ∷ chars "report"
    ∷ chars "readiness"
    ∷ chars "route"
    ∷ chars "sample"
    ∷ chars "security"
    ∷ chars "story"
    ∷ chars "stream"
    ∷ chars "subscription"
    ∷ chars "summarization"
    ∷ chars "terraform"
    ∷ chars "trellis"
    ∷ chars "training"
    ∷ chars "wasm"
    ∷ chars "webgpu"
    ∷ chars "workflow"
    ∷ chars "user"
    ∷ []

-- `summary_mentions_public_project`
abbrev pub public_project_words : List Str
public_project_words =
    chars "agent_feed"
    ∷ chars "agent reel"
    ∷ chars "agent_reel"
    ∷ chars "burn dragon"
    ∷ chars "burn p2p"
    ∷ chars "burn_dragon"
    ∷ chars "burn_p2p"
    ∷ []

-- `project_is_generic_label`
abbrev pub generic_labels : List Str
generic_labels =
    chars "adoption"
    ∷ chars "import"
    ∷ chars "local"
    ∷ chars "package"
    ∷ chars "packages"
    ∷ chars "repo"
    ∷ chars "repos"
    ∷ chars "status"
    ∷ chars "target"
    ∷ chars "tmp"
    ∷ chars "workspace"
    ∷ chars "workspaces"
    ∷ []
