-- ===== src/Story/Rewrite/Phrases.antt =====
-- The branches of `story_impact_rewrite`: `has` tests the combined copy for a phrase.
use agent_feed.Prelude.{Bool, Option, String, if◌then◌else◌, none, not, some, ◌&&◌, ◌||◌}
use agent_feed.Text.{Str, chars}

abbrev pub Rewritten : Type 0
Rewritten = Option (Str × Str)

unfoldable pub deploy_rewrite : (String → Bool) → Bool → Rewritten
deploy_rewrite has is_burn_dragon =
    if is_burn_dragon && has "head ci" && has "green"
    then some (
      chars "burn_dragon ci turns green with wasm smoke",
      chars "the current head clears the browser smoke lane before final repository checks",
    )
    else if has "pages deploy"
        && has "browser canary"
        && (has "green" || has "completed successfully")
    then some (
      chars "burn_dragon deploy clears browser canaries",
      chars "the pages rollout and live browser checks completed on the current release candidate",
    )
    else if has "deployment diagnostics"
        && (has "passed" || has "green")
        && (has "browser canary" || has "pages")
    then some (
      chars "burn_dragon deploy reaches browser canary",
      chars
          "edge diagnostics passed and the rollout advanced into pages plus live browser verification",
    )
    else if has "terraform apply" && (has "completed" || has "sync" || has "restart")
    then some (
      chars "burn_dragon edge rollout restarts after terraform",
      chars
          "infrastructure apply completed and the bootstrap runtime is syncing back to service readiness",
    )
    else if has "terraform" && (has "adopting" || has "state") && has "deploy"
    then some (
      chars "burn_dragon deploy enters terraform state adoption",
      chars
          "the edge rollout moved past binary compilation and is reconciling existing aws resources",
    )
    else if has "deploy compile finished" || (has "compile finished" && has "terraform")
    then some (
      chars "burn_dragon deploy leaves edge binary build",
      chars "the release path moved from native artifact compilation into infrastructure rollout",
    )
    else if has "edge binary"
        || ((has "binary compile" || has "binary build")
            && (has "deploy" || has "rollout")
            && not (has "terraform"))
    then some (
      chars "burn_dragon deploy builds edge binaries",
      chars
          "the production rollout is preparing native edge artifacts before infrastructure changes",
    )
    else if is_burn_dragon
        && (has "terraform apply" || has "infrastructure rollout")
        && (has "deploy" || has "deployment")
    then some (
      chars "burn_dragon p2p deploy reaches terraform apply",
      chars
          "the edge rollout has moved past runner-side builds and is applying infrastructure changes",
    )
    else if is_burn_dragon
        && (has "edge binary" || has "binary build" || has "runner-side edge")
        && (has "deploy" || has "deployment")
    then some (
      chars "burn_dragon p2p deploy is building edge binaries",
      chars
          "the production workflow is past ci dispatch and is preparing the edge artifacts for rollout",
    )
    else if is_burn_dragon && has "version surfaces" && has "line up"
    then some (
      chars "burn_dragon release versions align with burn_p2p",
      chars "workspace and app manifests now point at the matching p2p release line",
    )
    else if is_burn_dragon && has "wasm" && (has "failed" || has "failure")
    then some (
      chars "burn_dragon wasm browser lane needs a ci fix",
      chars
          "the p2p browser check exposed a wasm clippy failure before release validation could finish",
    )
    else if is_burn_dragon && has "failing lint"
    then some (
      chars "burn_dragon browser training lint is isolated",
      chars "the remaining failure is narrowed to the browser training contribution builder",
    )
    else if is_burn_dragon && has "rerun" && has "progress"
    then some (
      chars "burn_dragon ci rerun tracks the wasm browser lane",
      chars
          "the deployment workflow retry is still active after the earlier browser training receipt failure",
    )
    else if has "github username" || has "username route" || (has "github" && has "discovery")
    then some (
      chars "github profile routes open verified public feed streams",
      chars "viewer urls resolve durable github identity before subscribing to visible stories",
    )
    else if has "publisher identity" || (has "verified" && has "publisher")
    then some (
      chars "remote feed headlines show verified publisher identity",
      chars "browser viewers can see the github account behind each feed story",
    )
    else if has "fabric" && has "subscription"
    then some (
      chars "network discovery stays separate from feed subscriptions",
      chars "peers can support routing and browser handoff without auto-following feeds",
    )
    else if has "sign-in" || has "sign in" || has "oauth"
    then some (
      chars "cli publishing now binds feeds to github sign-in",
      chars "native publishers can prove account identity before sending stories to the network",
    )
    else if has "headline image" || has "media layer"
    then some (
      chars "feed stories support opt-in headline images",
      chars "publisher-side image generation stays disabled by default and runs behind guardrails",
    )
    else if has "deploy" || has "deployment"
    then some (
      chars "feed deployment paths now exercise browser and edge delivery",
      chars "static pages, edge APIs, and network canaries can be verified together",
    )
    else if has "interactive feed" || has "automated projection" || has "timeline"
    then some (
      chars "feed keeps projection automatic while adding browsable timelines",
      chars "interactive controls remain secondary to the hands-free broadcast view",
    )
    else if has "org-level" || has "org level" || has "organization"
    then some (
      chars "organization-scoped feeds can gate p2p discovery",
      chars "teams can publish shared streams without opening every story to the public network",
    )
    else if (has "agent reel" || has "agent feed") && (has "rename" || has "renamed")
    then some (
      chars "agent_feed naming is consistent across crates and publish surfaces",
      chars "the workspace, binaries, and public packages now use one product name",
    )
    else if has "real codex stream"
        || has "settled summarization"
        || has "p2p capsule"
        || has "story capsule"
    then some (
      chars "feed turns live agent work into safer public story capsules",
      chars
          "local activity is aggregated into settled, redacted headlines before it reaches the network",
    )
    else if has "summarization pass"
        || has "story-quality"
        || has "story quality"
        || has "publish gating"
    then some (
      chars "feed suppresses duplicate mechanics before publishing",
      chars "the story compiler now favors outcome changes over command, file, and test chatter",
    )
    else if has "error logging"
    then some (
      chars "feed surfaces capture and network failures more clearly",
      chars "operators get structured logs when local or p2p story delivery misbehaves",
    )
    else if has "diloco"
    then some (
      chars "burn_p2p gets a focused diloco training slice",
      chars "the distributed training path moves toward practical multi-peer optimizer coverage",
    )
    else if has "actions state is green" || has "ci, aws deploy" || has "pages deploy"
    then some (
      chars "ci and deployment checks are green for the feed release path",
      chars "browser pages, aws edge deployment, and repository checks completed together",
    )
    else none

unfoldable pub burn_p2p_rewrite : (String → Bool) → Bool → Bool → Rewritten
burn_p2p_rewrite has is_burn_p2p is_burn_dragon =
    if is_burn_p2p && has "release readiness" && has "green"
    then some (
      chars "burn_p2p release readiness turns green",
      chars
          "only the remaining release lanes continue while the paired burn_dragon ci rerun stays active",
    )
    else if is_burn_p2p
        && (has "crate" || has "crates io")
        && has "missing"
        && (has "burn dragon" || has "deploy")
    then some (
      chars "burn_p2p release gap blocks burn_dragon deploy",
      chars
          "the expected p2p crate version is not on crates.io yet, so the downstream deploy would fail at install time",
    )
    else if is_burn_p2p && has "publish preflight" && (has "dbus" || has "fmt")
    then some (
      chars "burn_p2p publish preflight is blocked locally",
      chars
          "cargo deny passed, but the fmt runner is still hitting the local rustup/dbus failure before publish can proceed",
    )
    else if is_burn_p2p && has "integration" && has "browser" && (has "green" || has "success")
    then some (
      chars "burn_p2p release checks narrow to final lanes",
      chars "browser, integration, and codeql checks are green while the last release lanes finish",
    )
    else if is_burn_p2p && has "published" && (has "green" || has "success")
    then some (
      chars "burn_p2p release publishes with checks green",
      chars
          "the package is live and downstream validation is moving through the paired burn_dragon lanes",
    )
    else if is_burn_p2p && has "publish completed successfully"
    then some (
      chars "burn_p2p release publish completes",
      chars "the crate release cleared its publish path and downstream verification can continue",
    )
    else if is_burn_p2p && has "nightly" && has "completed green"
    then some (
      chars "burn_p2p nightly validation finishes green",
      chars "the scheduled release-health lane cleared before the final repository sanity checks",
    )
    else if is_burn_p2p
        && (has "wasm compile" || has "wasm checks")
        && (has "passed" || has "green")
    then some (
      chars "burn_p2p wasm browser checks pass",
      chars "the replacement receipt retry fix now clears the direct browser and app wasm checks",
    )
    else if is_burn_p2p && has "wasm browser clippy" && (has "clean" || has "passes")
    then some (
      chars "burn_p2p wasm browser lint is clean",
      chars "the local browser feature set now clears clippy against the release candidate",
    )
    else if is_burn_p2p && (has "fixed the check" || has "now passes")
    then some (
      chars "burn_p2p integration tooling checks pass",
      chars "the local xtask path now builds against the staged burn_p2p crates",
    )
    else deploy_rewrite has is_burn_dragon

-- Opens the definitions of this module in a run.
unfoldable pub run_phrases : Unit {0}
unfolding deploy_rewrite burn_p2p_rewrite
run_phrases = tt
