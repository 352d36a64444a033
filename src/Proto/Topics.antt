-- ===== src/Proto/Topics.antt =====
-- The topics and the provider keys, which carry digests in place of names.
use agent_feed.Prelude.{Bool, List, list_eq, nat_eq, option_eq, pair_eq, take, ℕ, ◌++◌, ◌==◌}
use agent_feed.Proto.Signing.{Hashes, hex_lower}
use agent_feed.Text.{Str, chars, decimal, to_ascii_lowercase, utf8}

abbrev pub protocol_name : Str
protocol_name = chars "agent-feed"

-- `{AGENT_FEED_PROTOCOL_NAME}.v{AGENT_FEED_PROTOCOL_VERSION}.{network_id}`
abbrev pub network_prefix : Str → Str
network_prefix network_id = protocol_name ++ chars ".v1." ++ network_id

unfoldable pub directory_topic : Str → Str
directory_topic network_id = network_prefix network_id ++ chars ".directory"

unfoldable pub presence_topic : Str → Str
presence_topic network_id = network_prefix network_id ++ chars ".presence"

-- `/{AGENT_FEED_PROTOCOL_NAME}/{AGENT_FEED_PROTOCOL_VERSION}`
abbrev provider_prefix : Str
provider_prefix = chars "/" ++ protocol_name ++ chars "/1"

module _ ⦃h : Hashes⦄ where
  unfoldable pub stable_digest : List ℕ → Str
  stable_digest input = hex_lower (h.sha256 input)

  unfoldable pub compact_digest : Str → Str
  compact_digest input = take 16 (stable_digest (utf8 input))

  unfoldable pub feed_topic : Str → Str → Str
  feed_topic network_id feed_id =
      network_prefix network_id ++ chars ".feed." ++ compact_digest feed_id

  unfoldable pub topic_allows_story_capsules : Str → Str → Str → Bool
  topic_allows_story_capsules topic network_id feed_id = topic == feed_topic network_id feed_id

  unfoldable pub github_user_topic : Str → ℕ → Str
  github_user_topic network_id id =
      network_prefix network_id ++ chars ".github." ++ compact_digest (decimal id)

  unfoldable pub github_org_topic : Str → Str → Str
  github_org_topic network_id name =
      network_prefix network_id ++ chars ".github-org." ++ compact_digest (to_ascii_lowercase name)

  -- The organisation and the team in lower case, with a colon between them.
  abbrev team_name : Str → Str → Str
  team_name name team = to_ascii_lowercase name ++ chars ":" ++ to_ascii_lowercase team

  unfoldable pub github_team_topic : Str → Str → Str → Str
  github_team_topic network_id name team =
      network_prefix network_id ++ chars ".github-team." ++ compact_digest (team_name name team)

  unfoldable pub github_provider_key : Str → ℕ → Str
  github_provider_key network_id id =
      provider_prefix ++ chars "/github/" ++ compact_digest (network_id ++ chars ":" ++ decimal id)

  unfoldable pub github_org_provider_key : Str → Str → Str
  github_org_provider_key network_id name =
      provider_prefix
      ++ chars "/github-org/"
      ++ compact_digest (network_id ++ chars ":" ++ to_ascii_lowercase name)

  unfoldable pub github_team_provider_key : Str → Str → Str → Str
  github_team_provider_key network_id name team =
      provider_prefix
      ++ chars "/github-team/"
      ++ compact_digest (network_id ++ chars ":" ++ team_name name team)
