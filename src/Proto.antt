-- ===== src/Proto.antt =====
-- crates/agent_feed_p2p_proto/src/lib.rs: the compatibility of two peers, the signatures and the
-- vocabulary of the feed records.
mod Tests
pub mod Compatibility
pub mod Signing
pub mod Topics
pub mod Capsule
pub mod Profile
pub mod Laws
use agent_feed.Prelude.{Bool, list_eq, nat_eq, option_eq, pair_eq, ℕ, ◌==◌}
use agent_feed.Text.{Str, chars}

pub data FeedVisibility : Type 0 where
  hidden github_user github_org github_team github_repo public : FeedVisibility

unfoldable pub visibility_as_str : FeedVisibility → Str
visibility_as_str FeedVisibility.hidden = chars "private"
visibility_as_str FeedVisibility.github_user = chars "github_user"
visibility_as_str FeedVisibility.github_org = chars "github_org"
visibility_as_str FeedVisibility.github_team = chars "github_team"
visibility_as_str FeedVisibility.github_repo = chars "github_repo"
visibility_as_str FeedVisibility.public = chars "public"

pub data StoryKind : Type 0 where
  turn plan test permission command file_change mcp incident recap : StoryKind

-- The derived `PartialEq`, by the place in the declaration.
abbrev story_kind_rank : StoryKind → ℕ
story_kind_rank StoryKind.turn = 0
story_kind_rank StoryKind.plan = 1
story_kind_rank StoryKind.test = 2
story_kind_rank StoryKind.permission = 3
story_kind_rank StoryKind.command = 4
story_kind_rank StoryKind.file_change = 5
story_kind_rank StoryKind.mcp = 6
story_kind_rank StoryKind.incident = 7
story_kind_rank StoryKind.recap = 8

abbrev pub same_kind : StoryKind → StoryKind → Bool
same_kind a b = story_kind_rank a == story_kind_rank b
