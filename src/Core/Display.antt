-- ===== src/Core/Display.antt =====
-- `Bulletin`. A chip and a ticker item are records of one text, and are that text here.
use agent_feed.Core.Event.{Time}
use agent_feed.Core.Kinds.{BulletinMode, PrivacyClass, VisualKind}
use agent_feed.Prelude.{List, Option, ℕ}
use agent_feed.Text.{Str}

pub record HeadlineImage : Type 0 where
  pub uri : Str
  pub alt : Str
  pub source : Str

pub record Bulletin : Type 0 where
  pub id : Str
  pub created_at : Time
  pub mode : BulletinMode
  pub priority : ℕ
  pub dwell_ms : ℕ
  pub eyebrow : Str
  pub headline : Str
  pub deck : Str
  pub lower_third : Str
  pub chips : List Str
  pub ticker : List Str
  pub image : Option HeadlineImage
  pub visual : VisualKind
  pub privacy : PrivacyClass
