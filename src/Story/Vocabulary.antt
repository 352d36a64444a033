-- ===== src/Story/Vocabulary.antt =====
-- The word lists of the story compiler.
pub mod Redundant
pub mod Chatter
pub mod Context
pub mod Verbs
pub mod Signature
pub mod Labels
