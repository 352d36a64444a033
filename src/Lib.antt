-- ===== src/Lib.antt =====
-- agent_feed turns the events of local coding agents into redacted stories and feeds. An adapter
-- hands an event to the core; it is redacted (crates/agent_feed_redaction); the highlighter
-- scores it (crates/agent_feed_highlight); the story compiler gathers the events of a session
-- into windows and publishes a story when a window settles or an open turn has news
-- (crates/agent_feed_story); the local stores keep the last events and bulletins
-- (crates/agent_feed_store, crates/agent_feed_reel); summaries of the stories are compared with
-- what was published before (crates/agent_feed_summarize); a summary becomes a signed capsule
-- that peers publish and follow over a network (crates/agent_feed_p2p); the peer-to-peer
-- directory lets other users find the feeds of a person, an organisation or a team
-- (crates/agent_feed_directory); and an edge server keeps the last headlines and shows them to
-- those whose session may see them (crates/agent_feed_edge). The identities, the signatures and
-- the versions are those of crates/agent_feed_identity and crates/agent_feed_p2p_proto.
-- crates/agent_feed_security guards the bind address and the display token of the local server.
--
-- The files and what they model:
--
-- Prelude   the helpers: tests on the native numbers, lists, equality and order as interfaces,
--           sorted association lists for BTreeMap and BTreeSet, bounded queues, machine words.
-- Text      strings as lists of code points with their UTF-8 bytes, and the string operations of
--           the Rust standard library that the code calls.
-- Core      crates/agent_feed_core/src/lib.rs: the event kinds and their names (Core.Kinds,
--           Core.Names), the event and the bulletin.
-- Highlight crates/agent_feed_highlight/src/lib.rs: `score_event`, `bulletin_from_event`.
-- Redaction crates/agent_feed_redaction/src/lib.rs: `Redactor`, which hides the secrets and the paths
--           of an event.
-- Story     crates/agent_feed_story/src/lib.rs. Story.Types are the records; Story.Keys is
--           `story_key` with its derived order; Story.Window is `StoryWindow::observe` and its kin;
--           Story.Scores are `story_score`, `context_score` and the tests of a window;
--           Story.Summaries and Story.Vocabulary classify a summary (`summary_is_redundant`,
--           `active_update_summary_for_project` and others); Story.Copy writes `headline`, `deck`
--           and `lower_third`; Story.Rewrite is `story_impact_rewrite`; Story.Quality is
--           `is_low_quality_story`; Story.Signature are the update signatures; Story.Compile is the
--           gate `compile_rejection` with `compile_window` and `compile_active_update`;
--           Story.Compiler is `StoryCompiler`: `ingest` in its root, `flush` in Compiler.Flush,
--           the dedupe memory in Compiler.State and the diagnostics in Compiler.Decisions. The
--           proofs stand below it: Compiler.Invariant, Compiler.Stories, Compiler.Context.
--           Story.Bulletin is `compile_events` with `to_bulletin`.
-- Buffers   crates/agent_feed_store/src/lib.rs and crates/agent_feed_reel/src/lib.rs.
-- Security  crates/agent_feed_security/src/lib.rs.
-- Identity  crates/agent_feed_identity/src/lib.rs.
-- Proto     crates/agent_feed_p2p_proto/src/lib.rs: compatibility, signatures, topics,
--           visibilities, feed profiles, and story capsules with their content hash (Proto.Capsule).
-- Directory crates/agent_feed_directory/src/lib.rs: the query and the routes (Directory.Query,
--           Directory.Filters, Directory.Route), the entries, the store and what it shows
--           (Directory.Entry, Directory.Store, Directory.Visible), and the views of a feed and of a
--           headline (Directory.Views).
-- P2p       crates/agent_feed_p2p/src/lib.rs: the network in memory. P2p.Types is `NetworkState`;
--           P2p.Access are its tests, P2p.Fabric, P2p.Discovery and P2p.Feeds the methods of
--           `PeerNode`; P2p.Plane is the configuration of the data plane; P2p.Messages and
--           P2p.Runtime are the commands, the events and `P2pRuntime::handle`. A method is an action
--           of the monad of P2p.Monad, a function from the network to the network and its result.
--           P2p.Invariant and P2p.Runtime.Invariant carry the invariant through every run.
-- Edge      crates/agent_feed_edge/src/lib.rs: the session tokens (Edge.Sessions), the policies of a
--           publication (Edge.Access), what a session or a route sees (Edge.Visibility), the snapshot
--           store with its file (Edge.Snapshot) and `network_publish_verified` (Edge.Publish).
-- Summarize crates/agent_feed_summarize/src/lib.rs: the similarity of texts, the quality gate, the
--           publish decision (Summarize.Decision), the loop over the batches of a feed
--           (Summarize.Feed), and the clamping of texts with the tags of projects (Summarize.Clamp).
--
-- How the code is read. A stateful method is a function from the state to the state and its
-- result. A clock reading is an argument, in nanoseconds; a flush takes the reading of each
-- window's key, since `flush` reads the clock once for each story. A u8 saturates or wraps as the
-- code says; a usize counter of the diagnostics wraps at 2 ^ 64. A BTreeMap is a list of pairs
-- that insertion keeps in the order of its keys. Strings compare by code points, lengths that the
-- code takes in bytes are taken of the UTF-8 encoding.
--
-- The only loop on fuel is the `while` of `accept_story_with_extra`: it gets as many rounds as
-- there are fingerprints, which is enough since each round drops one. All else is structural
-- recursion.
--
-- The edge reads the clock once for a call, its writes to the file succeed, and its ids and times
-- are numbers; a time in the future counts as recent, as a difference below zero does.
--
-- Parameters: the lower-casing of characters beyond ASCII (the record Unicode), SHA-256 and HMAC-
-- SHA256 (Proto.Signing.Hashes), the JSON encoding of a value (Proto.Signing.Serialize) and its
-- decoding (Edge.Sessions.Deserialize), regular expressions (Summarize.Quality.Regex, Redaction.Pattern),
-- `summarize_request_inner`, which builds a summary, in the loop over a feed, and the version of
-- the package that the build sets.
--
-- Not modelled: the resolver, the login flow and the server of the edge, the encrypted envelopes
-- and the subscription grants of the protocol, the logical feed summaries of the directory, the
-- guardrails, the rewriting and the prompts of the summaries, and the crates of the adapters, the
-- command line, the local server, the transports, the login and the display. The lock around the
-- network is taken by one caller at a time, so an error of a poisoned lock is never returned.
mod Prelude
pub mod Text
pub mod Core
pub mod Directory
pub mod Highlight
pub mod Buffers
pub mod Identity
pub mod Proto
pub mod Security
pub mod P2p
pub mod Story
pub mod Summarize
pub mod Edge
pub mod Redaction
