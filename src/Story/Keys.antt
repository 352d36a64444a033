-- ===== src/Story/Keys.antt =====
-- The key of a window: its order, and the key and family of an event.
use mathlib.Core.Path.{subst}
use agent_feed.Core.{AgentEvent, EventKind}
use agent_feed.Prelude.{
  Bool, Ord, Ordering, compare, false, if◌then◌else◌, list_cmp, list_cmp_eq_iff, list_eq, list_ord,
  nat_eq, nat_ord, none, option_cmp, option_cmp_eq_iff, option_eq, option_ord, pair_eq, pair_ord,
  rank_cmp_eq_iff, refl, then_with, then_with-eq, true, ℕ, ◌==◌, ◌↔◌, ◌≡◌,
}
use agent_feed.Story.Types.{StoryFamily, StoryKey}
use agent_feed.Text.{Str, chars}

unfoldable pub family_rank : StoryFamily → ℕ
family_rank StoryFamily.turn = 0
family_rank StoryFamily.plan = 1
family_rank StoryFamily.test = 2
family_rank StoryFamily.permission = 3
family_rank StoryFamily.command = 4
family_rank StoryFamily.file_change = 5
family_rank StoryFamily.mcp = 6
family_rank StoryFamily.incident = 7
family_rank StoryFamily.idle_recap = 8

unfoldable pub family_cmp : StoryFamily → StoryFamily → Ordering
family_cmp a b = compare (family_rank a) (family_rank b)

unfoldable pub family_of_rank : ℕ → StoryFamily
family_of_rank n =
    if n == 0
    then StoryFamily.turn
    else if n == 1
    then StoryFamily.plan
    else if n == 2
    then StoryFamily.test
    else if n == 3
    then StoryFamily.permission
    else if n == 4
    then StoryFamily.command
    else if n == 5
    then StoryFamily.file_change
    else if n == 6
    then StoryFamily.mcp
    else if n == 7
    then StoryFamily.incident
    else StoryFamily.idle_recap

family_of_rank_left : (f : StoryFamily) → family_of_rank (family_rank f) ≡ f
unfolding family_of_rank family_rank
family_of_rank_left StoryFamily.turn = refl
family_of_rank_left _ = refl

pub family_cmp_eq_iff : (a b : StoryFamily) → (family_cmp a b ≡ Ordering.eq) ↔ (a ≡ b)
unfolding family_cmp
family_cmp_eq_iff = rank_cmp_eq_iff family_rank family_of_rank family_of_rank_left

-- `derive(Ord)`: the fields in turn.
unfoldable pub key_cmp : StoryKey → StoryKey → Ordering
key_cmp a b = then_with (option_cmp a.feed_id b.feed_id) (
    then_with (list_cmp a.agent b.agent) (
      then_with (option_cmp a.project_hash b.project_hash) (
        then_with (option_cmp a.session_id b.session_id)
          (then_with (option_cmp a.turn_id b.turn_id) (family_cmp a.family b.family)))))

key_cmp-eq : (a b : StoryKey) → key_cmp a b ≡ Ordering.eq → a ≡ b
unfolding key_cmp
key_cmp-eq a b h =
    let (e0, h1) = (then_with-eq _ _).0 h in
    let (e1, h2) = (then_with-eq _ _).0 h1 in
    let (e2, h3) = (then_with-eq _ _).0 h2 in
    let (e3, h4) = (then_with-eq _ _).0 h3 in
    let (e4, e5) = (then_with-eq _ _).0 h4 in
    let p0 = (option_cmp_eq_iff a.feed_id b.feed_id).0 e0 in
    let p1 = (list_cmp_eq_iff a.agent b.agent).0 e1 in
    let p2 = (option_cmp_eq_iff a.project_hash b.project_hash).0 e2 in
    let p3 = (option_cmp_eq_iff a.session_id b.session_id).0 e3 in
    let p4 = (option_cmp_eq_iff a.turn_id b.turn_id).0 e4 in
    let p5 = (family_cmp_eq_iff a.family b.family).0 e5 in
    λ i. record {
      feed_id = p0 i;
      agent = p1 i;
      project_hash = p2 i;
      session_id = p3 i;
      turn_id = p4 i;
      family = p5 i;
    }

key_cmp_refl : (a : StoryKey) → key_cmp a a ≡ Ordering.eq
unfolding key_cmp
key_cmp_refl a =
    rw
      (
        (option_cmp_eq_iff a.feed_id a.feed_id).1 refl,
        (list_cmp_eq_iff a.agent a.agent).1 refl,
        (option_cmp_eq_iff a.project_hash a.project_hash).1 refl,
        (option_cmp_eq_iff a.session_id a.session_id).1 refl,
        (option_cmp_eq_iff a.turn_id a.turn_id).1 refl,
      )
      ((family_cmp_eq_iff a.family a.family).1 refl)

-- Two window keys compare as equal in the derived order if and only if they are equal.
pub key_cmp_eq_iff : (a b : StoryKey) → (key_cmp a b ≡ Ordering.eq) ↔ (a ≡ b)
key_cmp_eq_iff a b =
    (key_cmp-eq a b, λ p. subst (λ k. key_cmp a k ≡ Ordering.eq) p (key_cmp_refl a))

instance abbrev pub key_ord : Ord StoryKey
key_ord = record { cmp = key_cmp; cmp_eq_iff = key_cmp_eq_iff }

unfoldable pub family_for : EventKind → StoryFamily
family_for EventKind.plan_update = StoryFamily.plan
family_for EventKind.test_pass = StoryFamily.test
family_for EventKind.test_fail = StoryFamily.test
family_for EventKind.permission_request = StoryFamily.permission
family_for EventKind.permission_denied = StoryFamily.permission
family_for EventKind.command_exec = StoryFamily.command
family_for EventKind.tool_start = StoryFamily.command
family_for EventKind.tool_complete = StoryFamily.command
family_for EventKind.file_changed = StoryFamily.file_change
family_for EventKind.diff_created = StoryFamily.file_change
family_for EventKind.mcp_call = StoryFamily.mcp
family_for EventKind.mcp_fail = StoryFamily.mcp
family_for EventKind.tool_fail = StoryFamily.incident
family_for EventKind.turn_fail = StoryFamily.incident
family_for EventKind.error = StoryFamily.incident
family_for EventKind.summary_created = StoryFamily.idle_recap
family_for _ = StoryFamily.turn

unfoldable pub story_key : AgentEvent → StoryKey
story_key event = record {
  feed_id = none;
  agent = event.agent;
  project_hash = event.project;
  session_id = event.session_id;
  turn_id = event.turn_id;
  family = family_for event.kind;
}

-- Tests for one family, in place of `==`.
abbrev pub is_turn : StoryFamily → Bool
is_turn StoryFamily.turn = true
is_turn _ = false

abbrev pub is_family : StoryFamily → StoryFamily → Bool
is_family a b = elim (family_cmp a b) [ Ordering.eq ↦ true | _ ↦ false ]

unfoldable pub story_family_label : StoryFamily → Str
story_family_label StoryFamily.turn = chars "turn"
story_family_label StoryFamily.plan = chars "plan"
story_family_label StoryFamily.test = chars "test"
story_family_label StoryFamily.permission = chars "permission"
story_family_label StoryFamily.command = chars "command"
story_family_label StoryFamily.file_change = chars "file-change"
story_family_label StoryFamily.mcp = chars "mcp"
story_family_label StoryFamily.incident = chars "incident"
story_family_label StoryFamily.idle_recap = chars "recap"

-- `{:?}` of the family
unfoldable pub family_debug : StoryFamily → Str
family_debug StoryFamily.turn = chars "Turn"
family_debug StoryFamily.plan = chars "Plan"
family_debug StoryFamily.test = chars "Test"
family_debug StoryFamily.permission = chars "Permission"
family_debug StoryFamily.command = chars "Command"
family_debug StoryFamily.file_change = chars "FileChange"
family_debug StoryFamily.mcp = chars "Mcp"
family_debug StoryFamily.incident = chars "Incident"
family_debug StoryFamily.idle_recap = chars "IdleRecap"

-- Opens the definitions of this module in a run.
unfoldable pub run_keys : Unit {0}
unfolding family_rank family_cmp family_of_rank key_cmp family_for story_key story_family_label
    family_debug
run_keys = tt
