-- ===== src/Edge/Access/Laws.antt =====
-- What a policy that is accepted for publication shows, and to whom.
use mathlib.Core.Path.{subst}
use agent_feed.Directory.Entry.{access_fits, org_access, public_access, team_access}
use agent_feed.Directory.Types.{FeedAccessPolicy}
use agent_feed.Edge.Access.{
  NetworkPublishRequest, org_policy_of, parsed, policy_for, publish_access_policy,
  session_can_access_policy, team_policy_of,
}
use agent_feed.Edge.Sessions.{VerifiedSession, has_scope, session_permits_org, session_permits_team}
use agent_feed.Identity.{GithubOrgName, GithubTeamSlug, parse_org, parse_team_slug}
use agent_feed.Prelude.{
  Gives, arith, false, if-cases, inl, inr, list_beq, none, not, refl, result_then-Gives,
  result_then-any, some, true, unwrap_or, ◌≡◌, ◌⊎◌,
}
use agent_feed.Proto.{FeedVisibility, visibility_as_str}
use agent_feed.Text.{chars}

-- The publisher sees what it publishes, and only a public policy is seen without a session.
pub record IsGranted (session : VerifiedSession) (visibility : FeedVisibility)
    (access : FeedAccessPolicy) : Type 0 where
  pub own : session_can_access_policy (some session) (visibility_as_str visibility) access ≡ true
  pub others :
      (visibility ≡ FeedVisibility.public)
      ⊎ (session_can_access_policy none (visibility_as_str visibility) access ≡ false)
  pub fits : access_fits visibility access ≡ true

org_access-IsGranted :
    (session : VerifiedSession) (name : GithubOrgName)
    → session_permits_org session name ≡ true
    → IsGranted session FeedVisibility.github_org (org_access name)
unfolding session_can_access_policy visibility_as_str access_fits org_access list_beq
org_access-IsGranted session name member = record { own = member; others = inr refl; fits = refl }

team_access-IsGranted :
    (session : VerifiedSession) (name : GithubOrgName) (team : GithubTeamSlug)
    → session_permits_team session name team ≡ true
    → IsGranted session FeedVisibility.github_team (team_access name team)
unfolding session_can_access_policy visibility_as_str access_fits team_access list_beq
team_access-IsGranted session name team member = record {
  own = member;
  others = inr refl;
  fits = refl;
}

module _ (request : NetworkPublishRequest) (session : VerifiedSession) where
  org_policy_of-IsGranted :
      Gives (IsGranted session FeedVisibility.github_org) (org_policy_of request session)
  unfolding org_policy_of
  org_policy_of-IsGranted =
      let Granted = IsGranted session FeedVisibility.github_org in
      if-cases (Gives Granted) (not (has_scope session (chars "read:org"))) _ _ (λ missing. tt)
        λ scoped. result_then-any Granted _ _ λ name.
          result_then-any Granted (parsed (parse_org name)) _ λ name.
            if-cases (Gives Granted) (not (session_permits_org session name)) _
              (inr (org_access name)) (λ stranger. tt)
              (λ member. org_access-IsGranted session name (ground arith))

  team_policy_of-IsGranted :
      Gives (IsGranted session FeedVisibility.github_team) (team_policy_of request session)
  unfolding team_policy_of
  team_policy_of-IsGranted =
      let Granted = IsGranted session FeedVisibility.github_team in
      if-cases (Gives Granted) (not (has_scope session (chars "read:org"))) _ _ (λ missing. tt)
        λ scoped. result_then-any Granted _ _ λ org. result_then-any Granted _ _ λ slug.
          result_then-any Granted (parsed (parse_org org)) _ λ name.
            result_then-any Granted (parsed (parse_team_slug slug)) _ λ team.
              if-cases (Gives Granted) (not (session_permits_team session name team)) _
                (inr (team_access name team)) (λ stranger. tt)
                (λ member. team_access-IsGranted session name team (ground arith))

  policy_for-IsGranted :
      (visibility : FeedVisibility)
      → Gives (IsGranted session visibility) (policy_for visibility request session)
  unfolding policy_for session_can_access_policy visibility_as_str access_fits list_beq
      public_access
  policy_for-IsGranted FeedVisibility.public = record { own = refl; others = inl refl; fits = refl }
  policy_for-IsGranted FeedVisibility.github_org = org_policy_of-IsGranted
  policy_for-IsGranted FeedVisibility.github_team = team_policy_of-IsGranted
  policy_for-IsGranted FeedVisibility.hidden = tt
  policy_for-IsGranted FeedVisibility.github_user = tt
  policy_for-IsGranted FeedVisibility.github_repo = tt

  pub publish_access_policy-grants :
      Gives
        (λ (p : FeedVisibility × FeedAccessPolicy). IsGranted session p.0 p.1)
        (publish_access_policy request session)
  unfolding publish_access_policy
  publish_access_policy-grants =
      let asked = unwrap_or request.visibility FeedVisibility.public in
      result_then-Gives (IsGranted session asked) _ _ _ (policy_for-IsGranted asked)
        (λ policy granted. granted)

  pub publish_access_policy-IsGranted :
      (visibility : FeedVisibility) (access : FeedAccessPolicy)
      → publish_access_policy request session ≡ inr (visibility, access)
      → IsGranted session visibility access
  publish_access_policy-IsGranted visibility access accepted =
      subst (Gives λ (p : FeedVisibility × FeedAccessPolicy). IsGranted session p.0 p.1) accepted
        publish_access_policy-grants
