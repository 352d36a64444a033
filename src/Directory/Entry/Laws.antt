-- ===== src/Directory/Entry/Laws.antt =====
-- The constructors of entries, against the tests of the directory.
use mathlib.Core.Path.{subst}
use agent_feed.Directory.Entry.{
  access_fits, access_matches_visibility, identity_result, org_access, restrict_entry,
  same_visibility, sign_entry, team_access, verify_entry, with_github_org, with_github_team,
}
use agent_feed.Directory.Types.{
  DirectoryError, FeedAccessPolicy, FeedDirectoryEntry, StreamDescriptor,
}
use agent_feed.Identity.{IdentityError, parse_org, parse_team_slug}
use agent_feed.Prelude.{
  Bool, List, Option-cases, [], all, ap, arith, inl, inr, map, refl, result_then, some,
  some_injective, true, ◌&&◌, ◌∷◌, ◌≡◌, ◌⊎◌,
}
use agent_feed.Proto.{FeedVisibility}
use agent_feed.Proto.Laws.{signature_beq_refl}
use agent_feed.Proto.Signing.{
  Hashes, Serialize, Signature, for_value, sha256_signature_digest, unsigned,
}
use agent_feed.Text.{Str}

-- What a result gives has a true test.
abbrev Passes : (FeedDirectoryEntry → Bool) → DirectoryError ⊎ FeedDirectoryEntry → Type 0
Passes test (inl e) = Unit
Passes test (inr entry) = test entry ≡ true

streams-fit :
    (visibility : FeedVisibility) (access : FeedAccessPolicy) (streams : List StreamDescriptor)
    → access_fits visibility access ≡ true
    → all
        (λ (stream : StreamDescriptor).
          same_visibility stream.visibility visibility
          && access_fits stream.visibility stream.access)
        (map
          (λ (stream : StreamDescriptor). record stream {
            visibility = visibility;
            access = access;
          })
          streams)
      ≡ true
streams-fit visibility access [] h = refl
streams-fit visibility access (stream ∷ streams) h =
    let same : same_visibility visibility visibility ≡ true = ground arith in
    ground (arith, h, same, streams-fit visibility access streams h)

restricted-matches :
    (entry : FeedDirectoryEntry) (visibility : FeedVisibility) (access : FeedAccessPolicy)
    (namespace : Str)
    → access_fits visibility access ≡ true
    → access_matches_visibility (restrict_entry entry visibility access namespace) ≡ true
unfolding access_matches_visibility restrict_entry
restricted-matches entry visibility access namespace h =
    cc (h, streams-fit visibility access entry.stream_descriptors h)

named-Passes :
    {A : Type 0} (test : FeedDirectoryEntry → Bool) (r : IdentityError ⊎ A)
    (f : A → DirectoryError ⊎ FeedDirectoryEntry)
    → ((a : A) → Passes test (f a))
    → Passes test (result_then (identity_result r) f)
unfolding result_then
named-Passes test (inl e) f h = tt
named-Passes test (inr a) f h = h a

module _ ⦃h : Hashes⦄ where
  org-matches :
      (entry : FeedDirectoryEntry) (name : Str)
      → Passes access_matches_visibility (with_github_org entry name)
  unfolding with_github_org access_fits org_access
  org-matches entry name =
      named-Passes access_matches_visibility (parse_org name) _
        λ org. restricted-matches entry FeedVisibility.github_org (org_access org) _ refl

  team-matches :
      (entry : FeedDirectoryEntry) (name team : Str)
      → Passes access_matches_visibility (with_github_team entry name team)
  unfolding with_github_team access_fits team_access
  team-matches entry name team = named-Passes access_matches_visibility (parse_org name) _ λ org.
      named-Passes access_matches_visibility (parse_team_slug team) _
        λ slug. restricted-matches entry FeedVisibility.github_team (team_access org slug) _ refl

  -- An entry that is restricted to an organisation or to a team, whatever it was before, has an
  -- access policy that fits its visibility, in the entry and in each of its streams.
  pub with_github-matches :
      (entry restricted : FeedDirectoryEntry) (name team : Str)
      → (with_github_org entry name ≡ inr restricted)
        ⊎ (with_github_team entry name team ≡ inr restricted)
      → access_matches_visibility restricted ≡ true
  with_github-matches entry restricted name team (inl e) =
      subst (Passes access_matches_visibility) e (org-matches entry name)
  with_github-matches entry restricted name team (inr e) =
      subst (Passes access_matches_visibility) e (team-matches entry name team)

  module _ ⦃s : Serialize FeedDirectoryEntry⦄ where
    -- An entry that is signed verifies, whatever signature it carried before.
    pub verify_entry-sign_entry :
        (entry signed : FeedDirectoryEntry) (key_id : Str)
        → sign_entry entry key_id ≡ some signed
        → verify_entry signed ≡ some true
    unfolding sign_entry verify_entry for_value
    verify_entry-sign_entry entry signed key_id e =
        let blank = record entry { signature = unsigned } in
        elim (Option-cases (s.to_vec blank)) [
          | inl lost ↦ cc (e, lost)
          | inr (payload, made) ↦
              let signature : Signature = record {
                key_id = key_id;
                digest = sha256_signature_digest key_id payload;
              } in
              let same : record blank { signature = signature } ≡ signed =
                some_injective (cc (e, made)) in
              subst (λ x. verify_entry x ≡ some true) same
                (rw made (ap some (signature_beq_refl signature)))
        ]
