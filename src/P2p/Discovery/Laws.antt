-- ===== src/P2p/Discovery/Laws.antt =====
-- What a discovery may show.
use mathlib.Core.Path.{subst}
use agent_feed.Directory.Types.{FeedDirectoryEntry}
use agent_feed.Identity.{GithubOrgName, GithubTeamSlug, GithubUserId}
use agent_feed.P2p.Access.{is_certified, is_team_certified, peer_can_cache_directory_entry}
use agent_feed.P2p.Discovery.{
  discover_github_org, discover_github_team, discover_github_user, entry_values,
}
use agent_feed.P2p.Fabric.{ensure_compatible}
use agent_feed.P2p.Invariant.{IndexHolds, IsListed, IsTrusted, UnderOrg, UnderOwner, UnderTeam}
use agent_feed.P2p.Monad.{Ending, refuse_if}
use agent_feed.P2p.Monad.Laws.{guard-cases}
use agent_feed.P2p.Types.{EntryMap, NetworkState, P2pError, PeerNode, org_ord, role_ord, team_ord}
use agent_feed.Prelude.{
  All, All-get, Bool, Bool-cases, BtreeMap, List, Ord, [], arith, filter, get, inl, inr,
  inr_injective, list_ord, map_or, map_or-cases, nat_ord, not, option_ord, pair_ord, true, ◌++◌,
  ◌∷◌, ◌≡◌,
}
use agent_feed.Proto.Capsule.{StoryCapsule}
use agent_feed.Proto.Signing.{Hashes, Serialize}
use agent_feed.Text.{Str, chars}

All-filter-true :
    {A : Type 0} (P : A → Type 0) (p : A → Bool) (xs : List A)
    → All P xs
    → All (λ x. P x × (p x ≡ true)) (filter p xs)
All-filter-true P p [] v = tt
All-filter-true P p (x ∷ xs) v = elim (Bool-cases (p x)) [
  | inl shown ↦ rw shown ((v.0, shown), All-filter-true P p xs v.1)
  | inr hidden ↦ rw hidden (All-filter-true P p xs v.1)
]

module _ ⦃h : Hashes⦄ ⦃s : Serialize StoryCapsule⦄ ⦃d : Serialize FeedDirectoryEntry⦄
    (version : Str) where
  entry_values-hold :
      {K : Type 0} (Under : K → FeedDirectoryEntry → Type 0) (key : K) (entries : EntryMap)
      → IndexHolds version Under (key, entries)
      → All (λ entry. IsListed version entry × Under key entry) (entry_values entries)
  entry_values-hold Under key [] v = tt
  entry_values-hold Under key (e ∷ entries) v =
      ((v.0.0, v.0.2), entry_values-hold Under key entries v.1)

  index-hold :
      {K : Type 0} ⦃o : Ord K⦄ (Under : K → FeedDirectoryEntry → Type 0)
      (index : BtreeMap K EntryMap) (key : K)
      → All (IndexHolds version Under) index
      → All
          (λ entry. IsListed version entry × Under key entry)
          (map_or (get index key) [] entry_values)
  index-hold Under index key v =
      map_or-cases (All (λ entry. IsListed version entry × Under key entry)) (get index key) [] _
        (λ absent. tt)
        (λ entries found.
          entry_values-hold Under key entries
            (All-get (IndexHolds version Under) index key entries v found))

  -- In a trusted network every entry that a peer discovers of a user is the user's own, of the
  -- current version and verified, has an access policy that fits its visibility, and is one that
  -- the peer may cache.
  pub discover_github_user-IsListed :
      (n : NetworkState) (peer : PeerNode) (id : GithubUserId) (entries : List FeedDirectoryEntry)
      → IsTrusted version n
      → (discover_github_user version peer id n).1 ≡ inr entries
      → All
          (λ entry.
            (IsListed version entry × (entry.owner.github_user_id ≡ id))
            × (peer_can_cache_directory_entry n peer.peer_id entry ≡ true))
          entries
  unfolding discover_github_user
  discover_github_user-IsListed n peer id entries v =
      let Fits = λ (entry : FeedDirectoryEntry).
        IsListed version entry × (entry.owner.github_user_id ≡ id) in
      let may_cache = peer_can_cache_directory_entry n peer.peer_id in
      let Shown = λ (entry : FeedDirectoryEntry). Fits entry × (may_cache entry ≡ true) in
      guard-cases (λ (r : Ending (List FeedDirectoryEntry)). r.1 ≡ inr entries → All Shown entries)
        (ensure_compatible version peer) n _ (λ e r. cc)
        (λ passed r. subst (All Shown) (inr_injective r) (
          map_or-cases (All Shown) (get n.directory id) [] _ (λ absent. tt)
            (λ found there. All-filter-true Fits may_cache (entry_values found) (
              entry_values-hold (UnderOwner version) id found (
                All-get (IndexHolds version (UnderOwner version)) n.directory id found
                  v.directory.owners there)))))

  -- A team's entries are shown to a peer that is certified for the team.
  pub discover_github_team-IsCertified :
      (n : NetworkState) (peer : PeerNode) (name : GithubOrgName) (team : GithubTeamSlug)
      (entries : List FeedDirectoryEntry)
      → IsTrusted version n
      → (discover_github_team version peer name team n).1 ≡ inr entries
      → (is_team_certified n peer.peer_id name team ≡ true)
        × All (λ entry. IsListed version entry × UnderTeam version (name, team) entry) entries
  unfolding discover_github_team
  discover_github_team-IsCertified n peer name team entries v =
      let Fits = λ (entry : FeedDirectoryEntry).
        IsListed version entry × UnderTeam version (name, team) entry in
      let Goal = λ (r : Ending (List FeedDirectoryEntry)).
        r.1 ≡ inr entries
        → (is_team_certified n peer.peer_id name team ≡ true) × All Fits entries in
      guard-cases Goal (ensure_compatible version peer) n _ (λ e r. cc)
        λ passed.
          guard-cases Goal
            (refuse_if (not (is_team_certified n peer.peer_id name team)) (
              P2pError.subscription_denied
                (chars "github-team:" ++ name.org ++ chars "/" ++ team.slug)))
            n _ (λ e r. cc)
            λ certified r. (
              ground arith,
              subst (All Fits) (inr_injective r)
                  (index-hold (UnderTeam version) n.team_directory (name, team) v.directory.teams),
            )

  -- An organisation's entries are shown to a peer that is certified for it.
  pub discover_github_org-IsCertified :
      (n : NetworkState) (peer : PeerNode) (name : GithubOrgName)
      (entries : List FeedDirectoryEntry)
      → IsTrusted version n
      → (discover_github_org version peer name n).1 ≡ inr entries
      → (is_certified n peer.peer_id name ≡ true)
        × All (λ entry. IsListed version entry × UnderOrg version name entry) entries
  unfolding discover_github_org
  discover_github_org-IsCertified n peer name entries v =
      let Fits =
        λ (entry : FeedDirectoryEntry). IsListed version entry × UnderOrg version name entry in
      let Goal = λ (r : Ending (List FeedDirectoryEntry)).
        r.1 ≡ inr entries → (is_certified n peer.peer_id name ≡ true) × All Fits entries in
      guard-cases Goal (ensure_compatible version peer) n _ (λ e r. cc)
        λ passed.
          guard-cases Goal
            (refuse_if (not (is_certified n peer.peer_id name))
              (P2pError.subscription_denied (chars "github-org:" ++ name.org)))
            n _ (λ e r. cc)
            λ certified r. (
              ground arith,
              subst (All Fits) (inr_injective r)
                  (index-hold (UnderOrg version) n.org_directory name v.directory.orgs),
            )
