-- ===== src/P2p/Invariant/Parts.antt =====
-- The steps of the methods, and the invariant.
use agent_feed.Directory.Store.{ensure_current_compatibility}
use agent_feed.Directory.Types.{FeedDirectoryEntry}
use agent_feed.P2p.Access.{can_receive_peer, index_directory_entry, index_under}
use agent_feed.P2p.Discovery.{admit_entry, entry_error}
use agent_feed.P2p.Fabric.{list_feed, open_inbox, participate}
use agent_feed.P2p.Feeds.{accept_capsule, capsule_is_duplicate, deliver}
use agent_feed.P2p.Feeds.Laws.{All-trim_history, length-trim_history-le}
use agent_feed.P2p.Invariant.{
  HistoryHolds, InboxHolds, IndexHolds, IsListed, IsTrusted, IsVerified, UnderOrg, UnderOwner,
  UnderTeam,
}
use agent_feed.P2p.Monad.{Ending}
use agent_feed.P2p.Types.{
  EntryMap, NetworkState, PeerNode, PeerParticipation, default_network, org_ord, role_ord, team_ord,
}
use agent_feed.Prelude.{
  All, All-append, All-get, All-insert, All-update, Bool-cases, BtreeMap, List, Ord, [], ap, arith,
  get, get-insert, if-cases, inl, inr, insert, is_eq, list_cmp, list_cmp_eq_iff, list_ord,
  map_or-cases, nat_ord, none, not, option_ord, pair_ord, refl, some_injective, unwrap_or,
  unwrap_or-cases, ℕ, ◌++◌, ◌∷◌, ◌≡◌,
}
use agent_feed.Proto.{FeedVisibility}
use agent_feed.Proto.Capsule.{StoryCapsule}
use agent_feed.Proto.Profile.{FeedProfile}
use agent_feed.Proto.Signing.{Hashes, Serialize, Signed}
use agent_feed.Proto.Topics.{feed_topic}
use agent_feed.Text.{Str}

module _ ⦃h : Hashes⦄ ⦃s : Serialize StoryCapsule⦄ ⦃d : Serialize FeedDirectoryEntry⦄
    (version : Str) where
  pub default_network-IsTrusted : IsTrusted version default_network
  unfolding default_network get
  default_network-IsTrusted = record {
    feeds = record { current_feeds = tt; topic_of = λ id profile found. cc found };
    histories = tt;
    inboxes = tt;
    directory = record { owners = tt; orgs = tt; teams = tt };
  }

  pub participate-IsTrusted :
      (peer : PeerNode) (change : PeerParticipation → PeerParticipation) (n : NetworkState)
      → IsTrusted version n
      → IsTrusted version (participate peer change n)
  unfolding participate
  participate-IsTrusted peer change n v = record {
    feeds = v.feeds;
    histories = v.histories;
    inboxes = v.inboxes;
    directory = v.directory;
  }

  pub open_inbox-IsTrusted :
      (peer : PeerNode) (n : NetworkState)
      → IsTrusted version n
      → IsTrusted version (open_inbox peer n)
  unfolding open_inbox
  open_inbox-IsTrusted peer n v = record {
    feeds = v.feeds;
    histories = v.histories;
    inboxes =
        All-update (InboxHolds version) n.inboxes peer.peer_id [] (λ inbox. inbox) v.inboxes tt
          (λ inbox held. held);
    directory = v.directory;
  }

  pub list_feed-IsTrusted :
      (profile : FeedProfile) (n : NetworkState)
      → IsTrusted version n
      → ensure_current_compatibility version profile.compatibility ≡ none
      → IsTrusted version (list_feed profile n)
  unfolding list_feed
  list_feed-IsTrusted profile n v now = record {
    feeds = record {
      current_feeds =
          All-insert _ n.feeds profile.feed_id profile v.feeds.current_feeds (refl, now);
      topic_of = λ id other found.
          let feeds = get-insert n.feeds profile.feed_id profile id in
          let topics =
            get-insert n.topics profile.feed_id (feed_topic profile.network_id profile.feed_id)
              id in
          elim (Bool-cases (is_eq (list_cmp id profile.feed_id))) [
            | inl same ↦
                let name : id ≡ profile.feed_id =
                  ground (arith, list_cmp_eq_iff id profile.feed_id) in
                let new : profile ≡ other = some_injective (cc (feeds, found, same)) in
                cc (topics, same, name, ap (λ (p : FeedProfile). p.network_id) new)
            | inr apart ↦ cc (topics, apart, v.feeds.topic_of id other (cc (feeds, found, apart)))
          ];
    };
    histories = v.histories;
    inboxes = v.inboxes;
    directory = v.directory;
  }

  pub admit_entry-IsListed :
      (peer : PeerNode) (entry : FeedDirectoryEntry) (n : NetworkState)
      → admit_entry version peer entry n ≡ none
      → IsListed version entry
  unfolding admit_entry entry_error
  admit_entry-IsListed peer entry n h = record {
    current = ground arith;
    verified = ground arith;
    access = ground arith;
  }

  index_under-holds :
      {K : Type 0} ⦃o : Ord K⦄ (Under : K → FeedDirectoryEntry → Type 0)
      (index : BtreeMap K EntryMap) (key : K) (entry : FeedDirectoryEntry)
      → All (IndexHolds version Under) index
      → IsListed version entry
      → Under key entry
      → All (IndexHolds version Under) (index_under index key entry)
  unfolding index_under insert
  index_under-holds Under index key entry v listed under =
      All-update (IndexHolds version Under) index key [] _ v ((listed, refl, under), tt)
        (λ entries held. All-insert _ entries entry.feed_id entry held (listed, refl, under))

  pub index_directory_entry-IsTrusted :
      (entry : FeedDirectoryEntry) (n : NetworkState)
      → IsTrusted version n
      → IsListed version entry
      → IsTrusted version (index_directory_entry entry n)
  unfolding index_directory_entry
  index_directory_entry-IsTrusted entry n v listed = record {
    feeds = v.feeds;
    histories = v.histories;
    inboxes = v.inboxes;
    directory = record {
      owners =
          index_under-holds (UnderOwner version) n.directory entry.owner.github_user_id entry
            v.directory.owners listed refl;
      orgs =
          map_or-cases (All (IndexHolds version (UnderOrg version))) entry.access.github_org _ _
            (λ absent. v.directory.orgs)
            (λ name found.
              index_under-holds (UnderOrg version) n.org_directory name entry v.directory.orgs
                listed found);
      teams =
          map_or-cases (All (IndexHolds version (UnderTeam version))) entry.access.github_org _ _
            (λ absent. v.directory.teams)
            (λ name found.
              map_or-cases (All (IndexHolds version (UnderTeam version))) entry.access.github_team _
                _ (λ absent. v.directory.teams)
                (λ team given.
                  index_under-holds (UnderTeam version) n.team_directory (name, team) entry
                    v.directory.teams listed (found, given)));
    };
  }

  deliver-IsTrusted :
      (feed_id : Str) (visibility : FeedVisibility) (signed : Signed StoryCapsule)
      (subscribers : List Str) (n : NetworkState) (delivered : ℕ)
      → IsTrusted version n
      → IsVerified version signed
      → IsTrusted version (deliver feed_id visibility signed subscribers (n, delivered)).0
  unfolding deliver
  deliver-IsTrusted feed_id visibility signed [] n delivered v good = v
  deliver-IsTrusted feed_id visibility signed (peer ∷ peers) n delivered v good =
      if-cases
        (λ (r : NetworkState × ℕ). IsTrusted version (deliver feed_id visibility signed peers r).0)
        (not (can_receive_peer n feed_id peer visibility)) _ _
        (λ refused. deliver-IsTrusted feed_id visibility signed peers n delivered v good)
        (λ allowed.
          deliver-IsTrusted feed_id visibility signed peers _ _
            (record {
              feeds = v.feeds;
              histories = v.histories;
              inboxes =
                  All-update (InboxHolds version) n.inboxes peer [] (λ inbox. inbox ++ signed ∷ [])
                    v.inboxes (good, tt)
                    (λ inbox held.
                      All-append (IsVerified version) inbox (signed ∷ []) held (good, tt));
              directory = v.directory;
            })
            good)

  pub accept_capsule-IsTrusted :
      (visibility : FeedVisibility) (signed : Signed StoryCapsule) (n : NetworkState)
      → IsTrusted version n
      → IsVerified version signed
      → IsTrusted version (accept_capsule visibility signed n).0
  unfolding accept_capsule
  accept_capsule-IsTrusted visibility signed n v good =
      let feed_id = signed.value.feed_id in
      let history = unwrap_or (get n.history feed_id) [] in
      let Fits = λ (c : Signed StoryCapsule). IsVerified version c × (c.value.feed_id ≡ feed_id) in
      let held : HistoryHolds version n.history_capacity (feed_id, history) =
        unwrap_or-cases (λ c. HistoryHolds version n.history_capacity (feed_id, c))
          (get n.history feed_id) [] (λ absent. (omega arith, tt))
          (λ c found. All-get _ n.history feed_id c v.histories found) in
      if-cases (λ (r : Ending ℕ). IsTrusted version r.0) (capsule_is_duplicate history signed.value)
        _ _
        (λ duplicate. record {
          feeds = v.feeds;
          histories = All-insert _ n.history feed_id history v.histories held;
          inboxes = v.inboxes;
          directory = v.directory;
        })
        (λ new.
          deliver-IsTrusted feed_id visibility signed _ _ 0
            (record {
              feeds = v.feeds;
              histories = All-insert _ n.history feed_id _ v.histories (
                length-trim_history-le n.history_capacity (history ++ signed ∷ []),
                All-trim_history Fits n.history_capacity (history ++ signed ∷ [])
                    (All-append Fits history (signed ∷ []) held.1 ((good, refl), tt)),
              );
              inboxes = v.inboxes;
              directory = v.directory;
            })
            good)
