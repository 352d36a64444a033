-- ===== src/Buffers/Laws.antt =====
-- What the buffers hold after any sequence of pushes.
use agent_feed.Buffers.{
  InMemoryStore, ReelBuffer, new_reel, new_store, reel_push, reel_snapshot, store_push,
}
use agent_feed.Core.{AgentEvent, Bulletin}
use agent_feed.Prelude.{
  List, [], arith, drop, last?, length, max, push_all, push_all-eq-last, refl, suc, zero, ℕ, ◌-◌,
  ◌<◌, ◌∷◌, ◌≡◌, ◌≤◌,
}

abbrev pub store_all : InMemoryStore → List AgentEvent → InMemoryStore
store_all store [] = store
store_all store (event ∷ events) = store_all (store_push store event) events

abbrev pub reel_all : ReelBuffer → List Bulletin → ReelBuffer
reel_all reel [] = reel
reel_all reel (bulletin ∷ bulletins) = reel_all (reel_push reel bulletin) bulletins

store_all-push_all :
    (store : InMemoryStore) (events : List AgentEvent)
    → (store_all store events).events ≡ push_all store.capacity store.events events
unfolding store_push push_all
store_all-push_all store [] = refl
store_all-push_all store (event ∷ events) = store_all-push_all (store_push store event) events

reel_all-push_all :
    (reel : ReelBuffer) (bulletins : List Bulletin)
    → (reel_all reel bulletins).bulletins ≡ push_all reel.capacity reel.bulletins bulletins
unfolding reel_push push_all
reel_all-push_all reel [] = refl
reel_all-push_all reel (bulletin ∷ bulletins) =
    reel_all-push_all (reel_push reel bulletin) bulletins

-- After any pushes a new store holds the last of the events pushed, as many as its capacity, and
-- one where the capacity given is 0.
pub store-holds_last :
    (capacity : ℕ) (events : List AgentEvent)
    → (store_all (new_store capacity) events).events ≡ drop (length events - max capacity 1) events
unfolding new_store
store-holds_last capacity events = cc (
  store_all-push_all (new_store capacity) events,
  push_all-eq-last (max capacity 1) events (omega arith),
)

last?-drop : {A : Type 0} (n : ℕ) (xs : List A) → n < length xs → last? (drop n xs) ≡ last? xs
last?-drop zero xs h = refl
last?-drop (suc n) [] h = absurd (omega arith)
last?-drop (suc n) (x ∷ []) h = absurd (omega arith)
last?-drop (suc n) (x ∷ y ∷ ys) h = last?-drop n (y ∷ ys) (omega arith)

last?-kept :
    {A : Type 0} (capacity : ℕ) (xs : List A)
    → 1 ≤ capacity
    → last? (drop (length xs - capacity) xs) ≡ last? xs
last?-kept capacity [] h = let start : 0 - capacity ≡ 0 = omega arith in rw start refl
last?-kept capacity (x ∷ xs) h = last?-drop _ (x ∷ xs) (omega arith)

-- After any pushes the snapshot of a new buffer shows the last of the bulletins pushed, as many as
-- its capacity, and one where the capacity given is 0; the active one is the last that was pushed.
pub reel_snapshot-shows_last :
    (capacity : ℕ) (bulletins : List Bulletin) (now : ℕ)
    → let snapshot = reel_snapshot (reel_all (new_reel capacity) bulletins) now in
      (snapshot.bulletins ≡ drop (length bulletins - max capacity 1) bulletins)
      × (snapshot.active ≡ last? bulletins)
unfolding reel_snapshot new_reel
reel_snapshot-shows_last capacity bulletins now =
    let held : (reel_all (new_reel capacity) bulletins).bulletins
        ≡ drop (length bulletins - max capacity 1) bulletins =
      cc (
        reel_all-push_all (new_reel capacity) bulletins,
        push_all-eq-last (max capacity 1) bulletins (omega arith),
      ) in
    (held, cc (held, last?-kept (max capacity 1) bulletins (omega arith)))
