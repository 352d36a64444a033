-- ===== src/P2p/Monad/Atomic.antt =====
-- A method that fails has changed nothing.
use agent_feed.P2p.Monad.{Action, Ending, either, stop}
use agent_feed.P2p.Monad.Laws.{guard-cases, read-cases}
use agent_feed.P2p.Types.{NetworkState, P2pError}
use agent_feed.Prelude.{Option, inl, inr, map_or, refl, ◌≡◌, ◌⊎◌}

-- A call that ends with an error leaves the network as it found it.
abbrev pub Undone : {A : Type 0} → NetworkState → Ending A → Type 0
Undone n r = (e : P2pError) → r.1 ≡ inl e → r.0 ≡ n

abbrev pub IsAtomic : {A : Type 0} → Action A → Type 0
IsAtomic m = (n : NetworkState) → Undone n (m n)

module _ {A : Type 0} (n : NetworkState) where
  pub guard-Undone :
      (o : Option P2pError) (rest : Ending A) → Undone n rest → Undone n (map_or o rest (stop n))
  guard-Undone o rest undone =
      guard-cases (Undone n) o n rest (λ e other failed. refl) (λ passed. undone)

  pub read-Undone :
      {B : Type 0} (r : P2pError ⊎ B) (rest : B → Ending A)
      → ((b : B) → Undone n (rest b))
      → Undone n (either r (stop n) rest)
  read-Undone r rest undone =
      read-cases (Undone n) r n rest (λ e other failed. refl) (λ b found. undone b)

  pub done-Undone : (after : NetworkState) (a : A) → Undone n (after, inr a)
  done-Undone after a e failed = cc
