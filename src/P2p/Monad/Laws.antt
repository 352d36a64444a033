-- ===== src/P2p/Monad/Laws.antt =====
-- What a method leaves, by how its first step ends.
use agent_feed.P2p.Monad.{Ending, either, refuse_if, stop}
use agent_feed.P2p.Types.{NetworkState, P2pError}
use agent_feed.Prelude.{
  Bool, Option, arith, false, inl, inr, map_or, none, or_else, refl, some, ◌≡◌, ◌⊎◌,
}

module _ {B : Type 0} (P : Ending B → Type 0) where
  pub guard-cases :
      (o : Option P2pError) (state : NetworkState) (rest : Ending B)
      → ((e : P2pError) → P (stop state e))
      → (o ≡ none → P rest)
      → P (map_or o rest (stop state))
  guard-cases none state rest refused passed = passed refl
  guard-cases (some e) state rest refused passed = refused e

  pub read-cases :
      {A : Type 0} (r : P2pError ⊎ A) (state : NetworkState) (rest : A → Ending B)
      → ((e : P2pError) → P (stop state e))
      → ((a : A) → r ≡ inr a → P (rest a))
      → P (either r (stop state) rest)
  unfolding either
  read-cases (inl e) state rest failed passed = failed e
  read-cases (inr a) state rest failed passed = passed a refl

pub refuse_if-none : (b : Bool) (e : P2pError) → refuse_if b e ≡ none → b ≡ false
refuse_if-none b e h = ground arith

pub or_else-none : {A : Type 0} (o p : Option A) → or_else o p ≡ none → (o ≡ none) × (p ≡ none)
or_else-none none p h = (refl, h)
or_else-none (some a) p h = cc
