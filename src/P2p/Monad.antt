-- ===== src/P2p/Monad.antt =====
-- A call of a peer's method under the lock: guards and reads, which change nothing, then one step.
pub mod Laws
pub mod Atomic
use agent_feed.P2p.Types.{NetworkState, P2pError}
use agent_feed.Prelude.{Bool, Option, if◌then◌else◌, inl, inr, map_or, none, some, ◌⊎◌}

-- What a method leaves: the state, and its error or its value.
abbrev pub Ending : Type 0 → Type 0
Ending A = NetworkState × (P2pError ⊎ A)

abbrev pub Action : Type 0 → Type 0
Action A = NetworkState → Ending A

-- The error that a test of the state returns early with, if any.
abbrev pub Guard : Type 0
Guard = NetworkState → Option P2pError

abbrev pub Read : Type 0 → Type 0
Read A = NetworkState → P2pError ⊎ A

abbrev pub stop : {A : Type 0} → NetworkState → P2pError → Ending A
stop state e = (state, inl e)

abbrev pub modify : (NetworkState → NetworkState) → Action (Unit {0})
modify f state = (f state, inr tt)

abbrev pub gets : {A : Type 0} → (NetworkState → A) → Action A
gets f state = (state, inr (f state))

-- A test that does not look at the state.
abbrev pub check : Option P2pError → Guard
check o state = o

abbrev pub refuse_if : Bool → P2pError → Option P2pError
refuse_if b e = if b then some e else none

unfoldable pub either : {A B : Type 0} → P2pError ⊎ A → (P2pError → B) → (A → B) → B
either (inl e) failed passed = failed e
either (inr a) failed passed = passed a

infixl 5 ◌>>=◌ ◌>>◌
abbrev pub ◌>>=◌ : {A B : Type 0} → Read A → (A → Action B) → Action B
◌>>=◌ m f state = either (m state) (stop state) (λ a. f a state)

abbrev pub ◌>>◌ : {A : Type 0} → Guard → Action A → Action A
◌>>◌ g k state = map_or (g state) (k state) (stop state)
