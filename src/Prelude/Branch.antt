-- ===== src/Prelude/Branch.antt =====
-- Boolean tests on the native numbers, and the conditional.
use Prim.Native.Nat.{Ordering, compare, ℕ, ◌<◌, ◌≤◌}
use mathlib.Core.Bool.{Bool, false, true, ◌&&◌, ◌||◌}
use mathlib.Core.Logic.{inl, inr, ◌⊎◌}
use mathlib.Core.Option.{Option, none, some}
use mathlib.Core.Path.{refl, ◌≡◌}
use native.Mathlib.Omega.{arith}

abbrev pub ltb : ℕ → ℕ → Bool
ltb a b = elim (compare a b) [ Ordering.lt ↦ true | _ ↦ false ]

abbrev pub leb : ℕ → ℕ → Bool
leb a b = elim (compare a b) [ Ordering.gt ↦ false | _ ↦ true ]

infix 1 if◌then◌else◌
abbrev pub if◌then◌else◌ {ℓ} : {A : Type ℓ} → Bool → A → A → A
if true then x else y = x
if false then x else y = y

pub leb→le : (a b : ℕ) → leb a b ≡ true → a ≤ b
leb→le a b h = ground arith

pub ltb→lt : (a b : ℕ) → ltb a b ≡ true → a < b
ltb→lt a b h = ground arith

-- A split on a computed test that keeps the equation.
pub Bool-cases : (b : Bool) → (b ≡ true) ⊎ (b ≡ false)
Bool-cases true = inl refl
Bool-cases false = inr refl

pub Option-cases {ℓ} : {A : Type ℓ} (o : Option A) → (o ≡ none) ⊎ ((a : A) × (o ≡ some a))
Option-cases none = inl refl
Option-cases (some a) = inr (a, refl)

-- `Option::is_some`, `Option::unwrap_or` and the two closure tests of Rust.
module _ {ℓ} {A : Type ℓ} where
  abbrev pub is_some : Option A → Bool
  is_some none = false
  is_some (some a) = true

  abbrev pub is_none : Option A → Bool
  is_none none = true
  is_none (some a) = false

  abbrev pub unwrap_or : Option A → A → A
  unwrap_or none d = d
  unwrap_or (some a) d = a

  abbrev pub is_some_and : Option A → (A → Bool) → Bool
  is_some_and none p = false
  is_some_and (some a) p = p a

  abbrev pub is_none_or : Option A → (A → Bool) → Bool
  is_none_or none p = true
  is_none_or (some a) p = p a

  abbrev pub or_else : Option A → Option A → Option A
  or_else none o = o
  or_else (some a) o = some a

-- The early return of a block on `Option`: `?`, `let … else`.
module _ {ℓ κ} {A : Type ℓ} {B : Type κ} where
  abbrev pub and_then : Option A → (A → Option B) → Option B
  and_then none f = none
  and_then (some a) f = f a

  abbrev pub map_option : (A → B) → Option A → Option B
  map_option f none = none
  map_option f (some a) = some (f a)

  abbrev pub map_or : Option A → B → (A → B) → B
  map_or none d f = d
  map_or (some a) d f = f a

-- A split of a conditional or of a match that keeps what the test found.
module _ {ℓ κ} {B : Type ℓ} (P : B → Type κ) where
  pub if-cases :
      (b : Bool) (x y : B) → (b ≡ true → P x) → (b ≡ false → P y) → P (if b then x else y)
  if-cases true x y f g = f refl
  if-cases false x y f g = g refl

  pub map_or-cases {μ} :
      {A : Type μ} (o : Option A) (d : B) (f : A → B)
      → (o ≡ none → P d)
      → ((a : A) → o ≡ some a → P (f a))
      → P (map_or o d f)
  map_or-cases none d f g h = g refl
  map_or-cases (some a) d f g h = h a refl

pub result-cases {ℓ κ μ ν} :
    {E : Type ℓ} {A : Type κ} {B : Type μ} (P : B → Type ν) (r : E ⊎ A) (f : E → B) (g : A → B)
    → ((e : E) → P (f e))
    → ((a : A) → P (g a))
    → P (elim r [ inl e ↦ f e | inr a ↦ g a ])
result-cases P (inl e) f g failed passed = failed e
result-cases P (inr a) f g failed passed = passed a

pub unwrap_or-cases {ℓ κ} :
    {A : Type ℓ} (P : A → Type κ) (o : Option A) (default : A)
    → (o ≡ none → P default)
    → ((a : A) → o ≡ some a → P a)
    → P (unwrap_or o default)
unwrap_or-cases P none default g h = g refl
unwrap_or-cases P (some a) default g h = h a refl

pub and-eq-true : (a b : Bool) → (a && b) ≡ true → (a ≡ true) × (b ≡ true)
and-eq-true a b h = ground arith

pub or-eq-false : (a b : Bool) → (a || b) ≡ false → (a ≡ false) × (b ≡ false)
or-eq-false a b h = ground arith

module _ {ℓ} {A : Type ℓ} where
  -- A result behind an early `None`.
  pub guard-eq-some :
      (b : Bool) (x y : A) → (if b then none else some x) ≡ some y → (b ≡ false) × (x ≡ y)
  guard-eq-some true x y h = cc
  guard-eq-some false x y h = (refl, cc)

  pub some_injective : {x y : A} → some x ≡ some y → x ≡ y
  some_injective h = cc

  pub is_some-eq-false : (o : Option A) → is_some o ≡ false → o ≡ none
  is_some-eq-false none h = refl
  is_some-eq-false (some a) h = cc

  -- What a mapped option holds is the image of what the option held.
  pub map_option-eq-some {κ} :
      {B : Type κ} (f : A → B) (o : Option A) (y : B)
      → map_option f o ≡ some y
      → (a : A) × (f a ≡ y)
  map_option-eq-some f none y h = cc
  map_option-eq-some f (some a) y h = (a, cc)

pub if_none-eq-some {ℓ} :
    {A : Type ℓ} (b : Bool) (o : Option A) (y : A)
    → (if b then none else o) ≡ some y
    → (b ≡ false) × (o ≡ some y)
if_none-eq-some true o y h = cc
if_none-eq-some false o y h = (refl, h)

pub else_none-eq-some {ℓ} :
    {A : Type ℓ} (b : Bool) (o : Option A) (y : A)
    → (if b then o else none) ≡ some y
    → (b ≡ true) × (o ≡ some y)
else_none-eq-some true o y h = (refl, h)
else_none-eq-some false o y h = cc

pub and_then-eq-some {ℓ κ} :
    {A : Type ℓ} {B : Type κ} (o : Option A) (f : A → Option B) (b : B)
    → and_then o f ≡ some b
    → (a : A) × (o ≡ some a) × (f a ≡ some b)
and_then-eq-some none f b h = cc
and_then-eq-some (some a) f b h = (a, refl, h)

-- The `?` of a block that returns a `Result`, the error on the left.
unfoldable pub result_then {ℓ κ μ} :
    {E : Type ℓ} {A : Type κ} {B : Type μ} → E ⊎ A → (A → E ⊎ B) → E ⊎ B
result_then (inl e) f = inl e
result_then (inr a) f = f a

pub inr_injective {ℓ κ} :
    {E : Type ℓ} {A : Type κ} {x y : A} → ◌≡◌ {A = E ⊎ A} (inr x) (inr y) → x ≡ y
inr_injective h = cc

-- What a result gives has the property.
module _ {E : Type 0} where
  abbrev pub Gives : {A : Type 0} → (A → Type 0) → E ⊎ A → Type 0
  Gives P (inl e) = Unit
  Gives P (inr a) = P a

  pub result_then-Gives :
      {A B : Type 0} (P : A → Type 0) (Q : B → Type 0) (r : E ⊎ A) (f : A → E ⊎ B)
      → Gives P r
      → ((a : A) → P a → Gives Q (f a))
      → Gives Q (result_then r f)
  unfolding result_then
  result_then-Gives P Q (inl e) f h k = tt
  result_then-Gives P Q (inr a) f h k = k a h

  pub result_then-any :
      {A B : Type 0} (Q : B → Type 0) (r : E ⊎ A) (f : A → E ⊎ B)
      → ((a : A) → Gives Q (f a))
      → Gives Q (result_then r f)
  unfolding result_then
  result_then-any Q (inl e) f k = tt
  result_then-any Q (inr a) f k = k a

  pub Gives-cases :
      {A B : Type 0} (P : A → Type 0) (Q : B → Type 0) (r : E ⊎ A) (f : E → B) (g : A → B)
      → Gives P r
      → ((e : E) → Q (f e))
      → ((a : A) → P a → Q (g a))
      → Q (elim r [ inl e ↦ f e | inr a ↦ g a ])
  Gives-cases P Q (inl e) f g given failed passed = failed e
  Gives-cases P Q (inr a) f g given failed passed = passed a given

  pub Gives-implies :
      {A : Type 0} (P Q : A → Type 0) (r : E ⊎ A) → Gives P r → ((a : A) → P a → Q a) → Gives Q r
  Gives-implies P Q (inl e) given k = tt
  Gives-implies P Q (inr a) given k = k a given
