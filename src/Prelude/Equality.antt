-- ===== src/Prelude/Equality.antt =====
-- `PartialEq` as an interface: a Boolean test that decides equality.
use Prim.Native.Nat.{Ordering, compare, ℕ}
use mathlib.Core.Bool.{Bool, false, true, ◌&&◌}
use mathlib.Core.List.{List, [], ◌∷◌}
use mathlib.Core.Logic.{◌↔◌}
use mathlib.Core.Option.{Option, none, some}
use mathlib.Core.Path.{ap, refl, ◌≡◌}
use native.Mathlib.Omega.{arith}
use agent_feed.Prelude.Lists.{Any, any}

pub record PartialEq {ℓ} (T : Type ℓ) : Type ℓ where
  pub eq : (left right : T) → Bool
  pub eq_iff : (left right : T) → (eq left right ≡ true) ↔ (left ≡ right)

-- `==`, of the instance at hand.
abbrev pub ◌==◌ {ℓ} : {T : Type ℓ} ⦃e : PartialEq T⦄ (left right : T) → Bool
◌==◌ ⦃e⦄ left right = e.eq left right

infix 50 ◌==◌
-- The equation that a test stands for.
pub ==_iff {ℓ} : {A : Type ℓ} ⦃e : PartialEq A⦄ (a b : A) → ((a == b) ≡ true) ↔ (a ≡ b)
==_iff ⦃e⦄ a b = e.eq_iff a b

pub ==_refl {ℓ} : {A : Type ℓ} ⦃e : PartialEq A⦄ (a : A) → (a == a) ≡ true
==_refl ⦃e⦄ a = (e.eq_iff a a).1 refl

abbrev nat_beq : ℕ → ℕ → Bool
nat_beq a b = elim (compare a b) [ Ordering.eq ↦ true | _ ↦ false ]

pub nat_beq_iff : (a b : ℕ) → (nat_beq a b ≡ true) ↔ (a ≡ b)
nat_beq_iff a b = ground arith

instance abbrev pub nat_eq : PartialEq ℕ
nat_eq = record { eq = nat_beq; eq_iff = nat_beq_iff }

module _ {ℓ} {A : Type ℓ} ⦃e : PartialEq A⦄ where
  unfoldable pub list_beq : List A → List A → Bool
  list_beq [] [] = true
  list_beq (x ∷ xs) (y ∷ ys) = x == y && list_beq xs ys
  list_beq _ _ = false

  pub list_beq_iff : (xs ys : List A) → (list_beq xs ys ≡ true) ↔ (xs ≡ ys)
  unfolding list_beq
  list_beq_iff [] [] = (λ h. refl, λ p. refl)
  list_beq_iff [] (y ∷ ys) = (λ h. cc, λ p. cc)
  list_beq_iff (x ∷ xs) [] = (λ h. cc, λ p. cc)
  list_beq_iff (x ∷ xs) (y ∷ ys) = ground (arith, e.eq_iff x y, list_beq_iff xs ys)

  abbrev pub option_beq : Option A → Option A → Bool
  option_beq none none = true
  option_beq (some a) (some b) = a == b
  option_beq _ _ = false

  pub option_beq_iff : (o p : Option A) → (option_beq o p ≡ true) ↔ (o ≡ p)
  option_beq_iff none none = (λ h. refl, λ p. refl)
  option_beq_iff none (some b) = (λ h. cc, λ p. cc)
  option_beq_iff (some a) none = (λ h. cc, λ p. cc)
  option_beq_iff (some a) (some b) = ground (arith, e.eq_iff a b)

  -- `iter().any(|x| x == a)`
  unfoldable pub any_eq : List A → A → Bool
  any_eq xs a = any (λ x. x == a) xs

instance abbrev pub list_eq {ℓ} : {A : Type ℓ} ⦃e : PartialEq A⦄ → PartialEq (List A)
list_eq = record { eq = list_beq; eq_iff = list_beq_iff }

instance abbrev pub option_eq {ℓ} : {A : Type ℓ} ⦃e : PartialEq A⦄ → PartialEq (Option A)
option_eq = record { eq = option_beq; eq_iff = option_beq_iff }

pub found-Any :
    {A : Type 0} ⦃e : PartialEq A⦄ (xs : List A) (a : A) → any_eq xs a ≡ true → Any (λ x. x ≡ a) xs
unfolding any_eq
found-Any [] a h = cc
found-Any ⦃e⦄ (x ∷ xs) a h = ground (arith, e.eq_iff x a, found-Any xs a)

-- An enum is compared by the number of its constructor.
module _ {ℓ} {A : Type ℓ} (rank : A → ℕ) (of_rank : ℕ → A)
    (left : (a : A) → of_rank (rank a) ≡ a) where
  pub rank_beq_iff : (a b : A) → ((rank a == rank b) ≡ true) ↔ (a ≡ b)
  rank_beq_iff a b =
      let from : (rank a == rank b) ≡ true → a ≡ b =
        λ h. cc (left a, left b, ap of_rank ((==_iff (rank a) (rank b)).0 h)) in
      (from, λ p. (==_iff (rank a) (rank b)).1 (ap rank p))

  abbrev pub eq_by_rank : PartialEq A
  eq_by_rank = record { eq = λ a b. rank a == rank b; eq_iff = rank_beq_iff }

module _ {ℓ κ} {A : Type ℓ} {B : Type κ} ⦃e : PartialEq B⦄ (field_of : A → B) (of_field : B → A)
    (left : (a : A) → of_field (field_of a) ≡ a) where
  pub field_beq_iff : (a b : A) → ((field_of a == field_of b) ≡ true) ↔ (a ≡ b)
  field_beq_iff a b = (
    λ h. cc (left a, left b, ap of_field ((e.eq_iff (field_of a) (field_of b)).0 h)),
    λ p. (e.eq_iff (field_of a) (field_of b)).1 (ap field_of p),
  )

  -- A newtype is compared by the value it wraps.
  abbrev pub eq_by : PartialEq A
  eq_by = record { eq = λ a b. field_of a == field_of b; eq_iff = field_beq_iff }

module _ {ℓ κ} {A : Type ℓ} {B : Type κ} ⦃e : PartialEq A⦄ ⦃f : PartialEq B⦄ where
  abbrev pub pair_beq : A × B → A × B → Bool
  pair_beq (a, b) (c, d) = a == c && b == d

  pub pair_beq_iff : (x y : A × B) → (pair_beq x y ≡ true) ↔ (x ≡ y)
  pair_beq_iff (a, b) (c, d) = ground (arith, e.eq_iff a c, f.eq_iff b d)

instance abbrev pub pair_eq {ℓ κ} :
    {A : Type ℓ} {B : Type κ} ⦃e : PartialEq A⦄ ⦃f : PartialEq B⦄ → PartialEq (A × B)
pair_eq = record { eq = pair_beq; eq_iff = pair_beq_iff }
