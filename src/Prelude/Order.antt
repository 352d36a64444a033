-- ===== src/Prelude/Order.antt =====
-- `Ord` as an interface, and the lexicographic orders that `derive(Ord)` writes.
use Prim.Native.Nat.{Ordering, compare, ℕ}
use mathlib.Core.List.{List, [], ◌∷◌}
use mathlib.Core.Logic.{◌↔◌}
use mathlib.Core.Option.{Option, none, some}
use mathlib.Core.Path.{ap, refl, ◌≡◌}
use native.Mathlib.Omega.{arith}

pub record Ord {ℓ} (A : Type ℓ) : Type ℓ where
  pub cmp : A → A → Ordering
  pub cmp_eq_iff : (a b : A) → (cmp a b ≡ Ordering.eq) ↔ (a ≡ b)

-- `Ordering::then`
abbrev pub then_with : Ordering → Ordering → Ordering
then_with Ordering.lt r = Ordering.lt
then_with Ordering.eq r = r
then_with Ordering.gt r = Ordering.gt

pub nat_cmp_eq_iff : (a b : ℕ) → (compare a b ≡ Ordering.eq) ↔ (a ≡ b)
nat_cmp_eq_iff a b = ground arith

instance abbrev pub nat_ord : Ord ℕ
nat_ord = record { cmp = compare; cmp_eq_iff = nat_cmp_eq_iff }

module _ {ℓ} {A : Type ℓ} ⦃o : Ord A⦄ where
  unfoldable pub list_cmp : List A → List A → Ordering
  list_cmp [] [] = Ordering.eq
  list_cmp [] (y ∷ ys) = Ordering.lt
  list_cmp (x ∷ xs) [] = Ordering.gt
  list_cmp (x ∷ xs) (y ∷ ys) = then_with (o.cmp x y) (list_cmp xs ys)

  pub list_cmp_eq_iff : (xs ys : List A) → (list_cmp xs ys ≡ Ordering.eq) ↔ (xs ≡ ys)
  unfolding list_cmp
  list_cmp_eq_iff [] [] = (λ h. refl, λ p. refl)
  list_cmp_eq_iff [] (y ∷ ys) = (λ h. cc, λ p. cc)
  list_cmp_eq_iff (x ∷ xs) [] = (λ h. cc, λ p. cc)
  list_cmp_eq_iff (x ∷ xs) (y ∷ ys) = ground (arith, o.cmp_eq_iff x y, list_cmp_eq_iff xs ys)

  -- `None` is below every `Some`.
  abbrev pub option_cmp : Option A → Option A → Ordering
  option_cmp none none = Ordering.eq
  option_cmp none (some b) = Ordering.lt
  option_cmp (some a) none = Ordering.gt
  option_cmp (some a) (some b) = o.cmp a b

  pub option_cmp_eq_iff : (a b : Option A) → (option_cmp a b ≡ Ordering.eq) ↔ (a ≡ b)
  option_cmp_eq_iff none none = (λ h. refl, λ p. refl)
  option_cmp_eq_iff none (some b) = (λ h. cc, λ p. cc)
  option_cmp_eq_iff (some a) none = (λ h. cc, λ p. cc)
  option_cmp_eq_iff (some a) (some b) = ground (arith, o.cmp_eq_iff a b)

instance abbrev pub list_ord {ℓ} : {A : Type ℓ} ⦃o : Ord A⦄ → Ord (List A)
list_ord = record { cmp = list_cmp; cmp_eq_iff = list_cmp_eq_iff }

instance abbrev pub option_ord {ℓ} : {A : Type ℓ} ⦃o : Ord A⦄ → Ord (Option A)
option_ord = record { cmp = option_cmp; cmp_eq_iff = option_cmp_eq_iff }

-- An enum is ordered by the number of its constructor.
module _ {ℓ} {A : Type ℓ} (rank : A → ℕ) (of_rank : ℕ → A)
    (left : (a : A) → of_rank (rank a) ≡ a) where
  pub rank_cmp_eq_iff : (a b : A) → (compare (rank a) (rank b) ≡ Ordering.eq) ↔ (a ≡ b)
  rank_cmp_eq_iff a b =
      let from : compare (rank a) (rank b) ≡ Ordering.eq → a ≡ b =
        λ h. cc (left a, left b, ap of_rank ((nat_cmp_eq_iff (rank a) (rank b)).0 h)) in
      (from, λ p. (nat_cmp_eq_iff (rank a) (rank b)).1 (ap rank p))

  abbrev pub ord_by_rank : Ord A
  ord_by_rank = record { cmp = λ a b. compare (rank a) (rank b); cmp_eq_iff = rank_cmp_eq_iff }

-- A record is ordered by its fields in turn: the comparison of two and more of them.
pub then_with-eq :
    (a b : Ordering) → (then_with a b ≡ Ordering.eq) ↔ (a ≡ Ordering.eq) × (b ≡ Ordering.eq)
then_with-eq a b = ground arith

module _ {ℓ κ} {A : Type ℓ} {B : Type κ} ⦃o : Ord B⦄ (field_of : A → B) (of_field : B → A)
    (left : (a : A) → of_field (field_of a) ≡ a) where
  pub field_cmp_eq_iff : (a b : A) → (o.cmp (field_of a) (field_of b) ≡ Ordering.eq) ↔ (a ≡ b)
  field_cmp_eq_iff a b = (
    λ h. cc (left a, left b, ap of_field ((o.cmp_eq_iff (field_of a) (field_of b)).0 h)),
    λ p. (o.cmp_eq_iff (field_of a) (field_of b)).1 (ap field_of p),
  )

  -- A newtype is ordered by the value it wraps.
  abbrev pub ord_by : Ord A
  ord_by = record { cmp = λ a b. o.cmp (field_of a) (field_of b); cmp_eq_iff = field_cmp_eq_iff }

module _ {ℓ κ} {A : Type ℓ} {B : Type κ} ⦃o : Ord A⦄ ⦃p : Ord B⦄ where
  abbrev pub pair_cmp : A × B → A × B → Ordering
  pair_cmp (a, b) (c, d) = then_with (o.cmp a c) (p.cmp b d)

  pub pair_cmp_eq_iff : (x y : A × B) → (pair_cmp x y ≡ Ordering.eq) ↔ (x ≡ y)
  pair_cmp_eq_iff (a, b) (c, d) = ground (arith, o.cmp_eq_iff a c, p.cmp_eq_iff b d)

instance abbrev pub pair_ord {ℓ κ} : {A : Type ℓ} {B : Type κ} ⦃o : Ord A⦄ ⦃p : Ord B⦄ → Ord (A × B)
pair_ord = record { cmp = pair_cmp; cmp_eq_iff = pair_cmp_eq_iff }
