-- ===== src/Prelude/Repeats.antt =====
-- Lists without repeats, by the test that the code uses.
use Prim.Native.Nat.{suc, zero, ℕ}
use mathlib.Core.Bool.{false, ◌||◌}
use mathlib.Core.List.{List, [], ◌++◌, ◌∷◌}
use mathlib.Core.Path.{refl, ◌≡◌}
use native.Mathlib.Omega.{arith}
use agent_feed.Prelude.Equality.{PartialEq, any_eq}
use agent_feed.Prelude.Lists.{drop}

module _ {ℓ} {A : Type ℓ} ⦃e : PartialEq A⦄ where
  -- No item occurs again behind its place.
  abbrev pub Distinct : List A → Type 0
  Distinct [] = Unit
  Distinct (x ∷ xs) = (any_eq xs x ≡ false) × Distinct xs

  pub any_eq-append : (xs ys : List A) (a : A) → any_eq (xs ++ ys) a ≡ (any_eq xs a || any_eq ys a)
  unfolding any_eq
  any_eq-append [] ys a = refl
  any_eq-append (x ∷ xs) ys a = ground (arith, any_eq-append xs ys a)

  pub any_eq-drop :
      (n : ℕ) (xs : List A) (a : A) → any_eq xs a ≡ false → any_eq (drop n xs) a ≡ false
  unfolding any_eq
  any_eq-drop zero xs a h = h
  any_eq-drop (suc n) [] a h = h
  any_eq-drop (suc n) (x ∷ xs) a h = any_eq-drop n xs a (ground arith)

  pub Distinct-drop : (n : ℕ) (xs : List A) → Distinct xs → Distinct (drop n xs)
  Distinct-drop zero xs h = h
  Distinct-drop (suc n) [] h = h
  Distinct-drop (suc n) (x ∷ xs) h = Distinct-drop n xs h.1

  pub Distinct-snoc :
      (xs : List A) (a : A) → Distinct xs → any_eq xs a ≡ false → Distinct (xs ++ a ∷ [])
  unfolding any_eq
  Distinct-snoc [] a d h = (refl, tt)
  Distinct-snoc (x ∷ xs) a d h = (
    ground (arith, any_eq-append xs (a ∷ []) x, e.eq_iff a x, e.eq_iff x a),
    Distinct-snoc xs a d.1 (ground arith),
  )
