-- ===== src/Prelude/Rings.antt =====
-- A queue of bounded length: `if len >= capacity { pop_front(); } push_back(x)`.
use Prim.Native.Nat.{suc, zero, ℕ, ◌-◌, ◌≤◌}
use mathlib.Core.Bool.{true}
use mathlib.Core.List.{List, [], append-nil, append_assoc, ◌++◌, ◌∷◌}
use mathlib.Core.Logic.{inl, inr}
use mathlib.Core.Path.{refl, ◌≡◌}
use native.Mathlib.Omega.{arith}
use agent_feed.Prelude.Branch.{Bool-cases, if◌then◌else◌, leb}
use agent_feed.Prelude.Lists.{drop, drop-append, length, length-append, length-drop, pop_front}

module _ {ℓ} {A : Type ℓ} where
  unfoldable pub push_bounded : ℕ → List A → A → List A
  push_bounded capacity xs x = (if leb capacity (length xs) then pop_front xs else xs) ++ x ∷ []

  pop_front-drop : (n : ℕ) (xs : List A) → pop_front (drop n xs) ≡ drop (suc n) xs
  pop_front-drop zero [] = refl
  pop_front-drop zero (x ∷ xs) = refl
  pop_front-drop (suc n) [] = refl
  pop_front-drop (suc n) (x ∷ xs) = pop_front-drop n xs

  -- Pushing onto the last items of a list gives the last items of the longer list.
  pub push_bounded-drop :
      (capacity : ℕ) (xs : List A) (x : A)
      → 1 ≤ capacity
      → push_bounded capacity (drop (length xs - capacity) xs) x
        ≡ drop (length (xs ++ x ∷ []) - capacity) (xs ++ x ∷ [])
  unfolding push_bounded
  push_bounded-drop capacity xs x h =
      let before = length-drop (length xs - capacity) xs in
      let longer : length (xs ++ x ∷ []) ≡ suc (length xs) =
        omega (arith, length-append xs (x ∷ [])) in
      elim (Bool-cases (leb capacity (length xs))) [
        | inl full ↦
            let past : length (xs ++ x ∷ []) - capacity ≡ suc (length xs - capacity) =
              ground arith in
            let test : leb capacity (length (drop (length xs - capacity) xs)) ≡ true =
              ground arith in
            rw (past, test)
              (cc (
                pop_front-drop (length xs - capacity) xs,
                drop-append (suc (length xs - capacity)) xs (x ∷ []) (ground arith),
              ))
        | inr space ↦
            let none_past : length (xs ++ x ∷ []) - capacity ≡ 0 = ground arith in
            let start : length xs - capacity ≡ 0 = ground arith in rw (none_past, start, space) refl
      ]

  unfoldable pub push_all : ℕ → List A → List A → List A
  push_all capacity queue [] = queue
  push_all capacity queue (x ∷ xs) = push_all capacity (push_bounded capacity queue x) xs

  push_all-drop :
      (capacity : ℕ) (seen xs : List A)
      → 1 ≤ capacity
      → push_all capacity (drop (length seen - capacity) seen) xs
        ≡ drop (length (seen ++ xs) - capacity) (seen ++ xs)
  unfolding push_all
  push_all-drop capacity seen [] h = cc (append-nil seen)
  push_all-drop capacity seen (x ∷ xs) h = cc (
    push_bounded-drop capacity seen x h,
    push_all-drop capacity (seen ++ x ∷ []) xs h,
    append_assoc seen (x ∷ []) xs,
  )

  -- A queue that began empty holds the last items that were pushed.
  pub push_all-eq-last :
      (capacity : ℕ) (xs : List A)
      → 1 ≤ capacity
      → push_all capacity [] xs ≡ drop (length xs - capacity) xs
  push_all-eq-last capacity xs h =
      let start : 0 - capacity ≡ 0 = omega arith in cc (start, push_all-drop capacity [] xs h)
