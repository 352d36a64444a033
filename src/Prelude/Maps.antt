-- ===== src/Prelude/Maps.antt =====
-- `BTreeMap`: an association list in the order of its keys, which iteration follows.
use Prim.Native.Nat.{Ordering}
use mathlib.Core.Bool.{Bool, false, true}
use mathlib.Core.List.{List, [], ◌∷◌}
use mathlib.Core.Logic.{inl, inr}
use mathlib.Core.Option.{Option, none, some}
use mathlib.Core.Path.{refl, subst, ◌≡◌}
use native.Mathlib.Omega.{arith}
use agent_feed.Prelude.Branch.{Bool-cases, Option-cases, if◌then◌else◌, unwrap_or}
use agent_feed.Prelude.Lists.{All}
use agent_feed.Prelude.Order.{Ord}

abbrev pub BtreeMap {ℓ κ} : Type ℓ → Type κ → Type (ℓ ⊔ κ)
BtreeMap K V = List (K × V)

-- The key test of the map's own order.
abbrev pub is_eq : Ordering → Bool
is_eq Ordering.eq = true
is_eq _ = false

module _ {ℓ κ} {K : Type ℓ} ⦃o : Ord K⦄ {V : Type κ} where
  unfoldable pub get : BtreeMap K V → K → Option V
  get [] k = none
  get ((j, v) ∷ m) k = if is_eq (o.cmp k j) then some v else get m k

  -- `insert`: replaces the value of a key that is there.
  unfoldable pub insert : BtreeMap K V → K → V → BtreeMap K V
  insert [] k v = (k, v) ∷ []
  insert ((j, w) ∷ m) k v =
      let rest = insert m k v in
      elim (o.cmp k j) [
        | Ordering.lt ↦ (k, v) ∷ (j, w) ∷ m
        | Ordering.eq ↦ (k, v) ∷ m
        | Ordering.gt ↦ (j, w) ∷ rest
      ]

  unfoldable pub remove : BtreeMap K V → K → BtreeMap K V
  remove [] k = []
  remove ((j, w) ∷ m) k = let rest = remove m k in if is_eq (o.cmp k j) then rest else (j, w) ∷ rest

  pub get-insert :
      (m : BtreeMap K V) (k : K) (v : V) (j : K)
      → get (insert m k v) j ≡ (if is_eq (o.cmp j k) then some v else get m j)
  unfolding get insert
  get-insert [] k v j = refl
  get-insert ((i, w) ∷ m) k v j =
      ground (arith, o.cmp_eq_iff k i, o.cmp_eq_iff j i, o.cmp_eq_iff j k, get-insert m k v j)

  pub get-remove :
      (m : BtreeMap K V) (k j : K)
      → get (remove m k) j ≡ (if is_eq (o.cmp j k) then none else get m j)
  unfolding get remove
  get-remove [] k j = ground arith
  get-remove ((i, w) ∷ m) k j =
      ground (arith, o.cmp_eq_iff k i, o.cmp_eq_iff j i, o.cmp_eq_iff j k, get-remove m k j)

  pub get-insert_self : (m : BtreeMap K V) (k : K) (v : V) → get (insert m k v) k ≡ some v
  get-insert_self m k v = ground (arith, get-insert m k v k, o.cmp_eq_iff k k)

  -- `entry(key).or_insert(default)`, and what the caller then does to the value.
  unfoldable pub update : BtreeMap K V → K → V → (V → V) → BtreeMap K V
  update m k default change = insert m k (change (unwrap_or (get m k) default))

  pub get-update :
      (m : BtreeMap K V) (k : K) (default : V) (change : V → V) (j : K)
      → get (update m k default change) j
        ≡ (if is_eq (o.cmp j k) then some (change (unwrap_or (get m k) default)) else get m j)
  unfolding update
  get-update m k default change j = get-insert m k (change (unwrap_or (get m k) default)) j

-- What holds of every entry is kept.
module _ {ℓ κ} {K : Type ℓ} ⦃o : Ord K⦄ {V : Type κ} (P : K × V → Type 0) where
  pub All-insert : (m : BtreeMap K V) (k : K) (v : V) → All P m → P (k, v) → All P (insert m k v)
  unfolding insert
  All-insert [] k v h p = (p, tt)
  All-insert ((j, w) ∷ m) k v h p = ground (arith, All-insert m k v)

  pub All-remove : (m : BtreeMap K V) (k : K) → All P m → All P (remove m k)
  unfolding remove
  All-remove [] k h = h
  All-remove ((j, w) ∷ m) k h = ground (arith, All-remove m k)

  pub All-get : (m : BtreeMap K V) (k : K) (v : V) → All P m → get m k ≡ some v → P (k, v)
  unfolding get
  All-get [] k v h e = cc
  All-get ((j, w) ∷ m) k v h e = elim (Bool-cases (is_eq (o.cmp k j))) [
    | inl same ↦
        let pair : ◌≡◌ {A = K × V} (j, w) (k, v) = ground (arith, o.cmp_eq_iff k j) in
        subst P pair h.0
    | inr other ↦ All-get m k v h.1 (ground arith)
  ]

  pub All-update :
      (m : BtreeMap K V) (k : K) (default : V) (change : V → V)
      → All P m
      → P (k, change default)
      → ((v : V) → P (k, v) → P (k, change v))
      → All P (update m k default change)
  unfolding update
  All-update m k default change h first next = elim (Option-cases (get m k)) [
    | inl absent ↦ rw absent (All-insert m k (change default) h first)
    | inr (v, e) ↦ rw e (All-insert m k (change v) h (next v (All-get m k v h e)))
  ]

-- `BTreeSet`: a list in order.
module _ {ℓ} {K : Type ℓ} ⦃o : Ord K⦄ where
  unfoldable pub set_insert : List K → K → List K
  set_insert [] k = k ∷ []
  set_insert (j ∷ m) k =
      let rest = set_insert m k in
      elim (o.cmp k j) [ Ordering.lt ↦ k ∷ j ∷ m | Ordering.eq ↦ j ∷ m | Ordering.gt ↦ j ∷ rest ]

  unfoldable pub set_extend : List K → List K → List K
  unfolding set_insert
  set_extend set [] = set
  set_extend set (k ∷ ks) = set_extend (set_insert set k) ks
