-- ===== src/StorageMap.antt =====
-- A storage map (`StorageMap`, `StorageDoubleMap`) as a list of entries. A double map has pairs
-- for keys. The order of the entries stands for the order in which `iter()` visits them.
use massbit_verification.Prelude.{
  ℕ, ◌+◌, ◌≡◌, refl, Bool, true, false, Option, none, some, List, [], ◌∷◌, arith, Eq, ◌==◌,
  if◌then◌else◌,
}

abbrev pub StorageMap : Type 0 → Type 0 → Type 0
StorageMap K V = List (K × V)

module _ {K V : Type 0} ⦃e : Eq K⦄ where
  -- `get(key)`
  unfoldable pub lookup : K → StorageMap K V → Option V
  lookup k [] = none
  lookup k ((j, v) ∷ m) = if j == k then some v else lookup k m

  -- `contains_key(key)`
  abbrev pub contains_key : K → StorageMap K V → Bool
  contains_key k m = elim (lookup k m) [ none ↦ false | some _ ↦ true ]

  -- `insert(key, value)`
  unfoldable pub insert : K → V → StorageMap K V → StorageMap K V
  insert key new [] = (key, new) ∷ []
  insert key new ((other, old) ∷ rest) =
      if other == key then (key, new) ∷ rest else (other, old) ∷ insert key new rest

  -- `remove(key)`
  unfoldable pub remove : K → StorageMap K V → StorageMap K V
  remove k [] = []
  remove k ((j, w) ∷ m) = let rest = remove k m in if j == k then rest else (j, w) ∷ rest

  pub lookup-insert :
      (key asked : K) (new : V) (entries : StorageMap K V)
      → lookup asked (insert key new entries)
        ≡ (if key == asked then some new else lookup asked entries)
  unfolding lookup insert
  lookup-insert key asked new [] = refl
  lookup-insert key asked new ((other, old) ∷ rest) = ground (
    arith,
    e.beq_iff key asked,
    e.beq_iff other key,
    e.beq_iff other asked,
    lookup-insert key asked new rest,
  )

  pub lookup-remove :
      (k j : K) (m : StorageMap K V) → lookup j (remove k m) ≡ (if k == j then none else lookup j m)
  unfolding lookup remove
  lookup-remove k j [] = ground arith
  lookup-remove k j ((i, w) ∷ m) =
      ground (arith, e.beq_iff k j, e.beq_iff i k, e.beq_iff i j, lookup-remove k j m)

  -- No key has two entries.
  abbrev pub IsDistinct : StorageMap K V → Type 0
  IsDistinct [] = Unit {0}
  IsDistinct ((k, v) ∷ m) = (lookup k m ≡ none) × IsDistinct m

  pub insert-IsDistinct :
      (k : K) (v : V) (m : StorageMap K V) → IsDistinct m → IsDistinct (insert k v m)
  unfolding insert lookup
  insert-IsDistinct k v [] d = (refl, tt)
  insert-IsDistinct k v ((j, w) ∷ m) d =
      ground
        (arith, e.beq_iff k j, e.beq_iff j k, lookup-insert k j v m, insert-IsDistinct k v m d.1)

  pub remove-IsDistinct : (k : K) (m : StorageMap K V) → IsDistinct m → IsDistinct (remove k m)
  unfolding remove
  remove-IsDistinct k [] d = tt
  remove-IsDistinct k ((j, w) ∷ m) d =
      ground (arith, lookup-remove k j m, remove-IsDistinct k m d.1)

  -- The sum of a weight over all entries.
  unfoldable pub sum_by : (K → V → ℕ) → StorageMap K V → ℕ
  sum_by f [] = 0
  sum_by f ((k, v) ∷ m) = f k v + sum_by f m

  -- The weight of what a key holds.
  abbrev pub weight : (K → V → ℕ) → K → Option V → ℕ
  weight f k none = 0
  weight f k (some v) = f k v

  pub sum_by-insert :
      (f : K → V → ℕ) (k : K) (v : V) (m : StorageMap K V)
      → sum_by f (insert k v m) + weight f k (lookup k m) ≡ sum_by f m + f k v
  unfolding sum_by insert lookup
  sum_by-insert f k v [] = omega arith
  sum_by-insert f k v ((j, w) ∷ m) = ground (arith, e.beq_iff j k, sum_by-insert f k v m)

  pub remove_absent : (k : K) (m : StorageMap K V) → lookup k m ≡ none → remove k m ≡ m
  unfolding remove lookup
  remove_absent k [] h = refl
  remove_absent k ((j, w) ∷ m) h = ground (arith, remove_absent k m)

  pub sum_by-remove :
      (f : K → V → ℕ) (k : K) (m : StorageMap K V)
      → IsDistinct m
      → sum_by f (remove k m) + weight f k (lookup k m) ≡ sum_by f m
  unfolding sum_by remove lookup
  sum_by-remove f k [] d = omega arith
  sum_by-remove f k ((j, w) ∷ m) d =
      ground (arith, e.beq_iff j k, remove_absent k m, sum_by-remove f k m d.1)
