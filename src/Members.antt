-- ===== src/Members.antt =====
-- A `BTreeSet` of the standard library, by what it holds: a list without repetition.
use massbit_verification.Prelude.{
  ◌≡◌, Bool, false, ◌||◌, List, [], ◌∷◌, arith, Eq, ◌==◌, if◌then◌else◌,
}

module _ {K : Type 0} ⦃e : Eq K⦄ where
  unfoldable pub contains : K → List K → Bool
  contains k [] = false
  contains k (x ∷ xs) = x == k || contains k xs

  -- `set.insert(k)`
  unfoldable pub add : K → List K → List K
  add k xs = if contains k xs then xs else k ∷ xs

  -- `set.remove(&k)`
  unfoldable pub discard : K → List K → List K
  discard k [] = []
  discard k (x ∷ xs) = let rest = discard k xs in if x == k then rest else x ∷ rest

  pub contains-add : (k j : K) (xs : List K) → contains j (add k xs) ≡ (k == j || contains j xs)
  unfolding contains add
  contains-add k j xs = ground (arith, e.beq_iff k j)

  pub contains-discard :
      (k j : K) (xs : List K)
      → contains j (discard k xs) ≡ (if k == j then false else contains j xs)
  unfolding contains discard
  contains-discard k j [] = ground arith
  contains-discard k j (x ∷ xs) =
      ground (arith, e.beq_iff k j, e.beq_iff x k, e.beq_iff x j, contains-discard k j xs)
