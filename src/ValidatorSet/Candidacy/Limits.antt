-- ===== src/ValidatorSet/Candidacy/Limits.antt =====
-- How many candidates there are, and that none is entered twice.
use massbit_verification.Prelude.{
  ℕ, suc, ◌≤◌, ◌<◌, ◌≡◌, refl, inl, inr, none, some, true, false, ◌||◌, List, [], ◌∷◌, ◌++◌, arith,
  ◌==◌, nat_eq, nat_beq, nat_beq_iff, if◌then◌else◌, length, length-append, u32_size, add_u32,
  Bool-cases,
}
use massbit_verification.StorageMap.{lookup, remove, lookup-insert}
use massbit_verification.Members.{contains}
use massbit_verification.Dispatch.{AccountId, signed, ok, err, validator, not_candidate}
use massbit_verification.Currency.{valstake}
use massbit_verification.ValidatorSet.State.{
  CandidateInfo, Env, State, candidate_removed, deposit_event,
}
use massbit_verification.ValidatorSet.Candidacy.{
  is_candidate, position, remove_at, enter_candidate, register_as_candidate, try_remove_candidate,
}

-- No account is a candidate twice.
abbrev pub Unique : List CandidateInfo → Type 0
Unique [] = Unit {0}
Unique (c ∷ cs) = (is_candidate c.who cs ≡ false) × Unique cs

is_candidate-push :
    (a : AccountId) (cs : List CandidateInfo) (c : CandidateInfo)
    → is_candidate a (cs ++ c ∷ []) ≡ (is_candidate a cs || nat_beq c.who a)
unfolding is_candidate
is_candidate-push a [] c = ground arith
is_candidate-push a (d ∷ cs) c = ground (arith, is_candidate-push a cs c)

push-Unique :
    (cs : List CandidateInfo) (c : CandidateInfo)
    → Unique cs
    → is_candidate c.who cs ≡ false
    → Unique (cs ++ c ∷ [])
unfolding is_candidate
push-Unique [] c u h = (refl, tt)
push-Unique (d ∷ cs) c u h = ground (
  arith,
  push-Unique cs c,
  is_candidate-push d.who cs c,
  nat_beq_iff c.who d.who,
  nat_beq_iff d.who c.who,
)

-- The candidates without an account.
unfoldable pub without : AccountId → List CandidateInfo → List CandidateInfo
without a [] = []
without a (c ∷ cs) = let rest = without a cs in if c.who == a then rest else c ∷ rest

pub without_absent :
    (a : AccountId) (cs : List CandidateInfo) → is_candidate a cs ≡ false → without a cs ≡ cs
unfolding without is_candidate
without_absent a [] h = refl
without_absent a (c ∷ cs) h = ground (arith, without_absent a cs)

position-some :
    (a : AccountId) (cs : List CandidateInfo)
    → is_candidate a cs ≡ true
    → (n : ℕ) × (position a cs ≡ some n) × (Unique cs → remove_at n cs ≡ without a cs)
unfolding is_candidate position remove_at without
position-some a [] h = cc
position-some a (c ∷ cs) h = elim (Bool-cases (c.who == a)) [
  | inl here ↦ (0, ground arith, λ u. ground (arith, nat_beq_iff c.who a, without_absent a cs))
  | inr later ↦
      let (n, e, k) = position-some a cs (ground arith) in
      (suc n, ground arith, λ u. ground (arith, k u.1))
]

position-none :
    (a : AccountId) (cs : List CandidateInfo) → is_candidate a cs ≡ false → position a cs ≡ none
unfolding is_candidate position
position-none a [] h = refl
position-none a (c ∷ cs) h = ground (arith, position-none a cs)

pub is_candidate-without :
    (a b : AccountId) (cs : List CandidateInfo)
    → is_candidate b (without a cs) ≡ (if nat_beq a b then false else is_candidate b cs)
unfolding is_candidate without
is_candidate-without a b [] = ground arith
is_candidate-without a b (c ∷ cs) =
    ground (
      arith,
      is_candidate-without a b cs,
      nat_beq_iff a b,
      nat_beq_iff c.who a,
      nat_beq_iff c.who b,
    )

pub without-Unique : (a : AccountId) (cs : List CandidateInfo) → Unique cs → Unique (without a cs)
unfolding without
without-Unique a [] u = tt
without-Unique a (c ∷ cs) u =
    ground (arith, without-Unique a cs u.1, is_candidate-without a c.who cs)

module _ {B I V : Type 0} (env : Env B I V) where
  -- Removing a candidate succeeds exactly if there is one: then this candidate is gone, with its
  -- last block, its lock is released, the removal is reported, all other candidates stay in order,
  -- and the number of those left is returned. Otherwise it fails and changes nothing at all. The
  -- block number and the invulnerables stay in either case. No account is a candidate twice
  -- before.
  pub try_remove_candidate_removes :
      (a : AccountId) (s : State B)
      → Unique s.candidates
      → let (r, t) = try_remove_candidate env a s in
        (t.candidates ≡ without a s.candidates)
        × (r ≡ (
            if is_candidate a s.candidates
            then ok (length (without a s.candidates))
            else err (validator not_candidate)))
        × (t.last_authored_block ≡ (
            if is_candidate a s.candidates
            then remove a s.last_authored_block
            else s.last_authored_block))
        × (t.block_number ≡ s.block_number)
        × (t.invulnerables ≡ s.invulnerables)
        × (t.bank ≡ (
            if is_candidate a s.candidates
            then env.currency.remove_lock valstake a s.bank
            else s.bank))
        × (t.events ≡ (
            if is_candidate a s.candidates then s.events ++ candidate_removed a ∷ [] else s.events))
        × (is_candidate a s.candidates ≡ false → t ≡ s)
  unfolding try_remove_candidate deposit_event
  try_remove_candidate_removes a s u = elim (Bool-cases (is_candidate a s.candidates)) [
    | inl h ↦ let (n, e, k) = position-some a s.candidates h in ground (arith, k u)
    | inr h ↦ ground (arith, position-none a s.candidates h, without_absent a s.candidates h)
  ]

  -- A registration that succeeds enters the caller as the last candidate, with the bond of the day
  -- as deposit and lock; the caller was neither a candidate nor invulnerable and had more than the
  -- bond, and the number of candidates stays within the desired one. No account is a candidate
  -- twice before or after. This holds while there are fewer than 2 ^ 32 candidates.
  pub register_as_candidate_enters :
      (a : AccountId) (s : State B)
      → Unique s.candidates
      → length s.candidates < u32_size
      → (register_as_candidate env (signed a) s).0 ≡ ok tt
      → let t = (register_as_candidate env (signed a) s).1 in
        (t.candidates ≡ s.candidates ++ record { who = a; deposit = s.candidacy_bond } ∷ [])
        × Unique t.candidates
        × (length t.candidates ≤ s.desired_candidates)
        × (is_candidate a s.candidates ≡ false)
        × (contains a s.invulnerables ≡ false)
        × (s.candidacy_bond < env.currency.free_balance a s.bank)
        × (t.bank ≡ env.currency.set_lock valstake a s.candidacy_bond s.bank)
        × (lookup a t.last_authored_block ≡ some (add_u32 s.block_number env.kick_threshold))
  unfolding register_as_candidate deposit_event enter_candidate
  register_as_candidate_enters a s u few h =
      let c : CandidateInfo = record { who = a; deposit = s.candidacy_bond } in
      ground (
        arith,
        push-Unique s.candidates c u,
        length-append s.candidates (c ∷ []),
        lookup-insert a a (add_u32 s.block_number env.kick_threshold) s.last_authored_block,
      )
