-- ===== src/ValidatorSet/Session/Reference.antt =====
-- Who validates next, as a function of the state before alone: the loop over the candidates removes
-- them one by one, and counts the candidates in the storage again at each step.
use massbit_verification.Prelude.{
  ℕ, ◌-◌, ◌<◌, ◌≡◌, refl, sym, ap, ◌∙◌, Bool, true, ◌||◌, some, List, [], ◌∷◌, ◌++◌, arith, ltb,
  leb, nat_eq, nat_beq_iff, if◌then◌else◌, length, length-append, u32_size, Bool-cases, inl, inr,
}
use mathlib.Core.List.{append_assoc}
use massbit_verification.StorageMap.{lookup, lookup-remove}
use massbit_verification.Dispatch.{AccountId}
use massbit_verification.ValidatorSet.State.{CandidateInfo, Env, State}
use massbit_verification.ValidatorSet.Candidacy.{is_candidate, try_remove_candidate}
use massbit_verification.ValidatorSet.Candidacy.Limits.{
  Unique, without-Unique, try_remove_candidate_removes,
}
use massbit_verification.ValidatorSet.Session.{
  or_zero, stays, kick_stale_candidates, assemble_validators, new_session,
}
use massbit_verification.ValidatorSet.Session.Kicks.{
  kick-stay, kick-go, without-middle, loop-Kicked, accounts,
}

suffix-Unique : (pre cs : List CandidateInfo) → Unique (pre ++ cs) → Unique cs
suffix-Unique [] cs u = u
suffix-Unique (d ∷ pre) cs u = suffix-Unique pre cs u.1

module _ {B I V : Type 0} (env : Env B I V) where
  -- The candidate has written a block within the kick threshold.
  abbrev pub is_recent : State B → AccountId → Bool
  is_recent s a = ltb (s.block_number - or_zero (lookup a s.last_authored_block)) env.kick_threshold

  -- Of `n` candidates, the first stale ones go until only the minimum is left.
  unfoldable pub survivors : State B → ℕ → List CandidateInfo → List AccountId
  survivors s n [] = []
  survivors s n (c ∷ cs) =
      let less = survivors s (n - 1) cs in
      let same = survivors s n cs in
      if is_recent s c.who || leb n env.min_candidates then c.who ∷ same else less

  -- The loop has left `s` of the state `old`; `cs` are still to be looked at.
  record Meanwhile (old s : State B) (pre cs : List CandidateInfo) : Type 0 where
    pub here : s.candidates ≡ pre ++ cs
    pub unique : Unique s.candidates
    pub block : s.block_number ≡ old.block_number
    pub last :
        (a : AccountId)
        → is_candidate a cs ≡ true
        → lookup a s.last_authored_block ≡ lookup a old.last_authored_block

  stays_lem :
      (old s : State B) (pre cs : List CandidateInfo) (c : CandidateInfo)
      → Meanwhile old s pre (c ∷ cs)
      → length s.candidates < u32_size
      → stays env c s ≡ (is_recent old c.who || leb (length s.candidates) env.min_candidates)
  unfolding stays is_candidate
  stays_lem old s pre cs c m f = ground (arith, m.block, m.last c.who, nat_beq_iff c.who c.who)

  goes_on :
      (old s : State B) (pre cs : List CandidateInfo) (c : CandidateInfo)
      → Meanwhile old s pre (c ∷ cs)
      → Meanwhile old s (pre ++ c ∷ []) cs
  unfolding is_candidate
  goes_on old s pre cs c m = record {
    here = m.here ∙ sym (append_assoc pre (c ∷ []) cs);
    unique = m.unique;
    block = m.block;
    last = λ a h. m.last a (ground arith);
  }

  removes :
      (old s : State B) (pre cs : List CandidateInfo) (c : CandidateInfo)
      → Meanwhile old s pre (c ∷ cs)
      → Meanwhile old (try_remove_candidate env c.who s).1 pre cs
  unfolding is_candidate
  removes old s pre cs c m =
      let r = try_remove_candidate_removes env c.who s m.unique in
      record {
        here = r.0 ∙ rw m.here (without-middle pre cs c (rw m.here at m.unique));
        unique = rw r.0 (without-Unique c.who s.candidates m.unique);
        block = r.3 ∙ m.block;
        last = λ a h. ground (
          arith,
          r.2,
          m.last a,
          suffix-Unique pre (c ∷ cs) (rw m.here at m.unique),
          lookup-remove c.who a s.last_authored_block,
          nat_beq_iff c.who a,
        );
      }

  loop_lem :
      (old s : State B) (pre cs : List CandidateInfo)
      → Meanwhile old s pre cs
      → length s.candidates < u32_size
      → (kick_stale_candidates env cs s).0 ≡ survivors old (length s.candidates) cs
  unfolding survivors
  loop_lem old s pre [] m f = unfold kick_stale_candidates in refl
  loop_lem old s pre (c ∷ cs) m f = elim (Bool-cases (stays env c s)) [
    | inl stay ↦ ground (
      arith,
      kick-stay env c cs s stay,
      stays_lem old s pre cs c m f,
      loop_lem old s (pre ++ c ∷ []) cs (goes_on old s pre cs c m) f,
    )
    | inr go ↦
        let t = (try_remove_candidate env c.who s).1 in
        let m' = removes old s pre cs c m in
        let one_less : length t.candidates ≡ length s.candidates - 1 = omega (
          arith,
          ap length m'.here,
          ap length m.here,
          length-append pre cs,
          length-append pre (c ∷ cs),
        ) in
        ground (
          arith,
          kick-go env c cs s go,
          stays_lem old s pre cs c m f,
          one_less,
          loop_lem old t pre cs m' (omega (arith, one_less, f)),
        )
  ]

  -- A new session returns the invulnerables and then the survivors of the candidates, and the survivors
  -- are the candidates that are left: those who have written a block within the kick threshold, and
  -- of the others the first ones go until only the minimum of candidates is left. So the removal one
  -- by one, which counts the candidates in the storage again each time, is the same as a pass
  -- over the candidates and the last blocks of the state before. This holds if no account is a
  -- candidate twice before, and there are fewer than 2 ^ 32.
  pub new_session_lem :
      (index : ℕ) (s : State B)
      → Unique s.candidates
      → length s.candidates < u32_size
      → let (r, t) = new_session env index s in
        (r ≡ some (s.invulnerables ++ survivors s (length s.candidates) s.candidates))
        × (accounts t.candidates ≡ survivors s (length s.candidates) s.candidates)
  unfolding new_session assemble_validators
  new_session_lem index s u f =
      let k = loop-Kicked env [] s.candidates s refl u f in
      let start : Meanwhile s s [] s.candidates = record {
        here = refl;
        unique = u;
        block = refl;
        last = λ a h. refl;
      } in
      let same = loop_lem s s [] s.candidates start f in
      (rw (k.same, same) refl, rw k.left (k.named ∙ same))
