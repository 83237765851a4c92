-- ===== src/ValidatorSet/Session/Doubles.antt =====
-- A candidate that is made invulnerable stays a candidate.
use massbit_verification.Prelude.{
  ℕ, ◌-◌, ◌<◌, ◌≡◌, true, some, List, [], ◌∷◌, ◌++◌, arith, nat_eq, nat_beq_iff, length, u32_size,
}
use massbit_verification.Members.{contains}
use massbit_verification.Dispatch.{AccountId, Origin, ok}
use massbit_verification.ValidatorSet.State.{CandidateInfo, Env, State, deposit_event}
use massbit_verification.ValidatorSet.Candidacy.{is_candidate, set_invulnerables}
use massbit_verification.ValidatorSet.Candidacy.Limits.{Unique}
use massbit_verification.ValidatorSet.Session.{new_session}
use massbit_verification.ValidatorSet.Session.Reference.{is_recent, survivors, new_session_lem}

module _ {B I V : Type 0} (env : Env B I V) where
  -- A candidate that has written a block lately stays.
  recent_survives :
      (s : State B) (n : ℕ) (a : AccountId) (cs : List CandidateInfo)
      → is_candidate a cs ≡ true
      → is_recent env s a ≡ true
      → contains a (survivors env s n cs) ≡ true
  unfolding is_candidate survivors contains
  recent_survives s n a [] h r = cc
  recent_survives s n a (c ∷ cs) h r =
      ground (arith, nat_beq_iff c.who a, recent_survives s n a cs, recent_survives s (n - 1) a cs)

  -- An account that is a candidate, has written a block within the kick threshold, and is then made
  -- invulnerable by an allowed call, is returned twice by the next session: among the
  -- invulnerables, and again among the candidates. This holds if no account is a candidate twice,
  -- and there are fewer than 2 ^ 32.
  pub invulnerable_candidate_twice :
      (o : Origin) (a : AccountId) (as' : List AccountId) (index : ℕ) (s : State B)
      → Unique s.candidates
      → length s.candidates < u32_size
      → env.ensure_update_origin o ≡ ok tt
      → contains a as' ≡ true
      → is_candidate a s.candidates ≡ true
      → is_recent env s a ≡ true
      → let t = (set_invulnerables env o as' s).1 in
        (kept : List AccountId) × ((new_session env index t).0 ≡ some (as' ++ kept))
        × (contains a as' ≡ true)
        × (contains a kept ≡ true)
  unfolding set_invulnerables deposit_event
  invulnerable_candidate_twice o a as' index s u f allowed here candidate recent =
      let t : State B = record s {
        invulnerables = as';
        events = (set_invulnerables env o as' s).1.events;
      } in
      let same : (set_invulnerables env o as' s).1 ≡ t = ground (arith, allowed) in
      let kept = survivors env t (length t.candidates) t.candidates in
      rw same (
        kept,
        (new_session_lem env index t u f).0,
        here,
        recent_survives t (length t.candidates) a t.candidates candidate recent,
      )
