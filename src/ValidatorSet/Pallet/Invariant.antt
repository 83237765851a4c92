-- ===== src/ValidatorSet/Pallet/Invariant.antt =====
-- What holds of the candidates at all times, from the genesis on.
use massbit_verification.Prelude.{
  ℕ, List, [], ◌∷◌, ◌≤◌, ◌<◌, ◌≡◌, refl, arith, length, u32_size, some, inl, inr, ◌∙◌, Bool-cases,
}
use massbit_verification.Dispatch.{
  AccountId, Origin, signed, root, unsigned, Result-cases, err, DispatchError,
}
use massbit_verification.ValidatorSet.State.{
  CandidateInfo, Env, State, GenesisConfig, build, is_buildable, deposit_event,
}
use massbit_verification.ValidatorSet.Candidacy
use massbit_verification.ValidatorSet.Candidacy.{enter_candidate, try_remove_candidate}
use massbit_verification.ValidatorSet.Candidacy.Limits.{Unique, register_as_candidate_enters}
use massbit_verification.ValidatorSet.Session.{
  stays, new_session, kick_stale_candidates, note_author,
}
use massbit_verification.ValidatorSet.Session.Kicks.{kick-stay, kick-go, new_session_assembles}
use massbit_verification.ValidatorSet.Pallet.{
  set_invulnerables, register_as_candidate, Operation, call, session, author, begin_block, balances,
  dispatch, step, run,
}

module _ {B I V : Type 0} (env : Env B I V) where
  -- No account is a candidate twice, and there are not more candidates than desired, nor than the
  -- limit.
  pub record Sound (s : State B) : Type 0 where
    pub unique : Unique s.candidates
    pub few : length s.candidates ≤ s.desired_candidates
    pub limit : s.desired_candidates ≤ env.max_candidates

  module _ (fits : env.max_candidates < u32_size) where
    -- A failed registration writes nothing.
    register_failed :
        (a : AccountId) (s : State B) (e : DispatchError)
        → (Candidacy.register_as_candidate env (signed a) s).0 ≡ err e
        → (Candidacy.register_as_candidate env (signed a) s).1 ≡ s
    unfolding Candidacy.register_as_candidate
    register_failed a s e h = ground arith

    register-desired :
        (a : AccountId) (s : State B)
        → (Candidacy.register_as_candidate env (signed a) s).1.desired_candidates
          ≡ s.desired_candidates
    unfolding Candidacy.register_as_candidate enter_candidate deposit_event
    register-desired a s = ground arith

    register-Sound :
        (a : AccountId) (s : State B)
        → Sound s
        → Sound (Candidacy.register_as_candidate env (signed a) s).1
    register-Sound a s k =
        elim (Result-cases (Candidacy.register_as_candidate env (signed a) s).0) [
          | inr (e, h) ↦ rw (register_failed a s e h) k
          | inl (u, h) ↦
              let r =
                register_as_candidate_enters env a s k.unique (omega (arith, k.few, k.limit, fits))
                  h in
              record {
                unique = r.1;
                few = rw (register-desired a s) r.2;
                limit = rw (register-desired a s) k.limit;
              }
        ]

    invulnerables-Sound :
        (o : Origin) (as' : List AccountId) (s : State B)
        → Sound s
        → Sound (Candidacy.set_invulnerables env o as' s).1
    unfolding Candidacy.set_invulnerables deposit_event
    invulnerables-Sound o as' s k = elim (Result-cases (env.ensure_update_origin o)) [
      | inl (u, h) ↦ rw h (record { unique = k.unique; few = k.few; limit = k.limit })
      | inr (e, h) ↦ rw h k
    ]

    removed-desired :
        (a : AccountId) (s : State B)
        → (try_remove_candidate env a s).1.desired_candidates ≡ s.desired_candidates
    unfolding try_remove_candidate deposit_event
    removed-desired a s = ground arith

    kicked-desired :
        (cs : List CandidateInfo) (s : State B)
        → (kick_stale_candidates env cs s).1.desired_candidates ≡ s.desired_candidates
    kicked-desired [] s = unfold kick_stale_candidates in refl
    kicked-desired (c ∷ cs) s = elim (Bool-cases (stays env c s)) [
      | inl stay ↦ rw (kick-stay env c cs s stay) (kicked-desired cs s)
      | inr go ↦
          rw (kick-go env c cs s go)
            (kicked-desired cs (try_remove_candidate env c.who s).1 ∙ removed-desired c.who s)
    ]

    session-desired :
        (index : ℕ) (s : State B)
        → (new_session env index s).1.desired_candidates ≡ s.desired_candidates
    unfolding new_session
    session-desired index s = kicked-desired s.candidates s

    step-Sound : (op : Operation B) (s : State B) → Sound s → Sound (step env op s)
    unfolding step dispatch note_author
    step-Sound (call o (set_invulnerables as')) s k = invulnerables-Sound o as' s k
    step-Sound (call (signed a) register_as_candidate) s k = register-Sound a s k
    step-Sound (call root register_as_candidate) s k = unfold Candidacy.register_as_candidate in k
    step-Sound (call unsigned register_as_candidate) s k =
        unfold Candidacy.register_as_candidate in k
    step-Sound (session index) s k =
        let r = new_session_assembles env index s k.unique (omega (arith, k.few, k.limit, fits)) in
        record {
          unique = r.1;
          few = rw (session-desired index s) (omega (arith, r.2, k.few));
          limit = rw (session-desired index s) k.limit;
        }
    step-Sound (author a) s k = record { unique = k.unique; few = k.few; limit = k.limit }
    step-Sound (begin_block n) s k = record { unique = k.unique; few = k.few; limit = k.limit }
    step-Sound (balances f) s k = record { unique = k.unique; few = k.few; limit = k.limit }

    runs-Sound : (ops : List (Operation B)) (s : State B) → Sound s → Sound (run env ops s)
    unfolding run
    runs-Sound [] s k = k
    runs-Sound (op ∷ ops) s k = runs-Sound ops (step env op s) (step-Sound op s k)

    built-Sound :
        (g : GenesisConfig) (s t : State B) → s.candidates ≡ [] → build env g s ≡ some t → Sound t
    unfolding build is_buildable
    built-Sound g s t none h =
        let same : t.candidates ≡ [] = ground (arith, none) in
        let low : t.desired_candidates ≤ env.max_candidates = ground arith in
        record { unique = rw same tt; few = rw same (omega arith); limit = low }

    -- Whatever happens to the pallet after a genesis that is built without candidates (calls from any
    -- origin, failed or not, sessions, authored blocks, new blocks, changes of the balances), no
    -- account is a candidate twice, there are never more candidates than desired, nor are more
    -- desired than the limit of candidates, which fits into a `u32`.
    pub run-Sound_from_genesis :
        (g : GenesisConfig) (ops : List (Operation B)) (s t : State B)
        → s.candidates ≡ []
        → build env g s ≡ some t
        → Sound (run env ops t)
    run-Sound_from_genesis g ops s t none h = runs-Sound ops t (built-Sound g s t none h)
