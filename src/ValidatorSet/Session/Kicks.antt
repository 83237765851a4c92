-- ===== src/ValidatorSet/Session/Kicks.antt =====
-- What a new session does to the candidates: those who stay are the validators that follow the
-- invulnerables, and enough of them stay.
use massbit_verification.Prelude.{
  ℕ, ◌+◌, ◌≤◌, ◌<◌, ◌≡◌, refl, sym, ◌∙◌, ap, inl, inr, some, true, false, List, [], ◌∷◌, ◌++◌,
  arith, nat_eq, nat_beq, nat_beq_iff, length, length-append, u32_size, Bool-cases,
}
use mathlib.Core.List.{append_assoc}
use massbit_verification.Dispatch.{AccountId}
use massbit_verification.ValidatorSet.State.{CandidateInfo, Env, State}
use massbit_verification.ValidatorSet.Candidacy.{is_candidate, try_remove_candidate}
use massbit_verification.ValidatorSet.Candidacy.Limits.{
  Unique, without, without_absent, without-Unique, try_remove_candidate_removes,
}
use massbit_verification.ValidatorSet.Session.{
  stays, kick_stale_candidates, assemble_validators, new_session,
}

-- The accounts of candidates.
abbrev pub accounts : List CandidateInfo → List AccountId
accounts [] = []
accounts (c ∷ cs) = c.who ∷ accounts cs

differs :
    (a : AccountId) (pre cs : List CandidateInfo) (c : CandidateInfo)
    → is_candidate a (pre ++ c ∷ cs) ≡ false
    → nat_beq c.who a ≡ false
unfolding is_candidate
differs a [] cs c h = ground arith
differs a (d ∷ pre) cs c h = differs a pre cs c (ground arith)

pub without-middle :
    (pre cs : List CandidateInfo) (c : CandidateInfo)
    → Unique (pre ++ c ∷ cs)
    → without c.who (pre ++ c ∷ cs) ≡ pre ++ cs
unfolding without
without-middle [] cs c u = ground (arith, nat_beq_iff c.who c.who, without_absent c.who cs)
without-middle (d ∷ pre) cs c u = ground (
  arith,
  without-middle pre cs c u.1,
  differs d.who pre cs c u.0,
  nat_beq_iff d.who c.who,
  nat_beq_iff c.who d.who,
)

module _ {B I V : Type 0} (env : Env B I V) where
  -- What the loop over the candidates `cs` has done, of which `pre` have stayed before.
  pub record Kicked (pre cs : List CandidateInfo) (s : State B) (kept : List AccountId)
      (t : State B) : Type 0 where
    pub post : List CandidateInfo
    pub left : t.candidates ≡ pre ++ post
    pub named : accounts post ≡ kept
    pub unique : Unique t.candidates
    pub fewer : length post ≤ length cs
    pub enough :
        env.min_candidates ≤ length pre + length cs → env.min_candidates ≤ length pre + length post
    pub same : t.invulnerables ≡ s.invulnerables

  pub kick-stay :
      (c : CandidateInfo) (cs : List CandidateInfo) (s : State B)
      → stays env c s ≡ true
      → kick_stale_candidates env (c ∷ cs) s
        ≡ (c.who ∷ (kick_stale_candidates env cs s).0, (kick_stale_candidates env cs s).1)
  unfolding kick_stale_candidates
  kick-stay c cs s h = ground arith

  pub kick-go :
      (c : CandidateInfo) (cs : List CandidateInfo) (s : State B)
      → stays env c s ≡ false
      → kick_stale_candidates env (c ∷ cs) s
        ≡ kick_stale_candidates env cs (try_remove_candidate env c.who s).1
  unfolding kick_stale_candidates
  kick-go c cs s h = ground arith

  many_left :
      (c : CandidateInfo) (s : State B)
      → length s.candidates < u32_size
      → stays env c s ≡ false
      → env.min_candidates < length s.candidates
  unfolding stays
  many_left c s f h = ground arith

  pub loop-Kicked :
      (pre cs : List CandidateInfo) (s : State B)
      → s.candidates ≡ pre ++ cs
      → Unique s.candidates
      → length s.candidates < u32_size
      → Kicked pre cs s (kick_stale_candidates env cs s).0 (kick_stale_candidates env cs s).1
  loop-Kicked pre [] s e u f =
      unfold kick_stale_candidates in
      record {
        post = [];
        left = e;
        named = refl;
        unique = u;
        fewer = omega arith;
        enough = λ h. h;
        same = refl;
      }
  loop-Kicked pre (c ∷ cs) s e u f = elim (Bool-cases (stays env c s)) [
    | inl stay ↦
        let r = loop-Kicked (pre ++ c ∷ []) cs s (e ∙ sym (append_assoc pre (c ∷ []) cs)) u f in
        rw (kick-stay c cs s stay) (record {
          post = c ∷ r.post;
          left = r.left ∙ append_assoc pre (c ∷ []) r.post;
          named = ap (◌∷◌ c.who) r.named;
          unique = r.unique;
          fewer = omega (arith, r.fewer);
          enough = λ h. omega (arith, r.enough, length-append pre (c ∷ []));
          same = r.same;
        })
    | inr go ↦
        let removed = try_remove_candidate_removes env c.who s u in
        let t = (try_remove_candidate env c.who s).1 in
        let here : t.candidates ≡ pre ++ cs =
          removed.0 ∙ rw e (without-middle pre cs c (rw e at u)) in
        let shrunk : length t.candidates < u32_size =
          rw here (omega (arith, ap length e, length-append pre (c ∷ cs), length-append pre cs)) in
        let r =
          loop-Kicked pre cs t here (rw removed.0 (without-Unique c.who s.candidates u)) shrunk in
        rw (kick-go c cs s go) (record {
          post = r.post;
          left = r.left;
          named = r.named;
          unique = r.unique;
          fewer = omega (arith, r.fewer);
          enough = λ h.
              r.enough (omega (arith, many_left c s f go, ap length e, length-append pre (c ∷ cs)));
          same = r.same ∙ removed.4;
        })
  ]

  -- A new session returns the invulnerables, then the candidates that are left, in order. No
  -- account is a candidate twice, there are not more candidates than before, and not fewer than
  -- the minimum if there were that many. This holds if no account is a candidate twice
  -- before, and there are fewer than 2 ^ 32.
  pub new_session_assembles :
      (index : ℕ) (s : State B)
      → Unique s.candidates
      → length s.candidates < u32_size
      → let (r, t) = new_session env index s in
        (r ≡ some (s.invulnerables ++ accounts t.candidates))
        × Unique t.candidates
        × (length t.candidates ≤ length s.candidates)
        × (env.min_candidates ≤ length s.candidates → env.min_candidates ≤ length t.candidates)
  unfolding new_session assemble_validators
  new_session_assembles index s u f =
      let k = loop-Kicked [] s.candidates s refl u f in
      (
        rw (k.left, k.named, k.same),
        k.unique,
        rw k.left k.fewer,
        rw k.left (λ h. omega (arith, k.enough)),
      )
