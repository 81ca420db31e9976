-- ===== src/RoutinesClient/Attempts.antt =====
-- The retries of `fireRoutine` (worker/src/routines-client.ts) end.
use umbraco_mcp_ops.Prelude.{
  ℕ, zero, suc, ◌+◌, ◌*◌, ◌≤◌, ◌<◌, ◌≡◌, ◌≢◌, ◌↔◌, refl, true, String, ◌==◌, ==_iff, Bool-cases,
  inl, inr, ◌⊎◌, get_or, arith,
}
use umbraco_mcp_ops.Graph.Json.{Engine}
use umbraco_mcp_ops.Coordinate.Types.{Answer, ok, thrown, rate_limited, refused}
use umbraco_mcp_ops.RoutinesClient.{
  RoutineTarget, Reply, accepted, answered, network_error, Api, Fired, fire_from, fire_at,
  fire_routine, is_transient, ended_by, retry_after, retry_delay, limited_message, failed_message,
  routine_target_for,
}

-- A reply after which another call may help: no answer at all, or a failure of the server.
abbrev pub MayPass : Reply → Type 0
MayPass accepted = ⊥
MayPass (answered status said) = 500 ≤ status
MayPass (network_error m) = Unit {0}

-- What a fire comes to with its last reply, the k-th: it returns where the reply was accepted. It throws
-- a rate limit, with the time to try again (a minute after the wait that the text asks for, or after
-- half an hour), for status 429, and an error for any other.
abbrev pub EndsWith : Api → ℕ → Reply → Answer (Unit {0}) → Type 0
EndsWith api k accepted result = result ≡ ok tt
EndsWith api k (answered status said) result =
    (status ≡ 429
      → result
        ≡ thrown (
            rate_limited (limited_message api (answered status said))
              (api.now k + (get_or (retry_after (api.asked_wait said)) 1800000 + 60000))))
    × (status ≢ 429 → result ≡ thrown (refused (failed_message api (answered status said))))
EndsWith api k (network_error m) result =
    result ≡ thrown (refused (failed_message api (network_error m)))

is_transient_iff : (r : Reply) → (is_transient r ≡ true) ↔ MayPass r
unfolding is_transient
is_transient_iff accepted = (λ h. cc, λ h. absurd h)
is_transient_iff (answered status said) = (λ h. ground arith, λ h. ground arith)
is_transient_iff (network_error m) = (λ h. tt, λ h. refl)

ended_by-EndsWith : (api : Api) (k : ℕ) (r : Reply) → EndsWith api k r (ended_by api k r)
unfolding ended_by
ended_by-EndsWith api k accepted = refl
ended_by-EndsWith api k (answered status said) = elim (Bool-cases (status == 429)) [
  | inl e ↦ (λ h. rw e refl, λ h. absurd (h ((==_iff status 429).0 e)))
  | inr e ↦ (λ h. absurd (cc (e, (==_iff status 429).1 h)), λ h. rw e refl)
]
ended_by-EndsWith api k (network_error m) = refl

-- From the call `made` on, with `left` more allowed: the last call, what it comes to, that each call
-- before it might be followed by another, and that none is allowed or of use after it.
abbrev RunsTo : Api → ℕ → ℕ → Fired → Type 0
RunsTo api made left f =
    (last : ℕ) × (f.calls ≡ last + 1)
    × EndsWith api last (api.reply last) f.result
    × (made ≤ last)
    × (last ≤ made + left)
    × ((k : ℕ) → made ≤ k → k < last → MayPass (api.reply k))
    × ((last ≡ made + left) ⊎ ((MayPass (api.reply last)) → ⊥))

from_next :
    (api : Api) (made last : ℕ)
    → MayPass (api.reply made)
    → ((k : ℕ) → made + 1 ≤ k → k < last → MayPass (api.reply k))
    → (k : ℕ) → made ≤ k
    → k < last
    → MayPass (api.reply k)
from_next api made last e after k h l = elim (Bool-cases (k == made)) [
  | inl q ↦ rw (← (==_iff k made).0 q) at e
  | inr q ↦ after k (ground arith) l
]

fire_from-RunsTo :
    (api : Api) (left made waited : ℕ) → RunsTo api made left (fire_from api (suc left) made waited)
unfolding fire_from
fire_from-RunsTo api zero made waited = (
  made,
  refl,
  ended_by-EndsWith api made (api.reply made),
  omega arith,
  omega arith,
  λ k h l. absurd (omega arith),
  inl (omega arith),
)
fire_from-RunsTo api (suc left) made waited = elim (Bool-cases (is_transient (api.reply made))) [
  | inr e ↦ rw e (
    made,
    refl,
    ended_by-EndsWith api made (api.reply made),
    omega arith,
    omega arith,
    λ k h l. absurd (omega arith),
    inr (λ h. cc (e, (is_transient_iff (api.reply made)).1 h)),
  )
  | inl e ↦
      let r = fire_from-RunsTo api left (made + 1) (waited + retry_delay * (made + 1)) in
      rw e (
        r.0,
        r.1,
        r.2,
        omega (arith, r.3),
        omega (arith, r.4),
        λ k h l. from_next api made r.0 ((is_transient_iff (api.reply made)).0 e) r.5 k h l,
        elim r.6 [ inl q ↦ inl (omega (arith, q)) | inr q ↦ inr q ],
      )
]

-- What a fire comes to, by the target that was found.
abbrev pub FiredFor : Api → Answer RoutineTarget → Fired → Type 0
FiredFor api (thrown e) f = (f.result ≡ thrown e) × (f.calls ≡ 0)
FiredFor api (ok target) f =
    (last : ℕ) × (f.calls ≡ last + 1)
    × EndsWith api last (api.reply last) f.result
    × (last ≤ 2)
    × ((k : ℕ) → k < last → MayPass (api.reply k))
    × ((last ≡ 2) ⊎ ((MayPass (api.reply last)) → ⊥))

fire_at-FiredFor : (api : Api) (t : Answer RoutineTarget) → FiredFor api t (fire_at api t)
unfolding fire_at
fire_at-FiredFor api (thrown e) = (refl, refl)
fire_at-FiredFor api (ok target) =
    let r = fire_from-RunsTo api 2 0 0 in (r.0, r.1, r.2, r.4, λ k l. r.5 k (omega arith) l, r.6)

-- A fire whose repo has no routine configured throws that and makes no call. Any other makes at
-- least one call and at most three: another one exactly while there was no answer, or a status of
-- 500 or more, and fewer than three were made. It ends as its last reply says: it returns where
-- the reply accepts, throws a rate limit with the time to try again for status 429, and an error
-- for any other.
pub fire_routine-FiredFor :
    (e : Engine) (lower : String → String) (raw want : String) (api : Api)
    → FiredFor api (routine_target_for e lower raw want) (fire_routine e lower raw want api)
unfolding fire_routine
fire_routine-FiredFor e lower raw want api =
    fire_at-FiredFor api (routine_target_for e lower raw want)
