-- ===== src/Scheduler/Chain.antt =====
-- The alarm of worker/src/scheduler.ts, over any sequence of what the scheduler is called for.
use umbraco_mcp_ops.Prelude.{
  ℕ, ◌+◌, ◌≤◌, ◌≡◌, refl, true, false, ◌&&◌, Option, none, some, is_some, List, [], ◌∷◌, ltb,
  Bool-cases, inl, inr, and_false, arith,
}
use umbraco_mcp_ops.Coordinate.Types.{Answer}
use umbraco_mcp_ops.Scheduler.{
  SchedulerEnv, Scheduler, SweepSummary, interval, ensure, begin_alarm, end_alarm, is_quiet,
}

-- A call of `/ensure`, the ring of the alarm, which the platform takes away as it calls `alarm()`, or the
-- end of an alarm's sweep, each at its time. A sweep waits on the outside between its start and its end,
-- so other calls may come between the two.
pub data Tick : Type 0 where
  ensured : ℕ → Tick
  rang : ℕ → Tick
  ended : ℕ → Answer SweepSummary → Tick

abbrev pub after_tick : SchedulerEnv → Tick → Scheduler → Scheduler
after_tick env (ensured now) s = ensure env now s
after_tick env (rang now) s = begin_alarm env now (record s { alarm = none })
after_tick env (ended started result) s = end_alarm env started result s

abbrev pub after_ticks : SchedulerEnv → List Tick → Scheduler → Scheduler
after_ticks env [] s = s
after_ticks env (t ∷ ts) s = after_ticks env ts (after_tick env t s)

end_alarm-alarm :
    (env : SchedulerEnv) (started : ℕ) (r : Answer SweepSummary) (s : Scheduler)
    → is_some s.alarm ≡ true
    → is_some (end_alarm env started r s).alarm ≡ true
unfolding end_alarm
end_alarm-alarm env started r s h = elim (Bool-cases (is_quiet r && ltb s.last_ensure started)) [
  | inl e ↦ rw e refl
  | inr e ↦ rw e h
]

after_tick-alarm :
    (env : SchedulerEnv) (t : Tick) (s : Scheduler)
    → is_some s.alarm ≡ true
    → is_some (after_tick env t s).alarm ≡ true
unfolding ensure begin_alarm
after_tick-alarm env (ensured now) s h = ground arith
after_tick-alarm env (rang now) s h = refl
after_tick-alarm env (ended started r) s h = end_alarm-alarm env started r s h

-- Once the alarm is set, the chain of sweeps never stops: after any calls and any rings, each of
-- which takes the alarm away, in any order and whatever the sweeps came to, thrown included, an
-- alarm is set.
pub after_ticks-alarm :
    (env : SchedulerEnv) (ts : List Tick) (s : Scheduler)
    → is_some s.alarm ≡ true
    → is_some (after_ticks env ts s).alarm ≡ true
after_ticks-alarm env [] s h = h
after_ticks-alarm env (t ∷ ts) s h =
    after_ticks-alarm env ts (after_tick env t s) (after_tick-alarm env t s h)

-- No later than a time.
abbrev pub IsBy : ℕ → Option ℕ → Type 0
IsBy t none = ⊥
IsBy t (some at) = at ≤ t

-- A webhook's call of `/ensure` leaves the alarm set no later than one normal interval from then,
-- from any state: with no alarm, or with one slowed down for a quiet spell.
ensure-IsBy :
    (env : SchedulerEnv) (now : ℕ) (s : Scheduler)
    → IsBy (now + interval env) (ensure env now s).alarm
unfolding ensure
ensure-IsBy env now s = ground arith

no_later : (now started k : ℕ) → started ≤ now → ltb (now + k) (started + k) ≡ false
no_later now started k h = ground arith

-- A webhook that comes while a sweep runs keeps the normal pace: where `/ensure` came at or after
-- the start of an alarm's sweep, the alarm at its end is one normal interval after its start,
-- whatever the sweep came to.
end_alarm-after_ensure :
    (env : SchedulerEnv) (started now : ℕ) (r : Answer SweepSummary) (s : Scheduler)
    → started ≤ now
    → (end_alarm env started r (ensure env now (begin_alarm env started s))).alarm
      ≡ some (started + interval env)
unfolding end_alarm ensure begin_alarm
end_alarm-after_ensure env started now r s h =
    let late : ltb now started ≡ false = ground (arith, h) in
    rw (late, and_false (is_quiet r), no_later now started (interval env) h) refl
