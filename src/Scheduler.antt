-- ===== src/Scheduler.antt =====
-- worker/src/scheduler.ts: the sweep over the repos' items, and the alarm that repeats it.
pub mod Chain
pub mod Unfunded
pub mod Budget
pub mod Paused
use umbraco_mcp_ops.Prelude.{
  ℕ, ◌+◌, max, String, Bool, true, false, not, ◌&&◌, ◌||◌, ◌==◌, ltb, Option, none, some, List, [],
  ◌∷◌, ◌++◌, any, filter, map, length, str_eq, get_or, if◌then◌else◌,
}
use umbraco_mcp_ops.Coordinate.Types.{
  Mode, enforce, shadow, Failure, Answer, ok, thrown, Deps, World, is_applied,
}
use umbraco_mcp_ops.Coordinate.Apply.{message}
use umbraco_mcp_ops.Coordinate.Reconcile.{
  SweepAsk, ReconcileResult, watched, recent, refired, would_refire, gated, coordinate_reconcile,
}

-- What the Worker's settings say, as JavaScript reads them: `Number(v) * 60_000` where `Number(v)` is
-- finite and positive, `Number(v)` where it is an integer of at least 0, the keys of a JSON object's
-- text, the parts of a text between commas with `trim()` and `toLowerCase()`, and `toLowerCase()`.
pub record Reader : Type 0 where
  pub positive_minutes : Option String → Option ℕ
  pub whole_number : Option String → Option ℕ
  pub keys : String → Answer (List String)
  pub listed : String → List String
  pub lower : String → String

pub record SchedulerEnv : Type 0 where
  pub reader : Reader
  pub repo_routines_json : String
  pub sweep_minutes : Option String
  pub sweep_mode : Option String
  pub sweep_enforce_repos : Option String
  pub sweep_idle_minutes : Option String
  pub sweep_max_refires : Option String

-- What the call of an item's coordinator comes to: it throws, it answers with a body that is no JSON
-- (and whether its status says that it failed), or the item answers.
pub data Reach : Type 0 where
  unreachable : Failure → Reach
  garbled : Bool → String → Reach
  item : Deps → World → Reach

pub record Candidate : Type 0 where
  pub number : ℕ
  pub updated_at : Option ℕ

-- What the outside answers to a sweep: the repos whose sweep is off, the open items of a repo with a
-- trigger label, each item, and the log's insert.
pub record Surroundings : Type 0 where
  pub off : Answer (List String)
  pub found : String → Answer (List Candidate)
  pub reach : String → ℕ → Reach

pub data SweepError : Type 0 where
  controls_unread : String → SweepError
  repo_failed : String → String → SweepError
  item_failed : String → ℕ → String → SweepError

-- `SweepSummary`, and what was asked of which item, in order.
pub record SweepSummary : Type 0 where
  pub repos : List String
  pub paused : List String
  pub checked : ℕ
  pub live : ℕ
  pub refired : List (String × ℕ)
  pub would_refire : List (String × ℕ)
  pub errors : List SweepError
  pub asked : List (String × ℕ × SweepAsk)

-- `intervalMs`.
abbrev pub interval : SchedulerEnv → ℕ
interval env = get_or (env.reader.positive_minutes env.sweep_minutes) 900000

-- `idleIntervalMs`.
abbrev pub idle_interval : SchedulerEnv → ℕ
idle_interval env =
    max (get_or (env.reader.positive_minutes env.sweep_idle_minutes) 3600000) (interval env)

-- `maxRefires`.
abbrev pub max_refires : SchedulerEnv → ℕ
max_refires env = get_or (env.reader.whole_number env.sweep_max_refires) 3

abbrev is_enforce : Option String → Bool
is_enforce none = false
is_enforce (some m) = str_eq m "enforce"

-- `enforcedFor`.
unfoldable pub enforced_for : SchedulerEnv → String → Bool
enforced_for env repo =
    is_enforce env.sweep_mode
    || any (str_eq (env.reader.lower repo)) (env.reader.listed (get_or env.sweep_enforce_repos ""))

-- `new Map(found.map((c) => [c.number, c.updatedAt]))`: an item that two labels found stands once, where
-- it was found first, with the last time that was found.
unfoldable pub put_candidate : Candidate → List Candidate → List Candidate
put_candidate c [] = c ∷ []
put_candidate c (k ∷ ks) =
    let rest = put_candidate c ks in if k.number == c.number then c ∷ ks else k ∷ rest

unfoldable pub candidates_of : List Candidate → List Candidate → List Candidate
candidates_of seen [] = seen
candidates_of seen (c ∷ cs) = candidates_of (put_candidate c seen) cs

-- Whether an answer says that something was done, or newly reported, or that it may be soon.
abbrev pub acted : ReconcileResult → Bool
acted (refired r i) = true
acted (gated r) = is_applied r
acted _ = false

abbrev pub is_fresh : ReconcileResult → Bool
is_fresh (would_refire r i logged h) = not logged
is_fresh _ = false

abbrev may_need : ReconcileResult → Bool
may_need watched = true
may_need (recent i) = true
may_need _ = false

abbrev is_live : ReconcileResult → Bool
is_live r = acted r || (is_fresh r || may_need r)

-- An item's answer, in the summary.
unfoldable pub count_answer : String → ℕ → ReconcileResult → SweepSummary → SweepSummary
count_answer full n r s = record s {
  live = if is_live r then s.live + 1 else s.live;
  refired = if acted r then s.refired ++ (full, n) ∷ [] else s.refired;
  would_refire =
      if not (acted r) && is_fresh r then s.would_refire ++ (full, n) ∷ [] else s.would_refire;
}

abbrev add_error : SweepError → SweepSummary → SweepSummary
add_error e s = record s { errors = s.errors ++ e ∷ [] }

unfoldable pub count_answered : String → ℕ → Answer ReconcileResult → SweepSummary → SweepSummary
count_answered full n (ok r) s = count_answer full n r s
count_answered full n (thrown e) s = add_error (item_failed full n (message e)) s

-- The reply to the question, with its own errors in the summary.
unfoldable pub count_reply : String → ℕ → SweepAsk → Reach → SweepSummary → SweepSummary
count_reply full n a (unreachable e) s = add_error (item_failed full n (message e)) s
count_reply full n a (garbled good status) s =
    if good then s else add_error (item_failed full n status) s
count_reply full n a (item d w) s = count_answered full n (coordinate_reconcile d a n w).0 s

-- What one item is asked.
abbrev pub ask_for : SchedulerEnv → String → Candidate → SweepSummary → SweepAsk
ask_for env full c s = record {
  enforced = enforced_for env full;
  budget = ltb (length s.refired) (max_refires env);
  updated_at = c.updated_at;
}

unfoldable pub sweep_item :
    SchedulerEnv → Surroundings → String → Candidate → SweepSummary → SweepSummary
sweep_item env out full c s =
    count_reply full c.number (ask_for env full c s) (out.reach full c.number) (record s {
      checked = s.checked + 1;
      asked = s.asked ++ (full, c.number, ask_for env full c s) ∷ [];
    })

unfoldable pub sweep_items :
    SchedulerEnv → Surroundings → String → List Candidate → SweepSummary → SweepSummary
sweep_items env out full [] s = s
sweep_items env out full (c ∷ cs) s = sweep_items env out full cs (sweep_item env out full c s)

unfoldable pub sweep_found :
    SchedulerEnv → Surroundings → String → Answer (List Candidate) → SweepSummary → SweepSummary
sweep_found env out full (thrown e) s = add_error (repo_failed full (message e)) s
sweep_found env out full (ok found) s = sweep_items env out full (candidates_of [] found) s

abbrev pub is_off : SchedulerEnv → List String → String → Bool
is_off env off full = any (str_eq (env.reader.lower full)) off

unfoldable pub sweep_repo :
    SchedulerEnv → Surroundings → List String → String → SweepSummary → SweepSummary
sweep_repo env out off full s =
    if is_off env off full
    then record s { paused = s.paused ++ full ∷ [] }
    else sweep_found env out full (out.found full) s

unfoldable pub sweep_repos :
    SchedulerEnv → Surroundings → List String → List String → SweepSummary → SweepSummary
sweep_repos env out off [] s = s
sweep_repos env out off (r ∷ rs) s = sweep_repos env out off rs (sweep_repo env out off r s)

abbrev pub no_summary : List String → SweepSummary
no_summary repos = record {
  repos = repos;
  paused = [];
  checked = 0;
  live = 0;
  refired = [];
  would_refire = [];
  errors = [];
  asked = [];
}

-- Where the switches cannot be read, every repo counts as off.
unfoldable pub sweep_with :
    SchedulerEnv → Surroundings → List String → Answer (List String) → SweepSummary
sweep_with env out repos (ok off) = sweep_repos env out off repos (no_summary repos)
sweep_with env out repos (thrown e) =
    sweep_repos env out (map env.reader.lower repos) repos
      (record (no_summary repos) { errors = controls_unread (message e) ∷ [] })

abbrev chosen : SchedulerEnv → Option (List String) → List String → List String
chosen env none all = all
chosen env (some only) all =
    filter (λ r. any (λ o. str_eq (env.reader.lower o) (env.reader.lower r)) only) all

-- `sweep`, up to its row: the summary, where the repos can be read.
unfoldable pub sweep : SchedulerEnv → Surroundings → Option (List String) → Answer SweepSummary
sweep env out only = elim (env.reader.keys env.repo_routines_json) [
  | ok all ↦ ok (sweep_with env out (chosen env only all) out.off)
  | thrown e ↦ thrown e
]

abbrev is_nil {ℓ} : {A : Type ℓ} → List A → Bool
is_nil [] = true
is_nil (x ∷ xs) = false

-- The `sweep` row, for a sweep with something new: its mode.
unfoldable pub sweep_row : SchedulerEnv → SweepSummary → Option Mode
sweep_row env s =
    if is_nil s.refired && (is_nil s.would_refire && is_nil s.errors)
    then none
    else some (if not (is_nil s.refired) || is_enforce env.sweep_mode then enforce else shadow)

-- The scheduler's own state: its alarm, and when `/ensure` last ran.
pub record Scheduler : Type 0 where
  pub alarm : Option ℕ
  pub last_ensure : ℕ

abbrev is_later : Option ℕ → ℕ → Bool
is_later none next = true
is_later (some at) next = ltb next at

-- `/ensure`.
unfoldable pub ensure : SchedulerEnv → ℕ → Scheduler → Scheduler
ensure env now s = record s {
  last_ensure = now;
  alarm = if is_later s.alarm (now + interval env) then some (now + interval env) else s.alarm;
}

-- `alarm`, before its sweep.
unfoldable pub begin_alarm : SchedulerEnv → ℕ → Scheduler → Scheduler
begin_alarm env started s = record s { alarm = some (started + interval env) }

abbrev is_quiet : Answer SweepSummary → Bool
is_quiet (ok s) = s.live == 0 && is_nil s.errors
is_quiet (thrown e) = false

-- `alarm`, after its sweep, which began at the time given.
unfoldable pub end_alarm : SchedulerEnv → ℕ → Answer SweepSummary → Scheduler → Scheduler
end_alarm env started result s =
    if is_quiet result && ltb s.last_ensure started
    then record s { alarm = some (started + idle_interval env) }
    else s
