-- ===== src/Fixtures.antt =====
-- An issue of one repository, and the answers of an outside that is up.
use umbraco_mcp_ops.Prelude.{none, some, true, false, List, [], ◌∷◌}
use umbraco_mcp_ops.Graph.Label.{Name, tracked, ai_ready}
use umbraco_mcp_ops.Graph.Json.{Engine, natural}
use umbraco_mcp_ops.Graph.Outcome.{Outcome}
use umbraco_mcp_ops.Graph.Gate.{MergeGateFacts, completed, success, failure, approved}
use umbraco_mcp_ops.Graph.Translate.{Payload, issues_labeled, person, open_issue, blank_payload}
use umbraco_mcp_ops.Graph.RoundTrip.{written}
use umbraco_mcp_ops.Coordinate.Types.{
  Answer, ok, Outside, Deps, Store, World, Input, default_caps, watchdog_minutes_for,
}

abbrev pub engine : Engine
engine = record {
  marker = λ s. some "issue-build-loop";
  fence = λ s. some s;
  parse_json = λ s. some (written (Outcome.build_succeeded (natural 31)));
  stringify = λ j. "";
  trim_start = λ s. s;
  closing = λ s. 12 ∷ 14 ∷ 12 ∷ [];
  slice = λ n s. s;
  show = λ n. "7";
  escape_backticks = λ s. s;
  one_line = λ s. s;
  trim = λ s. s;
}

abbrev pub green : MergeGateFacts
green = record {
  head_sha = some "abc";
  check_runs = record { status = completed; conclusion = success; name = some "build" } ∷ [];
  latest_review = approved;
  mergeable = some true;
}

abbrev pub red : MergeGateFacts
red = record {
  head_sha = some "abc";
  check_runs = record { status = completed; conclusion = failure; name = some "build" } ∷ [];
  latest_review = approved;
  mergeable = some true;
}

-- An outside whose writes all answer so, and whose item shows these labels.
abbrev pub outside : Answer (Unit {0}) → List Name → Outside
outside answer shown = record {
  engine = engine;
  now = λ n. 1000000;
  write = λ n. answer;
  labels = λ n. ok shown;
  facts = λ n. ok green;
  pull = λ n. ok (record { head_sha = "abc"; is_merged = false; is_open = true });
  comments = λ n. ok [];
  in_tag = λ n. ok true;
  open_items = λ n. ok [];
  bot_login = λ n. ok none;
  work_log = λ n. ok none;
  last_activity = λ n. ok none;
}

-- MODE and WATCHDOG set to enforce, or neither set.
abbrev pub enforcing : Answer (Unit {0}) → List Name → Deps
enforcing answer shown = record {
  outside = outside answer shown;
  live = true;
  enforced = λ e. true;
  caps = default_caps;
  watchdog_minutes = watchdog_minutes_for;
  watchdog_retry = false;
}

abbrev pub watching : List Name → Deps
watching shown = record (enforcing (ok tt) shown) { enforced = λ e. false }

abbrev pub empty_store : Store
empty_store = record {
  pending = none;
  alarm = none;
  ci_fix = none;
  rework_expired = false;
  review_reworks = 0;
  review_loop = none;
  shipped = none;
  release_merged = none;
  merge_fired_for = none;
  applied = λ r. none;
  seen = [];
  completed = none;
  reconcile_reported = none;
}

abbrev pub start : World
start = record { store = empty_store; calls = 0; trace = [] }

-- A person adds `ai-ready` to issue 42.
abbrev pub ready_payload : Payload
ready_payload = record (blank_payload issues_labeled) {
  sender = some (record { login = "maintainer"; user_type = person });
  label = some (tracked ai_ready);
  labels = some (tracked ai_ready ∷ []);
  issue = some (record { state = some open_issue; is_pr = some false });
}

abbrev pub ready_input : Input
ready_input = record {
  item = 42;
  delivery = some "d-1";
  actor = none;
  payload = some ready_payload;
}
