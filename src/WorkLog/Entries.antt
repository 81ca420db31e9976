-- ===== src/WorkLog/Entries.antt =====
-- worker/src/work-log.ts, `handleLogAdd` and `handleLogRead`, over the entries of
-- worker/src/db/log-entries.ts.
use umbraco_mcp_ops.Prelude.{
  ℕ, zero, suc, String, Bool, true, false, ◌&&◌, ltb, leb, Option, none, some, List, [], ◌∷◌, ◌⊎◌,
  inl, inr, length, str_eq, if◌then◌else◌,
}
use umbraco_mcp_ops.Graph.Json.{
  Json, Items, Number, natural, unusual, null, number, array, nil, item, as_text,
}
use umbraco_mcp_ops.Coordinate.Types.{refused, Answer, ok, thrown}
use umbraco_mcp_ops.Overrides.{field_of}
use umbraco_mcp_ops.WorkLog.{Tools, Claims, max_body_bytes, max_entries, claims_from}

pub data LogKind : Type 0 where
  journal : LogKind
  decision : LogKind
  build : LogKind

-- LOG_KINDS.includes(kind).
abbrev pub read_kind : Option String → Option LogKind
read_kind none = none
read_kind (some s) =
    if str_eq s "journal"
    then some journal
    else if str_eq s "decision"
    then some decision
    else if str_eq s "build"
    then some build
    else none

pub data LogCategory : Type 0 where
  assumption : LogCategory
  deviation : LogCategory
  workaround : LogCategory
  judgment_call : LogCategory

-- LOG_CATEGORIES.includes(category).
abbrev pub read_category : Option String → Option LogCategory
read_category none = none
read_category (some s) =
    if str_eq s "assumption"
    then some assumption
    else if str_eq s "deviation"
    then some deviation
    else if str_eq s "workaround"
    then some workaround
    else if str_eq s "judgment-call"
    then some judgment_call
    else none

-- The category of an entry, which a build's has none of; `none` where it is refused.
abbrev category_of : LogKind → Option String → Option (Option LogCategory)
category_of build s = some none
category_of k s = elim (read_category s) [ none ↦ none | some c ↦ some (some c) ]

-- A whole number above zero.
abbrev is_id : Tools → Json → Bool
is_id tools (number (natural n)) = ltb 0 n
is_id tools (number (unusual s)) = tools.is_whole s && tools.is_positive s
is_id tools _ = false

unfoldable pub all_ids : Tools → Items → Bool
all_ids tools nil = true
all_ids tools (item v vs) = is_id tools v && all_ids tools vs

-- The entries that a decision refers to; `none` where they are refused.
abbrev refs_of : Tools → LogKind → Option Json → Option Items
refs_of tools k none = some nil
refs_of tools decision (some (array vs)) = if all_ids tools vs then some vs else none
refs_of tools k (some v) = none

-- What a request adds: a journal or build entry, or a decision, with its text.
pub record Draft : Type 0 where
  pub kind : LogKind
  pub category : Option LogCategory
  pub refs : Items
  pub body : String

abbrev is_decision : LogKind → Bool
is_decision decision = true
is_decision _ = false

-- The checks of the text, which give the status of a refusal.
unfoldable pub with_body : Tools → LogKind → Option LogCategory → Items → Option String → ℕ ⊎ Draft
with_body tools k c refs none = inl 400
with_body tools k c refs (some body) =
    let trimmed = tools.engine.trim body in
    if str_eq trimmed ""
    then inl 400
    else if is_decision k && tools.has_line_end trimmed
    then inl 400
    else if ltb max_body_bytes (length (tools.encode body))
    then inl 413
    else inr (record { kind = k; category = c; refs = refs; body = body })

abbrev with_refs : Tools → Json → LogKind → Option (Option LogCategory) → Option Items → ℕ ⊎ Draft
with_refs tools v k (some c) (some refs) =
    with_body tools k c refs (as_text (field_of "body" (some v)))
with_refs tools v k _ _ = inl 400

abbrev draft_of : Tools → Json → Option LogKind → ℕ ⊎ Draft
draft_of tools v none = inl 400
draft_of tools v (some k) =
    with_refs tools v k (category_of k (as_text (field_of "category" (some v))))
      (refs_of tools k (field_of "refs" (some v)))

-- A request's entry, or the status of its refusal.
unfoldable pub draft_in : Tools → Json → ℕ ⊎ Draft
draft_in tools v = draft_of tools v (read_kind (as_text (field_of "kind" (some v))))

-- A row of `log_entries`.
pub record Entry : Type 0 where
  pub owner : String
  pub repo : String
  pub item_number : Number
  pub draft : Draft
  pub routine : String
  pub token : String

-- The rows, the newest first. With each, the count of its kind on its item's row goes up by one.
pub record Log : Type 0 where
  pub entries : List Entry
  pub counted : List (String × String × Number × LogKind)

-- `countForToken`.
unfoldable pub count_for_token : List Entry → String → ℕ
count_for_token [] id = 0
count_for_token (e ∷ es) id =
    let rest = count_for_token es id in if str_eq e.token id then suc rest else rest

-- `add`, whose `toLowerCase` throws on what is no text.
unfoldable pub add_entry :
    Tools → Claims → Draft → Option String → Option String → Log → Answer ℕ × Log
add_entry tools c d (some owner) (some repo) log = (
  ok 200,
  record {
    entries =
        record {
          owner = tools.lower owner;
          repo = tools.lower repo;
          item_number = c.item_number;
          draft = d;
          routine = tools.bound c.routine;
          token = tools.bound c.jti;
        }
        ∷ log.entries;
    counted = (tools.lower owner, tools.lower repo, c.item_number, d.kind) ∷ log.counted;
  },
)
add_entry tools c d _ _ log = (thrown (refused "toLowerCase is not a function"), log)

-- An entry whose request was let through, and that is not added yet.
pub record Waiting : Type 0 where
  pub claims : Claims
  pub draft : Draft

-- The cap of a token's entries, after every other check: the status of a refusal, or what is to be added.
unfoldable pub admit : Tools → Claims → ℕ ⊎ Draft → Log → Answer (ℕ ⊎ Waiting)
admit tools c (inl status) log = ok (inl status)
admit tools c (inr d) log =
    if leb max_entries (count_for_token log.entries (tools.bound c.jti))
    then ok (inl 429)
    else ok (inr (record { claims = c; draft = d }))

unfoldable pub admit_parsed : Tools → Claims → Option Json → Log → Answer (ℕ ⊎ Waiting)
admit_parsed tools c none log = ok (inl 400)
admit_parsed tools c (some null) log = thrown (refused "Cannot destructure null")
admit_parsed tools c (some v) log = admit tools c (draft_in tools v) log

pub record LogRequest : Type 0 where
  pub now : ℕ
  pub authorization : Option String
  pub body : String

unfoldable pub admit_claimed : Tools → LogRequest → ℕ ⊎ Claims → Log → Answer (ℕ ⊎ Waiting)
admit_claimed tools r (inl status) log = ok (inl status)
admit_claimed tools r (inr c) log = admit_parsed tools c (tools.engine.parse_json r.body) log

-- `handleLogAdd`, under the secret if one is set, up to the answer of `countForToken`. It waits for that
-- answer, so other requests may go on before it adds its entry.
unfoldable pub begin_add : Tools → Option String → LogRequest → Log → Answer (ℕ ⊎ Waiting)
begin_add tools secret r log =
    admit_claimed tools r (claims_from tools secret r.now r.authorization) log

-- The rest of `handleLogAdd`: the status of its answer, and the log after it.
unfoldable pub finish_add : Tools → Waiting → Log → Answer ℕ × Log
finish_add tools w log =
    add_entry tools w.claims w.draft (as_text (some w.claims.owner)) (as_text (some w.claims.repo))
      log

-- The log, and the entries that wait to be added to it.
pub record Desk : Type 0 where
  pub log : Log
  pub waiting : List Waiting

-- A request comes, up to its count; or the n-th of those that wait goes on to its end.
pub data LogStep : Type 0 where
  begins : LogRequest → LogStep
  ends : ℕ → LogStep

abbrev pub after_begin : Answer (ℕ ⊎ Waiting) → Desk → Desk
after_begin (ok (inr w)) k = record k { waiting = w ∷ k.waiting }
after_begin _ k = k

abbrev pub beside : Waiting → Option (Waiting × List Waiting) → Option (Waiting × List Waiting)
beside w none = none
beside w (some (v, rest)) = some (v, w ∷ rest)

-- The n-th of a list, and the others.
unfoldable pub take_out : ℕ → List Waiting → Option (Waiting × List Waiting)
take_out n [] = none
take_out zero (w ∷ ws) = some (w, ws)
take_out (suc n) (w ∷ ws) = beside w (take_out n ws)

abbrev pub after_end : Tools → Option (Waiting × List Waiting) → Desk → Desk
after_end tools none k = k
after_end tools (some (w, rest)) k = record { log = (finish_add tools w k.log).1; waiting = rest }

unfoldable pub after_step : Tools → Option String → LogStep → Desk → Desk
after_step tools secret (begins r) k = after_begin (begin_add tools secret r k.log) k
after_step tools secret (ends n) k = after_end tools (take_out n k.waiting) k

unfoldable pub after_steps : Tools → Option String → List LogStep → Desk → Desk
after_steps tools secret [] k = k
after_steps tools secret (t ∷ ts) k = after_steps tools secret ts (after_step tools secret t k)

-- `handleLogRead`, for the number in its query: the status of a refusal, or the repo and the item whose
-- entries it answers with.
unfoldable pub handle_log_read :
    Tools → Option String → LogRequest → Option Number → ℕ ⊎ (Json × Json × Number)
handle_log_read tools secret r asked = elim (claims_from tools secret r.now r.authorization) [
  | inl status ↦ inl status
  | inr c ↦ elim asked [
    | none ↦ inl 400
    | some n ↦ if is_id tools (number n) then inr (c.owner, c.repo, n) else inl 400
  ]
]
