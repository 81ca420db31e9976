-- ===== src/WorkLog/Capped.antt =====
-- The cap of the entries that one token may add (worker/src/work-log.ts), where requests overlap.
use umbraco_mcp_ops.Prelude.{
  ℕ, zero, suc, ◌+◌, ◌≤◌, ◌<◌, ◌≡◌, String, Option, none, some, List, [], ◌∷◌, str_eq, eq_iff, leb,
  Bool-cases, inl, inr, refl, arith, ◌⊎◌, if◌then◌else◌,
}
use umbraco_mcp_ops.Graph.Json.{Json, null, bool, number, text, array, object, as_text}
use umbraco_mcp_ops.Coordinate.Types.{Answer, ok, thrown}
use umbraco_mcp_ops.WorkLog.{Tools, Claims, max_entries, claims_from}
use umbraco_mcp_ops.WorkLog.Entries.{
  Log, LogRequest, Draft, Waiting, Desk, LogStep, begins, ends, count_for_token, add_entry, admit,
  admit_parsed, admit_claimed, begin_add, finish_add, beside, take_out, after_begin, after_end,
  after_step, after_steps, draft_in,
}

-- How many entries of a token wait to be added.
unfoldable pub in_flight : Tools → String → List Waiting → ℕ
in_flight tools id [] = 0
in_flight tools id (w ∷ ws) =
    let rest = in_flight tools id ws in
    if str_eq (tools.bound w.claims.jti) id then suc rest else rest

module _ (tools : Tools) where
  -- What is let through was counted below the cap.
  Room : Log → Answer (ℕ ⊎ Waiting) → Type 0
  Room log (ok (inr w)) = count_for_token log.entries (tools.bound w.claims.jti) < 50
  Room log _ = Unit {0}

  admit-Room : (c : Claims) (d : ℕ ⊎ Draft) (log : Log) → Room log (admit tools c d log)
  unfolding admit Room
  admit-Room c (inl status) log = tt
  admit-Room c (inr d) log =
      elim (Bool-cases (leb max_entries (count_for_token log.entries (tools.bound c.jti)))) [
        | inl e ↦ rw e tt
        | inr e ↦ rw e (ground arith)
      ]

  admit_parsed-Room :
      (c : Claims) (v : Option Json) (log : Log) → Room log (admit_parsed tools c v log)
  unfolding admit_parsed Room
  admit_parsed-Room c none log = tt
  admit_parsed-Room c (some null) log = tt
  admit_parsed-Room c (some (bool b)) log = admit-Room c (draft_in tools (bool b)) log
  admit_parsed-Room c (some (number n)) log = admit-Room c (draft_in tools (number n)) log
  admit_parsed-Room c (some (text t)) log = admit-Room c (draft_in tools (text t)) log
  admit_parsed-Room c (some (array vs)) log = admit-Room c (draft_in tools (array vs)) log
  admit_parsed-Room c (some (object fs)) log = admit-Room c (draft_in tools (object fs)) log

  admit_claimed-Room :
      (r : LogRequest) (c : ℕ ⊎ Claims) (log : Log) → Room log (admit_claimed tools r c log)
  unfolding admit_claimed Room
  admit_claimed-Room r (inl status) log = tt
  admit_claimed-Room r (inr c) log = admit_parsed-Room c (tools.engine.parse_json r.body) log

  -- A token's entries, with those on their way, are at most 49 more than may be on their way.
  abbrev Within : ℕ → String → Desk → Type 0
  Within b id k = (count_for_token k.log.entries id + in_flight tools id k.waiting) < 50 + b

  begin-Within :
      (b : ℕ) (id : String) (a : Answer (ℕ ⊎ Waiting)) (k : Desk)
      → Room k.log a
      → in_flight tools id (after_begin a k).waiting ≤ b
      → Within b id k
      → Within b id (after_begin a k)
  unfolding Room in_flight
  begin-Within b id (thrown e) k r h w = w
  begin-Within b id (ok (inl status)) k r h w = w
  begin-Within b id (ok (inr v)) k r h w =
      elim (Bool-cases (str_eq (tools.bound v.claims.jti) id)) [
        | inl e ↦
            let same = (eq_iff (tools.bound v.claims.jti) id).0 e in
            let room : count_for_token k.log.entries id < 50 = rw (← same) r in
            let one_more : suc (in_flight tools id k.waiting) ≤ b = rw e at h in
            rw e (omega (arith, one_more, room))
        | inr e ↦ rw e w
      ]

  -- Taking one out leaves the others.
  Taken : String → List Waiting → Option (Waiting × List Waiting) → Type 0
  Taken id ws none = Unit {0}
  Taken id ws (some (v, rest)) = in_flight tools id ws ≡ in_flight tools id (v ∷ rest)

  beside-Taken :
      (id : String) (w : Waiting) (ws : List Waiting) (r : Option (Waiting × List Waiting))
      → Taken id ws r
      → Taken id (w ∷ ws) (beside w r)
  unfolding Taken in_flight
  beside-Taken id w ws none h = tt
  beside-Taken id w ws (some (v, rest)) h = ground (arith, h)

  take_out-Taken : (id : String) (n : ℕ) (ws : List Waiting) → Taken id ws (take_out n ws)
  unfolding Taken take_out
  take_out-Taken id n [] = tt
  take_out-Taken id zero (w ∷ ws) = refl
  take_out-Taken id (suc n) (w ∷ ws) = beside-Taken id w ws (take_out n ws) (take_out-Taken id n ws)

  added-Within :
      (b : ℕ) (id : String) (v : Waiting) (o p : Option String) (rest : List Waiting) (log : Log)
      → count_for_token log.entries id + in_flight tools id (v ∷ rest) < 50 + b
      → count_for_token (add_entry tools v.claims v.draft o p log).1.entries id
          + in_flight tools id rest
        < 50 + b
  unfolding add_entry in_flight count_for_token
  added-Within b id v none p rest log h = ground (arith, h)
  added-Within b id v (some o) none rest log h = ground (arith, h)
  added-Within b id v (some o) (some p) rest log h = ground (arith, h)

  end-Within :
      (b : ℕ) (id : String) (t : Option (Waiting × List Waiting)) (k : Desk)
      → Taken id k.waiting t
      → Within b id k
      → Within b id (after_end tools t k)
  unfolding Taken finish_add
  end-Within b id none k t w = w
  end-Within b id (some (v, rest)) k t w =
      added-Within b id v (as_text (some v.claims.owner)) (as_text (some v.claims.repo)) rest k.log
        (rw t at w)

  step-Within :
      (secret : Option String) (b : ℕ) (id : String) (t : LogStep) (k : Desk)
      → in_flight tools id (after_step tools secret t k).waiting ≤ b
      → Within b id k
      → Within b id (after_step tools secret t k)
  unfolding after_step begin_add
  step-Within secret b id (begins r) k h w =
      begin-Within b id (begin_add tools secret r k.log) k
        (admit_claimed-Room r (claims_from tools secret r.now r.authorization) k.log) h w
  step-Within secret b id (ends n) k h w =
      end-Within b id (take_out n k.waiting) k (take_out-Taken id n k.waiting) w

  -- No more than `b` entries of a token are on their way at once.
  abbrev pub AtOnce : Option String → ℕ → String → List LogStep → Desk → Type 0
  AtOnce secret b id [] k = in_flight tools id k.waiting ≤ b
  AtOnce secret b id (t ∷ ts) k =
      (in_flight tools id k.waiting ≤ b) × AtOnce secret b id ts (after_step tools secret t k)

  AtOnce-now :
      (secret : Option String) (b : ℕ) (id : String) (ts : List LogStep) (k : Desk)
      → AtOnce secret b id ts k
      → in_flight tools id k.waiting ≤ b
  AtOnce-now secret b id [] k h = h
  AtOnce-now secret b id (t ∷ ts) k h = h.0

  steps-Within :
      (secret : Option String) (b : ℕ) (id : String) (ts : List LogStep) (k : Desk)
      → AtOnce secret b id ts k
      → Within b id k
      → Within b id (after_steps tools secret ts k)
  unfolding after_steps
  steps-Within secret b id [] k h w = w
  steps-Within secret b id (t ∷ ts) k h w =
      let k' = after_step tools secret t k in
      steps-Within secret b id ts k' h.1
        (step-Within secret b id t k (AtOnce-now secret b id ts k' h.1) w)

  -- From an empty log, through any requests to add to it, which may overlap in any order, each
  -- read of the count apart from the entry that is added after it: a token has added no more than
  -- 49 entries beyond the number of its entries that were on their way at once. With one at a time
  -- that is the cap of fifty.
  pub after_steps-max_entries :
      (secret : Option String) (b : ℕ) (id : String) (ts : List LogStep)
      → AtOnce secret b id ts (record { log = record { entries = []; counted = [] }; waiting = [] })
      → count_for_token
          (after_steps tools secret ts
            (record { log = record { entries = []; counted = [] }; waiting = [] })).log.entries
          id
        ≤ 49 + b
  unfolding count_for_token in_flight
  after_steps-max_entries secret b id ts h =
      let w =
        steps-Within secret b id ts
          (record { log = record { entries = []; counted = [] }; waiting = [] }) h (omega arith) in
      omega (arith, w)
