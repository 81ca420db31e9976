-- ===== src/Graph/Order.antt =====
-- The lookup of graph/graph.ts, `reduce`, against membership in its table.
use mathlib.Core.List.{Memᴰ}
use umbraco_mcp_ops.Prelude.{
  &&-true, ||-false, ◌≡◌, refl, Bool, true, false, ◌&&◌, not, ◌↔◌, some, List, [], ◌∷◌, arith,
  ==_refl, ==_comm, find, any, ◌∙◌, Bool-cases, inl, inr,
}
use mathlib.Core.Path.{ap₂}
use umbraco_mcp_ops.Graph.Equality.{
  same_state_refl, same_state_comm, same_state_iff, same_event_iff,
}
use umbraco_mcp_ops.Graph.Event.{Event, same_event, event_index}
use umbraco_mcp_ops.Graph.Table.{State, Rule, rules, same_state}
use umbraco_mcp_ops.Graph.Reduce.{reduce}

abbrev keyed : State → Event → Rule → Bool
keyed s e r = same_state r.from s && same_event r.event e

distinct_keys : List Rule → Bool
distinct_keys [] = true
distinct_keys (r ∷ rs) = not (any (keyed r.from r.event) rs) && distinct_keys rs

rules_distinct : distinct_keys rules ≡ true
unfolding distinct_keys
rules_distinct = refl

keyed_self : (r : Rule) → keyed r.from r.event r ≡ true
keyed_self r = ap₂ ◌&&◌ (same_state_refl r.from) (==_refl (event_index r.event))

keyed_symm : (r q : Rule) → keyed r.from r.event q ≡ keyed q.from q.event r
keyed_symm r q =
    ap₂ ◌&&◌ (same_state_comm q.from r.from) (==_comm (event_index q.event) (event_index r.event))

-- The test of a key says that the rule has that state and event.
keyed-eq : (s : State) (e : Event) (r : Rule) → keyed s e r ≡ true → (r.from ≡ s) × (r.event ≡ e)
keyed-eq s e r h =
    let (a, b) = &&-true (same_state r.from s) (same_event r.event e) h in
    ((same_state_iff r.from s).0 a, (same_event_iff r.event e).0 b)

-- A rule whose key no earlier rule has is the one that is found.
not-keyed :
    (r q : Rule) (rs : List Rule)
    → Memᴰ r rs
    → any (keyed q.from q.event) rs ≡ false
    → keyed q.from q.event r ≡ false
not-keyed r q [] m h = elim m [ ]
not-keyed r q (x ∷ rs) (Memᴰ.head e) h =
    rw e ((||-false (keyed q.from q.event x) (any (keyed q.from q.event) rs) h).0)
not-keyed r q (x ∷ rs) (Memᴰ.tail m) h =
    not-keyed r q rs m ((||-false (keyed q.from q.event x) (any (keyed q.from q.event) rs) h).1)

find-distinct :
    (r : Rule) (rs : List Rule)
    → distinct_keys rs ≡ true
    → Memᴰ r rs
    → find (keyed r.from r.event) rs ≡ some r
unfolding distinct_keys
find-distinct r [] d m = elim m [ ]
find-distinct r (x ∷ rs) d (Memᴰ.head e) = rw e (rw (keyed_self x) refl)
find-distinct r (x ∷ rs) d (Memᴰ.tail m) =
    rw (keyed_symm r x ∙ not-keyed r x rs m (ground arith)) (find-distinct r rs (ground arith) m)

find-eq-some :
    (s : State) (e : Event) (rs : List Rule) (r : Rule)
    → find (keyed s e) rs ≡ some r
    → Memᴰ r rs × (keyed s e r ≡ true)
find-eq-some s e [] r h = cc
find-eq-some s e (x ∷ rs) r h = elim (Bool-cases (keyed s e x)) [
  | inl k ↦ let p : some x ≡ some r = rw k at h in let q : r ≡ x = cc in (Memᴰ.head q, rw q k)
  | inr k ↦
      let p : find (keyed s e) rs ≡ some r = rw k at h in
      let (m, t) = find-eq-some s e rs r p in (Memᴰ.tail m, t)
]

-- `reduce` answers with a rule exactly when the table holds it for that state and that event,
-- wherever in the table it stands.
pub reduce_iff_mem :
    (s : State) (e : Event) (r : Rule)
    → (reduce s e ≡ some r) ↔ (Memᴰ r rules × (r.from ≡ s) × (r.event ≡ e))
unfolding reduce
reduce_iff_mem s e r = (
  λ h. let (m, k) = find-eq-some s e rules r h in let (a, b) = keyed-eq s e r k in (m, a, b),
  λ (m, a, b). rw (← a, ← b) (find-distinct r rules rules_distinct m),
)
