-- ===== src/Coordinate/LabelEffects.antt =====
-- What the label operations of a fired rule do to an item's labels, and what `derive_state` reads
-- from them: the writes of worker/src/coordinate/apply.ts, `applyEvent`, against the table.
use umbraco_mcp_ops.Prelude.{
  All, All-mem, ◌≡◌, refl, sym, ap, ◌∙◌, Bool, true, false, not, ◌&&◌, ◌||◌, Option, none, some,
  List, [], ◌∷◌, ◌++◌, arith, ℕ, any, any-append, if◌then◌else◌, inl, inr, Bool-cases, ◌==◌,
  ==_refl, and_true, and_false, ==_comm, or_false,
}
use umbraco_mcp_ops.Graph.Label.{
  Label, Name, tracked, other, same_label, same_name, includes, without, label_index,
}
use umbraco_mcp_ops.Graph.Event.{Event}
use umbraco_mcp_ops.Graph.Table.{
  State, untracked, on, Effect, label, unlabel, close, noop, Rule, rules, same_state,
}
use umbraco_mcp_ops.Graph.Order.{reduce_iff_mem}
use umbraco_mcp_ops.Graph.Equality.{same_label_iff}
use umbraco_mcp_ops.Graph.Reduce.{
  reduce, LabelOp, add, remove, close_item, label_ops, effect_ops, removal, addition, differs,
}
use umbraco_mcp_ops.Coordinate.DeriveState.{just_added, before_event, drop_added}

-- What GitHub documents of the two label calls: an added label is on the item, a removed one is not,
-- and no other label changes.
abbrev pub apply_op : List Name → LabelOp → List Name
apply_op labels (add n) = labels ++ n ∷ []
apply_op labels (remove n) = without n labels
apply_op labels close_item = labels

abbrev pub apply_ops : List Name → List LabelOp → List Name
apply_ops labels [] = labels
apply_ops labels (o ∷ os) = apply_ops (apply_op labels o) os

-- The labels show a state: they hold its label, if it has one, and no other tracked label.
abbrev pub Shows : List Name → State → Type 0
Shows labels s = (m : Label) → includes (tracked m) labels ≡ same_state s (on m)

-- The state after a rule was applied in a state.
abbrev pub after : State → Effect → State
after s (label v) = v
after s unlabel = untracked
after s close = s
after s noop = s

any-append_one :
    (p : Name → Bool) (xs : List Name) (n : Name) → any p (xs ++ n ∷ []) ≡ (any p xs || p n)
any-append_one p xs n = rw (any-append p xs (n ∷ [])) (ground arith)

-- Removing the label `l` from a list that begins with the label `k`, by the labels' numbers.
dropped_head :
    (l m k : ℕ) (b : Bool) → (l == k) ≡ true → (b && not (l == m)) ≡ ((m == k || b) && not (l == m))
dropped_head l m k b h = ground arith

kept_head :
    (l m k : ℕ) (b : Bool)
    → (l == k) ≡ false
    → (m == k || b && not (l == m)) ≡ ((m == k || b) && not (l == m))
kept_head l m k b h = ground arith

-- A tracked label is still there after another one is removed.
pub includes-without :
    (l m : Label) (labels : List Name)
    → includes (tracked m) (without (tracked l) labels)
      ≡ (includes (tracked m) labels && not (same_label l m))
includes-without l m [] = refl
includes-without l m (tracked k ∷ ns) = elim (Bool-cases (same_label l k)) [
  | inl e ↦ rw e (
      includes-without l m ns
      ∙ dropped_head (label_index l) (label_index m) (label_index k) (includes (tracked m) ns) e)
  | inr e ↦ rw e (
      ap (λ b. same_label m k || b) (includes-without l m ns)
      ∙ kept_head (label_index l) (label_index m) (label_index k) (includes (tracked m) ns) e)
]
includes-without l m (other s ∷ ns) = includes-without l m ns

includes-removal :
    (m f : Label) (to : Option Name) (labels : List Name)
    → includes (tracked m) (apply_ops labels (removal labels (some (tracked f)) to)) ≡ (
        includes (tracked m) labels
        && not ((differs (tracked f) to && includes (tracked f) labels) && same_label f m))
includes-removal m f to labels =
    elim (Bool-cases (differs (tracked f) to && includes (tracked f) labels)) [
      | inl e ↦ rw e (includes-without f m labels)
      | inr e ↦ rw e (sym (and_true (includes (tracked m) labels)))
    ]

includes-addition :
    (m : Label) (n : Name) (b : Bool) (labels : List Name)
    → includes (tracked m) (apply_ops labels (if b then add n ∷ [] else []))
      ≡ (includes (tracked m) labels || b && same_name (tracked m) n)
includes-addition m n true labels = any-append_one (same_name (tracked m)) labels n
includes-addition m n false labels = sym (or_false (includes (tracked m) labels))

pub apply_ops-append :
    (labels : List Name) (xs ys : List LabelOp)
    → apply_ops labels (xs ++ ys) ≡ apply_ops (apply_ops labels xs) ys
apply_ops-append labels [] ys = refl
apply_ops-append labels (x ∷ xs) ys = apply_ops-append (apply_op labels x) xs ys

-- The label `f` swapped for `t`, by the labels' numbers, where `f` is the one that is there.
swap_numbers :
    (f t m : ℕ)
    → ((f == m && not ((not (f == t) && f == f) && f == m))
        || (not (t == f) && not (f == t)) && m == t)
      ≡ (t == m)
swap_numbers f t m = ground arith

drop_numbers : (f m : ℕ) → (f == m && not ((true && f == f) && f == m)) ≡ false
drop_numbers f m = ground arith

module _ (m : Label) (labels : List Name) where
  includes-swap :
      (f : Label) (n : Name)
      → includes (tracked m) (
          apply_ops labels (
            removal labels (some (tracked f)) (some n)
            ++ addition labels (some (tracked f)) (some n)))
        ≡ ((includes (tracked m) labels
              && not
                  ((differs (tracked f) (some n) && includes (tracked f) labels) && same_label f m))
            || (differs n (some (tracked f)) && not (includes n labels)) && same_name (tracked m) n)
  includes-swap f n =
      ap (includes (tracked m)) (
        apply_ops-append labels (removal labels (some (tracked f)) (some n))
          (addition labels (some (tracked f)) (some n)))
      ∙ includes-addition m n (differs n (some (tracked f)) && not (includes n labels))
          (apply_ops labels (removal labels (some (tracked f)) (some n)))
      ∙ ap
          (λ b.
            b
            || (differs n (some (tracked f)) && not (includes n labels)) && same_name (tracked m) n)
          (includes-removal m f (some n) labels)

-- The same where the label `l` was just added, and the state is read without it.
added_first :
    (l m : ℕ) (im : Bool)
    → ((l == m) ≡ true → im ≡ true)
    → (im && not (l == m)) ≡ false
    → (im || false && m == l) ≡ (l == m)
added_first l m im a b = ground arith

added_numbers :
    (f l m : ℕ) (im inf : Bool)
    → ((l == m) ≡ true → im ≡ true)
    → (im && not (l == m)) ≡ (f == m)
    → (inf && not (l == f)) ≡ true
    → (im && not ((not (f == l) && inf) && f == m) || (not (l == f) && false) && m == l) ≡ (l == m)
added_numbers f l m im inf a b c = ground arith

-- The operations for an effect take an item that shows a state to one that shows the next.
Shows-effect_ops :
    (labels : List Name) (s : State) (eff : Effect)
    → Shows labels s
    → Shows (apply_ops labels (effect_ops labels s eff)) (after s eff)
unfolding effect_ops
Shows-effect_ops labels s noop h = h
Shows-effect_ops labels s close h = h
Shows-effect_ops labels untracked unlabel h = h
Shows-effect_ops labels (on f) unlabel h = λ m.
    includes-removal m f none labels ∙ rw (h m, h f) (drop_numbers (label_index f) (label_index m))
Shows-effect_ops labels untracked (label untracked) h =
    λ m. includes-addition m (other "none") _ labels ∙ rw (h m, and_false) refl
Shows-effect_ops labels untracked (label (on t)) h = λ m.
    includes-addition m (tracked t) _ labels
    ∙ rw (h m, h t) (==_comm (label_index m) (label_index t))
Shows-effect_ops labels (on f) (label untracked) h = λ m.
    includes-swap m labels f (other "none")
    ∙ rw (h m, h f, and_false) (or_false _ ∙ drop_numbers (label_index f) (label_index m))
Shows-effect_ops labels (on f) (label (on t)) h = λ m.
    includes-swap m labels f (tracked t)
    ∙ rw (h m, h f, h t) (swap_numbers (label_index f) (label_index t) (label_index m))

-- The operations for the label that the event added: the state is read without it, and it stays.
Shows-added :
    (l : Label) (labels : List Name) (s : State)
    → includes (tracked l) labels ≡ true
    → Shows (without (tracked l) labels) s
    → Shows (apply_ops labels (effect_ops labels s (label (on l)))) (on l)
unfolding effect_ops
Shows-added l labels untracked p h = λ m.
    includes-addition m (tracked l) _ labels
    ∙ rw p (
        added_first (label_index l) (label_index m) (includes (tracked m) labels)
          (λ e. rw (← (same_label_iff l m).0 e) p) (sym (includes-without l m labels) ∙ h m))
Shows-added l labels (on f) p h = λ m.
    includes-swap m labels f (tracked l)
    ∙ rw p (
        added_numbers (label_index f) (label_index l) (label_index m) (includes (tracked m) labels)
          (includes (tracked f) labels) (λ e. rw (← (same_label_iff l m).0 e) p)
          (sym (includes-without l m labels) ∙ h m)
          (sym (includes-without l f labels) ∙ h f ∙ ==_refl (label_index f)))

-- A rule for the event of a label that was added leads to that label.
abbrev LeadsTo : Option Label → Effect → Type 0
LeadsTo none eff = Unit
LeadsTo (some l) eff = eff ≡ label (on l)

rules_lead : All (λ r. LeadsTo (just_added r.event) r.to) rules
rules_lead = ground arith

added_target :
    (s : State) (e : Event) (r : Rule) → reduce s e ≡ some r → LeadsTo (just_added e) r.to
added_target s e r h =
    let (m, f, v) = (reduce_iff_mem s e r).0 h in
    rw (← v) (All-mem (λ q. LeadsTo (just_added q.event) q.to) rules rules_lead m)

-- An item read as a state by `before_event`, and a rule for that state and the event: after the rule's
-- operations the item's labels show the state that the table names.
follow :
    (added : Option Label) (labels : List Name) (s : State) (eff : Effect)
    → LeadsTo added eff
    → Shows (drop_added added labels) s
    → ((l : Label) → added ≡ some l → includes (tracked l) labels ≡ true)
    → Shows (apply_ops labels (effect_ops labels s eff)) (after s eff)
follow none labels s eff t h p = Shows-effect_ops labels s eff h
follow (some l) labels s eff t h p = rw t (Shows-added l labels s (p l refl) h)

pub labels_follow_table :
    (e : Event) (labels : List Name) (s : State) (r : Rule)
    → reduce s e ≡ some r
    → Shows (before_event e labels) s
    → ((l : Label) → just_added e ≡ some l → includes (tracked l) labels ≡ true)
    → Shows (apply_ops labels (label_ops labels r)) (after s r.to)
unfolding label_ops
labels_follow_table e labels s r found h p =
    let (m, f, v) = (reduce_iff_mem s e r).0 found in
    rw f (follow (just_added e) labels s r.to (added_target s e r found) h p)
