-- ===== src/Coordinate/ReadBack.antt =====
-- The label operations of a transition against `deriveState` (worker/src/coordinate/apply.ts).
use umbraco_mcp_ops.Prelude.{
  &&-true, Option, none, some, ◌&&◌, not, any-append, any-filter-false, ◌≡◌, Bool-cases, inl, inr,
  ◌++◌, refl, sym, ap, ◌∙◌, Bool, true, false, ◌||◌, List, [], ◌∷◌, any, arith, ||-false, ==_refl,
  or_true, or_false, ==_comm, length, ◌≤◌,
}
use umbraco_mcp_ops.Graph.Label.{
  Label, Name, without, tracked, other, same_label, same_name, label_index, includes,
}
use umbraco_mcp_ops.Graph.Event.{Event}
use umbraco_mcp_ops.Graph.Table.{
  State, untracked, on, same_state, Effect, label, unlabel, noop, close, Rule,
}
use umbraco_mcp_ops.Graph.Equality.{same_label_iff}
use umbraco_mcp_ops.Coordinate.DeriveState.{
  settled, tracked_labels, derive_state, derive_tracked, just_added, before_event,
}
use umbraco_mcp_ops.Coordinate.LabelEffects.{
  Shows, apply_ops, apply_ops-append, after, labels_follow_table,
}
use umbraco_mcp_ops.Graph.Reduce.{
  reduce, removal, addition, differs, effect_ops, label_ops, from_label, state_name,
}

-- GitHub holds no label twice on an item.
abbrev pub NoRepeat : List Label → Type 0
NoRepeat [] = Unit
NoRepeat (l ∷ ls) = (any (same_label l) ls ≡ false) × NoRepeat ls

includes-tracked :
    (m : Label) (labels : List Name)
    → includes (tracked m) labels ≡ any (same_label m) (tracked_labels labels)
includes-tracked m [] = refl
includes-tracked m (tracked l ∷ ns) = ap (λ b. same_label m l || b) (includes-tracked m ns)
includes-tracked m (other s ∷ ns) = includes-tracked m ns

-- The tracked labels themselves hold exactly a state's label.
abbrev Holds : List Label → State → Type 0
Holds ls s = (m : Label) → any (same_label m) ls ≡ same_state s (on m)

self_or : (l : Label) (b : Bool) → (same_label l l || b) ≡ true
self_or l b = rw (==_refl (label_index l))

second_there : (a b : Label) (ls : List Label) → any (same_label b) (a ∷ b ∷ ls) ≡ true
second_there a b ls = rw (self_or b (any (same_label b) ls)) (or_true (same_label b a))

Holds-unique :
    (a b : Label) (ls : List Label) (s : State) → Holds (a ∷ b ∷ ls) s → NoRepeat (a ∷ b ∷ ls) → ⊥
Holds-unique a b ls untracked h d = cc (h a, self_or a (any (same_label a) (b ∷ ls)))
Holds-unique a b ls (on l) h d =
    let p : l ≡ a = (same_label_iff l a).0 (sym (h a) ∙ self_or a (any (same_label a) (b ∷ ls))) in
    let q : same_label l b ≡ true = sym (h b) ∙ second_there a b ls in
    let r : l ≡ b = (same_label_iff l b).0 q in
    let t : same_label a b ≡ true = (same_label_iff a b).1 (sym p ∙ r) in
    cc (t, (||-false (same_label a b) (any (same_label a) ls) d.0).0)

-- A list that holds a state's label only, each label once, is read as that state.
derive_tracked-Holds :
    (ls : List Label) (s : State) → NoRepeat ls → Holds ls s → derive_tracked ls ≡ settled s
unfolding derive_tracked
derive_tracked-Holds [] untracked d h = refl
derive_tracked-Holds [] (on l) d h = cc (h l, ==_refl (label_index l))
derive_tracked-Holds (a ∷ []) untracked d h = cc (h a, self_or a false)
derive_tracked-Holds (a ∷ []) (on l) d h =
    ap (λ x. settled (on x)) (sym ((same_label_iff l a).0 (sym (h a) ∙ self_or a false)))
derive_tracked-Holds (a ∷ b ∷ ls) s d h = absurd (Holds-unique a b ls s h d)

-- An item whose labels show a state, each tracked label once, is read as that state.
pub derive_state-Shows :
    (labels : List Name) (s : State)
    → NoRepeat (tracked_labels labels)
    → Shows labels s
    → derive_state labels ≡ settled s
unfolding derive_state
derive_state-Shows labels s d h =
    derive_tracked-Holds (tracked_labels labels) s d (λ m. sym (includes-tracked m labels) ∙ h m)

Holds-derive_tracked :
    (ls : List Label) (s : State) → length ls ≤ 1 → derive_tracked ls ≡ settled s → Holds ls s
unfolding derive_tracked
Holds-derive_tracked [] s n h m = let e : untracked ≡ s = cc in rw (← e) refl
Holds-derive_tracked (a ∷ []) s n h m =
    let e : on a ≡ s = cc in rw (← e) (or_false _ ∙ ==_comm (label_index m) (label_index a))
Holds-derive_tracked (a ∷ b ∷ ls) s n h m = absurd (omega arith)

-- An item with at most one tracked label shows the state that it is read as.
pub Shows-derive_state :
    (labels : List Name) (s : State)
    → length (tracked_labels labels) ≤ 1
    → derive_state labels ≡ settled s
    → Shows labels s
unfolding derive_state
Shows-derive_state labels s n h =
    λ m. includes-tracked m labels ∙ Holds-derive_tracked (tracked_labels labels) s n h m

-- The label operations repeat no tracked label.
absent-without :
    (k : Label) (n : Name) (labels : List Name)
    → any (same_label k) (tracked_labels labels) ≡ false
    → any (same_label k) (tracked_labels (without n labels)) ≡ false
absent-without k n labels h =
    sym (includes-tracked k (without n labels))
    ∙ any-filter-false (same_name (tracked k)) (λ m. not (same_name n m)) labels
        (includes-tracked k labels ∙ h)

NoRepeat-without :
    (n : Name) (labels : List Name)
    → NoRepeat (tracked_labels labels)
    → NoRepeat (tracked_labels (without n labels))
NoRepeat-without n [] d = d
NoRepeat-without (other t) (tracked k ∷ ns) d =
    (absent-without k (other t) ns d.0, NoRepeat-without (other t) ns d.1)
NoRepeat-without (tracked l) (tracked k ∷ ns) d = elim (Bool-cases (same_label l k)) [
  | inl e ↦ rw e (NoRepeat-without (tracked l) ns d.1)
  | inr e ↦ rw e (absent-without k (tracked l) ns d.0, NoRepeat-without (tracked l) ns d.1)
]
NoRepeat-without n (other s ∷ ns) d = elim (Bool-cases (same_name n (other s))) [
  | inl e ↦ rw e (NoRepeat-without n ns d)
  | inr e ↦ rw e (NoRepeat-without n ns d)
]

names_differ :
    (k : Label) (n : Name) → same_name n (tracked k) ≡ false → same_name (tracked k) n ≡ false
names_differ k (tracked t) h = ==_comm (label_index k) (label_index t) ∙ h
names_differ k (other t) h = refl

absent-add :
    (k : Label) (n : Name) (ns : List Name)
    → same_name n (tracked k) ≡ false
    → any (same_label k) (tracked_labels ns) ≡ false
    → any (same_label k) (tracked_labels (ns ++ n ∷ [])) ≡ false
absent-add k n ns h d =
    sym (includes-tracked k (ns ++ n ∷ []))
    ∙ any-append (same_name (tracked k)) ns (n ∷ [])
    ∙ rw (includes-tracked k ns, d) (or_false _ ∙ names_differ k n h)

NoRepeat-add :
    (n : Name) (labels : List Name)
    → includes n labels ≡ false
    → NoRepeat (tracked_labels labels)
    → NoRepeat (tracked_labels (labels ++ n ∷ []))
NoRepeat-add (other t) [] h d = tt
NoRepeat-add (tracked t) [] h d = (refl, tt)
NoRepeat-add n (tracked k ∷ ns) h d =
    let (p, q) = ||-false (same_name n (tracked k)) (includes n ns) h in
    (absent-add k n ns p d.0, NoRepeat-add n ns q d.1)
NoRepeat-add n (other s ∷ ns) h d =
    NoRepeat-add n ns (||-false (same_name n (other s)) (includes n ns) h).1 d

NoRepeat-removal :
    (from : Option Name) (to : Option Name) (labels : List Name)
    → NoRepeat (tracked_labels labels)
    → NoRepeat (tracked_labels (apply_ops labels (removal labels from to)))
NoRepeat-removal none to labels d = d
NoRepeat-removal (some f) to labels d = elim (Bool-cases (differs f to && includes f labels)) [
  | inl e ↦ rw e (NoRepeat-without f labels d)
  | inr e ↦ rw e d
]

absent-removal :
    (n : Name) (from to : Option Name) (labels : List Name)
    → includes n labels ≡ false
    → includes n (apply_ops labels (removal labels from to)) ≡ false
absent-removal n none to labels h = h
absent-removal n (some f) to labels h = elim (Bool-cases (differs f to && includes f labels)) [
  | inl e ↦ rw e (any-filter-false (same_name n) (λ m. not (same_name f m)) labels h)
  | inr e ↦ rw e h
]

NoRepeat-addition :
    (now labels : List Name) (from to : Option Name)
    → ((n : Name) → includes n labels ≡ false → includes n now ≡ false)
    → NoRepeat (tracked_labels now)
    → NoRepeat (tracked_labels (apply_ops now (addition labels from to)))
NoRepeat-addition now labels from none p d = d
NoRepeat-addition now labels from (some t) p d =
    elim (Bool-cases (differs t from && not (includes t labels))) [
      | inl e ↦ rw e (
          NoRepeat-add t now
            (p t (
              not-true (includes t labels)
                (&&-true (differs t from) (not (includes t labels)) e).1))
            d)
      | inr e ↦ rw e d
    ]
  where
    not-true : (b : Bool) → not b ≡ true → b ≡ false
    not-true true h = cc
    not-true false h = refl

NoRepeat-effect_ops :
    (labels : List Name) (s : State) (eff : Effect)
    → NoRepeat (tracked_labels labels)
    → NoRepeat (tracked_labels (apply_ops labels (effect_ops labels s eff)))
unfolding effect_ops
NoRepeat-effect_ops labels s noop d = d
NoRepeat-effect_ops labels s close d = d
NoRepeat-effect_ops labels s unlabel d = NoRepeat-removal (from_label s) none labels d
NoRepeat-effect_ops labels s (label v) d =
    rw
      (apply_ops-append labels (removal labels (from_label s) (some (state_name v)))
        (addition labels (from_label s) (some (state_name v))))
      (NoRepeat-addition (apply_ops labels (removal labels (from_label s) (some (state_name v))))
        labels (from_label s) (some (state_name v))
        (λ n. absent-removal n (from_label s) (some (state_name v)) labels)
        (NoRepeat-removal (from_label s) (some (state_name v)) labels d))

-- For an event read at an item whose tracked labels are not repeated, of which at most one is
-- there besides the label that the event added (which is there), and the rule that the table has
-- for the state read and the event: once the rule's label operations are done, the item's labels
-- are read back as the state that the table names for the rule.
pub transition_lands :
    (e : Event) (labels : List Name) (s : State) (r : Rule)
    → NoRepeat (tracked_labels labels)
    → length (tracked_labels (before_event e labels)) ≤ 1
    → ((l : Label) → just_added e ≡ some l → includes (tracked l) labels ≡ true)
    → derive_state (before_event e labels) ≡ settled s
    → reduce s e ≡ some r
    → derive_state (apply_ops labels (label_ops labels r)) ≡ settled (after s r.to)
unfolding label_ops
transition_lands e labels s r d n p h found =
    derive_state-Shows (apply_ops labels (effect_ops labels r.from r.to)) (after s r.to)
      (NoRepeat-effect_ops labels r.from r.to d)
      (labels_follow_table e labels s r found (Shows-derive_state (before_event e labels) s n h) p)
