-- ===== src/Disturbances/Categories.antt =====
-- What Categories, LatestStatus and ComputeMsgType compute.
use disturbancesmlx.Prelude.{
  ◌≡◌, refl, ◌∙◌, ◌⊎◌, inl, inr, Bool, true, false, some, List, [], ◌∷◌, Has, Bool-cases,
  Option-cases, ◌≤◌, ap, ◌↔◌, none, arith, String, Option, ltb, sym,
}
use disturbancesmlx.Disturbances.Messages.{
  DisturbanceCategory, category_of, mark, categories_from, compute_msg_type, categories, fixed_type,
  cause_of, extent_of, outlook_of, composite, classify, text_has, latest_from, latest_status,
}
use disturbancesmlx.Disturbances.Model.{
  Status, Disturbance, Cause, Extent, Outlook, StatusMessageType,
}
use disturbancesmlx.Clock.{Time}
use disturbancesmlx.Vehicles.Passengers.{seen}

-- No entry comes twice.
abbrev pub Distinct : List DisturbanceCategory → Type 0
Distinct [] = Unit
Distinct (c ∷ cs) = (Has c cs → ⊥) × Distinct cs

-- A status of the list contributes the category.
abbrev pub Contributes : DisturbanceCategory → List Status → Type 0
Contributes c ss = (s : Status) × Has s ss × (category_of s.msg_type ≡ some c)

mark_self : (c : DisturbanceCategory) (seen : DisturbanceCategory → Bool) → mark c seen c ≡ true
mark_self c seen = ground arith

mark_seen :
    (c c' : DisturbanceCategory) (seen : DisturbanceCategory → Bool)
    → seen c' ≡ true
    → mark c seen c' ≡ true
mark_seen c c' seen h = ground arith

mark_other :
    (c c' : DisturbanceCategory) (seen : DisturbanceCategory → Bool)
    → seen c' ≡ false
    → (c ≡ c') ⊎ (mark c seen c' ≡ false)
mark_other c c' seen h = ground arith

-- The three ways in which the loop takes a status.
data Taken (seen : DisturbanceCategory → Bool) (s : Status) (ss : List Status) : Type 0 where
  uncategorised :
      category_of s.msg_type ≡ none
      → categories_from seen (s ∷ ss) ≡ categories_from seen ss
      → Taken seen s ss
  repeated :
      (k : DisturbanceCategory)
      → category_of s.msg_type ≡ some k
      → seen k ≡ true
      → categories_from seen (s ∷ ss) ≡ categories_from seen ss
      → Taken seen s ss
  first :
      (k : DisturbanceCategory)
      → category_of s.msg_type ≡ some k
      → seen k ≡ false
      → categories_from seen (s ∷ ss) ≡ k ∷ categories_from (mark k seen) ss
      → Taken seen s ss

taken : (seen : DisturbanceCategory → Bool) (s : Status) (ss : List Status) → Taken seen s ss
unfolding categories_from
taken seen s ss = elim (Option-cases (category_of s.msg_type)) [
  | inl e ↦ uncategorised e (rw (e, categories_from))
  | inr (k, e) ↦ elim (Bool-cases (seen k)) [
    | inl old ↦ repeated k e old (rw (e, categories_from, old))
    | inr new ↦ first k e new (rw (e, categories_from, new))
  ]
]

-- A category that was seen before does not come again.
not_seen :
    (c : DisturbanceCategory) (seen : DisturbanceCategory → Bool) (ss : List Status)
    → seen c ≡ true
    → Has c (categories_from seen ss)
    → ⊥
not_seen c seen [] h m = unfold categories_from in absurd m
not_seen c seen (s ∷ ss) h m = elim (taken seen s ss) [
  | uncategorised e q ↦ not_seen c seen ss h (rw q at m)
  | repeated k e old q ↦ not_seen c seen ss h (rw q at m)
  | first k e new q ↦ later k new (not_seen c (mark k seen) ss (mark_seen k c seen h)) (rw q at m)
]
  where
    later :
        (k : DisturbanceCategory)
        → seen k ≡ false
        → (Has c (categories_from (mark k seen) ss) → ⊥)
        → Has c (k ∷ categories_from (mark k seen) ss)
        → ⊥
    later k new rest (inl e) = cc (ap seen e)
    later k new rest (inr m) = rest m

categories_from-Distinct :
    (seen : DisturbanceCategory → Bool) (ss : List Status) → Distinct (categories_from seen ss)
categories_from-Distinct seen [] = unfold categories_from in tt
categories_from-Distinct seen (s ∷ ss) = elim (taken seen s ss) [
  | uncategorised e q ↦ rw q (categories_from-Distinct seen ss)
  | repeated k e old q ↦ rw q (categories_from-Distinct seen ss)
  | first k e new q ↦
      rw q
        (not_seen k (mark k seen) ss (mark_self k seen), categories_from-Distinct (mark k seen) ss)
]

has_cons :
    (c : DisturbanceCategory) (s : Status) (ss : List Status)
    → Contributes c ss
    → Contributes c (s ∷ ss)
has_cons c s ss (t, m, e) = (t, inr m, e)

contributed :
    (c : DisturbanceCategory) (seen : DisturbanceCategory → Bool) (ss : List Status)
    → Has c (categories_from seen ss)
    → Contributes c ss
contributed c seen [] m = unfold categories_from in absurd m
contributed c seen (s ∷ ss) m = elim (taken seen s ss) [
  | uncategorised e q ↦ has_cons c s ss (contributed c seen ss (rw q at m))
  | repeated k e old q ↦ has_cons c s ss (contributed c seen ss (rw q at m))
  | first k e new q ↦ here_or_later k e (contributed c (mark k seen) ss) (rw q at m)
]
  where
    here_or_later :
        (k : DisturbanceCategory)
        → category_of s.msg_type ≡ some k
        → (Has c (categories_from (mark k seen) ss) → Contributes c ss)
        → Has c (k ∷ categories_from (mark k seen) ss)
        → Contributes c (s ∷ ss)
    here_or_later k e rest (inl q) = (s, inl refl, e ∙ ap some q)
    here_or_later k e rest (inr m) = has_cons c s ss (rest m)

collected :
    (c : DisturbanceCategory) (seen : DisturbanceCategory → Bool) (ss : List Status)
    → seen c ≡ false
    → Contributes c ss
    → Has c (categories_from seen ss)
collected c seen [] h (t, m, e) = absurd m
collected c seen (s ∷ ss) h (t, inl m, e) =
    let here : category_of s.msg_type ≡ some c =
      ap (λ (x : Status). category_of x.msg_type) m ∙ e in
    elim (taken seen s ss) [
      | uncategorised e' q ↦ cc
      | repeated k e' old q ↦ let met : k ≡ c = cc in cc (ap seen met)
      | first k e' new q ↦ rw q (inl cc)
    ]
collected c seen (s ∷ ss) h (t, inr m, e) = elim (taken seen s ss) [
  | uncategorised e' q ↦ rw q (collected c seen ss h (t, m, e))
  | repeated k e' old q ↦ rw q (collected c seen ss h (t, m, e))
  | first k e' new q ↦ rw q (elim (mark_other k c seen h) [
    | inl e'' ↦ inl e''
    | inr unseen ↦ inr (collected c (mark k seen) ss unseen (t, m, e))
  ])
]

-- The categories of a disturbance are those that its statuses contribute, each once.
pub categories_exact :
    (d : Disturbance)
    → Distinct (categories d)
      × ((c : DisturbanceCategory) → Has c (categories d) ↔ Contributes c d.statuses)
unfolding categories
categories_exact d = (
  categories_from-Distinct (λ c. false) d.statuses,
  λ c. (contributed c (λ c. false) d.statuses, collected c (λ c. false) d.statuses refl),
)

composite_idem :
    (c : Option Cause) (e : Option Extent) (o : Option Outlook) (old : StatusMessageType)
    → composite c e o (composite c e o old) ≡ composite c e o old
composite_idem (some c) (some e) (some o) old = refl
composite_idem none e o old = refl
composite_idem (some c) none o old = refl
composite_idem (some c) (some e) none old = refl

classify_fixed :
    (has : String → Bool) (old t : StatusMessageType)
    → fixed_type has ≡ some t
    → classify has old ≡ t
unfolding classify
classify_fixed has old t e = rw (e, classify)

pub classify_parts :
    (has : String → Bool) (old : StatusMessageType)
    → fixed_type has ≡ none
    → classify has old ≡ composite (cause_of has) (extent_of has) (outlook_of has) old
unfolding classify
classify_parts has old e = rw (e, classify)

classify_idem :
    (has : String → Bool) (old : StatusMessageType)
    → classify has (classify has old) ≡ classify has old
classify_idem has old = elim (Option-cases (fixed_type has)) [
  | inl e ↦
      classify_parts has (classify has old) e
      ∙ ap (composite (cause_of has) (extent_of has) (outlook_of has)) (classify_parts has old e)
      ∙ composite_idem (cause_of has) (extent_of has) (outlook_of has) old
      ∙ sym (classify_parts has old e)
  | inr (t, e) ↦ classify_fixed has (classify has old) t e ∙ sym (classify_fixed has old t e)
]

-- Recomputing the message type a second time changes nothing, whatever the status says.
pub compute_msg_type_idem :
    (s : Status) → compute_msg_type (compute_msg_type s) ≡ compute_msg_type s
unfolding compute_msg_type
compute_msg_type_idem s =
    ap (λ t. record s { msg_type = t }) (classify_idem (text_has s.text) s.msg_type)

-- None of the statuses is later than the time.
abbrev pub AllUntil : Time → List Status → Type 0
AllUntil t [] = Unit
AllUntil t (s ∷ ss) = (s.time ≤ t) × AllUntil t ss

latest_from_lem :
    (l : Status) (ss : List Status)
    → (m : Status) × (latest_from (some l) ss ≡ some m)
      × Has m (l ∷ ss)
      × (l.time ≤ m.time)
      × AllUntil m.time ss
unfolding latest_from
latest_from_lem l [] = (l, refl, inl refl, omega arith, tt)
latest_from_lem l (s ∷ ss) = elim (Bool-cases (ltb l.time s.time)) [
  | inl newer ↦
      let (m, e, has, later, all) = latest_from_lem s ss in
      (m, simp newer e, inr has, ground arith, (later, all))
  | inr older ↦
      let (m, e, has, later, all) = latest_from_lem l ss in
      (m, simp older e, keep m has, later, (ground arith, all))
]
  where
    keep : (m : Status) → Has m (l ∷ ss) → Has m (l ∷ s ∷ ss)
    keep m (inl e) = inl e
    keep m (inr h) = inr (inr h)

-- LatestStatus gives no status exactly when there is none, and otherwise one of the statuses that
-- no other is later than.
pub latest_status_lem :
    (d : Disturbance)
    → ((d.statuses ≡ []) × (latest_status d ≡ none))
      ⊎ ((m : Status) × (latest_status d ≡ some m) × Has m d.statuses × AllUntil m.time d.statuses)
unfolding latest_status latest_from
latest_status_lem d = go d.statuses refl
  where
    go :
        (ss : List Status)
        → d.statuses ≡ ss
        → ((d.statuses ≡ []) × (latest_from none d.statuses ≡ none))
          ⊎ ((m : Status) × (latest_from none d.statuses ≡ some m)
              × Has m d.statuses
              × AllUntil m.time d.statuses)
    go [] e = inl (e, rw (e, latest_from))
    go (s ∷ ss) e =
        let (m, q, has, later, all) = latest_from_lem s ss in
        inr (m, rw (e, latest_from) q, rw e has, rw e (later, all))
