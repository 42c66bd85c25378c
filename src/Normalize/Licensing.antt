-- ===== src/Normalize/Licensing.antt =====
-- No severity is raised without a license, and none above what a source asserted.
use repoauditor.Prelude.{
  ℕ, suc, ◌≤◌, ◌<◌, ◌≡◌, ◌⊎◌, refl, ap, ◌∙◌, Bool, true, false, not, ◌||◌, ◌&&◌, is_some,
  length-append, Option, none, some, List, [], ◌∷◌, map, ltb, length, max_by, max_by_ge, All, arith,
  inl, inr, Bool-cases, Option-cases,
}
use repoauditor.Store.{Finding, Severity, unresolved}
use repoauditor.Store.Ranks.{severity_rank, cap_severity, rank-cap_severity}
use repoauditor.Matching.Defs.{representative, confidence_of}
use repoauditor.Normalize.{
  Llm, Adjudication, Journal, License, severity_of, license, merge, merge_unresolved, ceiling_of,
  is_unanimous, settle, debate, adjudicate_group, persist_resolution, record_debate, DebateOutcome,
  no_consensus,
}

-- A member of the group attains a greatest key.
max_by_mem {ℓ κ} :
    {A : Type ℓ} (P : A → Type κ) (key : A → ℕ) (x : A) (xs : List A)
    → P x
    → All P xs
    → P (max_by key x xs)
max_by_mem P key x [] hx h = hx
max_by_mem P key x (y ∷ ys) hx h = elim (Bool-cases (ltb (key x) (key y))) [
  | inl e ↦ rw e (max_by_mem P key y ys h.0 h.1)
  | inr e ↦ rw e (max_by_mem P key x ys hx h.1)
]

All-severity_of :
    (c : ℕ) (fs : List Finding)
    → All (λ s. severity_rank s ≤ c) (map severity_of fs)
    → All (λ f. severity_rank f.severity ≤ c) fs
All-severity_of c [] h = tt
All-severity_of c (f ∷ fs) h = (h.0, All-severity_of c fs h.1)

-- The representative's severity is at most the strongest that a member asserted.
representative-le-ceiling :
    (m : Finding) (ms : List Finding)
    → severity_rank (representative m ms).severity ≤ severity_rank (ceiling_of m ms)
representative-le-ceiling m ms =
    let (a, b) = max_by_ge severity_rank m.severity (map severity_of ms) in
    max_by_mem (λ f. severity_rank f.severity ≤ severity_rank (ceiling_of m ms)) confidence_of m ms
      a (All-severity_of (severity_rank (ceiling_of m ms)) ms b)

-- How the group `m ∷ ms` is resolved: one constructor for each branch.
pub data Resolved (llm : Llm) (m : Finding) (ms : List Finding) (r : Finding) : Type 0 where
  passed :
      is_unanimous m ms ≡ true → r ≡ merge m ms (representative m ms).severity → Resolved llm m ms r
  unlicensed :
      is_unanimous m ms ≡ false
      → license (m ∷ ms) ≡ none
      → r ≡ merge_unresolved m ms
      → Resolved llm m ms r
  undecided :
      (l : License) (a : Adjudication)
      → is_unanimous m ms ≡ false
      → license (m ∷ ms) ≡ some l
      → llm (m ∷ ms) ≡ some a
      → (not a.consensus || a.low_confidence) ≡ true
      → r ≡ merge_unresolved m ms
      → Resolved llm m ms r
  decided :
      (l : License) (a : Adjudication)
      → is_unanimous m ms ≡ false
      → license (m ∷ ms) ≡ some l
      → llm (m ∷ ms) ≡ some a
      → (not a.consensus || a.low_confidence) ≡ false
      → r ≡ merge m ms (cap_severity a.severity (ceiling_of m ms))
      → Resolved llm m ms r

settle_cases :
    (persist : Bool) (m : Finding) (ms : List Finding) (a : Adjudication) (j : Journal)
    → ((not a.consensus || a.low_confidence) ≡ true)
        × ((settle persist m ms a j).0 ≡ merge_unresolved m ms)
      ⊎ ((not a.consensus || a.low_confidence) ≡ false)
        × ((settle persist m ms a j).0 ≡ merge m ms (cap_severity a.severity (ceiling_of m ms)))
unfolding settle
settle_cases persist m ms a j = elim (Bool-cases (not a.consensus || a.low_confidence)) [
  | inl e ↦ inl (e, (rw e))
  | inr e ↦ inr (e, (rw e))
]

adjudicate_group-held :
    (llm : Llm) (persist : Bool) (m : Finding) (ms : List Finding) (j : Journal)
    → is_unanimous m ms ≡ false
    → license (m ∷ ms) ≡ none
    → adjudicate_group llm persist m ms j ≡ (
      some (merge_unresolved m ms),
      persist_resolution persist (merge_unresolved m ms) (record_debate m ms no_consensus none j),
    )
unfolding adjudicate_group
adjudicate_group-held llm persist m ms j u l = rw (u, l)

-- Each branch of the loop body resolves the group as the rules say.
pub adjudicate_group-Resolved :
    (llm : Llm) (persist : Bool) (m : Finding) (ms : List Finding) (j : Journal) (r : Finding)
    → (adjudicate_group llm persist m ms j).0 ≡ some r
    → Resolved llm m ms r
unfolding adjudicate_group debate
adjudicate_group-Resolved llm persist m ms j r h = elim (Bool-cases (is_unanimous m ms)) [
  | inl u ↦ passed u (cc (rw (u, adjudicate_group) at h))
  | inr u ↦ elim (Option-cases (license (m ∷ ms))) [
    | inl l ↦ unlicensed u l (cc (rw (u, l, adjudicate_group) at h))
    | inr (l, el) ↦ elim (Option-cases (llm (m ∷ ms))) [
      | inl x ↦ cc (rw (u, el, x, adjudicate_group, debate) at h)
      | inr (a, ea) ↦ elim (settle_cases persist m ms a (record j { calls = suc j.calls })) [
        | inl (b, s) ↦
            undecided l a u el ea b (cc (rw (u, el, ea, adjudicate_group, debate) at h, s))
        | inr (b, s) ↦ decided l a u el ea b (cc (rw (u, el, ea, adjudicate_group, debate) at h, s))
      ]
    ]
  ]
]

cap-le_ceiling : (p c : Severity) → severity_rank (cap_severity p c) ≤ severity_rank c
cap-le_ceiling p c = omega (arith, rank-cap_severity p c)

-- Whatever the model answers, the severity of a resolved group is at most the strongest severity
-- that one of its members asserted.
pub adjudicate_group-le_ceiling :
    (llm : Llm) (persist : Bool) (m : Finding) (ms : List Finding) (j : Journal) (r : Finding)
    → (adjudicate_group llm persist m ms j).0 ≡ some r
    → severity_rank r.severity ≤ severity_rank (ceiling_of m ms)
unfolding merge merge_unresolved
adjudicate_group-le_ceiling llm persist m ms j r h =
    bound (adjudicate_group-Resolved llm persist m ms j r h)
  where
    bound : Resolved llm m ms r → severity_rank r.severity ≤ severity_rank (ceiling_of m ms)
    bound (passed u e) = rw e (representative-le-ceiling m ms)
    bound (unlicensed u l e) = rw e (representative-le-ceiling m ms)
    bound (undecided l a u el ea b e) = rw e (representative-le-ceiling m ms)
    bound (decided l a u el ea b e) = rw e (cap-le_ceiling a.severity (ceiling_of m ms))

-- A resolution above the severity of the group's representative has a license, comes from a
-- confident consensus of the model, and is at most what the model proposed.
pub adjudicate_group_upgrade :
    (llm : Llm) (persist : Bool) (m : Finding) (ms : List Finding) (j : Journal) (r : Finding)
    → (adjudicate_group llm persist m ms j).0 ≡ some r
    → severity_rank (representative m ms).severity < severity_rank r.severity
    → (l : License) × (a : Adjudication) × (license (m ∷ ms) ≡ some l)
      × (llm (m ∷ ms) ≡ some a)
      × (a.consensus ≡ true)
      × (a.low_confidence ≡ false)
      × (severity_rank r.severity ≤ severity_rank a.severity)
unfolding merge merge_unresolved
adjudicate_group_upgrade llm persist m ms j r h up =
    given (adjudicate_group-Resolved llm persist m ms j r h)
  where
    given :
        Resolved llm m ms r
        → (l : License) × (a : Adjudication) × (license (m ∷ ms) ≡ some l)
          × (llm (m ∷ ms) ≡ some a)
          × (a.consensus ≡ true)
          × (a.low_confidence ≡ false)
          × (severity_rank r.severity ≤ severity_rank a.severity)
    given (passed u e) = absurd (omega (arith, ap (λ (f : Finding). severity_rank f.severity) e))
    given (unlicensed u l e) =
        absurd (omega (arith, ap (λ (f : Finding). severity_rank f.severity) e))
    given (undecided l a u el ea b e) =
        absurd (omega (arith, ap (λ (f : Finding). severity_rank f.severity) e))
    given (decided l a u el ea b e) = (
      l,
      a,
      el,
      ea,
      ground arith,
      ground arith,
      omega (
        arith,
        ap (λ (f : Finding). severity_rank f.severity) e,
        rank-cap_severity a.severity (ceiling_of m ms),
      ),
    )

persist_resolution-rest :
    (persist : Bool) (f : Finding) (j : Journal)
    → ((persist_resolution persist f j).calls ≡ j.calls)
      × ((persist_resolution persist f j).debates ≡ j.debates)
unfolding persist_resolution
persist_resolution-rest persist f j = elim (Bool-cases (persist && is_some f.id)) [
  | inl e ↦ rw e (refl, refl)
  | inr e ↦ rw e (refl, refl)
]

record_debate-rest :
    (m : Finding) (ms : List Finding) (o : DebateOutcome) (s : Option Severity) (j : Journal)
    → ((record_debate m ms o s j).calls ≡ j.calls)
      × (length (record_debate m ms o s j).debates ≡ suc (length j.debates))
unfolding record_debate
record_debate-rest m ms o s j = (refl, omega (arith, length-append j.debates _))

-- A conflict without a license is held as unresolved, at the representative's severity, with one
-- debate recorded and without a call of the model.
pub adjudicate_group-unlicensed :
    (llm : Llm) (persist : Bool) (m : Finding) (ms : List Finding) (j : Journal)
    → is_unanimous m ms ≡ false
    → license (m ∷ ms) ≡ none
    → (r : Finding) × ((adjudicate_group llm persist m ms j).0 ≡ some r)
      × (r.falsification_status ≡ unresolved)
      × (r.severity ≡ (representative m ms).severity)
      × ((adjudicate_group llm persist m ms j).1.calls ≡ j.calls)
      × (length (adjudicate_group llm persist m ms j).1.debates ≡ suc (length j.debates))
adjudicate_group-unlicensed llm persist m ms j u l =
    let r = merge_unresolved m ms in
    let j' = record_debate m ms no_consensus none j in
    let (c, d) = persist_resolution-rest persist r j' in
    let (c', d') = record_debate-rest m ms no_consensus none j in
    let e = adjudicate_group-held llm persist m ms j u l in
    rw e (
      r,
      refl,
      unfold merge_unresolved in refl,
      unfold merge_unresolved in refl,
      c ∙ c',
      ap length d ∙ d',
    )
