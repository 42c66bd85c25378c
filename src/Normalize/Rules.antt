-- ===== src/Normalize/Rules.antt =====
-- What the rules of src/repoauditor/normalize/adjudicate.py give for a group, field by field.
use repoauditor.Prelude.{
  ℕ, suc, ◌<◌, ◌≡◌, ◌⊎◌, refl, sym, ap, ◌∙◌, true, false, not, ◌||◌, ◌==◌, none, some, List, [],
  ◌∷◌, map, any, elem, distinct, length, min, All, All-map, arith, inl, inr, Bool-cases,
}
use repoauditor.Store.{Finding, Severity, Corroboration, info, unresolved}
use repoauditor.Store.Ranks.{severity_rank, rank-cap_severity}
use repoauditor.Matching.Defs.{
  representative, source_of, distinct_sources, has_independent_corroboration,
}
use repoauditor.Normalize.{
  Llm, Adjudication, License, severity_eq, severity_of, is_confirmed, license, merge,
  merge_unresolved, ceiling_of, is_unanimous, corroborator,
}
use repoauditor.Normalize.Licensing.{Resolved, passed, unlicensed, undecided, decided}

-- A row without the three columns that `apply_adjudication` may write.
abbrev pub untouched : Finding → Finding
untouched f = record f { severity = info; falsification_status = unresolved; corroborated_by = [] }

-- Two tools, or a tool and a lens, found the issue, or a member of the group is confirmed.
abbrev pub IsLicensed : List Finding → Type 0
IsLicensed g =
    (has_independent_corroboration (distinct_sources g) ≡ true) ⊎ (any is_confirmed g ≡ true)

-- The model gave no confident consensus on the group.
abbrev pub IsUndecided : Llm → List Finding → Type 0
IsUndecided llm g =
    (a : Adjudication) × (llm g ≡ some a) × ((a.consensus ≡ false) ⊎ (a.low_confidence ≡ true))

-- The ways in which the rules settle the fields that a resolution may change.
pub data Ruling (llm : Llm) (m : Finding) (ms : List Finding) (r : Finding) : Type 0 where
  agreed :
      All (λ f. severity_rank f.severity ≡ severity_rank m.severity) ms
      → r.severity ≡ (representative m ms).severity
      → r.falsification_status ≡ (representative m ms).falsification_status
      → Ruling llm m ms r
  held :
      is_unanimous m ms ≡ false
      → (¬ IsLicensed (m ∷ ms)) ⊎ IsLicensed (m ∷ ms) × IsUndecided llm (m ∷ ms)
      → r.severity ≡ (representative m ms).severity
      → r.falsification_status ≡ unresolved
      → map corroborator r.corroborated_by ≡ map source_of (m ∷ ms)
      → map (λ c. c.note) r.corroborated_by ≡ map (λ f. some f.severity) (m ∷ ms)
      → Ruling llm m ms r
  capped :
      (a : Adjudication)
      → is_unanimous m ms ≡ false
      → IsLicensed (m ∷ ms)
      → llm (m ∷ ms) ≡ some a
      → a.consensus ≡ true
      → a.low_confidence ≡ false
      → severity_rank r.severity ≡ min (severity_rank a.severity) (severity_rank (ceiling_of m ms))
      → r.falsification_status ≡ (representative m ms).falsification_status
      → Ruling llm m ms r

-- A resolution is the representative but for those fields, and the rules settle them.
abbrev pub Ruled : Llm → Finding → List Finding → Finding → Type 0
Ruled llm m ms r = (untouched r ≡ untouched (representative m ms)) × Ruling llm m ms r

map-map {ℓ} :
    {A B C : Type ℓ} (f : B → C) (g : A → B) (xs : List A)
    → map f (map g xs) ≡ map (λ x. f (g x)) xs
map-map f g [] = refl
map-map f g (x ∷ xs) = ap (λ l. f (g x) ∷ l) (map-map f g xs)

distinct_some : (x : Severity) (xs : List Severity) → 0 < length (distinct severity_eq (x ∷ xs))
distinct_some x [] = omega arith
distinct_some x (y ∷ ys) = elim (Bool-cases (elem severity_eq x (distinct severity_eq (y ∷ ys)))) [
  | inl e ↦ rw e (distinct_some y ys)
  | inr e ↦ rw e (omega arith)
]

-- Severities with one distinct value have one rank.
distinct_one :
    (xs : List Severity)
    → length (distinct severity_eq xs) ≡ 1
    → (y : Severity) × (distinct severity_eq xs ≡ y ∷ [])
      × All (λ x. severity_rank x ≡ severity_rank y) xs
distinct_one [] h = cc
distinct_one (x ∷ []) h = (x, refl, (refl, tt))
distinct_one (x ∷ y ∷ ys) h =
    elim (Bool-cases (elem severity_eq x (distinct severity_eq (y ∷ ys)))) [
      | inl e ↦
          let (z, d, all_same) = distinct_one (y ∷ ys) (rw e at h) in
          let same : (severity_rank x == severity_rank z) || false ≡ true = rw d at e in
          rw e (z, d, (ground (arith, same), all_same))
      | inr e ↦
          let one : suc (length (distinct severity_eq (y ∷ ys))) ≡ 1 = rw e at h in
          absurd (omega (arith, one, distinct_some y ys))
    ]

All-ranks :
    (k : ℕ) (fs : List Finding)
    → All (λ x. severity_rank x ≡ k) (map severity_of fs)
    → All (λ f. severity_rank f.severity ≡ k) fs
All-ranks k [] h = tt
All-ranks k (f ∷ fs) h = (h.0, All-ranks k fs h.1)

-- The members of a group that the rules take for unanimous have one rank.
is_unanimous-ranks :
    (m : Finding) (ms : List Finding)
    → is_unanimous m ms ≡ true
    → All (λ f. severity_rank f.severity ≡ severity_rank m.severity) ms
is_unanimous-ranks m [] h = tt
is_unanimous-ranks m (f ∷ fs) h =
    let one : length (distinct severity_eq (m.severity ∷ map severity_of (f ∷ fs))) ≡ 1 =
      ground (arith, h) in
    let (y, _, (top, others)) = distinct_one (m.severity ∷ map severity_of (f ∷ fs)) one in
    All-map (λ g e. e ∙ sym top) (f ∷ fs) (All-ranks (severity_rank y) (f ∷ fs) others)

license-IsLicensed : (g : List Finding) (l : License) → license g ≡ some l → IsLicensed g
unfolding license
license-IsLicensed g l h = elim (Bool-cases (has_independent_corroboration (distinct_sources g))) [
  | inl e ↦ inl e
  | inr e ↦ elim (Bool-cases (any is_confirmed g)) [
    | inl y ↦ inr y
    | inr y ↦ cc (rw (e, y, license) at h)
  ]
]

IsLicensed-license : (g : List Finding) → license g ≡ none → ¬ IsLicensed g
unfolding license
IsLicensed-license g h (inl e) = cc (rw (e, license) at h)
IsLicensed-license g h (inr y) =
    elim (Bool-cases (has_independent_corroboration (distinct_sources g))) [
      | inl e ↦ cc (rw (e, license) at h)
      | inr e ↦ cc (rw (e, y, license) at h)
    ]

-- A group held as unresolved.
merge_unresolved-Ruled :
    (llm : Llm) (m : Finding) (ms : List Finding)
    → is_unanimous m ms ≡ false
    → (¬ IsLicensed (m ∷ ms)) ⊎ IsLicensed (m ∷ ms) × IsUndecided llm (m ∷ ms)
    → Ruled llm m ms (merge_unresolved m ms)
unfolding merge_unresolved
merge_unresolved-Ruled llm m ms u why =
    let entry : Finding → Corroboration = λ f. record {
      source_type = (source_of f).source_type;
      source_name = (source_of f).source_name;
      note = some f.severity;
      score = none;
    } in
    (
      refl,
      held u why refl refl (map-map corroborator entry (m ∷ ms))
          (map-map (λ (c : Corroboration). c.note) entry (m ∷ ms)),
    )

-- A resolution by one of the branches is what the rules say.
pub Resolved-Ruled :
    (llm : Llm) (m : Finding) (ms : List Finding) (r : Finding)
    → Resolved llm m ms r
    → Ruled llm m ms r
unfolding merge
Resolved-Ruled llm m ms r (passed u e) = rw e (refl, agreed (is_unanimous-ranks m ms u) refl refl)
Resolved-Ruled llm m ms r (unlicensed u l e) =
    rw e (merge_unresolved-Ruled llm m ms u (inl (IsLicensed-license (m ∷ ms) l)))
Resolved-Ruled llm m ms r (undecided l a u el ea b e) =
    rw e (
      merge_unresolved-Ruled llm m ms u
        (inr (license-IsLicensed (m ∷ ms) l el, (a, ea, doubt a b))))
  where
    doubt :
        (a : Adjudication)
        → (not a.consensus || a.low_confidence) ≡ true
        → (a.consensus ≡ false) ⊎ (a.low_confidence ≡ true)
    doubt a b = elim (Bool-cases a.consensus) [ inl c ↦ inr (rw c at b) | inr c ↦ inl c ]
Resolved-Ruled llm m ms r (decided l a u el ea b e) = rw e (
  refl,
  capped a u (license-IsLicensed (m ∷ ms) l el) ea (ground arith) (ground arith)
      (rank-cap_severity a.severity (ceiling_of m ms)) refl,
)
