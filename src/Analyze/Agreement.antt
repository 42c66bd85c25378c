-- ===== src/Analyze/Agreement.antt =====
-- Which corroborations src/repoauditor/analyze/corroboration.py records.
use repoauditor.Prelude.{
  ℕ, suc, some, ◌+◌, ◌-◌, ◌*◌, ◌/◌, ◌%◌, ◌≤◌, ◌<◌, ◌≡◌, ◌⊎◌, refl, sym, ap, any, ◌==◌, ◌∙◌, Bool,
  true, false, not, str_eq_iff, List, [], ◌∷◌, map, ltb, ◌&&◌, ◌||◌, if◌then◌else◌, elem, length,
  subst, All, arith, inl, inr, Bool-cases,
}
use native.Mathlib.Nat.{div-add-mod, mod-lt}
use repoauditor.Prelude.Sort.{sorted}
use repoauditor.Store.{Finding, SourceType, lens, tool}
use repoauditor.Matching.Defs.{
  SourceRef, type_eq, source_eq, is_tool, is_lens, uncorroborated, Divergence, source_of,
  representative, distinct_sources,
}
use repoauditor.Analyze.Corroboration.{
  AgreementRow, agreement_rows, agreement_score, rounded, GroupOutcome, corroborated, lone,
  corroborate_group, uncorroborated_of, source_le, known_ids,
}

source_eq-same : (a b : SourceRef) → source_eq a b ≡ true → a ≡ b
source_eq-same a b h =
    let e = type_eq-same a.source_type b.source_type (ground arith) in
    let e' = (str_eq_iff a.source_name b.source_name).0 (ground arith) in
    λ i. record { source_type = e i; source_name = e' i }
  where
    type_eq-same : (s t : SourceType) → type_eq s t ≡ true → s ≡ t
    type_eq-same lens lens k = refl
    type_eq-same tool tool k = refl
    type_eq-same lens tool k = cc
    type_eq-same tool lens k = cc

source_eq_self : (a : SourceRef) → source_eq a a ≡ true
source_eq_self a =
    let e = type_eq_self a.source_type in
    let e' = (str_eq_iff a.source_name a.source_name).1 refl in rw (e, e') refl
  where
    type_eq_self : (s : SourceType) → type_eq s s ≡ true
    type_eq_self lens = refl
    type_eq_self tool = refl

abbrev pub sources_of : List AgreementRow → List SourceRef
sources_of = map (λ r. r.source)

abbrev is_distinct : List SourceRef → Bool
is_distinct [] = true
is_distinct (s ∷ ss) = not (elem source_eq s ss) && is_distinct ss

-- Which sources the loop records.
elem-agreement_rows :
    (rep : Finding) (score : ℕ) (q : SourceRef) (seen : List SourceRef) (ms : List Finding)
    → elem source_eq q (sources_of (agreement_rows rep score seen ms)) ≡ (
        elem source_eq q (map source_of ms)
        && (not (source_eq q (source_of rep)) && not (elem source_eq q seen)))
unfolding agreement_rows
elem-agreement_rows rep score q seen [] = refl
elem-agreement_rows rep score q seen (m ∷ ms) =
    let src = source_of m in
    let skip : SourceRef → Bool = λ x. source_eq x (source_of rep) || elem source_eq x seen in
    let old = elem-agreement_rows rep score q seen ms in
    let new = elem-agreement_rows rep score q (src ∷ seen) ms in
    elim (Bool-cases (skip src)) [
      | inl y ↦ elim (Bool-cases (source_eq q src)) [
        | inl e ↦
            let also : skip q ≡ true =
              subst (λ x. skip x ≡ true) (sym (source_eq-same q src e)) y in
            rw (y, agreement_rows, e) (old ∙ ground arith)
        | inr e ↦ rw (y, agreement_rows, e) old
      ]
      | inr y ↦ elim (Bool-cases (source_eq q src)) [
        | inl e ↦
            let also : skip q ≡ false =
              subst (λ x. skip x ≡ false) (sym (source_eq-same q src e)) y in
            rw (y, agreement_rows, e) (ground arith)
        | inr e ↦ rw (y, agreement_rows, e) (new ∙ rw e refl)
      ]
    ]

agreement_rows-is_distinct :
    (rep : Finding) (score : ℕ) (seen : List SourceRef) (ms : List Finding)
    → is_distinct (sources_of (agreement_rows rep score seen ms)) ≡ true
unfolding agreement_rows
agreement_rows-is_distinct rep score seen [] = refl
agreement_rows-is_distinct rep score seen (m ∷ ms) =
    let src = source_of m in
    elim (Bool-cases (source_eq src (source_of rep) || elem source_eq src seen)) [
      | inl y ↦ rw (y, agreement_rows) (agreement_rows-is_distinct rep score seen ms)
      | inr y ↦
          let own = source_eq_self src in
          let new = elem-agreement_rows rep score src (src ∷ seen) ms in
          let rest = agreement_rows-is_distinct rep score (src ∷ seen) ms in
          let once : elem source_eq src (sources_of (agreement_rows rep score (src ∷ seen) ms))
              ≡ false =
            ground arith in
          rw (y, agreement_rows) (rw once rest)
    ]

abbrev IsOf : Finding → ℕ → AgreementRow → Type 0
IsOf rep score r = (r.finding_id ≡ rep.id) × (r.score ≡ some score)

agreement_rows-IsOf :
    (rep : Finding) (score : ℕ) (seen : List SourceRef) (ms : List Finding)
    → All (IsOf rep score) (agreement_rows rep score seen ms)
unfolding agreement_rows
agreement_rows-IsOf rep score seen [] = tt
agreement_rows-IsOf rep score seen (m ∷ ms) =
    let src = source_of m in
    elim (Bool-cases (source_eq src (source_of rep) || elem source_eq src seen)) [
      | inl y ↦ rw (y, agreement_rows) (agreement_rows-IsOf rep score seen ms)
      | inr y ↦ rw (y, agreement_rows) ((refl, refl), agreement_rows-IsOf rep score (src ∷ seen) ms)
    ]

-- The quotient of the numbers, rounded: at most half a unit away from it.
abbrev pub IsNearest : ℕ → ℕ → ℕ → Type 0
IsNearest a b q = (2 * (b * q) ≤ 2 * a + b) × (2 * a ≤ 2 * (b * q) + b)

rounded-IsNearest : (a b : ℕ) → 0 < b → IsNearest a b (rounded a b)
rounded-IsNearest a b h =
    let whole : b * (a / b) + a % b ≡ a = div-add-mod a b in
    let small : a % b < b = mod-lt a h in
    elim (Bool-cases (ltb b (2 * (a % b)) || ((2 * (a % b) == b) && (a / b % 2 == 1)))) [
      | inl e ↦
          let most : b ≤ 2 * (a % b) = ground (arith, e) in
          let more : b * suc (a / b) ≡ b * (a / b) + b = omega arith in
          rw e (omega (arith, whole, small, most, more), omega (arith, whole, small, most, more))
      | inr e ↦
          let least : 2 * (a % b) ≤ b = ground (arith, e) in
          rw e (omega (arith, whole, small, least), omega (arith, whole, small, least))
    ]

-- The score of n sources is 1 - 1 / n, in ten-thousandths: the nearest one when a tool and a lens
-- are among them, and the nearest to half of it otherwise.
abbrev pub IsScore : List SourceRef → ℕ → Type 0
IsScore sources score =
    ((any is_tool sources ≡ true)
      × (any is_lens sources ≡ true)
      × IsNearest (10000 * (length sources - 1)) (length sources) score)
    ⊎ (((any is_tool sources ≡ false) ⊎ (any is_lens sources ≡ false))
        × IsNearest (10000 * (length sources - 1)) (2 * length sources) score)

agreement_score-IsScore :
    (sources : List SourceRef) → 2 ≤ length sources → IsScore sources (agreement_score sources)
unfolding agreement_score
agreement_score-IsScore sources h =
    let n = length sources in
    let several : ltb n 2 ≡ false = ground (arith, h) in
    elim (Bool-cases (any is_tool sources)) [
      | inr t ↦
          rw (several, t, agreement_score)
            (inr (inl refl, rounded-IsNearest (10000 * (n - 1)) (2 * n) (omega (arith, h))))
      | inl t ↦ elim (Bool-cases (any is_lens sources)) [
        | inl l ↦
            rw (several, t, l, agreement_score)
              (inl (refl, refl, rounded-IsNearest (10000 * (n - 1)) n (omega (arith, h))))
        | inr l ↦
            rw (several, t, l, agreement_score)
              (inr (inr refl, rounded-IsNearest (10000 * (n - 1)) (2 * n) (omega (arith, h))))
      ]
    ]

-- What the outcome for a group says of its sources.
abbrev pub Recorded : Finding → List Finding → GroupOutcome → Type 0
Recorded f fs (corroborated r) =
    (2 ≤ length (distinct_sources (f ∷ fs)))
    × (is_distinct (sources_of r.corroborations) ≡ true)
    × ((q : SourceRef)
        → elem source_eq q (sources_of r.corroborations) ≡ (
            elem source_eq q (map source_of (f ∷ fs))
            && not (source_eq q (source_of (representative f fs)))))
    × All (IsOf (representative f fs) r.score) r.corroborations
    × IsScore (distinct_sources (f ∷ fs)) r.score
Recorded f fs (lone ds) =
    (length (distinct_sources (f ∷ fs)) < 2)
    × (map (λ d. d.finding_ids) ds ≡ map (λ m. m.id ∷ []) (f ∷ fs))
    × All (λ d. d.kind ≡ uncorroborated) ds

-- A group of two or more sources gets one corroboration for each source but that of its
-- representative, each for the representative and with the group's score: 1 - 1 / n for n sources,
-- halved unless a tool and a lens are among them, to the nearest ten-thousandth. Any other group is
-- surfaced as uncorroborated, with one divergence for each member, in order, that names it.
pub corroborate_group-Recorded :
    (f : Finding) (fs : List Finding) → Recorded f fs (corroborate_group f fs)
unfolding corroborate_group
corroborate_group-Recorded f fs = by_size (ltb (length (distinct_sources (f ∷ fs))) 2) refl
  where
    rep : Finding
    rep = representative f fs

    score : ℕ
    score = agreement_score (distinct_sources (f ∷ fs))

    map-map :
        {A : Type 0} (g : Divergence → A) (ms : List Finding)
        → map g (map uncorroborated_of ms) ≡ map (λ m. g (uncorroborated_of m)) ms
    map-map g [] = refl
    map-map g (m ∷ ms) = ap (λ l. g (uncorroborated_of m) ∷ l) (map-map g ms)

    all_uncorroborated :
        (ms : List Finding) → All (λ d. d.kind ≡ uncorroborated) (map uncorroborated_of ms)
    all_uncorroborated [] = tt
    all_uncorroborated (m ∷ ms) = (refl, all_uncorroborated ms)

    and_true : (a b : Bool) → (a && (b && true)) ≡ (a && b)
    and_true a b = ground arith

    by_size :
        (few : Bool)
        → ltb (length (distinct_sources (f ∷ fs))) 2 ≡ few
        → Recorded f fs (
            if few
            then lone (map uncorroborated_of (f ∷ fs))
            else corroborated (record {
              representative_id = (representative f fs).id;
              representative_title = (representative f fs).title;
              score = agreement_score (distinct_sources (f ∷ fs));
              sources = sorted source_le (distinct_sources (f ∷ fs));
              member_finding_ids = known_ids (f ∷ fs);
              corroborations =
                  agreement_rows
                    (representative f fs)
                    (agreement_score (distinct_sources (f ∷ fs)))
                    []
                    (f ∷ fs);
            }))
    by_size true y =
        (ground arith, map-map (λ d. d.finding_ids) (f ∷ fs), all_uncorroborated (f ∷ fs))
    by_size false y = (
      ground arith,
      agreement_rows-is_distinct rep score [] (f ∷ fs),
      λ q. elem-agreement_rows rep score q [] (f ∷ fs) ∙ and_true _ _,
      agreement_rows-IsOf rep score [] (f ∷ fs),
      agreement_score-IsScore (distinct_sources (f ∷ fs)) (ground arith),
    )
