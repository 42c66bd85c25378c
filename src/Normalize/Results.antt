-- ===== src/Normalize/Results.antt =====
-- A whole run of `adjudicate` in src/repoauditor/normalize/adjudicate.py.
use repoauditor.Prelude.{
  ℕ, suc, ◌+◌, ◌≤◌, ◌≡◌, refl, ap, ◌∙◌, Bool, not, Option, none, some, List, [], ◌∷◌, ◌++◌, map,
  ◌&&◌, is_some, length, append-nil, append_assoc, sym, ◌||◌, filter_by, arith, inl, inr,
  Bool-cases, Option-cases,
}
use repoauditor.Store.{Finding, Severity}
use repoauditor.Store.Ranks.{cap_severity}
use repoauditor.Matching.Defs.{MatchGroup, representative, find_matches}
use repoauditor.Normalize.{
  Llm, Journal, DebateOutcome, no_consensus, consensus, Adjudication, is_killed, apply_adjudication,
  persist_resolution, record_debate, settle, debate, AdjudicationDebate, same_row, merge,
  merge_unresolved, ceiling_of, is_unanimous, license, adjudicate_group, adjudicate_groups,
  adjudicate,
}
use repoauditor.Normalize.Rules.{untouched, Ruled}

-- One result for each group, in order, resolved as the rules say.
abbrev pub AllRuled : Llm → List MatchGroup → List Finding → Type 0
AllRuled llm [] [] = Unit
AllRuled llm [] (r ∷ rs) = ⊥
AllRuled llm ([] ∷ gs) rs = AllRuled llm gs rs
AllRuled llm ((m ∷ ms) ∷ gs) [] = ⊥
AllRuled llm ((m ∷ ms) ∷ gs) (r ∷ rs) = Ruled llm m ms r × AllRuled llm gs rs

apply_adjudication-untouched :
    (f : Finding) (rows : List Finding)
    → map untouched (apply_adjudication f rows) ≡ map untouched rows
unfolding apply_adjudication
apply_adjudication-untouched f [] = refl
apply_adjudication-untouched f (row ∷ rows) = elim (Bool-cases (same_row f row)) [
  | inl e ↦ rw e (ap (λ t. untouched row ∷ t) (apply_adjudication-untouched f rows))
  | inr e ↦ rw e (ap (λ t. untouched row ∷ t) (apply_adjudication-untouched f rows))
]

-- The second journal of debates begins with the first.
abbrev pub IsPrefix : List AdjudicationDebate → List AdjudicationDebate → Type 0
IsPrefix before after = (more : List AdjudicationDebate) × (after ≡ before ++ more)

IsPrefix-refl : (ds : List AdjudicationDebate) → IsPrefix ds ds
IsPrefix-refl ds = ([], sym (append-nil ds))

IsPrefix-trans : (a b c : List AdjudicationDebate) → IsPrefix a b → IsPrefix b c → IsPrefix a c
IsPrefix-trans a b c (x, e) (y, f) = (x ++ y, f ∙ ap (λ l. l ++ y) e ∙ append_assoc a x y)

-- What a step keeps: each row but for those columns, and the debates; it makes few calls.
record Keeps (calls : ℕ) (before after : Journal) : Type 0 where
  same_rows : map untouched after.rows ≡ map untouched before.rows
  few_calls : after.calls ≤ before.calls + calls
  more_debates : IsPrefix before.debates after.debates

Keeps-trans : (a b : ℕ) (x y z : Journal) → Keeps a x y → Keeps b y z → Keeps (a + b) x z
Keeps-trans a b x y z h k = record {
  same_rows = k.same_rows ∙ h.same_rows;
  few_calls = omega (arith, h.few_calls, k.few_calls);
  more_debates = IsPrefix-trans _ _ _ h.more_debates k.more_debates;
}

Keeps-persist :
    (persist : Bool) (f : Finding) (j : Journal) → Keeps 0 j (persist_resolution persist f j)
unfolding persist_resolution
Keeps-persist persist f j = elim (Bool-cases (persist && is_some f.id)) [
  | inl e ↦ rw e (record {
    same_rows = apply_adjudication-untouched f j.rows;
    few_calls = omega arith;
    more_debates = IsPrefix-refl j.debates;
  })
  | inr e ↦
      rw e (record {
        same_rows = refl;
        few_calls = omega arith;
        more_debates = IsPrefix-refl j.debates;
      })
]

Keeps-record :
    (m : Finding) (ms : List Finding) (o : DebateOutcome) (s : Option Severity) (j : Journal)
    → Keeps 0 j (record_debate m ms o s j)
unfolding record_debate
Keeps-record m ms o s j = record {
  same_rows = refl;
  few_calls = omega arith;
  more_debates = (_, refl);
}

Keeps-recorded :
    (persist : Bool) (f m : Finding) (ms : List Finding) (o : DebateOutcome) (s : Option Severity)
    (j : Journal)
    → Keeps 0 j (persist_resolution persist f (record_debate m ms o s j))
Keeps-recorded persist f m ms o s j =
    Keeps-trans 0 0 j (record_debate m ms o s j) _ (Keeps-record m ms o s j)
      (Keeps-persist persist f (record_debate m ms o s j))

Keeps-settle :
    (persist : Bool) (m : Finding) (ms : List Finding) (a : Adjudication) (j : Journal)
    → Keeps 0 j (settle persist m ms a j).1
unfolding settle
Keeps-settle persist m ms a j = elim (Bool-cases (not a.consensus || a.low_confidence)) [
  | inl e ↦ rw e (Keeps-recorded persist (merge_unresolved m ms) m ms no_consensus none j)
  | inr e ↦
      let c = cap_severity a.severity (ceiling_of m ms) in
      rw e (Keeps-recorded persist (merge m ms c) m ms consensus (some c) j)
]

Keeps-called : (j : Journal) → Keeps 1 j (record j { calls = suc j.calls })
Keeps-called j = record {
  same_rows = refl;
  few_calls = omega arith;
  more_debates = IsPrefix-refl j.debates;
}

Keeps-debate :
    (llm : Llm) (persist : Bool) (m : Finding) (ms : List Finding) (j : Journal)
    → Keeps 1 j (debate llm persist m ms j).1
unfolding debate
Keeps-debate llm persist m ms j = elim (Option-cases (llm (m ∷ ms))) [
  | inl e ↦ rw (e, debate) (Keeps-called j)
  | inr (a, e) ↦
      rw (e, debate)
        (Keeps-trans 1 0 j (record j { calls = suc j.calls }) _ (Keeps-called j)
          (Keeps-settle persist m ms a _))
]

Keeps-weaken : (j j' : Journal) → Keeps 0 j j' → Keeps 1 j j'
Keeps-weaken j j' h = record {
  same_rows = h.same_rows;
  few_calls = omega (arith, h.few_calls);
  more_debates = h.more_debates;
}

Keeps-group :
    (llm : Llm) (persist : Bool) (m : Finding) (ms : List Finding) (j : Journal)
    → Keeps 1 j (adjudicate_group llm persist m ms j).1
unfolding adjudicate_group
Keeps-group llm persist m ms j = elim (Bool-cases (is_unanimous m ms)) [
  | inl u ↦
      rw u (Keeps-weaken j _ (Keeps-persist persist (merge m ms (representative m ms).severity) j))
  | inr u ↦ elim (Option-cases (license (m ∷ ms))) [
    | inl e ↦
        rw (u, e)
          (Keeps-weaken j _
            (Keeps-recorded persist (merge_unresolved m ms) m ms no_consensus none j))
    | inr (l, e) ↦ rw (u, e) (Keeps-debate llm persist m ms j)
  ]
]

Keeps-groups :
    (llm : Llm) (persist : Bool) (gs : List MatchGroup) (j : Journal)
    → Keeps (length gs) j (adjudicate_groups llm persist gs j).1
unfolding adjudicate_groups
Keeps-groups llm persist [] j = record {
  same_rows = refl;
  few_calls = omega arith;
  more_debates = IsPrefix-refl j.debates;
}
Keeps-groups llm persist ([] ∷ gs) j =
    let h = Keeps-groups llm persist gs j in
    record {
      same_rows = h.same_rows;
      few_calls = omega (arith, h.few_calls);
      more_debates = h.more_debates;
    }
Keeps-groups llm persist ((m ∷ ms) ∷ gs) j =
    let j' = (adjudicate_group llm persist m ms j).1 in
    let h = Keeps-group llm persist m ms j in
    elim (Option-cases (adjudicate_group llm persist m ms j).0) [
      | inl e ↦
          rw (e, adjudicate_groups)
            (record {
              same_rows = h.same_rows;
              few_calls = omega (arith, h.few_calls);
              more_debates = h.more_debates;
            })
      | inr (r, e) ↦
          let k = Keeps-groups llm persist gs j' in
          rw (e, adjudicate_groups)
            (record {
              same_rows = k.same_rows ∙ h.same_rows;
              few_calls = omega (arith, h.few_calls, k.few_calls);
              more_debates = IsPrefix-trans _ _ _ h.more_debates k.more_debates;
            })
    ]

-- Whether the run ends or raises, it changes nothing of the stored findings but the severity, the
-- status and the corroborations, leaves the debates recorded before as they were and in their
-- order, with its own after them, and calls the model at most once for a group.
pub adjudicate_keeps :
    (llm : Llm) (persist : Bool) (candidates : List Finding) (j : Journal)
    → (map untouched (adjudicate llm persist candidates j).1.rows ≡ map untouched j.rows)
      × ((adjudicate llm persist candidates j).1.calls
          ≤ j.calls + length (find_matches (filter_by (λ f. not (is_killed f)) candidates)).groups)
      × IsPrefix j.debates (adjudicate llm persist candidates j).1.debates
unfolding adjudicate
adjudicate_keeps llm persist candidates j =
    let h =
      Keeps-groups llm persist (find_matches (filter_by (λ f. not (is_killed f)) candidates)).groups
        j in
    (h.same_rows, h.few_calls, h.more_debates)
