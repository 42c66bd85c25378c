-- ===== src/Detect/Examined.antt =====
-- What one lens over one region changes, in the loop of `run_ensemble` in
-- src/repoauditor/detect/ensemble.py.
use repoauditor.Prelude.{
  ℕ, suc, ◌≡◌, ◌≢◌, refl, sym, ap, ◌∙◌, subst, Bool, true, false, none, some, List, [], ◌∷◌, inl,
  inr, Bool-cases, Option-cases,
}
use repoauditor.Prelude.Ints.{pos, int_leb}
use repoauditor.Store.{new_finding}
use repoauditor.Runs.Tables.{completed, failed, run_status_eq}
use repoauditor.Detect.Citation.{LensCandidate, Anchored, anchored, rejected, canonicalize_citation}
use repoauditor.Detect.Regions.{
  Lens, RegionKey, get_region, start_detection_region, FindingTable, upsert_detected_finding,
}
use repoauditor.Detect.Ensemble.{
  World, LensReply, raised, findings, DetectState, finding_of, persist_candidate, canonicalized,
  resolve_confidence, handle_candidates, Job, key_of, call_lens, LensOutcome, examined, skipped,
  interrupted, examine,
}
use repoauditor.Detect.Done.{IsSound, is_done, is_completed}
use repoauditor.Detect.Marked.{start_detection_region-Started, finish_detection_region-Finished}

canonicalized-regions :
    (w : World) (c : LensCandidate) (s : DetectState) → (canonicalized w c s).1.regions ≡ s.regions
unfolding canonicalized
canonicalized-regions w c s = by_anchor (canonicalize_citation w.texts c) refl
  where
    by_anchor :
        (a : Anchored)
        → canonicalize_citation w.texts c ≡ a
        → (canonicalized w c s).1.regions ≡ s.regions
    by_anchor (anchored d b) e = rw (e, canonicalized) refl
    by_anchor (rejected x) e = rw (e, canonicalized) refl

resolve_confidence-regions :
    (w : World) (c : LensCandidate) (s : DetectState)
    → (resolve_confidence w c s).1.regions ≡ s.regions
unfolding resolve_confidence
resolve_confidence-regions w c s =
    elim (Bool-cases (int_leb (pos w.confidence_threshold) c.confidence)) [
      | inl e ↦ rw (e, resolve_confidence) refl
      | inr e ↦ rw (e, resolve_confidence) refl
    ]

persist_candidate-regions :
    (w : World) (lens : Lens) (c : LensCandidate) (low : Bool) (s s' : DetectState)
    → persist_candidate w lens c low s ≡ some s'
    → s'.regions ≡ s.regions
unfolding persist_candidate
persist_candidate-regions w lens c low s s' h =
    elim (Option-cases (new_finding (finding_of w lens c low))) [
      | inl e ↦ cc (rw (e, persist_candidate) at h)
      | inr (f, e) ↦
          let t : FindingTable = (upsert_detected_finding f s.findings).1 in
          let made : some (record s { findings = t }) ≡ some s' = rw (e, persist_candidate) at h in
          let same : record s { findings = t } ≡ s' = cc made in
          ap (λ (x : DetectState). x.regions) (sym same)
    ]

-- The candidates of an answer change no region.
handle_candidates-regions :
    (w : World) (lens : Lens) (cs : List LensCandidate) (n : ℕ) (s : DetectState)
    → (handle_candidates w lens cs n s).1.regions ≡ s.regions
unfolding handle_candidates
handle_candidates-regions w lens [] n s = refl
handle_candidates-regions w lens (c ∷ cs) n s =
    let s1 = (canonicalized w c s).1 in
    let k1 = canonicalized-regions w c s in
    elim (Option-cases (canonicalized w c s).0) [
      | inl e ↦ rw (e, handle_candidates) (handle_candidates-regions w lens cs n s1 ∙ k1)
      | inr (c1, e) ↦
          let s2 = (resolve_confidence w c1 s1).1 in
          let k2 = resolve_confidence-regions w c1 s1 ∙ k1 in
          elim (Option-cases (resolve_confidence w c1 s1).0) [
            | inl e' ↦ rw (e, e', handle_candidates) k2
            | inr ((c2, low), e') ↦
                let s3 = (canonicalized w c2 s2).1 in
                let k3 = canonicalized-regions w c2 s2 ∙ k2 in
                elim (Option-cases (canonicalized w c2 s2).0) [
                  | inl z ↦
                      rw (e, e', z, handle_candidates)
                        (handle_candidates-regions w lens cs n s3 ∙ k3)
                  | inr (c3, z) ↦ elim (Option-cases (persist_candidate w lens c3 low s3)) [
                    | inl p ↦ rw (e, e', z, p, handle_candidates) k3
                    | inr (s4, p) ↦
                        let k4 = persist_candidate-regions w lens c3 low s3 s4 p in
                        rw (e, e', z, p, handle_candidates)
                          (handle_candidates-regions w lens cs (suc n) s4 ∙ k4 ∙ k3)
                  ]
                ]
          ]
    ]

call_lens-regions :
    (w : World) (j : Job) (s : DetectState) → (call_lens w j s).1.regions ≡ s.regions
unfolding call_lens
call_lens-regions w j s = by_reply (w.reply s.calls) refl
  where
    by_reply : (r : LensReply) → w.reply s.calls ≡ r → (call_lens w j s).1.regions ≡ s.regions
    by_reply (raised x) e = rw (e, call_lens) refl
    by_reply (findings cs) e = rw (e, call_lens) (handle_candidates-regions w j.lens cs 0 _)

-- What one lens over one region does, for each outcome.
abbrev pub Examined : RegionKey → DetectState → LensOutcome → DetectState → Type 0
Examined k s examined t = (is_done k s.regions ≡ false) × (is_done k t.regions ≡ true)
Examined k s skipped t =
    (is_done k s.regions ≡ true)
    × (is_done k t.regions ≡ true)
    × (t.calls ≡ s.calls)
    × (t.findings ≡ s.findings)
    × (t.failures ≡ s.failures)
Examined k s interrupted t = (is_done k s.regions ≡ false) × (is_done k t.regions ≡ false)

pub record Advance (k : RegionKey) (s : DetectState) (o : LensOutcome) (t : DetectState)
    : Type 0 where
  pub sound : IsSound t.regions
  pub others : (q : RegionKey) → q ≢ k → is_done q t.regions ≡ is_done q s.regions
  pub own : Examined k s o t

pub examine-Advance :
    (w : World) (j : Job) (s : DetectState)
    → IsSound s.regions
    → Advance (key_of w j) s (examine w j s).0 (examine w j s).1
unfolding examine
examine-Advance w j s g =
    let k = key_of w j in
    let row = (start_detection_region k j.selection_basis w.now s.regions).0 in
    let t = (start_detection_region k j.selection_basis w.now s.regions).1 in
    let st = start_detection_region-Started k j.selection_basis w.now s.regions in
    let s1 : DetectState = record s { regions = t } in
    let s2 = (call_lens w j s1).1 in
    let same : s2.regions ≡ t = call_lens-regions w j s1 in
    let sound2 : IsSound s2.regions = subst IsSound (sym same) (st.sound g) in
    let held : get_region k s2.regions.rows ≡ some row =
      ap (λ u. get_region k u.rows) same ∙ st.own in
    let away : (q : RegionKey) → q ≢ k → is_done q s2.regions ≡ is_done q s.regions =
      λ q m. ap (is_done q) same ∙ ap is_completed (st.others q m) in
    elim (Bool-cases (run_status_eq row.status completed)) [
      | inl y ↦
          rw (y, examine)
            (record {
              sound = st.sound g;
              others = λ q m. ap is_completed (st.others q m);
              own = (sym st.was_done ∙ y, ap is_completed st.own ∙ y, refl, refl, refl);
            })
      | inr y ↦ elim (Option-cases (call_lens w j s1).0) [
        | inl e ↦
            let f =
              finish_detection_region-Finished k s2.regions row failed 0 (some w.failure_detail)
                w.now sound2 held in
            rw (e, y, examine)
              (record {
                sound = f.sound;
                others = λ q m. ap is_completed (f.others q m) ∙ away q m;
                own = (sym st.was_done ∙ y, f.own);
              })
        | inr (n, e) ↦
            let f =
              finish_detection_region-Finished k s2.regions row completed n none w.now sound2
                held in
            rw (e, y, examine)
              (record {
                sound = f.sound;
                others = λ q m. ap is_completed (f.others q m) ∙ away q m;
                own = (sym st.was_done ∙ y, f.own);
              })
      ]
    ]
