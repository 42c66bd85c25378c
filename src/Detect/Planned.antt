-- ===== src/Detect/Planned.antt =====
-- The plan of src/repoauditor/detect/planning.py for every tree, architecture map and set of
-- candidates.
use repoauditor.Prelude.{
  ℕ, suc, ◌+◌, ◌-◌, ◌*◌, ◌≤◌, ◌≡◌, ◌↔◌, ◌⊎◌, refl, sym, ap, ◌∙◌, subst, true, false, not, ◌||◌,
  ◌&&◌, ltb, Option, List, [], ◌∷◌, ◌++◌, append_assoc, ◌==◌, leb, length, length-append,
  length-map, length-take, take, drop, min, arith, inl, inr, Bool-cases,
}
use mathlib.Core.List.Perm
use repoauditor.Prelude.Permuted.{length-perm}
use repoauditor.Sources.Selection.{
  SourcePath, Digests, iter_source_files, select_diverse_source_files,
}
use repoauditor.Sources.Distinct.{is_distinct}
use repoauditor.Sources.Shares.{iter_source_files-is_distinct}
use repoauditor.Sources.Whole.{select_diverse_source_files_perm}
use repoauditor.Detect.Counted.{
  leaves, Fits, Fits-perm, Fits-take, leaves-drop, length-unselected, Fits-left, Fits-self,
  Fits-unselected, leaves-perm,
}
use repoauditor.Detect.Planning.{
  DetectConfig, PlannedRegion, stable_coverage_sample, Indicated, paths, CandidateFinding,
  ArchitectureMap, project_detection_work, validate_detection_projection,
}
use repoauditor.Detect.Plan.{
  RetrievalIndex, architecture_neighbors, is_selected, add_neighbors, add_indicated, add_samples,
  not_selected, select_evidence, evidence_of, plan_detection_regions,
}
use repoauditor.Detect.Gathered.{
  Fits-region, paths-append, paths-take, paths-drop, evidence_of-Fits, architecture_neighbors-Fits,
}

-- What a part of the selection keeps: distinct files of the tree, at most so many.
abbrev Within : List SourcePath → ℕ → List PlannedRegion → Type 0
Within files n rs = Fits files (paths rs) × (length rs ≤ n)

add_neighbors-Within :
    (files : List SourcePath) (n slots : ℕ) (rs : Indicated) (selected : List PlannedRegion)
    → leaves files (paths rs) ≡ false
    → Within files n selected
    → Within files (n + slots) (add_neighbors slots rs selected)
add_neighbors-Within files n slots [] selected l (f, h) = (f, omega arith)
add_neighbors-Within files n slots (r ∷ rs) selected l (f, h) = elim (Bool-cases (slots == 0)) [
  | inl e ↦ rw e (f, omega arith)
  | inr e ↦ elim (Bool-cases (is_selected r.path selected)) [
    | inl y ↦ rw (e, y) (add_neighbors-Within files n slots rs selected (ground arith) (f, h))
    | inr y ↦
        let more = length-append selected (r ∷ []) in
        let grown : Within files (suc n) (selected ++ r ∷ []) =
          (Fits-region files selected r f y (ground arith), omega (arith, more, h)) in
        let (a, b) =
          add_neighbors-Within files (suc n) (slots - 1) rs (selected ++ r ∷ []) (ground arith)
            grown in
        let left : (slots - 1) + 1 ≡ slots = ground arith in rw (e, y) (a, omega (arith, b, left))
  ]
]

add_indicated-Within :
    (files : List SourcePath) (slots : ℕ) (rs : Indicated) (selected : List PlannedRegion)
    → leaves files (paths rs) ≡ false
    → Within files slots selected
    → Within files slots (add_indicated slots rs selected)
add_indicated-Within files slots [] selected l w = w
add_indicated-Within files slots (r ∷ rs) selected l (f, h) =
    elim (Bool-cases (leb slots (length selected))) [
      | inl e ↦ rw e (f, h)
      | inr e ↦ elim (Bool-cases (is_selected r.path selected)) [
        | inl y ↦ rw (e, y) (add_indicated-Within files slots rs selected (ground arith) (f, h))
        | inr y ↦
            let more = length-append selected (r ∷ []) in
            rw (e, y)
              (add_indicated-Within files slots rs (selected ++ r ∷ []) (ground arith)
                (Fits-region files selected r f y (ground arith), ground (arith, more)))
      ]
    ]

length-add_samples :
    (cap : ℕ) (ps : List SourcePath) (selected : List PlannedRegion)
    → length selected ≤ cap
    → length (add_samples cap ps selected) ≡ min cap (length selected + length ps)
length-add_samples cap [] selected h = omega arith
length-add_samples cap (p ∷ ps) selected h = elim (Bool-cases (leb cap (length selected))) [
  | inl e ↦ let full : cap ≤ length selected = ground arith in rw e (omega arith)
  | inr e ↦
      let r : PlannedRegion = record { path = p; selection_basis = stable_coverage_sample } in
      let more = length-append selected (r ∷ []) in
      let room : suc (length selected) ≤ cap = ground arith in
      let ih = length-add_samples cap ps (selected ++ r ∷ []) (omega (arith, more)) in
      rw e (omega (arith, ih, more))
]

-- Samples that are apart from what is selected.
Fits-add_samples :
    (files : List SourcePath) (cap : ℕ) (ps : List SourcePath) (selected : List PlannedRegion)
    → Fits files (paths selected ++ ps)
    → Fits files (paths (add_samples cap ps selected))
Fits-add_samples files cap [] selected f = Fits-left files (paths selected) [] f
Fits-add_samples files cap (p ∷ ps) selected f = elim (Bool-cases (leb cap (length selected))) [
  | inl e ↦ rw e (Fits-left files (paths selected) (p ∷ ps) f)
  | inr e ↦
      let r : PlannedRegion = record { path = p; selection_basis = stable_coverage_sample } in
      rw e (Fits-add_samples files cap ps _ (subst (Fits files) (moved r) f))
]
  where
    moved : (r : PlannedRegion) → paths selected ++ r.path ∷ ps ≡ paths (selected ++ r ∷ []) ++ ps
    moved r =
        sym (append_assoc (paths selected) (r.path ∷ []) ps)
        ∙ ap (λ l. l ++ ps) (sym (paths-append selected (r ∷ [])))

select_evidence-Within :
    (files : List SourcePath) (slots neighbor_slots : ℕ) (ordered neighbors : Indicated)
    → neighbor_slots ≤ slots
    → Fits files (paths ordered)
    → Fits files (paths neighbors)
    → Within files slots (select_evidence slots neighbor_slots ordered neighbors)
unfolding select_evidence
select_evidence-Within files slots neighbor_slots ordered neighbors h f g =
    let k = slots - neighbor_slots in
    let rest : leaves files (paths (drop k ordered)) ≡ false =
      subst (λ ps. leaves files ps ≡ false) (sym (paths-drop k ordered))
        (leaves-drop files k (paths ordered) f.1) in
    let direct : Within files k (take k ordered) = (
      subst (Fits files) (sym (paths-take k ordered)) (Fits-take files k (paths ordered) f),
      omega (arith, length-take k ordered),
    ) in
    let (a, b) =
      add_neighbors-Within files k neighbor_slots neighbors (take k ordered) g.1 direct in
    add_indicated-Within files slots (drop k ordered)
      (add_neighbors neighbor_slots neighbors (take k ordered)) rest (a, omega (arith, b, h))

-- From a listing of distinct files, the plan has as many regions as the projection says, and they
-- are distinct files of the tree.
pub plan_detection_regions-project_detection_work :
    (h : Digests) (listing : List SourcePath) (config : DetectConfig) (a : ArchitectureMap)
    (cs : List CandidateFinding) (index : Option RetrievalIndex) (lenses : ℕ)
    → is_distinct listing ≡ true
    → (length (plan_detection_regions h listing config a cs index)
        ≡ (project_detection_work listing config lenses).planned_regions)
      × (is_distinct (paths (plan_detection_regions h listing config a cs index)) ≡ true)
      × (leaves
            (iter_source_files listing)
            (paths (plan_detection_regions h listing config a cs index))
          ≡ false)
unfolding plan_detection_regions project_detection_work
plan_detection_regions-project_detection_work h listing config a cs index lenses d =
    let files = iter_source_files listing in
    let cap = config.max_llm_regions_per_run in
    let neighbors = architecture_neighbors a files index in
    let evidence_slots = cap - min config.reserved_sample_regions cap in
    let neighbor_slots =
      min (min config.reserved_architecture_neighbor_regions evidence_slots) (length neighbors) in
    let selected =
      select_evidence evidence_slots neighbor_slots (evidence_of files a cs) neighbors in
    let all_files = select_diverse_source_files h listing (length files) in
    let df = iter_source_files-is_distinct listing d in
    let p = select_diverse_source_files_perm h listing d in
    let whole = Fits-perm files files all_files (Perm.symm p) (Fits-self files df) in
    let (f, l) =
      select_evidence-Within files evidence_slots neighbor_slots (evidence_of files a cs) neighbors
        (omega arith) (evidence_of-Fits files a cs) (architecture_neighbors-Fits a files index) in
    let remaining = not_selected selected all_files in
    let rest =
      length-unselected (paths selected) all_files whole.0
        (f.0, leaves-perm files all_files (paths selected) (Perm.symm p) f.1) in
    let (fd, fl) =
      Fits-add_samples files cap remaining selected
        (Fits-unselected files (paths selected) all_files f whole) in
    let total : length (add_samples cap remaining selected) ≡ min (length files) cap = omega (
      arith,
      length-add_samples cap remaining selected (omega (arith, l)),
      rest,
      length-perm all_files files p,
      length-map selected (λ r. r.path),
    ) in
    elim (Bool-cases ((cap == 0) || (length files == 0))) [
      | inl e ↦
          let none_planned : 0 ≡ min (length files) cap = ground arith in
          rw (plan_detection_regions, e) (none_planned, refl, refl)
      | inr e ↦ rw (plan_detection_regions, e) (total, fd, fl)
    ]

fits_ceiling : (c m : ℕ) → ((not (c == 0) && ltb c m) ≡ false) ↔ ((c ≡ 0) ⊎ (m ≤ c))
fits_ceiling c m = (
  λ h. elim (Bool-cases (c == 0)) [ inl e ↦ inl (ground arith) | inr e ↦ inr (ground arith) ],
  λ h. elim h [ inl e ↦ ground arith | inr l ↦ ground arith ],
)

-- From a listing of distinct files, a projection is accepted exactly if there is no ceiling on calls
-- or one call for each lens in each region of the plan fits below it, besides those in reserve.
pub validate_detection_projection_lem :
    (h : Digests) (listing : List SourcePath) (config : DetectConfig) (a : ArchitectureMap)
    (cs : List CandidateFinding) (index : Option RetrievalIndex) (lenses ceiling reserve : ℕ)
    → is_distinct listing ≡ true
    → (validate_detection_projection (project_detection_work listing config lenses) ceiling reserve
        ≡ false)
      ↔ ((ceiling ≡ 0)
          ⊎ (reserve + length (plan_detection_regions h listing config a cs index) * lenses
              ≤ ceiling))
unfolding validate_detection_projection project_detection_work
validate_detection_projection_lem h listing config a cs index lenses ceiling reserve d =
    let (n, _, _) =
      plan_detection_regions-project_detection_work h listing config a cs index lenses d in
    rw n (fits_ceiling ceiling _)
