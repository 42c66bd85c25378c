-- ===== src/Detect/Done.antt =====
-- Which regions of the table `detection_region_run` are completed, and what its writers in
-- src/repoauditor/store/db.py change of that.
use repoauditor.Prelude.{
  ◌<◌, ◌≡◌, ◌↔◌, refl, sym, ap, ◌∙◌, subst, Bool, true, false, String, Option, none, some, List,
  str_eq_iff, if◌then◌else◌, arith, inl, inr, Bool-cases, Option-cases,
}
use repoauditor.Prelude.Rows.{
  first_where-update, first_where-passes, update_where, changed, All-trivial,
}
use repoauditor.Runs.Tables.{completed, run_status_eq}
use repoauditor.Detect.Planning.{SelectionBasis}
use repoauditor.Detect.Regions.{
  Lens, owasp, supply_chain, agentic_surface, lens_eq, RegionKey, key_eq, DetectionRegionRun,
  RegionTable, get_region, region_restarted,
}

lens_eq_iff : (a b : Lens) → (lens_eq a b ≡ true) ↔ (a ≡ b)
lens_eq_iff owasp owasp = (λ e. refl, λ e. refl)
lens_eq_iff supply_chain supply_chain = (λ e. refl, λ e. refl)
lens_eq_iff agentic_surface agentic_surface = (λ e. refl, λ e. refl)
lens_eq_iff owasp supply_chain = (λ e. cc, λ e. cc)
lens_eq_iff owasp agentic_surface = (λ e. cc, λ e. cc)
lens_eq_iff supply_chain owasp = (λ e. cc, λ e. cc)
lens_eq_iff supply_chain agentic_surface = (λ e. cc, λ e. cc)
lens_eq_iff agentic_surface owasp = (λ e. cc, λ e. cc)
lens_eq_iff agentic_surface supply_chain = (λ e. cc, λ e. cc)

pub key_eq-same : (k q : RegionKey) → key_eq k q ≡ true → k ≡ q
key_eq-same k q h =
    let a = (str_eq_iff k.repo_id q.repo_id).0 (ground arith) in
    let b = (str_eq_iff k.commit_hash q.commit_hash).0 (ground arith) in
    let c = (str_eq_iff k.file q.file).0 (ground arith) in
    let d = (lens_eq_iff k.lens q.lens).0 (ground arith) in
    let e = (str_eq_iff k.prompt_version q.prompt_version).0 (ground arith) in
    λ i. record { repo_id = a i; commit_hash = b i; file = c i; lens = d i; prompt_version = e i }

pub key_eq_self : (k : RegionKey) → key_eq k k ≡ true
key_eq_self k =
    let a = (str_eq_iff k.repo_id k.repo_id).1 refl in
    let b = (str_eq_iff k.commit_hash k.commit_hash).1 refl in
    let c = (str_eq_iff k.file k.file).1 refl in
    let d = (lens_eq_iff k.lens k.lens).1 refl in
    let e = (str_eq_iff k.prompt_version k.prompt_version).1 refl in rw (a, b, c, d, e) refl

abbrev pub is_completed : Option DetectionRegionRun → Bool
is_completed none = false
is_completed (some r) = run_status_eq r.status completed

abbrev pub is_done : RegionKey → RegionTable → Bool
is_done k t = is_completed (get_region k t.rows)

-- Ids are below the next one, and a row's id tells its key.
pub record IsSound (t : RegionTable) : Type 0 where
  pub below :
      (k : RegionKey) (r : DetectionRegionRun) → get_region k t.rows ≡ some r → r.id < t.next_row
  pub apart :
      (k q : RegionKey) (r r' : DetectionRegionRun)
      → get_region k t.rows ≡ some r
      → get_region q t.rows ≡ some r'
      → r.id ≡ r'.id
      → k ≡ q

pub found_key :
    (k : RegionKey) (rs : List DetectionRegionRun) (r : DetectionRegionRun)
    → get_region k rs ≡ some r
    → key_eq k r.key ≡ true
unfolding get_region
found_key k rs r h =
    (first_where-passes (λ q. Unit) (λ q. key_eq k q.key) rs r h (All-trivial rs)).1

-- A change of a row that keeps its id and key.
pub record KeepsRow (f : DetectionRegionRun → DetectionRegionRun) : Type 0 where
  pub same_id : (r : DetectionRegionRun) → (f r).id ≡ r.id
  pub same_key : (r : DetectionRegionRun) → (f r).key ≡ r.key

pub get_region-update :
    (f : DetectionRegionRun → DetectionRegionRun) (k : KeepsRow f) (p : DetectionRegionRun → Bool)
    (q : RegionKey) (rs : List DetectionRegionRun)
    → get_region q (update_where p f rs) ≡ changed p f (get_region q rs)
unfolding get_region
get_region-update f k p q rs =
    first_where-update (λ r. key_eq q r.key) p f (λ r. ap (key_eq q) (k.same_key r)) rs

pub keeps_restarted :
    (basis : SelectionBasis) (now : String) → KeepsRow (region_restarted basis now)
keeps_restarted basis now = record { same_id = ids; same_key = keys }
  where
    ids : (r : DetectionRegionRun) → (region_restarted basis now r).id ≡ r.id
    ids r = elim (Bool-cases (run_status_eq r.status completed)) [
      | inl e ↦ rw e refl
      | inr e ↦ rw e refl
    ]

    keys : (r : DetectionRegionRun) → (region_restarted basis now r).key ≡ r.key
    keys r = elim (Bool-cases (run_status_eq r.status completed)) [
      | inl e ↦ rw e refl
      | inr e ↦ rw e refl
    ]

pub IsSound-update :
    (f : DetectionRegionRun → DetectionRegionRun) (k : KeepsRow f) (p : DetectionRegionRun → Bool)
    (t : RegionTable)
    → IsSound t
    → IsSound (record t { rows = update_where p f t.rows })
IsSound-update f k p t s = record {
  below = λ q r h. let (r0, g, e) = before q r h in subst (λ n. n < t.next_row) e (s.below q r0 g);
  apart = λ q q' r r' h h' e.
      let (r0, g, i) = before q r h in
      let (r1, g', i') = before q' r' h' in s.apart q q' r0 r1 g g' (i ∙ e ∙ sym i');
}
  where
    before :
        (q : RegionKey) (r : DetectionRegionRun)
        → get_region q (update_where p f t.rows) ≡ some r
        → (r0 : DetectionRegionRun) × (get_region q t.rows ≡ some r0) × (r0.id ≡ r.id)
    before q r h = elim (Option-cases (get_region q t.rows)) [
      | inl e ↦
          let now : none ≡ some r =
            sym (get_region-update f k p q t.rows ∙ ap (changed p f) e) ∙ h in
          cc now
      | inr (r0, e) ↦
          let now : some (if p r0 then f r0 else r0) ≡ some r =
            sym (get_region-update f k p q t.rows ∙ ap (changed p f) e) ∙ h in
          let same : (if p r0 then f r0 else r0) ≡ r = cc now in
          (r0, e, sym (picked r0) ∙ ap (λ x. x.id) same)
    ]
      where
        picked : (r0 : DetectionRegionRun) → (if p r0 then f r0 else r0).id ≡ r0.id
        picked r0 = elim (Bool-cases (p r0)) [ inl e ↦ rw e (k.same_id r0) | inr e ↦ rw e refl ]
