-- ===== src/Detect/Marked.antt =====
-- What starting and ending a region in src/repoauditor/store/db.py change of the completed ones.
use repoauditor.Prelude.{
  ℕ, suc, ◌≡◌, ◌≢◌, ◌⊎◌, refl, sym, ap, ◌∙◌, Bool, true, false, String, Option, none, some, List,
  [], ◌∷◌, ◌++◌, ◌==◌, if◌then◌else◌, arith, inl, inr, Bool-cases, Option-cases,
}
use repoauditor.Prelude.Rows.{first_where, first_where-append, update_where, changed, or_else}
use repoauditor.Runs.Tables.{RunStatus, completed, run_status_eq}
use repoauditor.Detect.Planning.{SelectionBasis}
use repoauditor.Detect.Regions.{
  RegionKey, key_eq, DetectionRegionRun, RegionTable, get_region, new_region, region_restarted,
  region_ended, start_detection_region, finish_detection_region,
}
use repoauditor.Detect.Done.{
  key_eq-same, key_eq_self, is_completed, is_done, IsSound, found_key, KeepsRow, get_region-update,
  keeps_restarted, IsSound-update,
}

-- What starting a region gives and leaves.
pub record Started (k : RegionKey) (t : RegionTable) (row : DetectionRegionRun) (u : RegionTable)
    : Type 0 where
  pub sound : IsSound t → IsSound u
  pub own : get_region k u.rows ≡ some row
  pub others : (q : RegionKey) → q ≢ k → get_region q u.rows ≡ get_region q t.rows
  pub was_done : run_status_eq row.status completed ≡ is_done k t

keeps_status :
    (basis : SelectionBasis) (now : String) (r : DetectionRegionRun)
    → run_status_eq (region_restarted basis now r).status completed
      ≡ run_status_eq r.status completed
keeps_status basis now r = elim (Bool-cases (run_status_eq r.status completed)) [
  | inl e ↦ rw e e
  | inr e ↦ rw e refl
]

-- A row of another key is not the one that is changed.
other_row :
    (f : DetectionRegionRun → DetectionRegionRun) (k q : RegionKey) (rs : List DetectionRegionRun)
    → q ≢ k
    → changed (λ r. key_eq k r.key) f (get_region q rs) ≡ get_region q rs
other_row f k q rs n = elim (Option-cases (get_region q rs)) [
  | inl e ↦ rw e refl
  | inr (r, e) ↦ elim (Bool-cases (key_eq k r.key)) [
    | inl y ↦
        let a = key_eq-same q r.key (found_key q rs r e) in
        let b = key_eq-same k r.key y in absurd (n (a ∙ sym b))
    | inr y ↦ rw e (rw y refl)
  ]
]

Started-restart :
    (k : RegionKey) (basis : SelectionBasis) (now : String) (t : RegionTable)
    (r : DetectionRegionRun)
    → get_region k t.rows ≡ some r
    → Started k t
        (region_restarted basis now r)
        (record t { rows = update_where (λ q. key_eq k q.key) (region_restarted basis now) t.rows })
Started-restart k basis now t r e =
    let f = region_restarted basis now in
    let p : DetectionRegionRun → Bool = λ q. key_eq k q.key in
    let keeps = keeps_restarted basis now in
    let mine = found_key k t.rows r e in
    record {
      sound = IsSound-update f keeps p t;
      own =
          get_region-update f keeps p k t.rows
          ∙ ap (changed p f) e
          ∙ ap (λ b. some (if b then f r else r)) mine;
      others = λ q n. get_region-update f keeps p q t.rows ∙ other_row f k q t.rows n;
      was_done = keeps_status basis now r ∙ sym (ap is_completed e);
    }

IsSound-append :
    (k : RegionKey) (basis : SelectionBasis) (now : String) (t : RegionTable)
    → IsSound t
    → IsSound (record {
      rows = t.rows ++ new_region t.next_row k basis now ∷ [];
      next_row = suc t.next_row;
    })
unfolding get_region
IsSound-append k basis now t s = record {
  below = λ q r h. elim (found q r h) [
    | inl g ↦ let l = s.below q r g in omega arith
    | inr (i, _) ↦ omega (arith, i)
  ];
  apart = λ q q' r r' h h' e. elim (found q r h) [
    | inl g ↦ elim (found q' r' h') [
      | inl g' ↦ s.apart q q' r r' g g' e
      | inr (i, _) ↦ let l = s.below q r g in absurd (omega (arith, i, e, l))
    ]
    | inr (i, a) ↦ elim (found q' r' h') [
      | inl g' ↦ let l = s.below q' r' g' in absurd (omega (arith, i, e, l))
      | inr (_, b) ↦ a ∙ sym b
    ]
  ];
}
  where
    row : DetectionRegionRun
    row = new_region t.next_row k basis now

    found :
        (q : RegionKey) (r : DetectionRegionRun)
        → get_region q (t.rows ++ row ∷ []) ≡ some r
        → (get_region q t.rows ≡ some r) ⊎ ((r.id ≡ t.next_row) × (q ≡ k))
    found q r h =
        let grown = first_where-append (λ x. key_eq q x.key) t.rows (row ∷ []) in
        elim (Option-cases (get_region q t.rows)) [
          | inr (r0, e) ↦ inl (
              e
              ∙ sym (grown ∙ ap (λ o. or_else o (first_where (λ x. key_eq q x.key) (row ∷ []))) e)
              ∙ h)
          | inl e ↦
              let last =
                sym (grown ∙ ap (λ o. or_else o (first_where (λ x. key_eq q x.key) (row ∷ []))) e)
                ∙ h in
              elim (Bool-cases (key_eq q k)) [
                | inl y ↦
                    let made : some row ≡ some r = rw y at last in
                    let same : row ≡ r = cc made in
                    inr (sym (ap (λ x. x.id) same), key_eq-same q k y)
                | inr y ↦ cc (rw y at last)
              ]
        ]

Started-append :
    (k : RegionKey) (basis : SelectionBasis) (now : String) (t : RegionTable)
    → get_region k t.rows ≡ none
    → Started k t (new_region t.next_row k basis now) (record {
      rows = t.rows ++ new_region t.next_row k basis now ∷ [];
      next_row = suc t.next_row;
    })
unfolding get_region
Started-append k basis now t e =
    let row = new_region t.next_row k basis now in
    let own_key = key_eq_self k in
    record {
      sound = IsSound-append k basis now t;
      own =
          first_where-append (λ x. key_eq k x.key) t.rows (row ∷ [])
          ∙ ap (λ o. or_else o (first_where (λ x. key_eq k x.key) (row ∷ []))) e
          ∙ ap (λ b. if b then some row else none) own_key;
      others = λ q n.
          let other : key_eq q k ≡ false = elim (Bool-cases (key_eq q k)) [
            | inl y ↦ absurd (n (key_eq-same q k y))
            | inr y ↦ y
          ] in
          first_where-append (λ x. key_eq q x.key) t.rows (row ∷ [])
          ∙ ap (λ b. or_else (get_region q t.rows) (if b then some row else none)) other
          ∙ or_else_none (get_region q t.rows);
      was_done = sym (ap is_completed e);
    }
  where
    or_else_none : (o : Option DetectionRegionRun) → or_else o none ≡ o
    or_else_none none = refl
    or_else_none (some r) = refl

pub start_detection_region-Started :
    (k : RegionKey) (basis : SelectionBasis) (now : String) (t : RegionTable)
    → Started k t (start_detection_region k basis now t).0 (start_detection_region k basis now t).1
unfolding start_detection_region
start_detection_region-Started k basis now t = elim (Option-cases (get_region k t.rows)) [
  | inl e ↦ rw (e, start_detection_region) (Started-append k basis now t e)
  | inr (r, e) ↦ rw (e, start_detection_region) (Started-restart k basis now t r e)
]

-- What ending the region of a key leaves.
pub record Finished (k : RegionKey) (t : RegionTable) (status : RunStatus) (u : RegionTable)
    : Type 0 where
  pub sound : IsSound u
  pub own : is_done k u ≡ run_status_eq status completed
  pub others : (q : RegionKey) → q ≢ k → get_region q u.rows ≡ get_region q t.rows

pub finish_detection_region-Finished :
    (k : RegionKey) (t : RegionTable) (row : DetectionRegionRun) (status : RunStatus)
    (finding_count : ℕ) (detail : Option String) (now : String)
    → IsSound t
    → get_region k t.rows ≡ some row
    → Finished k t status (finish_detection_region row.id status finding_count detail now t)
unfolding finish_detection_region
finish_detection_region-Finished k t row status n detail now s e =
    let f = region_ended status n detail now in
    let p : DetectionRegionRun → Bool = λ r. r.id == row.id in
    let keeps : KeepsRow f = record { same_id = λ r. refl; same_key = λ r. refl } in
    let mine : (row.id == row.id) ≡ true = ground arith in
    record {
      sound = IsSound-update f keeps p t s;
      own =
          ap is_completed (get_region-update f keeps p k t.rows ∙ ap (changed p f) e)
          ∙ ap (λ b. run_status_eq (if b then f row else row).status completed) mine;
      others = λ q m. get_region-update f keeps p q t.rows ∙ unchanged q m f;
    }
  where
    unchanged :
        (q : RegionKey)
        → q ≢ k
        → (f : DetectionRegionRun → DetectionRegionRun)
        → changed (λ r. r.id == row.id) f (get_region q t.rows) ≡ get_region q t.rows
    unchanged q m f = elim (Option-cases (get_region q t.rows)) [
      | inl g ↦ rw g refl
      | inr (r, g) ↦ elim (Bool-cases (r.id == row.id)) [
        | inl y ↦ absurd (m (s.apart q k r row g e (ground arith)))
        | inr y ↦ rw g (rw y refl)
      ]
    ]
