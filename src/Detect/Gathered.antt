-- ===== src/Detect/Gathered.antt =====
-- What src/repoauditor/detect/planning.py gathers, evidence and neighbors, is distinct files of the tree.
use repoauditor.Prelude.{
  ℕ, zero, suc, ◌≡◌, refl, sym, ap, subst, Bool, true, false, not, String, Option, none, some, List,
  [], ◌∷◌, ◌++◌, elem, any, distinct, take, drop, Perm, arith, inl, inr, Bool-cases, Option-cases,
}
use mathlib.Core.List.Perm
use repoauditor.Prelude.Permuted.{any-perm}
use repoauditor.Prelude.Sort.{sorted, sorted-perm}
use repoauditor.Matching.Cwe.{codes, text_eq}
use repoauditor.Sources.Selection.{SourcePath, path_eq}
use repoauditor.Detect.Counted.{Fits, Fits-perm, Fits-snoc, path_eq_self}
use repoauditor.Detect.Planning.{
  PlannedRegion, SelectionBasis, text_le, posix, by_rel, Indicated, paths, is_key, setdefault,
  setdefault_found, CandidateFinding, Entity, ArchitectureMap, indicate_candidates,
  indicate_entities, architecture_map, located, location_file, entities_of, indicated_le,
}
use repoauditor.Detect.Plan.{
  RetrievalIndex, NeighborCandidate, FunctionSite, candidates_at, callee_candidates,
  seed_candidates, symbols_of, all_located, neighbor_le, neighbors_of, architecture_neighbors,
  evidence_of,
}

pub paths-append : (ss rs : List PlannedRegion) → paths (ss ++ rs) ≡ paths ss ++ paths rs
paths-append [] rs = refl
paths-append (s ∷ ss) rs = ap (λ l. s.path ∷ l) (paths-append ss rs)

pub paths-take : (k : ℕ) (rs : List PlannedRegion) → paths (take k rs) ≡ take k (paths rs)
paths-take zero rs = refl
paths-take (suc k) [] = refl
paths-take (suc k) (r ∷ rs) = ap (λ l. r.path ∷ l) (paths-take k rs)

pub paths-drop : (k : ℕ) (rs : List PlannedRegion) → paths (drop k rs) ≡ drop k (paths rs)
paths-drop zero rs = refl
paths-drop (suc k) [] = refl
paths-drop (suc k) (r ∷ rs) = paths-drop k rs

-- One more region of a file that has none.
pub Fits-region :
    (files : List SourcePath) (rs : List PlannedRegion) (r : PlannedRegion)
    → Fits files (paths rs)
    → elem path_eq r.path (paths rs) ≡ false
    → elem path_eq r.path files ≡ true
    → Fits files (paths (rs ++ r ∷ []))
Fits-region files rs r h n m =
    subst (Fits files) (sym (paths-append rs (r ∷ []))) (Fits-snoc files (paths rs) r.path h n m)

Fits-setdefault :
    (files : List SourcePath) (r : PlannedRegion) (d : Indicated)
    → Fits files (paths d)
    → elem path_eq r.path files ≡ true
    → Fits files (paths (setdefault r d))
Fits-setdefault files r d h m = elim (Bool-cases (is_key r.path d)) [
  | inl e ↦ rw (setdefault, e) h
  | inr e ↦ rw (setdefault, e) (Fits-region files d r h e m)
]

by_rel-elem :
    (files : List SourcePath) (rel : List ℕ) (p : SourcePath)
    → by_rel files rel ≡ some p
    → elem path_eq p files ≡ true
unfolding by_rel
by_rel-elem [] rel p h = cc
by_rel-elem (x ∷ files) rel p h = elim (Bool-cases (text_eq (posix x) rel)) [
  | inl e ↦
      let found : some x ≡ some p = rw (e, by_rel) at h in
      let same : x ≡ p = cc found in
      let own : path_eq p x ≡ true = subst (λ y. path_eq y x ≡ true) same (path_eq_self x) in
      rw own refl
  | inr e ↦ let ih = by_rel-elem files rel p (rw (e, by_rel) at h) in ground (arith, ih)
]

Fits-setdefault_found :
    (files : List SourcePath) (rel : List ℕ) (basis : SelectionBasis) (d : Indicated)
    → Fits files (paths d)
    → Fits files (paths (setdefault_found (by_rel files rel) basis d))
Fits-setdefault_found files rel basis d h = elim (Option-cases (by_rel files rel)) [
  | inl e ↦ rw (e, setdefault_found) h
  | inr (p, e) ↦
      rw (e, setdefault_found)
        (Fits-setdefault files (record { path = p; selection_basis = basis }) d h
          (by_rel-elem files rel p e))
]

paths-perm : {rs qs : List PlannedRegion} → Perm rs qs → Perm (paths rs) (paths qs)
paths-perm p = Perm.map (λ r. r.path) p

Fits-indicate_candidates :
    (files : List SourcePath) (cs : List CandidateFinding) (d : Indicated)
    → Fits files (paths d)
    → Fits files (paths (indicate_candidates files cs d))
Fits-indicate_candidates files [] d h = h
Fits-indicate_candidates files (c ∷ cs) d h =
    Fits-indicate_candidates files cs _ (Fits-setdefault_found files _ _ d h)

Fits-indicate_entities :
    (files : List SourcePath) (es : List Entity) (d : Indicated)
    → Fits files (paths d)
    → Fits files (paths (indicate_entities files es d))
Fits-indicate_entities files [] d h = h
Fits-indicate_entities files (e ∷ es) d h =
    Fits-indicate_entities files es _ (indicated (location_file e.location) refl)
  where
    indicated :
        (o : Option (List ℕ))
        → location_file e.location ≡ o
        → Fits files (paths (setdefault_found (located files e) architecture_map d))
    indicated none q = rw (q, located) h
    indicated (some rel) q = rw (q, located) (Fits-setdefault_found files rel architecture_map d h)

-- The files that evidence points at, in the order of their priority.
pub evidence_of-Fits :
    (files : List SourcePath) (a : ArchitectureMap) (cs : List CandidateFinding)
    → Fits files (paths (evidence_of files a cs))
evidence_of-Fits files a cs =
    let d = indicate_entities files (entities_of a) (indicate_candidates files cs []) in
    Fits-perm files (paths d) (paths (sorted indicated_le d))
      (paths-perm (Perm.symm (sorted-perm indicated_le d)))
      (Fits-indicate_entities files (entities_of a) _
        (Fits-indicate_candidates files cs [] (refl, refl)))

abbrev strays : List SourcePath → List NeighborCandidate → Bool
strays files = any (λ c. not (elem path_eq c.file files))

strays-append :
    (files : List SourcePath) (xs ys : List NeighborCandidate)
    → strays files xs ≡ false
    → strays files ys ≡ false
    → strays files (xs ++ ys) ≡ false
strays-append files [] ys h k = k
strays-append files (x ∷ xs) ys h k = ground (arith, strays-append files xs ys)

candidates_at-strays :
    (files : List SourcePath) (relation : ℕ) (seed : SourcePath) (ss : List FunctionSite)
    → strays files (candidates_at files relation seed ss) ≡ false
candidates_at-strays files relation seed [] = refl
candidates_at-strays files relation seed (s ∷ ss) =
    let ih = candidates_at-strays files relation seed ss in
    elim (Option-cases (by_rel files (codes s.file))) [
      | inl e ↦ rw (e, candidates_at) ih
      | inr (p, e) ↦ elim (Bool-cases (path_eq p seed)) [
        | inl y ↦ rw (e, candidates_at, y) ih
        | inr y ↦ rw (e, candidates_at, y) (rw (by_rel-elem files _ p e) ih)
      ]
    ]

callee_candidates-strays :
    (files : List SourcePath) (index : RetrievalIndex) (seed : SourcePath) (symbols : List String)
    → strays files (callee_candidates files index seed symbols) ≡ false
callee_candidates-strays files index seed [] = refl
callee_candidates-strays files index seed (s ∷ symbols) =
    strays-append files (candidates_at files 1 seed (index.find_callees s)) _
      (candidates_at-strays files 1 seed (index.find_callees s))
      (callee_candidates-strays files index seed symbols)

seed_candidates-strays :
    (files : List SourcePath) (index : RetrievalIndex) (seeds : List SourcePath)
    → strays files (seed_candidates files index seeds) ≡ false
seed_candidates-strays files index [] = refl
seed_candidates-strays files index (seed ∷ seeds) =
    let symbols = symbols_of index seed in
    strays-append files (candidates_at files 0 seed (index.find_callers_matching symbols)) _
      (candidates_at-strays files 0 seed (index.find_callers_matching symbols))
      (strays-append files (callee_candidates files index seed symbols) _
        (callee_candidates-strays files index seed symbols)
        (seed_candidates-strays files index seeds))

Fits-neighbors_of :
    (files : List SourcePath) (cs : List NeighborCandidate) (d : Indicated)
    → strays files cs ≡ false
    → Fits files (paths d)
    → Fits files (paths (neighbors_of cs d))
Fits-neighbors_of files [] d n h = h
Fits-neighbors_of files (c ∷ cs) d n h =
    Fits-neighbors_of files cs _ (ground arith) (Fits-setdefault files _ d h (ground arith))

-- The files next to those of the architecture map.
pub architecture_neighbors-Fits :
    (a : ArchitectureMap) (files : List SourcePath) (index : Option RetrievalIndex)
    → Fits files (paths (architecture_neighbors a files index))
unfolding architecture_neighbors
architecture_neighbors-Fits a files none = (refl, refl)
architecture_neighbors-Fits a files (some index) =
    let seeds =
      sorted (λ p q. text_le (posix p) (posix q)) (distinct path_eq (all_located files a)) in
    let found = seed_candidates files index seeds in
    let kept : strays files (sorted neighbor_le found) ≡ false =
      any-perm _ (Perm.symm (sorted-perm neighbor_le found))
        (seed_candidates-strays files index seeds) in
    Fits-neighbors_of files (sorted neighbor_le found) [] kept (refl, refl)
