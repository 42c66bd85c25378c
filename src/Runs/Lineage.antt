-- ===== src/Runs/Lineage.antt =====
-- In a store that the writers of src/repoauditor/store/db.py lead to, every chain of linked batches
-- is found whole.
use repoauditor.Prelude.{
  ℕ, ◌<◌, ◌≡◌, ◌≢◌, refl, sym, ap, ◌∙◌, ==_iff, subst, true, false, Option, none, some, List, [],
  ◌∷◌, ◌==◌, All, arith, inl, inr,
}
use repoauditor.Prelude.Rows.{last_of, first_where-passes}
use repoauditor.Runs.Tables.{PipelineRun, RunStore, empty_store, get_pipeline_run, admits_parent}
use repoauditor.Runs.Chain.{
  ChainResult, linked, invalid_chain, out_of_fuel, list_pipeline_run_chain, Outcome, Walked, start,
  visit, ids, is_in, list_pipeline_run_chain-Outcome,
}
use repoauditor.Runs.Steps.{Reach, Reach-IsOrdered, IsOrdered, IsLater}

-- Each batch continues the one before it.
abbrev pub IsLinked : List PipelineRun → Type 0
IsLinked [] = Unit
IsLinked (a ∷ []) = Unit
IsLinked (a ∷ b ∷ chain) = (b.parent_run_id ≡ some a.id) × (a.id < b.id) × IsLinked (b ∷ chain)

-- The first batch continues none.
abbrev pub IsRooted : List PipelineRun → Type 0
IsRooted [] = Unit
IsRooted (a ∷ chain) = a.parent_run_id ≡ none

found_row :
    (P : PipelineRun → Type 0) (i : ℕ) (rs : List PipelineRun) (r : PipelineRun)
    → get_pipeline_run i rs ≡ some r
    → All P rs
    → P r × (r.id ≡ i)
unfolding get_pipeline_run
found_row P i rs r h a =
    let (b, e) = first_where-passes P (λ q. q.id == i) rs r h a in (b, (==_iff r.id i).0 e)

not_earlier :
    (i : ℕ) (a : PipelineRun) (rest : List PipelineRun)
    → IsLinked (a ∷ rest)
    → i < a.id
    → is_in i (ids (a ∷ rest)) ≡ false
not_earlier i a [] l h = ground arith
not_earlier i a (b ∷ rest) (p, q, l) h =
    let ih = not_earlier i b rest l (omega arith) in
    let differs : (i == a.id) ≡ false = ground arith in rw (differs) ih

-- What the walk has visited in a table where parents are earlier rows.
abbrev Visited : ℕ → List PipelineRun → List PipelineRun → Option ℕ → Type 0
Visited run_id rs [] o = o ≡ some run_id
Visited run_id rs (a ∷ rest) o =
    IsLinked (a ∷ rest)
    × (a.parent_run_id ≡ o)
    × IsLater a.id o
    × (admits_parent o rs ≡ true)
    × ((r : PipelineRun) × (get_pipeline_run run_id rs ≡ some r) × (last_of (a ∷ rest) ≡ some r))

Walked-Visited :
    (n : ℕ) {run_id : ℕ} {rs chain : List PipelineRun} {o : Option ℕ}
    → IsOrdered n rs
    → Walked run_id rs chain o
    → Visited run_id rs chain o
Walked-Visited n h start = refl
Walked-Visited n {run_id} {rs} h (visit {chain} {i} r w e fresh) =
    after chain (Walked-Visited n h w)
  where
    after :
        (chain : List PipelineRun)
        → Visited run_id rs chain (some i)
        → Visited run_id rs (r ∷ chain) r.parent_run_id
    after [] v =
        let (b, _) = found_row (λ r. IsLater r.id r.parent_run_id) i rs r e h.1 in
        let (c, _) = found_row (λ r. admits_parent r.parent_run_id rs ≡ true) i rs r e h.2 in
        let first : i ≡ run_id = cc v in
        (tt, refl, b, c, (r, subst (λ j. get_pipeline_run j rs ≡ some r) first e, refl))
    after (a ∷ rest) (l, p, q, m, (x, gx, lx)) =
        let (b, same) = found_row (λ r. IsLater r.id r.parent_run_id) i rs r e h.1 in
        let (c, _) = found_row (λ r. admits_parent r.parent_run_id rs ≡ true) i rs r e h.2 in
        let parent : a.parent_run_id ≡ some r.id = p ∙ ap (λ j. some j) (sym same) in
        let earlier : r.id < a.id = omega (arith, q, same) in
        ((parent, earlier, l), refl, b, c, (x, gx, rw lx refl))

next_found :
    (run_id i : ℕ) (rs chain : List PipelineRun) (r : PipelineRun)
    → Visited run_id rs chain (some i)
    → get_pipeline_run run_id rs ≡ some r
    → get_pipeline_run i rs ≢ none
next_found run_id i rs [] r v g m =
    let first : i ≡ run_id = cc v in
    let found : get_pipeline_run i rs ≡ some r =
      subst (λ j. get_pipeline_run j rs ≡ some r) (sym first) g in
    cc (found, m)
next_found run_id i rs (a ∷ rest) r (_, _, _, v, _) g m = cc (rw (m, admits_parent) at v)

next_new :
    (run_id i n : ℕ) (rs chain : List PipelineRun) (q : PipelineRun)
    → IsOrdered n rs
    → Visited run_id rs chain (some i)
    → get_pipeline_run i rs ≡ some q
    → is_in q.id (ids chain) ≡ false
next_new run_id i n rs [] q h v g = refl
next_new run_id i n rs (a ∷ rest) q h (l, _, earlier, _, _) g =
    let (_, same) = found_row (λ r. r.id < n) i rs q g h.0 in
    not_earlier q.id a rest l (omega (arith, earlier, same))

-- A chain that ends at a run, with no batch missing.
abbrev pub Whole : ℕ → List PipelineRun → PipelineRun → Type 0
Whole run_id rs r =
    (chain : List PipelineRun) × (list_pipeline_run_chain run_id rs ≡ linked chain)
    × IsLinked chain
    × IsRooted chain
    × (last_of chain ≡ some r)

-- From a run of a store that the writers lead to, the chain is found: each batch continues the one
-- before it, the first continues none, and the last is the run.
pub list_pipeline_run_chain-IsLinked :
    {s : RunStore} (run_id : ℕ) (r : PipelineRun)
    → Reach empty_store s
    → get_pipeline_run run_id s.runs ≡ some r
    → Whole run_id s.runs r
list_pipeline_run_chain-IsLinked {s} run_id r reach g =
    whole (list_pipeline_run_chain run_id s.runs) refl
      (list_pipeline_run_chain-Outcome run_id s.runs)
  where
    ordered : IsOrdered s.next_run s.runs
    ordered = Reach-IsOrdered reach

    rooted :
        (chain : List PipelineRun)
        → list_pipeline_run_chain run_id s.runs ≡ linked chain
        → Visited run_id s.runs chain none
        → Whole run_id s.runs r
    rooted [] e v = cc
    rooted (a ∷ rest) e (l, p, _, _, (x, gx, lx)) =
        let same : x ≡ r = cc (gx, g) in (a ∷ rest, e, l, p, lx ∙ ap (λ y. some y) same)

    whole :
        (o : ChainResult)
        → list_pipeline_run_chain run_id s.runs ≡ o
        → Outcome run_id s.runs o
        → Whole run_id s.runs r
    whole (linked chain) e (inl w) = rooted chain e (Walked-Visited s.next_run ordered w)
    whole (linked chain) e (inr (i, w, m)) =
        absurd (next_found run_id i s.runs chain r (Walked-Visited s.next_run ordered w) g m)
    whole (invalid_chain n) e (_, (chain, i, q, w, f, y)) =
        let v = Walked-Visited s.next_run ordered w in
        cc (next_new run_id i s.next_run s.runs chain q ordered v f, y)
    whole out_of_fuel e w = elim w [ ]
