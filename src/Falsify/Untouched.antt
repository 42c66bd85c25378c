-- ===== src/Falsify/Untouched.antt =====
-- A run changes no row but those of pending findings.
use mathlib.Core.List.Perm
use repoauditor.Prelude.Permuted.{All-perm}
use repoauditor.Prelude.{
  ℕ, zero, suc, ◌-◌, ◌≡◌, refl, ap, ◌∙◌, subst, Bool, true, false, not, Option, none, some, List,
  [], ◌∷◌, ◌++◌, map, if◌then◌else◌, leb, filter_by, take, drop, flatten, length, All, All-append,
  Perm, arith, inl, inr, Bool-cases, Option-cases,
}
use repoauditor.Prelude.Sort.{sorted-perm}
use repoauditor.Store.{Finding, FalsificationStatus, unresolved, deferred}
use repoauditor.Matching.Defs.{MatchGroup, find_matches}
use repoauditor.Matching.Groups.{find_matches_perm}
use repoauditor.Falsify.Loop.{World, challenge_finding}
use repoauditor.Falsify.Budget.{
  Triage, QueueEntry, RunSettings, pending_findings, grouped_queue, select, members_by_id, or_nil,
  id_eq, budget_order, budget_le, chosen_of, budget_partition, budget_of, fill, is_selected,
  is_triaged, reserve_of,
}
use repoauditor.Falsify.Fairness.{is_plain}
use repoauditor.Falsify.Run.{
  sql_eq, update_falsification, RunStore, ChallengeConfig, loop_settings, has_iterations,
  update_each, update_members, members_of, challenge_each, defer_each, challenge,
}

-- The rows with an id, and the findings with another id or none.
abbrev rows_with : ℕ → List Finding → List Finding
rows_with i rows = filter_by (λ f. sql_eq f.id (some i)) rows

abbrev Apart : ℕ → Finding → Type 0
Apart i f = sql_eq f.id (some i) ≡ false

All-take : (i n : ℕ) (xs : List Finding) → All (Apart i) xs → All (Apart i) (take n xs)
All-take i zero xs h = tt
All-take i (suc n) [] h = tt
All-take i (suc n) (x ∷ xs) h = (h.0, All-take i n xs h.1)

All-drop : (i n : ℕ) (xs : List Finding) → All (Apart i) xs → All (Apart i) (drop n xs)
All-drop i zero xs h = h
All-drop i (suc n) [] h = tt
All-drop i (suc n) (x ∷ xs) h = All-drop i n xs h.1

All-kept :
    (i : ℕ) (p : Finding → Bool) (xs : List Finding)
    → All (Apart i) xs
    → All (Apart i) (filter_by p xs)
All-kept i p [] h = tt
All-kept i p (x ∷ xs) h = elim (Bool-cases (p x)) [
  | inl e ↦ rw e (h.0, All-kept i p xs h.1)
  | inr e ↦ rw e (All-kept i p xs h.1)
]

sql_eq-same : (a b : Option ℕ) → sql_eq a b ≡ true → a ≡ b
sql_eq-same none b h = cc
sql_eq-same (some a) none h = cc
sql_eq-same (some a) (some b) h = ap some (ground arith)

update_falsification-Apart :
    (i : ℕ) (id : Option ℕ) (status : FalsificationStatus) (rows : List Finding)
    → sql_eq id (some i) ≡ false
    → rows_with i (update_falsification id status rows) ≡ rows_with i rows
unfolding update_falsification
update_falsification-Apart i id status [] h = refl
update_falsification-Apart i id status (row ∷ rows) h =
    let rest = update_falsification-Apart i id status rows h in
    elim (Bool-cases (sql_eq row.id id)) [
      | inl e ↦
          let apart : sql_eq row.id (some i) ≡ false = rw (sql_eq-same row.id id e) h in
          rw (e, apart) rest
      | inr e ↦ rw e (ap (λ l. if sql_eq row.id (some i) then row ∷ l else l) rest)
    ]

update_each-Apart :
    (i : ℕ) (status : FalsificationStatus) (fs rows : List Finding)
    → All (Apart i) fs
    → rows_with i (update_each status fs rows) ≡ rows_with i rows
unfolding update_falsification
update_each-Apart i status [] rows h = refl
update_each-Apart i status (f ∷ fs) rows h =
    update_each-Apart i status fs (update_falsification f.id status rows) h.1
    ∙ update_falsification-Apart i f.id status rows h.0

update_members-Apart :
    (i : ℕ) (id : Option ℕ) (status : FalsificationStatus) (ms rows : List Finding)
    → All (Apart i) ms
    → rows_with i (update_members id status ms rows) ≡ rows_with i rows
unfolding update_members
update_members-Apart i id status [] rows h = refl
update_members-Apart i id status (m ∷ ms) rows h = elim (Bool-cases (id_eq m.id id)) [
  | inl e ↦ rw (e, update_members) (update_members-Apart i id status ms rows h.1)
  | inr e ↦
      rw (e, update_members)
        (update_members-Apart i id status ms (update_falsification m.id status rows) h.1
          ∙ update_falsification-Apart i m.id status rows h.0)
]

-- A queue of findings with other ids.
abbrev ApartQueue : ℕ → List QueueEntry → Type 0
ApartQueue i queue = All (λ e. Apart i e.0 × All (Apart i) e.1) queue

members_of-Apart :
    (i : ℕ) (queue : List QueueEntry) (id : Option ℕ)
    → ApartQueue i queue
    → All (Apart i) (or_nil (members_by_id queue id))
unfolding members_by_id
members_of-Apart i [] id h = tt
members_of-Apart i ((r, ms) ∷ es) id h = elim (Option-cases (members_by_id es id)) [
  | inr (later, e) ↦
      rw (e, members_by_id) (subst (λ o. All (Apart i) (or_nil o)) e (members_of-Apart i es id h.1))
  | inl e ↦ elim (Bool-cases (id_eq r.id id)) [
    | inl y ↦ rw (e, y, members_by_id) (h.0.1)
    | inr y ↦ rw (e, y, members_by_id) tt
  ]
]

defer_each-Apart :
    (i : ℕ) (queue : List QueueEntry) (fs rows : List Finding)
    → ApartQueue i queue
    → rows_with i (defer_each queue fs rows) ≡ rows_with i rows
unfolding defer_each
defer_each-Apart i queue [] rows h = refl
defer_each-Apart i queue (f ∷ fs) rows h =
    defer_each-Apart i queue fs (update_each deferred (members_of queue f) rows) h
    ∙ update_each-Apart i deferred (members_of queue f) rows (members_of-Apart i queue f.id h)

challenge_each-Apart :
    (world : Finding → World) (c : ChallengeConfig) (i : ℕ) (queue : List QueueEntry)
    (fs : List Finding) (s : RunStore)
    → ApartQueue i queue
    → All (Apart i) fs
    → rows_with i (challenge_each world c queue fs s).1.rows ≡ rows_with i s.rows
unfolding challenge_each
challenge_each-Apart world c i queue [] s h k = refl
challenge_each-Apart world c i queue (f ∷ fs) s h k =
    let log = (challenge_finding (world f) (loop_settings c) f.id s.log).1 in
    elim (Option-cases (challenge_finding (world f) (loop_settings c) f.id s.log).0) [
      | inl e ↦ elim (Bool-cases (has_iterations f.id log)) [
        | inl y ↦
            rw (e, y, challenge_each) (update_falsification-Apart i f.id unresolved s.rows k.0)
        | inr y ↦ rw (e, y, challenge_each) refl
      ]
      | inr (o, e) ↦
          let rows = update_falsification f.id o.status s.rows in
          let t : RunStore = record {
            rows = update_members f.id o.status (members_of queue f) rows;
            log = log;
          } in
          let q =
            challenge_each-Apart world c i queue fs t h k.1
            ∙ update_members-Apart i f.id o.status (members_of queue f) rows
                (members_of-Apart i queue f.id h)
            ∙ update_falsification-Apart i f.id o.status s.rows k.0 in
          elim (Option-cases (challenge_each world c queue fs t).0) [
            | inl y ↦ rw (e, y, challenge_each) q
            | inr (os, y) ↦ rw (e, y, challenge_each) q
          ]
    ]

Apart-perm : (i : ℕ) (xs ys : List Finding) → Perm xs ys → All (Apart i) xs → All (Apart i) ys
Apart-perm i xs ys p h = All-perm (λ f. sql_eq f.id (some i)) xs ys p h

budget_order-Apart :
    (triage : Triage) (i : ℕ) (xs : List Finding)
    → All (Apart i) xs
    → All (Apart i) (budget_order triage xs)
unfolding budget_order
budget_order-Apart triage i xs h =
    Apart-perm i xs _ (Perm.symm (sorted-perm (budget_le triage) xs)) h

All-append-left : (i : ℕ) (xs ys : List Finding) → All (Apart i) (xs ++ ys) → All (Apart i) xs
All-append-left i [] ys h = tt
All-append-left i (x ∷ xs) ys h = (h.0, All-append-left i xs ys h.1)

All-append-right : (i : ℕ) (xs ys : List Finding) → All (Apart i) (xs ++ ys) → All (Apart i) ys
All-append-right i [] ys h = h
All-append-right i (x ∷ xs) ys h = All-append-right i xs ys h.1

chosen_of-Apart :
    (triage : Triage) (i : ℕ) (gs : List MatchGroup)
    → All (Apart i) (flatten gs)
    → ApartQueue i (chosen_of triage gs)
chosen_of-Apart triage i [] h = tt
chosen_of-Apart triage i (g ∷ gs) h =
    let rest = chosen_of-Apart triage i gs (All-append-right i g (flatten gs) h) in
    let mine = All-append-left i g (flatten gs) h in
    let sorted_mine = budget_order-Apart triage i g mine in
    first_of (budget_order triage g) sorted_mine mine rest
  where
    first_of :
        (ordered : List Finding)
        → All (Apart i) ordered
        → All (Apart i) g
        → ApartQueue i (chosen_of triage gs)
        → ApartQueue i (elim ordered [
          | [] ↦ chosen_of triage gs
          | first ∷ _ ↦ (first, g) ∷ chosen_of triage gs
        ])
    first_of [] k mine rest = rest
    first_of (first ∷ more) k mine rest = ((k.0, mine), rest)

representatives-Apart :
    (i : ℕ) (queue : List QueueEntry) → ApartQueue i queue → All (Apart i) (map (λ e. e.0) queue)
representatives-Apart i [] h = tt
representatives-Apart i (e ∷ es) h = (h.0.0, representatives-Apart i es h.1)

with_members-Apart :
    (i : ℕ) (chosen : List QueueEntry) (rs : List Finding)
    → ApartQueue i chosen
    → All (Apart i) rs
    → ApartQueue i (map (λ r. (r, or_nil (members_by_id chosen r.id))) rs)
with_members-Apart i chosen [] h k = tt
with_members-Apart i chosen (r ∷ rs) h k =
    ((k.0, members_of-Apart i chosen r.id h), with_members-Apart i chosen rs h k.1)

grouped_queue-Apart :
    (pending : List Finding) (triage : Triage) (i : ℕ)
    → All (Apart i) pending
    → ApartQueue i (grouped_queue pending triage)
unfolding grouped_queue
grouped_queue-Apart pending triage i h =
    let gs = (find_matches pending).groups in
    let chosen = chosen_of triage gs in
    let a : ApartQueue i chosen =
      chosen_of-Apart triage i gs
        (Apart-perm i pending _ (Perm.symm (find_matches_perm pending)) h) in
    with_members-Apart i chosen _ a
      (budget_order-Apart triage i (map (λ e. e.0) chosen) (representatives-Apart i chosen a))

fill-Apart :
    (i budget : ℕ) (selected fs : List Finding)
    → All (Apart i) selected
    → All (Apart i) fs
    → All (Apart i) (fill budget selected fs)
unfolding fill
fill-Apart i budget selected [] h k = h
fill-Apart i budget selected (f ∷ fs) h k = elim (Bool-cases (leb budget (length selected))) [
  | inl full ↦ rw (full, fill) h
  | inr room ↦ elim (Bool-cases (is_selected selected f)) [
    | inl old ↦ rw (room, old, fill) (fill-Apart i budget selected fs h k.1)
    | inr new ↦
        rw (room, new, fill)
          (fill-Apart i budget (selected ++ f ∷ []) fs
            (All-append (Apart i) selected (f ∷ []) h (k.0, tt)) k.1)
  ]
]

budget_partition-Apart :
    (i : ℕ) (pending : List Finding) (triage : Triage) (budget min_untriaged : ℕ)
    → All (Apart i) pending
    → All (Apart i) (budget_partition pending triage budget min_untriaged).0
unfolding budget_partition
budget_partition-Apart i pending triage budget min_untriaged h =
    let triaged = filter_by (is_triaged triage) pending in
    let untriaged = filter_by (λ f. not (is_triaged triage f)) pending in
    let reserve = reserve_of budget min_untriaged untriaged in
    elim (Bool-cases (is_plain pending triage budget min_untriaged)) [
      | inl e ↦ rw (e, budget_partition) (All-take i budget pending h)
      | inr e ↦
          rw (e, budget_partition)
            (fill-Apart i budget (take (budget - reserve) triaged ++ take reserve untriaged) pending
              (All-append (Apart i) (take (budget - reserve) triaged) (take reserve untriaged)
                (All-take i (budget - reserve) triaged (All-kept i (is_triaged triage) pending h))
                (All-take i reserve untriaged
                  (All-kept i (λ f. not (is_triaged triage f)) pending h)))
              h)
    ]

select-Apart :
    (s : RunSettings) (remaining : Option ℕ) (triage : Triage) (i : ℕ) (rs : List Finding)
    → All (Apart i) rs
    → All (Apart i) (select s remaining triage rs).0
unfolding select
select-Apart s remaining triage i rs h = elim (Option-cases (budget_of s remaining)) [
  | inl e ↦ rw (e, select) h
  | inr (b, e) ↦ rw (e, select) (budget_partition-Apart i rs triage b s.min_untriaged_per_run h)
]

-- Whether it ends or raises, a run leaves each row whose id no pending finding has as it was: what
-- was examined before, confirmed or killed keeps its verdict.
pub challenge-Apart :
    (world : Finding → World) (c : ChallengeConfig) (remaining : Option ℕ) (triage : Triage)
    (examined : List (Option ℕ)) (s : RunStore) (i : ℕ)
    → All (λ f. sql_eq f.id (some i) ≡ false) (pending_findings examined s.rows)
    → filter_by (λ f. sql_eq f.id (some i)) (challenge world c remaining triage examined s).1.rows
      ≡ filter_by (λ f. sql_eq f.id (some i)) s.rows
unfolding challenge
challenge-Apart world c remaining triage examined s i h =
    let queue = grouped_queue (pending_findings examined s.rows) triage in
    let a = grouped_queue-Apart (pending_findings examined s.rows) triage i h in
    let parts = select c.run remaining triage (map (λ e. e.0) queue) in
    let b =
      select-Apart c.run remaining triage i (map (λ e. e.0) queue)
        (representatives-Apart i queue a) in
    let done = challenge_each-Apart world c i queue parts.0 s a b in
    let s' = (challenge_each world c queue parts.0 s).1 in
    elim (Option-cases (challenge_each world c queue parts.0 s).0) [
      | inl e ↦ rw (e, challenge) done
      | inr (os, e) ↦ rw (e, challenge) (defer_each-Apart i queue parts.1 s'.rows a ∙ done)
    ]
