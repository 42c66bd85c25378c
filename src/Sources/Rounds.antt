-- ===== src/Sources/Rounds.antt =====
-- The rounds over the buckets deal out each path once.
use mathlib.Core.List.{perm_middle}
use mathlib.Core.List.Perm
use repoauditor.Prelude.{
  ℕ, zero, suc, ◌+◌, ◌≤◌, ◌<◌, ◌≡◌, refl, sym, subst, none, some, List, [], ◌∷◌, ◌++◌, append-nil,
  append_assoc, leb, get_elem?, length, length-append, drop, Perm, arith, inl, inr, Bool-cases,
  Option-cases,
}
use repoauditor.Prelude.Sort.{sorted, insert, sorted-perm}
use repoauditor.Prelude.Permuted.{length-perm}
use repoauditor.Sources.Selection.{
  SourcePath, Bucket, Digests, directory_bucket, bucket_eq, put_path, put_all, path_le, bucket_le,
  sort_each, ordered_buckets, column, deal, directory_diverse_order,
}

-- What is left of the buckets before the round at `depth`.
abbrev left : ℕ → List (List SourcePath) → List SourcePath
left depth [] = []
left depth (b ∷ bs) = drop depth b ++ left depth bs

drop-some :
    (k : ℕ) (b : List SourcePath) (p : SourcePath)
    → get_elem? b k ≡ some p
    → drop k b ≡ p ∷ drop (suc k) b
drop-some k [] p h = cc
drop-some zero (x ∷ b) p h = ground arith
drop-some (suc k) (x ∷ b) p h = drop-some k b p h

drop-none :
    (k : ℕ) (b : List SourcePath) → get_elem? b k ≡ none → (drop k b ≡ []) × (drop (suc k) b ≡ [])
drop-none zero [] h = (refl, refl)
drop-none (suc k) [] h = (refl, refl)
drop-none zero (x ∷ b) h = cc
drop-none (suc k) (x ∷ b) h = drop-none k b h

pub perm_swap_front : (xs ys zs : List SourcePath) → Perm (xs ++ (ys ++ zs)) (ys ++ (xs ++ zs))
perm_swap_front [] ys zs = Perm.refl _
perm_swap_front (x ∷ xs) ys zs =
    Perm.trans (Perm.cons x (perm_swap_front xs ys zs)) (Perm.symm (perm_middle ys (xs ++ zs)))

column-left :
    (k : ℕ) (bs : List (List SourcePath)) → Perm (column k bs ++ left (suc k) bs) (left k bs)
column-left k [] = Perm.refl []
column-left k (b ∷ bs) = elim (Option-cases (get_elem? b k)) [
  | inl e ↦
      let (h, h') = drop-none k b e in
      let e1 : column k bs ++ left (suc k) bs ≡ column k (b ∷ bs) ++ left (suc k) (b ∷ bs) =
        rw (e, column, h') refl in
      let e2 : left k bs ≡ left k (b ∷ bs) = rw h refl in
      subst (λ xs. Perm xs (left k (b ∷ bs))) e1
        (subst (λ ys. Perm (column k bs ++ left (suc k) bs) ys) e2 (column-left k bs))
  | inr (p, e) ↦
      let h = drop-some k b p e in
      let d = drop (suc k) b in
      let e1 : p ∷ (column k bs ++ (d ++ left (suc k) bs))
          ≡ column k (b ∷ bs) ++ left (suc k) (b ∷ bs) =
        rw (e, column) refl in
      let e2 : p ∷ (d ++ left k bs) ≡ left k (b ∷ bs) = rw h refl in
      subst (λ xs. Perm xs (left k (b ∷ bs))) e1
        (subst (λ ys. Perm (p ∷ (column k bs ++ (d ++ left (suc k) bs))) ys) e2
          (Perm.cons p (
            Perm.trans (perm_swap_front (column k bs) d (left (suc k) bs))
              (Perm.append_left d (column-left k bs)))))
]

length-column :
    (k : ℕ) (bs : List (List SourcePath))
    → length (column k bs) + length (left (suc k) bs) ≡ length (left k bs)
length-column k [] = refl
length-column k (b ∷ bs) = elim (Option-cases (get_elem? b k)) [
  | inl e ↦ let (h, h') = drop-none k b e in rw (e, h, h', column) (length-column k bs)
  | inr (p, e) ↦
      let h = drop-some k b p e in
      rw (e, h, column)
        (omega (
          arith,
          length-column k bs,
          length-append (drop (suc k) b) (left (suc k) bs),
          length-append (drop (suc k) b) (left k bs),
        ))
]

column-some :
    (k : ℕ) (bs : List (List SourcePath)) → 0 < length (left k bs) → 0 < length (column k bs)
column-some k [] h = h
column-some k (b ∷ bs) h = elim (Option-cases (get_elem? b k)) [
  | inl e ↦ let (d, _) = drop-none k b e in rw (e, column) (column-some k bs (rw d at h))
  | inr (p, e) ↦ rw (e, column) (omega arith)
]

nil_of_length : (xs : List SourcePath) → length xs ≡ 0 → xs ≡ []
nil_of_length [] h = refl
nil_of_length (x ∷ xs) h = absurd (omega arith)

-- The loop deals out what was dealt and what is left, if there is fuel for what is missing.
deal-perm :
    (fuel total k : ℕ) (bs : List (List SourcePath)) (ordered : List SourcePath)
    → length ordered + length (left k bs) ≡ total
    → total ≤ length ordered + fuel
    → Perm (deal fuel total k bs ordered) (ordered ++ left k bs)
unfolding deal
deal-perm zero total k bs ordered h f =
    let e = nil_of_length (left k bs) (omega arith) in
    subst (λ l. Perm ordered (ordered ++ l)) (sym e)
      (subst (λ xs. Perm ordered xs) (sym (append-nil ordered)) (Perm.refl ordered))
deal-perm (suc fuel) total k bs ordered h f = elim (Bool-cases (leb total (length ordered))) [
  | inl y ↦
      let short : total ≤ length ordered = ground arith in
      let e = nil_of_length (left k bs) (omega arith) in
      let same : ordered ≡ deal (suc fuel) total k bs ordered = rw (y, deal) refl in
      subst (λ xs. Perm xs (ordered ++ left k bs)) same
        (subst (λ l. Perm ordered (ordered ++ l)) (sym e)
          (subst (λ xs. Perm ordered xs) (sym (append-nil ordered)) (Perm.refl ordered)))
  | inr y ↦
      let more : length ordered < total = ground arith in
      let c = column k bs in
      let n = length-append ordered c in
      let some_dealt = column-some k bs (omega arith) in
      let ih =
        deal-perm fuel total (suc k) bs (ordered ++ c) (omega (arith, n, length-column k bs))
          (omega (arith, n, some_dealt)) in
      let same : deal fuel total (suc k) bs (ordered ++ c) ≡ deal (suc fuel) total k bs ordered =
        rw (y, deal) refl in
      subst (λ xs. Perm xs (ordered ++ left k bs)) same
        (Perm.trans ih (
          subst (λ xs. Perm xs (ordered ++ left k bs))
            (sym (append_assoc ordered c (left (suc k) bs)))
            (Perm.append_left ordered (column-left k bs))))
]

abbrev contents : List Bucket → List SourcePath
contents [] = []
contents ((name, ps) ∷ bs) = ps ++ contents bs

put_path-contents :
    (p : SourcePath) (bs : List Bucket) → Perm (contents (put_path p bs)) (p ∷ contents bs)
put_path-contents p [] = Perm.refl _
put_path-contents p ((name, ps) ∷ bs) = elim (Bool-cases (bucket_eq (directory_bucket p) name)) [
  | inl e ↦
      let step : (ps ++ p ∷ []) ++ contents bs ≡ contents (put_path p ((name, ps) ∷ bs)) =
        rw (e, put_path) refl in
      subst (λ xs. Perm xs (p ∷ (ps ++ contents bs))) step
        (subst (λ xs. Perm xs (p ∷ (ps ++ contents bs)))
          (sym (append_assoc ps (p ∷ []) (contents bs))) (perm_middle ps (contents bs)))
  | inr e ↦
      let step : ps ++ contents (put_path p bs) ≡ contents (put_path p ((name, ps) ∷ bs)) =
        rw (e, put_path) refl in
      subst (λ xs. Perm xs (p ∷ (ps ++ contents bs))) step
        (Perm.trans (Perm.append_left ps (put_path-contents p bs)) (perm_middle ps (contents bs)))
]

put_all-contents :
    (ps : List SourcePath) (bs : List Bucket) → Perm (contents (put_all ps bs)) (ps ++ contents bs)
put_all-contents [] bs = Perm.refl _
put_all-contents (p ∷ ps) bs =
    Perm.trans (put_all-contents ps (put_path p bs))
      (Perm.trans (Perm.append_left ps (put_path-contents p bs)) (perm_middle ps (contents bs)))

insert-contents :
    (h : Digests) (b : Bucket) (bs : List Bucket)
    → Perm (contents (insert (bucket_le h) b bs)) (b.1 ++ contents bs)
insert-contents h b [] = Perm.refl _
insert-contents h b (c ∷ bs) = elim (Bool-cases (bucket_le h b c)) [
  | inl e ↦
      let step : contents (b ∷ c ∷ bs) ≡ contents (insert (bucket_le h) b (c ∷ bs)) =
        rw (e, insert) refl in
      subst (λ xs. Perm xs (b.1 ++ contents (c ∷ bs))) step (Perm.refl _)
  | inr e ↦
      let step : c.1 ++ contents (insert (bucket_le h) b bs)
          ≡ contents (insert (bucket_le h) b (c ∷ bs)) =
        rw (e, insert) refl in
      subst (λ xs. Perm xs (b.1 ++ contents (c ∷ bs))) step
        (Perm.trans (Perm.append_left c.1 (insert-contents h b bs))
          (perm_swap_front c.1 b.1 (contents bs)))
]

sorted-contents :
    (h : Digests) (bs : List Bucket) → Perm (contents (sorted (bucket_le h) bs)) (contents bs)
sorted-contents h [] = Perm.refl _
sorted-contents h (b ∷ bs) =
    Perm.trans (insert-contents h b (sorted (bucket_le h) bs))
      (Perm.append_left b.1 (sorted-contents h bs))

sort_each-contents : (h : Digests) (bs : List Bucket) → Perm (left 0 (sort_each h bs)) (contents bs)
sort_each-contents h [] = Perm.refl _
sort_each-contents h ((name, ps) ∷ bs) =
    Perm.trans (Perm.append_right (left 0 (sort_each h bs)) (sorted-perm (path_le h) ps))
      (Perm.append_left ps (sort_each-contents h bs))

ordered_buckets-perm :
    (h : Digests) (ps : List SourcePath) → Perm (left 0 (ordered_buckets h ps)) ps
unfolding ordered_buckets
ordered_buckets-perm h ps =
    Perm.trans (sort_each-contents h (sorted (bucket_le h) (put_all ps []))) (
      Perm.trans (sorted-contents h (put_all ps []))
        (subst (λ xs. Perm (contents (put_all ps [])) xs) (append-nil ps) (put_all-contents ps [])))

-- The rounds end, with each path dealt out exactly once.
pub directory_diverse_order_perm :
    (h : Digests) (ps : List SourcePath) → Perm (directory_diverse_order h ps) ps
unfolding directory_diverse_order
directory_diverse_order_perm h ps =
    let p = ordered_buckets-perm h ps in
    let n = length-perm (left 0 (ordered_buckets h ps)) ps p in
    Perm.trans
      (deal-perm (length ps) (length ps) 0 (ordered_buckets h ps) [] (omega (arith, n))
        (omega arith))
      p
