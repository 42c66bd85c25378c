-- ===== src/Prelude/Permuted.antt =====
-- What two lists that are permutations of each other share.
use mathlib.Core.Logic.{∥∥₁_elim}
use mathlib.Core.Path.{◌≡◌, refl, sym, ap, ◌∙◌}
use mathlib.Core.Bool.{Bool, false}
use mathlib.Core.List.{List, [], ◌∷◌, Perm, Permᴰ}
use Prim.Native.Nat.{suc}
use native.Mathlib.Omega.{arith}
use repoauditor.Prelude.Lists.{any, length, All}

pub any-permuted : {A : Type 0} (q : A → Bool) (xs ys : List A) → Permᴰ xs ys → any q xs ≡ any q ys
any-permuted q _ _ Permᴰ.nil = refl
any-permuted q (a ∷ xs) (b ∷ ys) (Permᴰ.cons e d) = rw (e, any-permuted q xs ys d) refl
any-permuted q (a ∷ b ∷ l) (a' ∷ b' ∷ l') (Permᴰ.swap e d) = rw (e, d) (ground arith)
any-permuted q xs zs (Permᴰ.trans d d') = any-permuted q xs _ d ∙ any-permuted q _ zs d'

length-permuted : {A : Type 0} (xs ys : List A) → Permᴰ xs ys → length xs ≡ length ys
length-permuted _ _ Permᴰ.nil = refl
length-permuted (a ∷ xs) (b ∷ ys) (Permᴰ.cons e d) = ap suc (length-permuted xs ys d)
length-permuted (a ∷ b ∷ l) (a' ∷ b' ∷ l') (Permᴰ.swap e d) = refl
length-permuted xs zs (Permᴰ.trans d d') = length-permuted xs _ d ∙ length-permuted _ zs d'

pub length-perm : {A : Type 0} (xs ys : List A) → Perm xs ys → length xs ≡ length ys
length-perm xs ys p =
    let prop : IsProp (length xs ≡ length ys) = hlevel in
    ∥∥₁_elim p prop (λ d. length-permuted xs ys d)

any-All : {A : Type 0} (q : A → Bool) (xs : List A) → All (λ x. q x ≡ false) xs → any q xs ≡ false
any-All q [] h = refl
any-All q (x ∷ xs) h = rw (h.0, any-All q xs h.1) refl

All-any : {A : Type 0} (q : A → Bool) (xs : List A) → any q xs ≡ false → All (λ x. q x ≡ false) xs
All-any q [] h = tt
All-any q (x ∷ xs) h = (ground arith, All-any q xs (ground arith))

pub All-perm :
    {A : Type 0} (q : A → Bool) (xs ys : List A)
    → Perm xs ys
    → All (λ x. q x ≡ false) xs
    → All (λ x. q x ≡ false) ys
All-perm q xs ys p h =
    let prop : IsProp (any q xs ≡ any q ys) = hlevel in
    let e : any q xs ≡ any q ys = ∥∥₁_elim p prop (λ d. any-permuted q xs ys d) in
    All-any q ys (sym e ∙ any-All q xs h)

pub any-perm :
    {A : Type 0} (q : A → Bool) {xs ys : List A} → Perm xs ys → any q xs ≡ false → any q ys ≡ false
any-perm q {xs} {ys} p h =
    let prop : IsProp (any q xs ≡ any q ys) = hlevel in
    sym (∥∥₁_elim p prop (λ d. any-permuted q xs ys d)) ∙ h
