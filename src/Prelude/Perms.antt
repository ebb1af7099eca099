-- ===== src/Prelude/Perms.antt =====
-- Lists up to order.
use mathlib.Core.Path.{◌≡◌, refl, sym, subst}
use mathlib.Core.List.{List, [], ◌∷◌, ◌++◌, append_assoc, Perm, Permᴰ}
use mathlib.Core.List.Perm
use mathlib.Core.List.Permᴰ

pub equal-Perm : {A : Type 0} {xs ys : List A} → xs ≡ ys → Permᴰ xs ys
equal-Perm {xs} e = subst (Permᴰ xs) e (Permᴰ.refl xs)

pub swap_front : {A : Type 0} (xs ys zs : List A) → Permᴰ (xs ++ (ys ++ zs)) (ys ++ (xs ++ zs))
swap_front xs [] zs = Permᴰ.refl (xs ++ zs)
swap_front xs (y ∷ ys) zs =
    Permᴰ.trans (Permᴰ.middle y xs (ys ++ zs)) (Permᴰ.cons refl (swap_front xs ys zs))

pub swap_parts : {A : Type 0} (xs ys zs : List A) → Perm (xs ++ (ys ++ zs)) (ys ++ (xs ++ zs))
swap_parts xs ys zs = ∣ swap_front xs ys zs ∣₁

-- A list that is known up to order, with its parts bracketed the other way.
pub regroup :
    {A : Type 0} {l : List A} (xs ys zs : List A)
    → Perm l ((xs ++ ys) ++ zs)
    → Perm l (xs ++ (ys ++ zs))
regroup {l} xs ys zs p = subst (Perm l) (append_assoc xs ys zs) p

pub ungroup :
    {A : Type 0} {l : List A} (xs ys zs : List A)
    → Perm l (xs ++ (ys ++ zs))
    → Perm l ((xs ++ ys) ++ zs)
ungroup {l} xs ys zs p = subst (Perm l) (sym (append_assoc xs ys zs)) p

-- Two changes one after the other, each to a part of a list that leaves the other parts alone.
pub change_both :
    {A : Type 0} {l l' l'' : List A} (xs xs' ys ys' others : List A)
    → Perm l ((xs ++ ys) ++ others)
    → ((more : List A) → Perm l (xs ++ more) → Perm l' (xs' ++ more))
    → ((more : List A) → Perm l' (ys ++ more) → Perm l'' (ys' ++ more))
    → Perm l'' ((xs' ++ ys') ++ others)
change_both xs xs' ys ys' others p first second =
    let q = first (ys ++ others) (regroup xs ys others p) in
    let r = second (xs' ++ others) (Perm.trans q (swap_parts xs' ys others)) in
    ungroup xs' ys' others (Perm.trans r (swap_parts ys' xs' others))
