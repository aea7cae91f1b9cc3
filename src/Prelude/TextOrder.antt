-- ===== src/Prelude/TextOrder.antt =====
-- `Ord` of texts: by their bytes, from the left.
use codequery.Prelude.{[], ◌∷◌, Text, ◌≡◌, refl, arith}
use codequery.Prelude.Order.{Ordering, reverse, then, nat_cmp, IsCmp}

abbrev pub text_cmp : Text → Text → Ordering
text_cmp [] [] = Ordering.eq
text_cmp [] (d ∷ ds) = Ordering.lt
text_cmp (c ∷ cs) [] = Ordering.gt
text_cmp (c ∷ cs) (d ∷ ds) = then (nat_cmp c d) (text_cmp cs ds)

text_cmp_swap : (a b : Text) → text_cmp b a ≡ reverse (text_cmp a b)
text_cmp_swap [] [] = refl
text_cmp_swap [] (d ∷ ds) = refl
text_cmp_swap (c ∷ cs) [] = refl
text_cmp_swap (c ∷ cs) (d ∷ ds) = ground (arith, text_cmp_swap cs ds)

text_cmp_trans :
    (a b c : Text)
    → text_cmp a b ≡ Ordering.lt
    → text_cmp b c ≡ Ordering.lt
    → text_cmp a c ≡ Ordering.lt
text_cmp_trans [] [] [] h k = cc h
text_cmp_trans [] [] (z ∷ zs) h k = refl
text_cmp_trans [] (y ∷ ys) [] h k = cc k
text_cmp_trans [] (y ∷ ys) (z ∷ zs) h k = refl
text_cmp_trans (x ∷ xs) [] c h k = cc h
text_cmp_trans (x ∷ xs) (y ∷ ys) [] h k = cc k
text_cmp_trans (x ∷ xs) (y ∷ ys) (z ∷ zs) h k = ground (arith, text_cmp_trans xs ys zs)

text_cmp_eq_left : (a b c : Text) → text_cmp a b ≡ Ordering.eq → text_cmp a c ≡ text_cmp b c
text_cmp_eq_left [] [] c h = refl
text_cmp_eq_left [] (y ∷ ys) c h = cc h
text_cmp_eq_left (x ∷ xs) [] c h = cc h
text_cmp_eq_left (x ∷ xs) (y ∷ ys) [] h = refl
text_cmp_eq_left (x ∷ xs) (y ∷ ys) (z ∷ zs) h = ground (arith, text_cmp_eq_left xs ys zs)

pub text_cmp-IsCmp : IsCmp text_cmp
text_cmp-IsCmp = record { swap = text_cmp_swap; trans = text_cmp_trans; eq_left = text_cmp_eq_left }

pub text_cmp_eq : (a b : Text) → text_cmp a b ≡ Ordering.eq → a ≡ b
text_cmp_eq [] [] h = refl
text_cmp_eq [] (d ∷ ds) h = cc h
text_cmp_eq (c ∷ cs) [] h = cc h
text_cmp_eq (c ∷ cs) (d ∷ ds) h = ground (arith, text_cmp_eq cs ds)
