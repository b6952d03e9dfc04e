-- ===== src/Sys/Memcmp.antt =====
-- memcmp() within both arrays is 0 exactly when the compared bytes are equal.
use s3res.Prelude.{ℕ, zero, suc, ◌≤◌, ◌≡◌, refl, sym, ap, ◌∙◌, List, [], ◌∷◌, arith, length, take}
use s3res.Sys.{same, memcmp}

pub memcmp_sound :
    (n : ℕ) (xs ys : List ℕ)
    → n ≤ length xs
    → n ≤ length ys
    → memcmp xs ys n ≡ same
    → take n xs ≡ take n ys
unfolding memcmp
memcmp_sound zero xs ys h k e = refl
memcmp_sound (suc n) [] ys h k e = absurd (omega arith)
memcmp_sound (suc n) (x ∷ xs) [] h k e = absurd (omega arith)
memcmp_sound (suc n) (x ∷ xs) (y ∷ ys) h k e =
    ground (arith, memcmp_sound n xs ys (omega arith) (omega arith))

pub memcmp_complete :
    (n : ℕ) (xs ys : List ℕ)
    → n ≤ length xs
    → n ≤ length ys
    → take n xs ≡ take n ys
    → memcmp xs ys n ≡ same
unfolding memcmp
memcmp_complete zero [] ys h k e = refl
memcmp_complete zero (x ∷ xs) [] h k e = refl
memcmp_complete zero (x ∷ xs) (y ∷ ys) h k e = refl
memcmp_complete (suc n) [] ys h k e = absurd (omega arith)
memcmp_complete (suc n) (x ∷ xs) [] h k e = absurd (omega arith)
memcmp_complete (suc n) (x ∷ xs) (y ∷ ys) h k e =
    ground (arith, memcmp_complete n xs ys (omega arith) (omega arith))

memcmp-take : (n : ℕ) (xs ys : List ℕ) → memcmp xs (take n ys) n ≡ memcmp xs ys n
unfolding memcmp
memcmp-take zero [] ys = refl
memcmp-take zero (x ∷ xs) [] = refl
memcmp-take zero (x ∷ xs) (y ∷ ys) = refl
memcmp-take (suc n) [] ys = refl
memcmp-take (suc n) (x ∷ xs) [] = refl
memcmp-take (suc n) (x ∷ xs) (y ∷ ys) = ground (arith, memcmp-take n xs ys)

-- Only the first `n` bytes matter.
pub memcmp_congr :
    (n : ℕ) (xs ys zs : List ℕ) → take n ys ≡ take n zs → memcmp xs ys n ≡ memcmp xs zs n
memcmp_congr n xs ys zs e =
    sym (memcmp-take n xs ys) ∙ ap (λ l. memcmp xs l n) e ∙ memcmp-take n xs zs
