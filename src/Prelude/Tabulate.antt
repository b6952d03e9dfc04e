-- ===== src/Prelude/Tabulate.antt =====
-- Lists given by a function on their indices, and extensionality.
use Prim.Native.Nat.{ℕ, zero, suc, ◌+◌, ◌<◌, ◌≤◌}
use mathlib.Core.Path.{◌≡◌, refl, sym, ap, ap₂, ◌∙◌}
use mathlib.Core.List.{List, [], ◌∷◌, ◌++◌}
use native.Mathlib.Omega.{arith}
use s3res.Prelude.Lists.{length, get_or, take, drop, take-append-drop}
use s3res.Prelude.Slices.{slice, length-slice, get_or-slice}

module _ {ℓ} {A : Type ℓ} where
  abbrev pub tabulate : ℕ → (ℕ → A) → List A
  tabulate zero f = []
  tabulate (suc n) f = f 0 ∷ tabulate n (λ i. f (suc i))

  pub length-tabulate : (n : ℕ) (f : ℕ → A) → length (tabulate n f) ≡ n
  length-tabulate zero f = refl
  length-tabulate (suc n) f = ap suc (length-tabulate n (λ i. f (suc i)))

  pub get_or-tabulate : (n i : ℕ) (f : ℕ → A) (d : A) → i < n → get_or (tabulate n f) i d ≡ f i
  get_or-tabulate zero i f d h = absurd (omega arith)
  get_or-tabulate (suc n) zero f d h = refl
  get_or-tabulate (suc n) (suc i) f d h = get_or-tabulate n i (λ k. f (suc k)) d (omega arith)

  -- Lists of one length that agree at each index are equal.
  pub ext :
      (xs ys : List A) (d : A)
      → length xs ≡ length ys
      → ((i : ℕ) → i < length xs → get_or xs i d ≡ get_or ys i d)
      → xs ≡ ys
  ext [] [] d e h = refl
  ext [] (y ∷ ys) d e h = absurd (omega arith)
  ext (x ∷ xs) [] d e h = absurd (omega arith)
  ext (x ∷ xs) (y ∷ ys) d e h =
      ap₂ ◌∷◌ (h 0 (omega arith)) (ext xs ys d (omega arith) (λ i p. h (suc i) (omega arith)))

  pub tabulate_ext :
      (n : ℕ) (f g : ℕ → A) → ((i : ℕ) → i < n → f i ≡ g i) → tabulate n f ≡ tabulate n g
  tabulate_ext zero f g h = refl
  tabulate_ext (suc n) f g h =
      ap₂ ◌∷◌ (h 0 (omega arith))
        (tabulate_ext n (λ i. f (suc i)) (λ i. g (suc i)) (λ i p. h (suc i) (omega arith)))

  pub take-tabulate : (m n : ℕ) (f : ℕ → A) → m ≤ n → take m (tabulate n f) ≡ tabulate m f
  take-tabulate zero n f h = refl
  take-tabulate (suc m) zero f h = absurd (omega arith)
  take-tabulate (suc m) (suc n) f h =
      ap (λ l. f 0 ∷ l) (take-tabulate m n (λ i. f (suc i)) (omega arith))

  pub drop-tabulate :
      (m n k : ℕ) (f : ℕ → A) → n ≡ m + k → drop m (tabulate n f) ≡ tabulate k (λ i. f (m + i))
  drop-tabulate zero n k f e =
      ap (λ j. tabulate j f) (omega arith)
      ∙ tabulate_ext k f (λ i. f (zero + i)) (λ i h. ap f (omega arith))
  drop-tabulate (suc m) zero k f e = absurd (omega arith)
  drop-tabulate (suc m) (suc n) k f e =
      drop-tabulate m n k (λ i. f (suc i)) (omega arith)
      ∙ tabulate_ext k (λ i. f (suc (m + i))) (λ i. f (suc m + i)) (λ i h. ap f (omega arith))

  -- A list of known length is the table of its elements.
  pub tabulate-get_or :
      (n : ℕ) (xs : List A) (d : A) → length xs ≡ n → tabulate n (λ i. get_or xs i d) ≡ xs
  tabulate-get_or zero [] d e = refl
  tabulate-get_or zero (x ∷ xs) d e = absurd (omega arith)
  tabulate-get_or (suc n) [] d e = absurd (omega arith)
  tabulate-get_or (suc n) (x ∷ xs) d e = ap (λ l. x ∷ l) (tabulate-get_or n xs d (omega arith))

  pub tabulate-add :
      (m k : ℕ) (f : ℕ → A) → tabulate (m + k) f ≡ tabulate m f ++ tabulate k (λ i. f (m + i))
  tabulate-add m k f =
      split (m + k) (omega arith)
      ∙ ap₂ ◌++◌ (take-tabulate m (m + k) f (omega arith)) (drop-tabulate m (m + k) k f refl)
    where
      split : (n : ℕ) → m ≤ n → tabulate n f ≡ take m (tabulate n f) ++ drop m (tabulate n f)
      split n h = sym (take-append-drop m (tabulate n f))

  pub slice-tabulate :
      (off n : ℕ) (xs : List A) (d : A)
      → off + n ≤ length xs
      → slice off n xs ≡ tabulate n (λ i. get_or xs (off + i) d)
  slice-tabulate off n xs d h =
      sym (tabulate-get_or n (slice off n xs) d (length-slice off n xs h))
      ∙ tabulate_ext n (λ i. get_or (slice off n xs) i d) (λ i. get_or xs (off + i) d)
          (λ i k. get_or-slice off n i xs d k)
