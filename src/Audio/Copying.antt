-- ===== src/Audio/Copying.antt =====
-- Facts about lists that are cut and joined.
use libcaffeine.Base.{ℕ, zero, suc, ◌-◌, ◌≤◌, ◌≡◌, refl, sym, ap, ◌∙◌, arith}
use libcaffeine.Base.{List, [], ◌∷◌, ◌++◌, length, take, drop}
use libcaffeine.Base.{append_assoc}

module _ {ℓ} {A : Type ℓ} where
  pub take-append : (xs ys : List A) (n : ℕ) → length xs ≡ n → take n (xs ++ ys) ≡ xs
  take-append [] ys zero h = refl
  take-append [] ys (suc n) h = absurd (omega arith)
  take-append (x ∷ xs) ys zero h = absurd (omega arith)
  take-append (x ∷ xs) ys (suc n) h = ap (◌∷◌ x) (take-append xs ys n (omega arith))

  pub take-take :
      (k n : ℕ) (xs : List A) → k ≤ n → take k xs ++ take (n - k) (drop k xs) ≡ take n xs
  take-take zero n xs h = ap (λ m. take m xs) (omega arith)
  take-take (suc k) zero xs h = absurd (omega arith)
  take-take (suc k) (suc n) [] h = nothing (suc n - suc k)
    where
      nothing : (m : ℕ) → take m (let e : List A = [] in e) ≡ []
      nothing zero = refl
      nothing (suc m) = refl
  take-take (suc k) (suc n) (x ∷ xs) h =
      ap (◌∷◌ x)
        (ap (λ m. take k xs ++ take m (drop k xs)) (omega arith) ∙ take-take k n xs (omega arith))

  abbrev pub flatten : List (List A) → List A
  flatten [] = []
  flatten (xs ∷ xss) = xs ++ flatten xss

  pub flatten-append : (xss yss : List (List A)) → flatten (xss ++ yss) ≡ flatten xss ++ flatten yss
  flatten-append [] yss = refl
  flatten-append (xs ∷ xss) yss =
      ap (◌++◌ xs) (flatten-append xss yss) ∙ sym (append_assoc xs (flatten xss) (flatten yss))
