-- ===== src/Encoder/Required.antt =====
-- The first loop of `rtpFragmentize`: the size that the units need.
use libcaffeine.Base.{
  ℕ, ◌+◌, ◌-◌, ◌≤◌, ◌<◌, Bool, true, false, if◌then◌else◌, leb, lt→ltb, ltb→lt, le→leb, Bool-cases,
  ◌≡◌, refl, ap, ◌∙◌, arith, ◌⊎◌, inl, inr, List, [], ◌∷◌, length, length-append, length-drop,
}
use libcaffeine.Base.Int.{ℤ, pos, negsuc, pos_part}
use libcaffeine.Base.Outcome.{done, thrown, M, ◌>>◌}
use libcaffeine.Encoder.{Nal, EncodedImage}
use libcaffeine.Encoder.Fragments.{size_limit, is_positive, required_size, needed, check}
use libcaffeine.Encoder.Content.{content, annex_b, IsStored, AreStored, AreUnits}

-- The bytes that a unit takes with a start code of four bytes.
abbrev pub share : Nal → ℕ
share nal = length nal.payload + (if nal.long_startcode then 0 else 1)

abbrev pub shares : List Nal → ℕ
shares [] = 0
shares (nal ∷ nals) = share nal + shares nals

pub share-content : (nal : Nal) → 4 ≤ length nal.payload → share nal ≡ 4 + length (content nal)
share-content nal h = ground (arith, length-drop 4 nal.payload, length-drop 3 nal.payload)

pub shares-annex_b : (nals : List Nal) → AreUnits nals → shares nals ≡ length (annex_b nals)
shares-annex_b [] us = refl
shares-annex_b (nal ∷ nals) (u, us) =
    omega (
      arith,
      share-content nal u,
      shares-annex_b nals us,
      length-append (content nal) (annex_b nals),
    )

is_positive_lem : (z : ℤ) → 0 < pos_part z → is_positive z ≡ true
unfolding is_positive
is_positive_lem (pos n) h = lt→ltb 0 n h
is_positive_lem (negsuc n) h = absurd (omega arith)

is_positive-pos : (z : ℤ) {n : ℕ} → is_positive z ≡ true → pos_part z ≡ n → 0 < n
unfolding is_positive
is_positive-pos (pos m) h e = let k = ltb→lt 0 m h in omega (arith, k, e)
is_positive-pos (negsuc m) h e = absurd (ground arith)

needed_lem :
    (nal : Nal) (required : ℕ)
    → IsStored nal
    → required + share nal < size_limit
    → needed nal required ≡ required + share nal
needed_lem nal required stored room = ground (arith, stored)

pub check-true {ℓ κ} :
    {S : Type ℓ} {A : Type κ} (b : Bool) (k : M S A) (s : S) → b ≡ true → (check b >> k) s ≡ k s
check-true true k s h = refl
check-true false k s h = absurd (ground arith)

pub check-false {ℓ κ} :
    {S : Type ℓ} {A : Type κ} (b : Bool) (k : M S A) (s : S)
    → b ≡ false
    → (check b >> k) s ≡ (thrown, s)
check-false true k s h = absurd (ground arith)
check-false false k s h = refl

required_size-step :
    (nal : Nal) (nals : List Nal) (required : ℕ) (image : EncodedImage)
    → IsStored nal
    → 0 < length nal.payload
    → required + share nal < size_limit
    → required_size (nal ∷ nals) required image ≡ required_size nals (required + share nal) image
unfolding required_size
required_size-step nal nals required image s h room =
    check-true (is_positive nal.i_payload) _ image
      (is_positive_lem nal.i_payload (omega (arith, s)))
    ∙ check-true (leb (pos_part nal.i_payload) (size_limit - 1 - required)) _ image
        (le→leb _ _ (omega (arith, s)))
    ∙ ap (λ n. required_size nals n image) (needed_lem nal required s (omega arith))

pub required_size-done :
    (nals : List Nal) (required : ℕ) (image : EncodedImage)
    → AreStored nals
    → AreUnits nals
    → required + shares nals < size_limit
    → required_size nals required image ≡ (done (required + shares nals), image)
unfolding required_size
required_size-done [] required image ss us room = ap (λ n. (done n, image)) (omega arith)
required_size-done (nal ∷ nals) required image (s, ss) (u, us) room =
    required_size-step nal nals required image s (omega arith) (omega arith)
    ∙ required_size-done nals (required + share nal) image ss us (omega arith)
    ∙ ap (λ n. (done n, image)) (omega arith)

-- A unit without bytes ends it by an exception, and nothing else does.
pub required_size-cases :
    (nals : List Nal) (required : ℕ) (image : EncodedImage)
    → AreStored nals
    → required + shares nals < size_limit
    → (required_size nals required image ≡ (done (required + shares nals), image))
      ⊎ (required_size nals required image ≡ (thrown, image))
unfolding required_size is_positive
required_size-cases [] required image ss room = inl (ap (λ n. (done n, image)) (omega arith))
required_size-cases (nal ∷ nals) required image (s, ss) room =
    elim (Bool-cases (is_positive nal.i_payload)) [
      | inr e ↦ inr (check-false (is_positive nal.i_payload) _ image e)
      | inl e ↦ elim (required_size-cases nals (required + share nal) image ss (omega arith)) [
        | inl d ↦ inl (step e ∙ d ∙ ap (λ n. (done n, image)) (omega arith))
        | inr t ↦ inr (step e ∙ t)
      ]
    ]
  where
    step :
        is_positive nal.i_payload ≡ true
        → required_size (nal ∷ nals) required image
          ≡ required_size nals (required + share nal) image
    step e =
        required_size-step nal nals required image s (is_positive-pos nal.i_payload e s)
          (omega arith)
