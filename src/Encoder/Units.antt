-- ===== src/Encoder/Units.antt =====
-- What `rtpFragmentize` does with the image, as a whole.
use mathlib.Core.Path.{subst}
use libcaffeine.Base.{
  ℕ, ◌+◌, ◌≤◌, ◌≡◌, refl, sym, ap, ◌∙◌, arith, leb, ltb, Bool-cases, if_true, if_false, leb→le, ◌⊎◌,
  inl, inr, some, List, [], ◌∷◌, ◌++◌, length, length-append, length-drop, drop,
}
use libcaffeine.Base.Bytes.{Bytes}
use libcaffeine.Base.Int.{pos_part}
use libcaffeine.Base.Outcome.{thrown, pure, continue, ◌>>=◌}
use libcaffeine.Encoder.{Nal, Fragment, EncodedImage}
use libcaffeine.Encoder.Fragments.{start_code, Memory, allocate, grow, emptied, copy_nal, copy_nals}
use libcaffeine.Encoder.Content.{content, AreStored, AreUnits}
use libcaffeine.Encoder.Required.{shares, share-content, check-false}
use libcaffeine.Encoder.Copying.{holding, copy_nal-holding}

-- `new` gives as many bytes as it is asked for.
pub record IsMemory (mem : Memory) : Type 0 where
  pub sized : (n : ℕ) → length (mem.new_bytes n) ≡ n

-- The image has a buffer, of the size that it keeps.
abbrev pub Backed : EncodedImage → Type 0
Backed image = (b : Bytes) × (image.buffer ≡ some b) × (length b ≡ image.size)

pub AreUnits-cases : (nals : List Nal) → AreUnits nals ⊎ (¬ AreUnits nals)
AreUnits-cases [] = inl tt
AreUnits-cases (nal ∷ nals) = elim (Bool-cases (leb 4 (length nal.payload))) [
  | inr e ↦ inr (λ us. ground (arith, us.0))
  | inl e ↦ elim (AreUnits-cases nals) [
    | inl us ↦ inl (leb→le _ _ e, us)
    | inr n ↦ inr (λ us. n us.1)
  ]
]

allocate-Backed :
    (mem : Memory)
    → IsMemory mem
    → (n required : ℕ) (image : EncodedImage) → required ≤ n
    → Backed (allocate mem n image) × (required ≤ (allocate mem n image).size)
unfolding allocate
allocate-Backed mem memory n required image h = ((mem.new_bytes n, refl, memory.sized n), h)

pub grow-Backed :
    (mem : Memory)
    → IsMemory mem
    → (width height required : ℕ) (image : EncodedImage) → Backed image
    → Backed (grow mem width height required image)
      × (required ≤ (grow mem width height required image).size)
unfolding grow
grow-Backed mem memory width height required image backed =
    elim (Bool-cases (ltb image.size required)) [
      | inl h ↦
          subst Enough (sym (if_true (ltb image.size required) _ _ h))
            (allocate-Backed mem memory _ required image (ground arith))
      | inr h ↦ subst Enough (sym (if_false (ltb image.size required) _ _ h)) (backed, ground arith)
    ]
  where
    Enough : EncodedImage → Type 0
    Enough i = Backed i × (required ≤ i.size)

pub emptied-holding :
    (image : EncodedImage) (b : Bytes) → image.buffer ≡ some b → emptied image ≡ holding image [] b
emptied-holding image b e =
    ap (λ o. let i : EncodedImage = record image { buffer = o; length = 0 } in i) e

-- A run of the second loop that throws leaves the buffer as long as it was.
pub copy_nals-thrown :
    (image : EncodedImage) (front rest : Bytes) (nals : List Nal)
    → AreStored nals
    → ¬ AreUnits nals
    → shares nals ≤ length rest
    → (f : Bytes) × (r : Bytes) × (copy_nals nals (holding image front rest)
        ≡ (thrown, holding image f r))
      × (length (f ++ r) ≡ length (front ++ rest))
unfolding copy_nals copy_nal
copy_nals-thrown image front rest [] ss n room = absurd (n tt)
copy_nals-thrown image front rest (nal ∷ nals) (s, ss) n room =
    elim (Bool-cases (leb 4 (length nal.payload))) [
      | inr e ↦ (
        front,
        rest,
        ended (check-false (leb 4 (pos_part nal.i_payload)) _ _ (ap (leb 4) s ∙ e)),
        refl,
      )
      | inl e ↦ behind (leb→le 4 _ e) (
          copy_nals-thrown image (front ++ unit) (drop (4 + length (content nal)) rest) nals ss
            (λ us. n (leb→le 4 _ e, us))
            (omega (
              arith,
              share-content nal (leb→le 4 _ e),
              length-drop (4 + length (content nal)) rest,
            )))
    ]
  where
    unit : Bytes
    unit = start_code ++ content nal

    ended :
        copy_nal nal (holding image front rest) ≡ (thrown, holding image front rest)
        → copy_nals (nal ∷ nals) (holding image front rest) ≡ (thrown, holding image front rest)
    ended t = ap (λ r. continue (λ f. copy_nals nals >>= λ fs. pure (f ∷ fs)) r.0 r.1) t

    behind :
        4 ≤ length nal.payload
        → (f : Bytes) × (r : Bytes) × (copy_nals nals
              (holding image (front ++ unit) (drop (4 + length (content nal)) rest))
            ≡ (thrown, holding image f r))
          × (length (f ++ r) ≡ length ((front ++ unit) ++ drop (4 + length (content nal)) rest))
        → (f : Bytes) × (r : Bytes) × (copy_nals (nal ∷ nals) (holding image front rest)
            ≡ (thrown, holding image f r))
          × (length (f ++ r) ≡ length (front ++ rest))
    behind u (f, r, t, l) = (
      f,
      r,
      ap (λ r. continue (λ f. copy_nals nals >>= λ fs. pure (f ∷ fs)) r.0 r.1)
            (copy_nal-holding image front rest nal s u (omega (arith, share-content nal u)))
          ∙ ap (λ r. continue (λ fs. pure (entry ∷ fs)) r.0 r.1) t,
      l ∙ same,
    )
      where
        entry : Fragment
        entry = record {
          offset = length front + 4;
          size = length (content nal);
          pl_type = 0;
          time_diff = 0;
        }

        same :
            length ((front ++ unit) ++ drop (4 + length (content nal)) rest)
            ≡ length (front ++ rest)
        same = omega (
          arith,
          share-content nal u,
          length-append front rest,
          length-append (front ++ unit) (drop (4 + length (content nal)) rest),
          length-append front unit,
          length-drop (4 + length (content nal)) rest,
        )
