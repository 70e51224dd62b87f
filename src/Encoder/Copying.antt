-- ===== src/Encoder/Copying.antt =====
-- The copying of units into the encoded image, step by step.
use libcaffeine.Base.{
  ℕ, zero, suc, ◌+◌, ◌≤◌, leb, if_true, le→leb, ◌≡◌, refl, sym, ap, ◌∙◌, arith, some, List, [], ◌∷◌,
  ◌++◌, length, take, drop, take_all, length-append, length-take, length-drop, append_assoc,
  append-nil,
}
use libcaffeine.Base.Bytes.{Bytes}
use libcaffeine.Base.Int.{pos_part}
use libcaffeine.Base.Outcome.{done, pure, continue, then_done, ◌>>=◌, ◌>>◌}
use libcaffeine.Audio.Copying.{take-append}
use libcaffeine.Encoder.{Nal, Fragment, EncodedImage}
use libcaffeine.Encoder.Fragments.{
  start_code, start_code_size, nalu_size, push, copy_behind, splice, copy_nal, copy_nals, fragment,
}
use libcaffeine.Encoder.Required.{check-true}
use libcaffeine.Encoder.Content.{
  content, annex_b, IsStored, AreStored, AreUnits, entries, drop-append,
}

-- An image that holds `front`, with `rest` behind it in the buffer.
abbrev pub holding : EncodedImage → Bytes → Bytes → EncodedImage
holding image front rest = record image { buffer = some (front ++ rest); length = length front }

content-size : (nal : Nal) → IsStored nal → nalu_size nal ≡ length (content nal)
content-size nal s = omega (arith, s, length-drop (start_code_size nal) nal.payload)

splice-append :
    (front rest source : Bytes) (n : ℕ)
    → splice (front ++ rest) (length front) source n ≡ (front ++ take n source) ++ drop n rest
splice-append front rest source n =
    ap (λ b. b ++ (take n source ++ drop (length front + n) (front ++ rest)))
      (take-append front rest (length front) refl)
    ∙ ap (λ b. front ++ (take n source ++ b)) (drop-append front rest n (length front + n) refl)
    ∙ sym (append_assoc front (take n source) (drop n rest))

push-holding :
    (image : EncodedImage) (front rest source : Bytes) (n : ℕ)
    → n ≤ length source
    → n ≤ length rest
    → push source n (holding image front rest)
      ≡ (done tt, holding image (front ++ take n source) (drop n rest))
unfolding push copy_behind
push-holding image front rest source n h k =
    if_true (leb n (length source)) _ _ (le→leb _ _ h)
    ∙ if_true (leb (length front + n) (length (front ++ rest))) _ _ (le→leb _ _ inside)
    ∙ ap (λ (b : Bytes). (done tt, record image { buffer = some b; length = length front + n }))
        (splice-append front rest source n)
    ∙ ap
        (λ m. (
          done tt,
          record image { buffer = some ((front ++ take n source) ++ drop n rest); length = m },
        ))
        longer
  where
    inside : length front + n ≤ length (front ++ rest)
    inside = omega (arith, length-append front rest)

    longer : length front + n ≡ length (front ++ take n source)
    longer = omega (arith, length-append front (take n source), length-take n source)

drop-drop : (a b k : ℕ) (xs : Bytes) → k ≡ a + b → drop b (drop a xs) ≡ drop k xs
drop-drop zero b k xs h = ap (λ n. drop n xs) (let e : b ≡ k = omega arith in e)
drop-drop (suc a) b zero xs h = absurd (omega arith)
drop-drop (suc a) zero (suc k) [] h = refl
drop-drop (suc a) (suc b) (suc k) [] h = refl
drop-drop (suc a) b (suc k) (x ∷ xs) h = drop-drop a b k xs (omega arith)

-- Its content and a start code of four bytes are added, and the entry says where the content is.
pub copy_nal-holding :
    (image : EncodedImage) (front rest : Bytes) (nal : Nal)
    → IsStored nal
    → 4 ≤ length nal.payload
    → 4 + length (content nal) ≤ length rest
    → copy_nal nal (holding image front rest) ≡ (
      done (record {
        offset = length front + 4;
        size = length (content nal);
        pl_type = 0;
        time_diff = 0;
      }),
      holding image (front ++ (start_code ++ content nal)) (drop (4 + length (content nal)) rest),
    )
unfolding copy_nal fragment
copy_nal-holding image front rest nal s u room =
    check-true (leb 4 (pos_part nal.i_payload)) _ _ (le→leb _ _ (omega (arith, s, u)))
    ∙ then_done (push start_code 4) (push (content nal) (nalu_size nal) >> fragment (nalu_size nal))
        (holding image front rest)
        (push-holding image front rest start_code 4 (omega arith) (omega arith))
    ∙ then_done (push (content nal) (nalu_size nal)) (fragment (nalu_size nal))
        (holding image before (drop 4 rest))
        (push-holding image (front ++ start_code) (drop 4 rest) (content nal) (nalu_size nal)
          (omega (arith, size)) (omega (arith, size, length-drop 4 rest)))
    ∙ ap (λ n. fragment n (holding image (before ++ take n (content nal)) (drop n (drop 4 rest))))
        size
    ∙ ap (λ c. fragment m (holding image (before ++ c) (drop m (drop 4 rest))))
        (take_all m (content nal) (omega arith))
    ∙ ap (λ b. fragment m (holding image b (drop m (drop 4 rest))))
        (append_assoc front start_code (content nal))
    ∙ ap (λ b. fragment m (holding image (front ++ (start_code ++ content nal)) b))
        (drop-drop 4 m (4 + m) rest refl)
    ∙ ap
        (λ o. (
          done (record { offset = o; size = m; pl_type = 0; time_diff = 0 }),
          holding image (front ++ (start_code ++ content nal)) (drop (4 + m) rest),
        ))
        (omega (arith, length-append front (start_code ++ content nal)))
  where
    m : ℕ
    m = length (content nal)

    before : Bytes
    before = front ++ start_code

    size : nalu_size nal ≡ length (content nal)
    size = content-size nal s

-- So do all of them, one behind the other.
pub copy_nals-holding :
    (image : EncodedImage) (front rest : Bytes) (nals : List Nal)
    → AreStored nals
    → AreUnits nals
    → length (annex_b nals) ≤ length rest
    → copy_nals nals (holding image front rest) ≡ (
      done (entries (length front) nals),
      holding image (front ++ annex_b nals) (drop (length (annex_b nals)) rest),
    )
unfolding copy_nals
copy_nals-holding image front rest [] ss us room =
    ap (λ b. (done [], holding image b rest)) (sym (append-nil front))
copy_nals-holding image front rest (nal ∷ nals) (s, ss) (u, us) room =
    ap (λ r. continue (λ f. copy_nals nals >>= λ fs. pure (f ∷ fs)) r.0 r.1)
      (copy_nal-holding image front rest nal s u (omega (arith, joined)))
    ∙ ap (λ r. continue (λ fs. pure (entry ∷ fs)) r.0 r.1)
        (copy_nals-holding image (front ++ unit) (drop (4 + length (content nal)) rest) nals ss us
          (omega (arith, joined, length-drop (4 + length (content nal)) rest)))
    ∙ ap
        (λ n. (
          done (entry ∷ entries n nals),
          holding image ((front ++ unit) ++ annex_b nals)
              (drop (length (annex_b nals)) (drop (4 + length (content nal)) rest)),
        ))
        (let e : length (front ++ unit) ≡ length front + (4 + length (content nal)) =
            omega (arith, length-append front unit) in
          e)
    ∙ ap
        (λ b. (
          done (entries (length front) (nal ∷ nals)),
          holding image b (drop (length (annex_b nals)) (drop (4 + length (content nal)) rest)),
        ))
        (append_assoc front unit (annex_b nals))
    ∙ ap
        (λ b. (
          done (entries (length front) (nal ∷ nals)),
          holding image (front ++ annex_b (nal ∷ nals)) b,
        ))
        (drop-drop (4 + length (content nal)) (length (annex_b nals))
          (length (annex_b (nal ∷ nals))) rest (omega (arith, joined)))
  where
    unit : Bytes
    unit = start_code ++ content nal

    entry : Fragment
    entry = record {
      offset = length front + 4;
      size = length (content nal);
      pl_type = 0;
      time_diff = 0;
    }

    joined : length (annex_b (nal ∷ nals)) ≡ 4 + (length (content nal) + length (annex_b nals))
    joined = omega (arith, length-append (content nal) (annex_b nals))
