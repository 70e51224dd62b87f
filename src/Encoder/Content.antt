-- ===== src/Encoder/Content.antt =====
-- What the encoded image and its header should hold, independently of the loops that fill them.
use libcaffeine.Base.{
  ℕ, zero, suc, ◌+◌, ◌≤◌, ◌≡◌, refl, sym, ap, ◌∙◌, arith, List, [], ◌∷◌, ◌++◌, length, take, drop,
  length-append, append_assoc,
}
use libcaffeine.Base.Int.{pos_part}
use libcaffeine.Base.Bytes.{Bytes}
use libcaffeine.Audio.Copying.{take-append}
use libcaffeine.Encoder.{Nal, Fragment}
use libcaffeine.Encoder.Fragments.{start_code, start_code_size}

-- The bytes of a unit without its start code.
abbrev pub content : Nal → Bytes
content nal = drop (start_code_size nal) nal.payload

-- The units one behind the other, each with a start code of four bytes.
abbrev pub annex_b : List Nal → Bytes
annex_b [] = []
annex_b (nal ∷ nals) = (start_code ++ content nal) ++ annex_b nals

-- What a header's entry says of the bytes.
abbrev pub cut : Bytes → Fragment → Bytes
cut b f = take f.size (drop f.offset b)

abbrev pub cut_all : Bytes → List Fragment → List Bytes
cut_all b [] = []
cut_all b (f ∷ fs) = cut b f ∷ cut_all b fs

abbrev pub contents : List Nal → List Bytes
contents [] = []
contents (nal ∷ nals) = content nal ∷ contents nals

-- The size of a unit is that of the memory behind it, and no size is negative.
abbrev pub IsStored : Nal → Type 0
IsStored nal = pos_part nal.i_payload ≡ length nal.payload

abbrev pub AreStored : List Nal → Type 0
AreStored [] = Unit {0}
AreStored (nal ∷ nals) = IsStored nal × AreStored nals

-- Every unit is at least as long as a start code of four bytes.
abbrev pub AreUnits : List Nal → Type 0
AreUnits [] = Unit {0}
AreUnits (nal ∷ nals) = (4 ≤ length nal.payload) × AreUnits nals

-- The entries for units that stand from `at` on.
abbrev pub entries : ℕ → List Nal → List Fragment
entries at [] = []
entries at (nal ∷ nals) =
    record { offset = at + 4; size = length (content nal); pl_type = 0; time_diff = 0 }
    ∷ entries (at + (4 + length (content nal))) nals

pub drop-append :
    (front rest : Bytes) (n k : ℕ) → k ≡ length front + n → drop k (front ++ rest) ≡ drop n rest
drop-append [] rest n k h = ap (λ m. drop m rest) (let e : k ≡ n = omega arith in e)
drop-append (b ∷ front) rest n zero h = absurd (omega arith)
drop-append (b ∷ front) rest n (suc k) h = drop-append front rest n k (omega arith)

-- Cutting gives the contents back, whatever stands in front of the units and behind them.
pub cut_all-entries :
    (front rest : Bytes) (nals : List Nal)
    → cut_all (front ++ (annex_b nals ++ rest)) (entries (length front) nals) ≡ contents nals
cut_all-entries front rest [] = refl
cut_all-entries front rest (nal ∷ nals) =
    ap (λ c. c ∷ cut_all whole (entries (length front + (4 + m)) nals)) first
    ∙ ap (λ n. content nal ∷ cut_all whole (entries n nals))
        (let e : length front + (4 + m) ≡ length (front ++ unit) =
            omega (arith, length-append front unit) in
          e)
    ∙ ap (λ b. content nal ∷ cut_all b (entries (length (front ++ unit)) nals)) joined
    ∙ ap (◌∷◌ (content nal)) (cut_all-entries (front ++ unit) rest nals)
  where
    m : ℕ
    m = length (content nal)

    unit : Bytes
    unit = start_code ++ content nal

    whole : Bytes
    whole = front ++ (annex_b (nal ∷ nals) ++ rest)

    joined : whole ≡ (front ++ unit) ++ (annex_b nals ++ rest)
    joined =
        ap (λ b. front ++ b) (append_assoc unit (annex_b nals) rest)
        ∙ sym (append_assoc front unit (annex_b nals ++ rest))

    first : take m (drop (length front + 4) whole) ≡ content nal
    first =
        ap (take m) (drop-append front (annex_b (nal ∷ nals) ++ rest) 4 (length front + 4) refl)
        ∙ ap (take m) (append_assoc (content nal) (annex_b nals) rest)
        ∙ take-append (content nal) (annex_b nals ++ rest) m refl
