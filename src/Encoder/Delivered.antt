-- ===== src/Encoder/Delivered.antt =====
-- The results of `rtpFragmentize`: what the header says, what the image holds, and how it ends.
use libcaffeine.Base.{
  ℕ, ◌+◌, ◌≤◌, ◌<◌, ◌≡◌, sym, ap, ◌∙◌, arith, ◌⊎◌, inl, inr, some, List, [], ◌++◌, length, drop,
  length-append, length-drop,
}
use libcaffeine.Base.Bytes.{Bytes}
use libcaffeine.Base.Outcome.{Outcome, done, thrown, M, continue}
use libcaffeine.Encoder.{Nal, Fragment, EncodedImage}
use libcaffeine.Encoder.Fragments.{
  size_limit, Memory, grow, refill, required_size, copy_nals, rtp_fragmentize,
}
use libcaffeine.Encoder.Content.{
  annex_b, contents, cut_all, entries, AreStored, AreUnits, cut_all-entries,
}
use libcaffeine.Encoder.Required.{shares, shares-annex_b, required_size-done, required_size-cases}
use libcaffeine.Encoder.Copying.{holding, copy_nals-holding}
use libcaffeine.Encoder.Units.{
  IsMemory, Backed, AreUnits-cases, grow-Backed, emptied-holding, copy_nals-thrown,
}

module _ (mem : Memory) (memory : IsMemory mem) (width height : ℕ) (nals : List Nal)
    (image : EncodedImage) (stored : AreStored nals) (backed : Backed image)
    (room : shares nals < size_limit) where
  abbrev grown : EncodedImage
  grown = grow mem width height (shares nals) image

  -- After the first loop, the second one starts with the grown buffer.
  abbrev Ready : Type 0
  Ready =
      (b : Bytes) × (rtp_fragmentize mem width height nals image
        ≡ copy_nals nals (holding grown [] b))
      × (length b ≡ grown.size)
      × (shares nals ≤ length b)

  ready : required_size nals 0 image ≡ (done (shares nals), image) → Ready
  unfolding rtp_fragmentize refill
  ready e = go (grow-Backed mem memory width height (shares nals) image backed)
    where
      go : Backed grown × (shares nals ≤ grown.size) → Ready
      go ((b, f, l), n) = (
        b,
        ap (λ r. continue (refill mem width height nals) r.0 r.1) e
            ∙ ap (copy_nals nals) (emptied-holding grown b f),
        l,
        omega (arith, l, n),
      )

  zero_first :
      (o : M EncodedImage ℕ)
      → o image ≡ (done (0 + shares nals), image)
      → o image ≡ (done (shares nals), image)
  zero_first o e = e ∙ ap (λ n. (done n, image)) (omega arith)

  abbrev Done : Type 0
  Done =
      (i : EncodedImage) × (rest : Bytes) × (rtp_fragmentize mem width height nals image
        ≡ (done (entries 0 nals), holding i (annex_b nals) rest))
      × (length (annex_b nals ++ rest) ≡ i.size)

  units-Done : AreUnits nals → Done
  units-Done us = go (
      ready (
        zero_first (required_size nals 0)
          (required_size-done nals 0 image stored us (omega arith))))
    where
      go : Ready → Done
      go (b, e, l, n) = (
        grown,
        drop (length (annex_b nals)) b,
        e ∙ copy_nals-holding grown [] b nals stored us (omega (arith, shares-annex_b nals us)),
        omega (
          arith,
          l,
          n,
          shares-annex_b nals us,
          length-append (annex_b nals) (drop (length (annex_b nals)) b),
          length-drop (length (annex_b nals)) b,
        ),
      )

  -- What is run again from its result.
  abbrev result : Outcome (List Fragment) × EncodedImage
  result = rtp_fragmentize mem width height nals image

  -- If `new` gives as many bytes as it is asked for, the image has a buffer of the size that it keeps,
  -- and the units have the sizes of their memory, are at least four bytes long each, and need less
  -- than 2^64 bytes in all, then `rtpFragmentize` returns; the image then begins with the units, each
  -- behind a start code of four bytes, its length counts exactly these bytes, and the entries of the
  -- header follow one another as these units do.
  pub rtp_fragmentize-annex_b :
      AreUnits nals
      → (rest : Bytes) × (result.0 ≡ done (entries 0 nals))
        × (result.1.buffer ≡ some (annex_b nals ++ rest))
        × (result.1.length ≡ length (annex_b nals))
  rtp_fragmentize-annex_b us = go (units-Done us)
    where
      go :
          Done
          → (rest : Bytes) × (result.0 ≡ done (entries 0 nals))
            × (result.1.buffer ≡ some (annex_b nals ++ rest))
            × (result.1.length ≡ length (annex_b nals))
      go (i, rest, e, l) = (rest, ap (λ r. r.0) e, ap (λ r. r.1.buffer) e, ap (λ r. r.1.length) e)

  -- If `new` gives as many bytes as it is asked for, the image has a buffer of the size that it keeps,
  -- and the units have the sizes of their memory, are at least four bytes long each, and need less
  -- than 2^64 bytes in all, then `rtpFragmentize` returns a header whose entries, cut out of the image,
  -- give back the contents of the units in their order, without start codes.
  pub rtp_fragmentize-contents :
      AreUnits nals
      → (fs : List Fragment) × (b : Bytes) × (result.0 ≡ done fs)
        × (result.1.buffer ≡ some b)
        × (cut_all b fs ≡ contents nals)
  rtp_fragmentize-contents us = go (rtp_fragmentize-annex_b us)
    where
      go :
          (rest : Bytes) × (result.0 ≡ done (entries 0 nals))
            × (result.1.buffer ≡ some (annex_b nals ++ rest))
            × (result.1.length ≡ length (annex_b nals))
          → (fs : List Fragment) × (b : Bytes) × (result.0 ≡ done fs)
            × (result.1.buffer ≡ some b)
            × (cut_all b fs ≡ contents nals)
      go (rest, e, f, l) =
          (entries 0 nals, annex_b nals ++ rest, e, f, cut_all-entries [] rest nals)

  -- A full list of units is copied whole, any other throws; the image keeps a buffer of its size.
  abbrev pub Settled : Type 0
  Settled =
      Backed result.1
      × ((AreUnits nals × (result.0 ≡ done (entries 0 nals)))
          ⊎ (¬ AreUnits nals × (result.0 ≡ thrown)))

  finished : AreUnits nals → Done → Settled
  finished us (i, rest, e, l) = (
    (annex_b nals ++ rest, ap (λ r. r.1.buffer) e, l ∙ sym (ap (λ r. r.1.size) e)),
    inl (us, ap (λ r. r.0) e),
  )

  stopped : ¬ AreUnits nals → Ready → Settled
  stopped n (b, e, l, m) = go (copy_nals-thrown grown [] b nals stored n m)
    where
      go :
          (f : Bytes) × (r : Bytes) × (copy_nals nals (holding grown [] b)
              ≡ (thrown, holding grown f r))
            × (length (f ++ r) ≡ length ([] ++ b))
          → Settled
      go (f, r, t, k) = (
        (f ++ r, ap (λ x. x.1.buffer) (e ∙ t), k ∙ l ∙ sym (ap (λ x. x.1.size) (e ∙ t))),
        inr (n, ap (λ x. x.0) (e ∙ t)),
      )

  refused : ¬ AreUnits nals → result ≡ (thrown, image) → Settled
  refused n e = (
    (backed.0, ap (λ x. x.1.buffer) e ∙ backed.1, backed.2 ∙ sym (ap (λ x. x.1.size) e)),
    inr (n, ap (λ x. x.0) e),
  )

  -- If `new` gives as many bytes as it is asked for, the image has a buffer of the size that it keeps,
  -- and the units have the sizes of their memory and need less than 2^64 bytes in all, then
  -- `rtpFragmentize` never copies outside of its memory: it returns if every unit is at least four
  -- bytes long, and throws if one is not, and either way the image has a buffer of the size that it
  -- keeps afterwards.
  pub rtp_fragmentize-Settled : Settled
  unfolding rtp_fragmentize
  rtp_fragmentize-Settled = elim (AreUnits-cases nals) [
    | inl us ↦ finished us (units-Done us)
    | inr n ↦ elim (required_size-cases nals 0 image stored (omega arith)) [
      | inl e ↦ stopped n (ready (zero_first (required_size nals 0) e))
      | inr t ↦ refused n (ap (λ r. continue (refill mem width height nals) r.0 r.1) t)
    ]
  ]
