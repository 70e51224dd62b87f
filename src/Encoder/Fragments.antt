-- ===== src/Encoder/Fragments.antt =====
-- `rtpFragmentize` of src/X264Encoder.cpp: the units of a frame are copied into the encoded image,
-- each behind a start code of four bytes.
use libcaffeine.Base.{
  ℕ, ◌+◌, ◌-◌, ◌%◌, ◌^◌, ltb, leb, if◌then◌else◌, Bool, false, Option, none, some, List, [], ◌∷◌,
  ◌++◌, length, take, drop,
}
use libcaffeine.Base.Int.{ℤ, pos, negsuc, pos_part}
use libcaffeine.Base.Bytes.{Bytes}
use libcaffeine.Base.Outcome.{done, M, pure, throw, fault, ◌>>=◌, ◌>>◌}
use libcaffeine.Encoder.{long_startcode_size, short_startcode_size, Nal, Fragment, EncodedImage}

abbrev pub size_limit : ℕ
size_limit = 2 ^ 64

abbrev pub start_code : Bytes
start_code = 0 ∷ 0 ∷ 0 ∷ 1 ∷ []

-- `CHECK_POSITIVE`.
unfoldable pub is_positive : ℤ → Bool
is_positive (pos n) = ltb 0 n
is_positive (negsuc n) = false

-- `CAFF_CHECK`.
abbrev pub check {ℓ} : {S : Type ℓ} → Bool → M S (Unit {0})
check b = if b then pure tt else throw

-- A short start code needs one byte more.
abbrev pub needed : Nal → ℕ → ℕ
needed nal required =
    if nal.long_startcode
    then (required + pos_part nal.i_payload) % size_limit
    else ((required + pos_part nal.i_payload) % size_limit + 1) % size_limit

-- The first loop, from a `requiredSize` on. It leaves the image alone.
unfoldable pub required_size : List Nal → ℕ → M EncodedImage ℕ
unfolding is_positive
required_size [] required = pure required
required_size (nal ∷ nals) required =
    check (is_positive nal.i_payload)
    >> (check (leb (pos_part nal.i_payload) (size_limit - 1 - required))
        >> required_size nals (needed nal required))

-- What is not the encoder's: `webrtc::CalcBufferSize` for I420, and the bytes that `new` gives.
pub record Memory : Type 0 where
  pub calc_buffer_size : ℕ → ℕ → ℕ
  pub new_bytes : ℕ → Bytes

module _ (mem : Memory) where
  unfoldable pub allocate : ℕ → EncodedImage → EncodedImage
  allocate n image = record image { buffer = some (mem.new_bytes n); size = n }

  -- The buffer grows to the size of an unencoded image, or more where that is not enough.
  unfoldable pub grow : ℕ → ℕ → ℕ → EncodedImage → EncodedImage
  unfolding allocate
  grow width height required image =
      if ltb image.size required
      then (let unencoded = mem.calc_buffer_size width height in
          allocate (if ltb unencoded required then required else unencoded) image)
      else image

-- `memcpy(_buffer + at, source, n)`, on the memory `b`.
abbrev pub splice : Bytes → ℕ → Bytes → ℕ → Bytes
splice b at source n = take at b ++ (take n source ++ drop (at + n) b)

-- `memcpy(_buffer + _length, source, n)`, then `_length += n`. It is undefined where it leaves the
-- memory of either side.
unfoldable pub copy_behind : Option Bytes → Bytes → ℕ → M EncodedImage (Unit {0})
copy_behind none source n image = fault image
copy_behind (some b) source n image =
    if leb n (length source)
    then (if leb (image.length + n) (length b)
        then (
          done tt,
          record image {
            buffer = some (splice b image.length source n);
            length = image.length + n;
          },
        )
        else fault image)
    else fault image

unfoldable pub push : Bytes → ℕ → M EncodedImage (Unit {0})
push source n image = copy_behind image.buffer source n image

abbrev pub start_code_size : Nal → ℕ
start_code_size nal = if nal.long_startcode then long_startcode_size else short_startcode_size

abbrev pub nalu_size : Nal → ℕ
nalu_size nal = pos_part nal.i_payload - start_code_size nal

-- The header's entry for the bytes that were copied last.
unfoldable pub fragment : ℕ → M EncodedImage Fragment
fragment n image =
    (done (record { offset = image.length - n; size = n; pl_type = 0; time_diff = 0 }), image)

-- A round of the second loop.
unfoldable pub copy_nal : Nal → M EncodedImage Fragment
unfolding push copy_behind fragment
copy_nal nal =
    check (leb 4 (pos_part nal.i_payload))
    >> (push start_code 4
        >> (push (drop (start_code_size nal) nal.payload) (nalu_size nal)
            >> fragment (nalu_size nal)))

unfoldable pub copy_nals : List Nal → M EncodedImage (List Fragment)
unfolding copy_nal
copy_nals [] = pure []
copy_nals (nal ∷ nals) = copy_nal nal >>= λ f. copy_nals nals >>= λ fs. pure (f ∷ fs)

-- The image is emptied before its units are copied.
abbrev pub emptied : EncodedImage → EncodedImage
emptied image = record image { length = 0 }

-- What follows the first loop.
unfoldable pub refill : Memory → ℕ → ℕ → List Nal → ℕ → M EncodedImage (List Fragment)
unfolding grow copy_nals
refill mem width height nals required image =
    copy_nals nals (emptied (grow mem width height required image))

unfoldable pub rtp_fragmentize : Memory → ℕ → ℕ → List Nal → M EncodedImage (List Fragment)
unfolding required_size refill
rtp_fragmentize mem width height nals = required_size nals 0 >>= refill mem width height nals
