-- ===== src/Audio/Chunks.antt =====
-- Sending audio cuts the stream of samples into full chunks and loses no byte.
use libcaffeine.Base.{
  ℕ, zero, suc, ◌+◌, ◌-◌, ◌≤◌, ◌<◌, ◌≡◌, refl, sym, ap, ◌∙◌, arith, min, true, Bool-cases, inl, inr,
  ◌==◌, ltb, ltb→lt, some, List, [], ◌∷◌, ◌++◌, length, take, drop, length-append, length-take,
  length-drop, append_assoc, append-nil, take_all,
}
use libcaffeine.Base.Bytes.{Bytes}
use libcaffeine.Audio.Copying.{take-append, take-take, flatten, flatten-append}
use libcaffeine.Audio.{
  AudioDevice, Copy, chunk_size, byte_count, copy_into, copied, set_to_copy, copy_round, copy_loop,
  start_copy, send_audio,
}

abbrev pub AllFull : List Bytes → Type 0
AllFull [] = Unit {0}
AllFull (c ∷ cs) = (length c ≡ chunk_size) × AllFull cs

AllFull-snoc :
    (cs : List Bytes) (c : Bytes) → AllFull cs → length c ≡ chunk_size → AllFull (cs ++ c ∷ [])
AllFull-snoc [] c h e = (e, tt)
AllFull-snoc (d ∷ cs) c h e = (h.0, AllFull-snoc cs c h.1 e)

-- A device between two calls: the buffer has its size and is not full.
pub record IsReady (d : AudioDevice) : Type 0 where
  pub sized : length d.buffer ≡ chunk_size
  pub inside : d.buffer_index < chunk_size
  pub transport : d.audio_transport ≡ true

-- The bytes that have been taken in and not been sent on.
abbrev pub pending : AudioDevice → Bytes
pending d = take d.buffer_index d.buffer

-- What holds before each round, `whole` being the bytes sent, waiting and still to come.
record Inv (whole : Bytes) (c : Copy) : Type 0 where
  ready : IsReady c.device
  room : c.remaining_buffer + c.buffer_index ≡ chunk_size
  enough : c.remaining_data ≤ length c.source
  next : c.to_copy ≡ min c.remaining_data c.remaining_buffer
  full : AllFull c.chunks
  stream : flatten c.chunks ++ (pending c.device ++ take c.remaining_data c.source) ≡ whole

-- The buffer after a copy of `n` bytes to `i`.
abbrev filled : Bytes → ℕ → Bytes → ℕ → Bytes
filled buffer i source n = take i buffer ++ (take n source ++ drop (i + n) buffer)

module _ (b : Bytes) (i : ℕ) (s : Bytes) (n : ℕ) (hi : i + n ≤ length b) (hn : n ≤ length s) where
  length-filled : length (filled b i s n) ≡ length b
  length-filled = omega (
    arith,
    length-append (take i b) (take n s ++ drop (i + n) b),
    length-append (take n s) (drop (i + n) b),
    length-take i b,
    length-take n s,
    length-drop (i + n) b,
  )

  take-filled : take (i + n) (filled b i s n) ≡ take i b ++ take n s
  take-filled =
      ap (take (i + n)) (sym (append_assoc (take i b) (take n s) (drop (i + n) b)))
      ∙ take-append (take i b ++ take n s) (drop (i + n) b) (i + n)
          (omega (arith, length-append (take i b) (take n s), length-take i b, length-take n s))

  -- The bytes after the copy, with the rest of the source, are those before it.
  stream-filled :
      (r : ℕ)
      → n ≤ r
      → take (i + n) (filled b i s n) ++ take (r - n) (drop n s) ≡ take i b ++ take r s
  stream-filled r h =
      ap (λ (t : Bytes). t ++ take (r - n) (drop n s)) take-filled
      ∙ append_assoc (take i b) (take n s) (take (r - n) (drop n s))
      ∙ ap (◌++◌ (take i b)) (take-take n r s h)

-- A round copies something and keeps the invariant.
abbrev Advances : Bytes → Copy → Type 0
Advances whole c =
    (c' : Copy) × (copy_round c ≡ some c') × Inv whole c' × (c'.remaining_data < c.remaining_data)

module _ (whole : Bytes) (c : Copy) (v : Inv whole c) (some_left : 0 < c.to_copy) where
  buffer' : Bytes
  buffer' = filled c.buffer c.buffer_index c.source c.to_copy

  copy_into-buffer' : copy_into c.buffer c.buffer_index c.source c.to_copy ≡ some buffer'
  unfolding copy_into buffer'
  copy_into-buffer' = ground (arith, v, v.enough, v.next)

  length-buffer' : length buffer' ≡ chunk_size
  unfolding buffer'
  length-buffer' =
      length-filled c.buffer c.buffer_index c.source c.to_copy (omega (arith, v, v.ready))
        (omega (arith, v))
      ∙ v.ready.sized

  stream-buffer' :
      take (c.buffer_index + c.to_copy) buffer'
        ++ take (c.remaining_data - c.to_copy) (drop c.to_copy c.source)
      ≡ pending c.device ++ take c.remaining_data c.source
  unfolding buffer'
  stream-buffer' =
      stream-filled c.buffer c.buffer_index c.source c.to_copy (omega (arith, v, v.ready))
        (omega (arith, v)) c.remaining_data (omega (arith, v))

  round_partial : c.to_copy < c.remaining_buffer → Advances whole c
  unfolding copy_round
  round_partial h = (
    set_to_copy (copied c buffer'),
    rw (copy_into-buffer', copy_round) (ground arith),
    record {
      ready = record {
        sized = length-buffer';
        inside = omega (arith, v, v.ready);
        transport = v.ready.transport;
      };
      room = omega (arith, v);
      enough = omega (arith, v, length-drop c.to_copy c.source);
      next = refl;
      full = v.full;
      stream = ap (◌++◌ (flatten c.chunks)) stream-buffer' ∙ v.stream;
    },
    omega (arith, v),
  )

  stream-full :
      c.to_copy ≡ c.remaining_buffer
      → flatten (c.chunks ++ buffer' ∷ [])
          ++ take (c.remaining_data - c.to_copy) (drop c.to_copy c.source)
        ≡ whole
  stream-full h =
      ap (λ (t : Bytes). t ++ rest) (flatten-append c.chunks (buffer' ∷ []))
      ∙ append_assoc (flatten c.chunks) (buffer' ++ []) rest
      ∙ ap (λ (t : Bytes). flatten c.chunks ++ (t ++ rest)) (append-nil buffer' ∙ sym all_of_it)
      ∙ ap (◌++◌ (flatten c.chunks)) stream-buffer'
      ∙ v.stream
    where
      rest : Bytes
      rest = take (c.remaining_data - c.to_copy) (drop c.to_copy c.source)

      all_of_it : take (c.buffer_index + c.to_copy) buffer' ≡ buffer'
      all_of_it =
          take_all (c.buffer_index + c.to_copy) buffer' (omega (arith, v, v.ready, length-buffer'))

  round_full : c.to_copy ≡ c.remaining_buffer → Advances whole c
  unfolding copy_round
  round_full h = (
    set_to_copy (record (copied c buffer') {
      chunks = c.chunks ++ (buffer' ∷ []);
      device = record (c.device) { buffer = buffer'; buffer_index = 0 };
      remaining_buffer = length buffer';
    }),
    rw (copy_into-buffer', copy_round) (ground (arith, v.ready.transport)),
    record {
      ready = record {
        sized = length-buffer';
        inside = omega arith;
        transport = v.ready.transport;
      };
      room = omega (arith, length-buffer');
      enough = omega (arith, v, length-drop c.to_copy c.source);
      next = refl;
      full = AllFull-snoc c.chunks buffer' v.full length-buffer';
      stream = stream-full h;
    },
    omega (arith, v),
  )

copy_round-Advances : (whole : Bytes) (c : Copy) → Inv whole c → 0 < c.to_copy → Advances whole c
copy_round-Advances whole c v h = elim (Bool-cases (ltb c.to_copy c.remaining_buffer)) [
  | inl less ↦ round_partial whole c v h (ltb→lt _ _ less)
  | inr full ↦ round_full whole c v h (ground (arith, v.next, full))
]

-- The loop ends by its test, with the invariant.
copy_loop-Inv :
    (fuel : ℕ) (whole : Bytes) (c : Copy)
    → Inv whole c
    → c.remaining_data < fuel
    → (c' : Copy) × (copy_loop fuel c ≡ some c') × Inv whole c' × (c'.to_copy ≡ 0)
unfolding copy_loop
copy_loop-Inv zero whole c v h = absurd (omega arith)
copy_loop-Inv (suc fuel) whole c v h = elim (Bool-cases (c.to_copy == 0)) [
  | inl stop ↦ (c, rw (stop, copy_loop), v, ground (arith, stop))
  | inr go ↦
      let (d, e, w, less) = copy_round-Advances whole c v (ground (arith, go)) in
      let (c', f, w', z) = copy_loop-Inv fuel whole d w (omega arith) in
      (c', rw (go, copy_loop, e, f), w', z)
]

-- What one call of `sendAudio` does to the stream: it returns, the device stays ready, what it
-- delivers are full chunks, and those chunks with the bytes that are left waiting are the bytes
-- that waited before with the given ones behind.
abbrev pub Streams : AudioDevice → Bytes → ℕ → Type 0
Streams d source n =
    (chunks : List Bytes) × (d' : AudioDevice) × (send_audio d source n ≡ some (chunks, d'))
    × IsReady d'
    × AllFull chunks
    × (flatten chunks ++ pending d' ≡ pending d ++ take (byte_count n) source)

start_copy-Inv :
    (d : AudioDevice) (source : Bytes) (n : ℕ)
    → IsReady d
    → byte_count n ≤ length source
    → Inv (pending d ++ take (byte_count n) source) (start_copy d source n)
unfolding start_copy
start_copy-Inv d source n r h = record {
  ready = r;
  room = omega (arith, r);
  enough = h;
  next = refl;
  full = tt;
  stream = refl;
}

nothing_left : {whole : Bytes} {c : Copy} → Inv whole c → c.to_copy ≡ 0 → 0 ≡ c.remaining_data
nothing_left w z = omega (arith, w.ready, w.next, w.room, z)

-- If the device is ready (its buffer has the size of a chunk and is not full, and a callback is
-- registered) and the given samples are all there, then `sendAudio` returns, with the device ready
-- again; it delivers only full chunks; and these chunks, with the bytes that are left waiting, are
-- the bytes that waited before with the given ones behind them.
pub send_audio-Streams :
    (d : AudioDevice) (source : Bytes) (n : ℕ)
    → IsReady d
    → byte_count n ≤ length source
    → Streams d source n
unfolding send_audio
send_audio-Streams d source n r h =
    let v = start_copy-Inv d source n r h in
    let (c, e, w, z) =
      copy_loop-Inv (suc (byte_count n)) (pending d ++ take (byte_count n) source)
        (start_copy d source n) v (omega arith) in
    (
      c.chunks,
      c.device,
      rw (e, send_audio),
      w.ready,
      w.full,
      ap (◌++◌ (flatten c.chunks)) (
            sym (append-nil (pending c.device))
            ∙ ap (λ m. pending c.device ++ take m c.source) (nothing_left w z))
          ∙ w.stream,
    )
