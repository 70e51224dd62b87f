-- ===== src/Audio.antt =====
-- src/AudioDevice.cpp: samples are gathered into chunks of ten milliseconds for WebRTC.
-- A buffer is a list of bytes, and the chunks that `audioTransport` receives are a list, oldest
-- first. `none` stands for undefined behaviour: a read past the samples, or no transport.
pub mod Copying
pub mod Chunks
use libcaffeine.Base.{ℕ, zero, suc, ◌+◌, ◌-◌, ◌*◌, ◌/◌, ◌%◌, ◌^◌, min, ltb, ◌==◌, if◌then◌else◌}
use libcaffeine.Base.{Bool, true, false, Option, none, some, List, [], ◌∷◌, ◌++◌}
use libcaffeine.Base.{length, take, drop, replicate}
use libcaffeine.Base.Bytes.{Bytes}
use libcaffeine.Policy.{sample_rate, sample_size, channels}

abbrev pub chunk_samples : ℕ
chunk_samples = sample_rate / 100

abbrev pub chunk_size : ℕ
chunk_size = chunk_samples * sample_size * channels

-- `audio_transport` says whether one has been registered.
pub record AudioDevice : Type 0 where
  pub buffer : Bytes
  pub buffer_index : ℕ
  pub audio_transport : Bool

-- The constructor; WebRTC registers its transport later.
unfoldable pub new : AudioDevice
new = record { buffer = replicate chunk_size 0; buffer_index = 0; audio_transport = false }

unfoldable pub register_audio_callback : Bool → AudioDevice → AudioDevice
register_audio_callback transport d = record d { audio_transport = transport }

-- The loop's variables: `source` is the rest of the samples, from the pointer `data` on.
pub record Copy : Type 0 where
  pub device : AudioDevice
  pub open device use *
  pub source : Bytes
  pub remaining_data : ℕ
  pub remaining_buffer : ℕ
  pub to_copy : ℕ
  pub chunks : List Bytes

-- `memcpy(&buffer[at], source, n)`.
unfoldable pub copy_into : Bytes → ℕ → Bytes → ℕ → Option Bytes
copy_into buffer at source n =
    if ltb (length source) n
    then none
    else some (take at buffer ++ (take n source ++ drop (at + n) buffer))

set_to_copy : Copy → Copy
set_to_copy c = record c { to_copy = min c.remaining_data c.remaining_buffer }

-- A full buffer goes to the transport.
unfoldable pub deliver : Copy → Option Copy
deliver c =
    if c.remaining_buffer == 0
    then (if c.audio_transport
        then some (record c {
          chunks = c.chunks ++ (c.buffer ∷ []);
          device = record (c.device) { buffer_index = 0 };
          remaining_buffer = length c.buffer;
        })
        else none)
    else some c

copied : Copy → Bytes → Copy
copied c buffer = record c {
  device = record (c.device) { buffer = buffer; buffer_index = c.buffer_index + c.to_copy };
  source = drop c.to_copy c.source;
  remaining_data = c.remaining_data - c.to_copy;
  remaining_buffer = c.remaining_buffer - c.to_copy;
}

-- One round of the loop.
unfoldable pub copy_round : Copy → Option Copy
unfolding copied deliver set_to_copy copy_into
copy_round c = elim (copy_into c.buffer c.buffer_index c.source c.to_copy) [
  | none ↦ none
  | some buffer ↦ elim (deliver (copied c buffer)) [ none ↦ none | some c' ↦ some (set_to_copy c') ]
]

-- `while (toCopy)`, for at most as many rounds as there is fuel.
unfoldable pub copy_loop : ℕ → Copy → Option Copy
copy_loop zero c = none
copy_loop (suc fuel) c = elim (c.to_copy == 0) [
  | true ↦ some c
  | false ↦ elim (copy_round c) [ none ↦ none | some c' ↦ copy_loop fuel c' ]
]

-- The byte count is a `size_t`.
abbrev pub byte_count : ℕ → ℕ
byte_count samples_per_channel = samples_per_channel * channels * sample_size % 2 ^ 64

unfoldable pub start_copy : AudioDevice → Bytes → ℕ → Copy
unfolding set_to_copy
start_copy d source samples_per_channel = set_to_copy (record {
  device = d;
  source = source;
  remaining_data = byte_count samples_per_channel;
  remaining_buffer = length d.buffer - d.buffer_index;
  to_copy = 0;
  chunks = [];
})

-- Each round copies a byte at least, so the byte count is fuel enough.
unfoldable pub send_audio : AudioDevice → Bytes → ℕ → Option (List Bytes × AudioDevice)
unfolding start_copy copy_loop copy_round
send_audio d source samples_per_channel =
    elim (copy_loop (suc (byte_count samples_per_channel))
      (start_copy d source samples_per_channel)) [
        | none ↦ none
        | some c ↦ some (c.chunks, c.device)
      ]
