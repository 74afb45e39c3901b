-- ===== src/Acp/Codec/RoundTrip.antt =====
-- `ReadFrame` against `WriteFrame`, and what `ReadFrame` does on any other input.

use ai_agent_cloud_runtime.Prelude.{
  ℕ, ◌^◌, ◌≤◌, ◌<◌, ◌≡◌, refl, none, List, [], ◌∷◌, ◌++◌, append_assoc, length, length-append, take,
  drop, take-length_append, drop-length_append, ok, wrap_err, ◌>>=◌, arith,
}
use ai_agent_cloud_runtime.Acp.Frame.{magic, version, Frame, IsFrame, max_payload_size}
use ai_agent_cloud_runtime.Acp.Codec.{
  put_uint64, uint64_be, put_uvarint, frame_bytes, buffer_write, write_frame, read_full,
  read_uvarint, read_body, max_varint_len64, read_len, read_after_head, read_frame,
}
use ai_agent_cloud_runtime.Acp.Codec.Uvarint.{read_uvarint-put_uvarint}

pub uint64_be-put_uint64 : (v : ℕ) → v < 2 ^ 64 → uint64_be (put_uint64 v) ≡ v
unfolding put_uint64 uint64_be
uint64_be-put_uint64 v h = omega arith

empty_of_length : (xs : List ℕ) → length xs ≡ 0 → xs ≡ []
empty_of_length [] h = refl
empty_of_length (x ∷ xs) h = absurd (omega arith)

pub read_full-append :
    (n : ℕ) (xs ys : List ℕ) → length xs ≡ n → read_full n (xs ++ ys) ≡ ok (xs, ys)
unfolding read_full
read_full-append n xs ys h =
    let taken : take n (xs ++ ys) ≡ xs = rw (← h) (take-length_append xs ys) in
    let dropped : drop n (xs ++ ys) ≡ ys = rw (← h) (drop-length_append xs ys) in
    ground (arith, length-append xs ys)

read_body-append :
    (f : Frame) (ys : List ℕ)
    → length f.payload ≤ max_payload_size
    → read_body (record f { payload = [] }) (length f.payload) (f.payload ++ ys) ≡ ok (f, ys)
unfolding read_body
read_body-append f ys h =
    ground (arith, read_full-append (length f.payload) f.payload ys refl, empty_of_length f.payload)

head_bytes : Frame → List ℕ
head_bytes f = magic ∷ version ∷ f.type ∷ f.flags ∷ put_uint64 f.seq

frame_bytes-append :
    (f : Frame) (rest : List ℕ)
    → frame_bytes f ++ rest
      ≡ head_bytes f ++ (put_uvarint max_varint_len64 (length f.payload) ++ (f.payload ++ rest))
unfolding frame_bytes head_bytes put_uint64
frame_bytes-append f rest = simp append_assoc

read_after_head-head_bytes :
    (f : Frame) (r : List ℕ)
    → read_after_head (head_bytes f) r ≡ (
        wrap_err read_len (read_uvarint r) >>= λ p.
        read_body (record f { seq = uint64_be (put_uint64 f.seq); payload = [] }) p.0 p.1)
unfolding read_after_head head_bytes put_uint64
read_after_head-head_bytes f r = refl

-- A frame that `WriteFrame` accepts is read back, and what follows it is left in the reader.
pub read_frame-frame_bytes :
    (f : Frame) (rest : List ℕ) → IsFrame f → read_frame (frame_bytes f ++ rest) ≡ ok (f, rest)
unfolding read_frame
read_frame-frame_bytes f rest h = rw frame_bytes-append (
    rw (read_full-append 12 (head_bytes f) _ (unfold head_bytes put_uint64 in refl)) (
      rw read_after_head-head_bytes (
        rw
          (read_uvarint-put_uvarint (length f.payload) (f.payload ++ rest)
            (omega (arith, h.payload_fits)))
          (rw (uint64_be-put_uint64 f.seq h.seq_u64) (read_body-append f rest h.payload_fits)))))

-- A frame within the limits is written without error, and `ReadFrame` reads the same frame back
-- from the bytes written; whatever follows those bytes is left in the reader.
pub read_frame-write_frame :
    (f : Frame) (rest : List ℕ)
    → IsFrame f
    → ((write_frame buffer_write f []).1 ≡ none)
      × (read_frame ((write_frame buffer_write f []).0 ++ rest) ≡ ok (f, rest))
unfolding write_frame
read_frame-write_frame f rest h = ground (arith, read_frame-frame_bytes f rest h, h.payload_fits)
