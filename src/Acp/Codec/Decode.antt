-- ===== src/Acp/Codec/Decode.antt =====
-- `ReadFrame` on any input: what it accepts, and what it does when the stream ends early.

use ai_agent_cloud_runtime.Prelude.{
  ℕ, zero, suc, ◌+◌, ◌≡◌, List, [], ◌∷◌, ◌++◌, append-nil, length-append, take, drop, get_or,
  take-append_le, drop-append_le, Result-cases, Bool-cases, ok, err, arith, Bool, true, false, inl,
  inr,
}
use ai_agent_cloud_runtime.Acp.Frame.{Frame, IsFrame}
use ai_agent_cloud_runtime.Acp.Codec.{
  ReadError, read_head, read_len, read_payload, UvarintError, uvarint_io, or_group, uint64_be,
  frame_bytes, read_full, read_uvarint_loop, read_uvarint, read_body, read_after_head, read_frame,
}
use ai_agent_cloud_runtime.Acp.Codec.RoundTrip.{read_frame-frame_bytes}

-- More input does not change what was read.
read_full-more :
    (n : ℕ) (r m : List ℕ) {a b : List ℕ}
    → read_full n r ≡ ok (a, b)
    → read_full n (r ++ m) ≡ ok (a, b ++ m)
unfolding read_full
read_full-more n r m h =
    ground (arith, length-append r m, take-append_le n r m, drop-append_le n r m)

read_uvarint_loop-more :
    (k x s : ℕ) (r m : List ℕ) (v : ℕ) (rest : List ℕ)
    → read_uvarint_loop k x s r ≡ ok (v, rest)
    → read_uvarint_loop k x s (r ++ m) ≡ ok (v, rest ++ m)
unfolding read_uvarint_loop
read_uvarint_loop-more zero x s r m v rest h = cc
read_uvarint_loop-more (suc k) x s [] m v rest h = cc
read_uvarint_loop-more (suc k) x s (b ∷ r) m v rest h =
    ground (arith, read_uvarint_loop-more k (or_group x b s) (s + 7) r m v rest)

-- the frame so far, when the head is accepted
abbrev pub headed : List ℕ → Frame
headed head = record {
  type = get_or head 2 0;
  flags = get_or head 3 0;
  seq = uint64_be (take 8 (drop 4 head));
  payload = [];
}

read_body-more :
    (f : Frame) (len : ℕ) (r m : List ℕ) (g : Frame) (rest : List ℕ)
    → read_body f len r ≡ ok (g, rest)
    → read_body f len (r ++ m) ≡ ok (g, rest ++ m)
unfolding read_body
read_body-more f len r m g rest h = elim (Result-cases (read_full len r)) [
  | inl ((a, b), e) ↦ ground (arith, read_full-more len r m e)
  | inr (x, e) ↦ ground arith
]

read_after_head-more :
    (head r m : List ℕ) (g : Frame) (rest : List ℕ)
    → read_after_head head r ≡ ok (g, rest)
    → read_after_head head (r ++ m) ≡ ok (g, rest ++ m)
unfolding read_after_head read_uvarint
read_after_head-more head r m g rest h = elim (Result-cases (read_uvarint_loop 10 0 0 r)) [
  | inl ((n, r'), e) ↦
      ground (
        arith,
        read_uvarint_loop-more 10 0 0 r m n r' e,
        read_body-more (headed head) n r' m g rest,
      )
  | inr (x, e) ↦ ground arith
]

read_frame-more :
    (r m : List ℕ) (g : Frame) (rest : List ℕ)
    → read_frame r ≡ ok (g, rest)
    → read_frame (r ++ m) ≡ ok (g, rest ++ m)
unfolding read_frame
read_frame-more r m g rest h = elim (Result-cases (read_full 12 r)) [
  | inl ((head, r'), e) ↦
      ground (arith, read_full-more 12 r m e, read_after_head-more head r' m g rest)
  | inr (x, e) ↦ ground arith
]

-- Whether an error says that the stream ended, and not that the bytes break the protocol.
pub is_io : ReadError → Bool
is_io (read_head e) = true
is_io (read_len (uvarint_io e)) = true
is_io (read_payload e) = true
is_io _ = false

-- More input does not mend a protocol error.
read_uvarint_loop_breach :
    (k x s : ℕ) (r m : List ℕ) (e : UvarintError)
    → read_uvarint_loop k x s r ≡ err e
    → is_io (read_len e) ≡ false
    → read_uvarint_loop k x s (r ++ m) ≡ err e
unfolding read_uvarint_loop is_io
read_uvarint_loop_breach zero x s r m e h p = h
read_uvarint_loop_breach (suc k) x s [] m e h p = ground arith
read_uvarint_loop_breach (suc k) x s (b ∷ r) m e h p =
    ground (arith, read_uvarint_loop_breach k (or_group x b s) (s + 7) r m e)

read_body_breach :
    (f : Frame) (len : ℕ) (r m : List ℕ) (e : ReadError)
    → read_body f len r ≡ err e
    → is_io e ≡ false
    → read_body f len (r ++ m) ≡ err e
unfolding read_body is_io
read_body_breach f len r m e h p = ground arith

read_after_head_breach :
    (head r m : List ℕ) (e : ReadError)
    → read_after_head head r ≡ err e
    → is_io e ≡ false
    → read_after_head head (r ++ m) ≡ err e
unfolding read_after_head read_uvarint
read_after_head_breach head r m e h p = elim (Result-cases (read_uvarint_loop 10 0 0 r)) [
  | inl ((n, r'), q) ↦
      ground
        (arith, read_uvarint_loop-more 10 0 0 r m n r' q, read_body_breach (headed head) n r' m e)
  | inr (x, q) ↦ ground (arith, read_uvarint_loop_breach 10 0 0 r m x q)
]

read_frame_breach :
    (r m : List ℕ) (e : ReadError)
    → read_frame r ≡ err e
    → is_io e ≡ false
    → read_frame (r ++ m) ≡ err e
unfolding read_frame
read_frame_breach r m e h p = elim (Result-cases (read_full 12 r)) [
  | inl ((head, r'), q) ↦
      ground (arith, read_full-more 12 r m q, read_after_head_breach head r' m e)
  | inr (x, q) ↦ unfold is_io in ground arith
]

-- Of a written frame, a reader whose stream ends anywhere before its last byte returns no frame:
-- it reports an error of the stream, and not a violation of the protocol.
pub read_frame_truncated :
    (f : Frame) (front back : List ℕ) (x : ℕ)
    → IsFrame f
    → frame_bytes f ≡ front ++ (x ∷ back)
    → (e : ReadError) × (read_frame front ≡ err e) × (is_io e ≡ true)
read_frame_truncated f front back x h eq = elim (Result-cases (read_frame front)) [
  | inl ((g, rest), r) ↦ absurd (
      ground
        (arith, read_frame-more front (x ∷ back) g rest r, whole, length-append rest (x ∷ back)))
  | inr (e, r) ↦ elim (Bool-cases (is_io e)) [
    | inl p ↦ (e, r, p)
    | inr p ↦ cc (whole, read_frame_breach front (x ∷ back) e r p)
  ]
]
  where
    whole : read_frame (front ++ (x ∷ back)) ≡ ok (f, [])
    whole = rw (append-nil, eq) at (read_frame-frame_bytes f [] h)
