-- ===== src/Acp/Codec/Bounds.antt =====
-- What `ReadFrame` returns is a frame within the limits, and how many bytes it takes.
use mathlib.Core.List.{foldl}
use native.Mathlib.Nat.{pow-suc}
use ai_agent_cloud_runtime.Prelude.{
  ℕ, zero, suc, ◌+◌, ◌*◌, ◌^◌, ◌≤◌, ◌<◌, ◌≡◌, List, [], ◌∷◌, length, length-take, length-drop, take,
  drop, get_or, All, All-take, All-drop, ok, Result-cases, inl, inr, arith,
}
use ai_agent_cloud_runtime.Acp.Frame.{Frame, IsFrame, IsByte, max_payload_size}
use ai_agent_cloud_runtime.Acp.Codec.{
  or_group, uint64_be, read_full, read_uvarint_loop, read_uvarint, read_body, read_after_head,
  read_frame,
}
use ai_agent_cloud_runtime.Acp.Codec.Decode.{headed}

abbrev be_step : ℕ → ℕ → ℕ
be_step acc b = acc * 256 + b

scaled : (acc b p f : ℕ) → b < 256 → f < (acc * 256 + b + 1) * p → f < (acc + 1) * (p * 256)
scaled acc b p f hb h = grind arith

be_bound :
    (xs : List ℕ) (acc : ℕ) → All IsByte xs → foldl be_step acc xs < (acc + 1) * 256 ^ length xs
be_bound [] acc h = omega arith
be_bound (b ∷ xs) acc h =
    rw (pow-suc 256 (length xs))
      (scaled acc b (256 ^ length xs) _ h.0 (be_bound xs (acc * 256 + b) h.1))

uint64_be-lt : (xs : List ℕ) → All IsByte xs → length xs ≡ 8 → uint64_be xs < 2 ^ 64
unfolding uint64_be
uint64_be-lt xs h eight =
    let bound : foldl be_step 0 xs < (0 + 1) * 256 ^ 8 = rw eight at (be_bound xs 0 h) in
    omega arith

read_full_shape :
    (n : ℕ) (r a b : List ℕ)
    → All IsByte r
    → read_full n r ≡ ok (a, b)
    → (length a ≡ n) × (length b + n ≡ length r) × All IsByte a × All IsByte b
unfolding read_full
read_full_shape n r a b h e =
    ground (arith, length-take n r, length-drop n r, All-take IsByte n r h, All-drop IsByte n r h)

read_uvarint_loop_shape :
    (k x s : ℕ) (r : List ℕ) (v : ℕ) (rest : List ℕ)
    → All IsByte r
    → read_uvarint_loop k x s r ≡ ok (v, rest)
    → (length rest < length r) × (length r ≤ length rest + k) × All IsByte rest
unfolding read_uvarint_loop
read_uvarint_loop_shape zero x s r v rest h e = cc
read_uvarint_loop_shape (suc k) x s [] v rest h e = cc
read_uvarint_loop_shape (suc k) x s (b ∷ r) v rest h e =
    ground (arith, read_uvarint_loop_shape k (or_group x b s) (s + 7) r v rest)

read_body_shape :
    (f : Frame) (len : ℕ) (r : List ℕ) (g : Frame) (rest : List ℕ)
    → All IsByte r
    → f.payload ≡ []
    → read_body f len r ≡ ok (g, rest)
    → (length g.payload ≡ len)
      × (length rest + len ≡ length r)
      × (len ≤ max_payload_size)
      × All IsByte g.payload
      × (g.type ≡ f.type)
      × (g.flags ≡ f.flags)
      × (g.seq ≡ f.seq)
unfolding read_body
read_body_shape f len r g rest h empty e = elim (Result-cases (read_full len r)) [
  | inl ((a, b), q) ↦ ground (arith, read_full_shape len r a b h q)
  | inr (x, q) ↦ ground arith
]

-- the sequence number of an accepted head
seq_bound :
    (head : List ℕ) → All IsByte head → length head ≡ 12 → uint64_be (take 8 (drop 4 head)) < 2 ^ 64
seq_bound head h twelve =
    uint64_be-lt (take 8 (drop 4 head)) (All-take IsByte 8 (drop 4 head) (All-drop IsByte 4 head h))
      (omega (arith, length-take 8 (drop 4 head), length-drop 4 head))

get_or-IsByte : (xs : List ℕ) (i : ℕ) → All IsByte xs → IsByte (get_or xs i 0)
get_or-IsByte [] i h = omega arith
get_or-IsByte (x ∷ xs) zero h = h.0
get_or-IsByte (x ∷ xs) (suc i) h = get_or-IsByte xs i h.1

read_after_head_shape :
    (head r : List ℕ) (f : Frame) (rest : List ℕ)
    → All IsByte head
    → length head ≡ 12
    → All IsByte r
    → read_after_head head r ≡ ok (f, rest)
    → IsFrame f
      × (length rest + length f.payload + 1 ≤ length r)
      × (length r ≤ length rest + length f.payload + 10)
unfolding read_after_head read_uvarint
read_after_head_shape head r f rest hh twelve h e =
    elim (Result-cases (read_uvarint_loop 10 0 0 r)) [
      | inl ((n, r'), q) ↦ ground (
        arith,
        read_uvarint_loop_shape 10 0 0 r n r' h q,
        read_body_shape (headed head) n r' f rest,
        seq_bound head hh twelve,
        get_or-IsByte head 2 hh,
        get_or-IsByte head 3 hh,
      )
      | inr (x, q) ↦ ground arith
    ]

-- Whatever bytes arrive: a frame that `ReadFrame` returns has byte-sized type and flags, a uint64
-- sequence number and a payload of bytes within `MaxPayloadSize`, and reading it took 13 to 22
-- bytes and the payload.
pub read_frame_bounds :
    (r : List ℕ) (f : Frame) (rest : List ℕ)
    → All IsByte r
    → read_frame r ≡ ok (f, rest)
    → IsFrame f
      × (length rest + length f.payload + 13 ≤ length r)
      × (length r ≤ length rest + length f.payload + 22)
unfolding read_frame
read_frame_bounds r f rest h e = elim (Result-cases (read_full 12 r)) [
  | inl ((head, r'), q) ↦
      let (twelve, all_read, head_bytes, r'_bytes) = read_full_shape 12 r head r' h q in
      ground (arith, read_after_head_shape head r' f rest head_bytes twelve r'_bytes)
  | inr (x, q) ↦ ground arith
]
