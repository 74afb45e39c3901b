-- ===== src/Acp/Codec.antt =====
-- pkg/acp/codec.go: one frame written to and read from a byte stream. A reader is the list of the
-- bytes that it will still deliver before the end of the stream.
pub mod Uvarint
pub mod RoundTrip
pub mod Decode
pub mod Bounds
use Prim.Native.Nat.{bit_and, bit_or}
use mathlib.Core.List.{foldl}
use mathlib.Core.Option
use ai_agent_cloud_runtime.Prelude.{
  ℕ, zero, suc, ◌+◌, ◌*◌, ◌/◌, ◌%◌, ◌^◌, Option, none, some, List, [], ◌∷◌, ◌++◌, length, take,
  drop, get_or, Result, ok, err, ◌>>=◌, wrap_err, ltb, leb, ◌==◌, ◌&&◌, not, if◌then◌else◌,
}
use ai_agent_cloud_runtime.Acp.Frame.{Frame, magic, version, max_payload_size, header_fixed_size}

-- `io.EOF`: no byte was left; `io.ErrUnexpectedEOF`: fewer than asked for.
pub data IoError : Type 0 where
  eof unexpected_eof : IoError

pub data UvarintError : Type 0 where
  uvarint_io : IoError → UvarintError
  uvarint_overflow uvarint_too_long : UvarintError

pub data ReadError : Type 0 where
  read_head : IoError → ReadError
  bad_magic : ℕ → ReadError
  bad_version : ℕ → ReadError
  read_len : UvarintError → ReadError
  payload_too_long : ℕ → ReadError
  read_payload : IoError → ReadError

-- `E` is what the writer reports.
pub data WriteError (E : Type 0) : Type 0 where
  too_long : WriteError E
  write_io : E → WriteError E

-- `binary.BigEndian.PutUint64`
unfoldable pub put_uint64 : ℕ → List ℕ
put_uint64 v =
    (v / 2 ^ 56 % 256)
    ∷ (v / 2 ^ 48 % 256)
    ∷ (v / 2 ^ 40 % 256)
    ∷ (v / 2 ^ 32 % 256)
    ∷ (v / 2 ^ 24 % 256)
    ∷ (v / 2 ^ 16 % 256)
    ∷ (v / 2 ^ 8 % 256)
    ∷ (v % 256)
    ∷ []

-- `binary.BigEndian.Uint64`
unfoldable pub uint64_be : List ℕ → ℕ
uint64_be = foldl (λ acc b. acc * 256 + b) 0

abbrev pub max_varint_len64 : ℕ
max_varint_len64 = 10

-- `binary.PutUvarint` into a buffer with room for `k` bytes.
unfoldable pub put_uvarint : ℕ → ℕ → List ℕ
put_uvarint zero x = []
put_uvarint (suc k) x =
    let rest = put_uvarint k (x / 2 ^ 7) in
    if ltb x 0x80 then (x % 256) ∷ [] else bit_or (x % 256) 0x80 ∷ rest

-- `buf[:off]`, what `WriteFrame` hands to the writer
unfoldable pub frame_bytes : Frame → List ℕ
frame_bytes f =
    magic ∷ version ∷ f.type ∷ f.flags ∷ put_uint64 f.seq
    ++ put_uvarint max_varint_len64 (length f.payload)
    ++ f.payload

module _ {W E : Type 0} (write : List ℕ → W → W × Option E) where
  pub write_frame : Frame → W → W × Option (WriteError E)
  write_frame f w =
      if ltb max_payload_size (length f.payload)
      then (w, some too_long)
      else let (w', e) = write (frame_bytes f) w in (w', Option.map write_io e)

-- `bytes.Buffer` as the writer: it appends and does not fail.
abbrev pub buffer_write : List ℕ → List ℕ → List ℕ × Option (Unit {0})
buffer_write bs w = (w ++ bs, none)

-- `io.ReadFull` of `n` bytes
pub read_full : ℕ → List ℕ → Result IoError (List ℕ × List ℕ)
read_full n r =
    if leb n (length r)
    then ok (take n r, drop n r)
    else err (if length r == 0 then eof else unexpected_eof)

-- `x | uint64(b&0x7f) << s`
abbrev pub or_group : ℕ → ℕ → ℕ → ℕ
or_group x b s = bit_or x (bit_and b 0x7f * 2 ^ s % 2 ^ 64)

-- The loop of `readUvarint` with `k` rounds left: `i` is `max_varint_len64 - k`, so the last round
-- is that of `k ≡ 1`.
pub read_uvarint_loop : ℕ → ℕ → ℕ → List ℕ → Result UvarintError (ℕ × List ℕ)
read_uvarint_loop zero x s r = err uvarint_too_long
read_uvarint_loop (suc k) x s [] = err (uvarint_io eof)
read_uvarint_loop (suc k) x s (b ∷ r) =
    let more = read_uvarint_loop k (or_group x b s) (s + 7) r in
    if ltb b 0x80
    then if k == 0 && ltb 1 b then err uvarint_overflow else ok (bit_or x (b * 2 ^ s % 2 ^ 64), r)
    else more

pub read_uvarint : List ℕ → Result UvarintError (ℕ × List ℕ)
read_uvarint r = read_uvarint_loop max_varint_len64 0 0 r

-- The payload is read only if its length is not 0.
pub read_body : Frame → ℕ → List ℕ → Result ReadError (Frame × List ℕ)
read_body f len r =
    if ltb max_payload_size len
    then err (payload_too_long len)
    else if ltb 0 len
    then (do
      (body, rest) ← wrap_err read_payload (read_full len r)
      ok (record f { payload = body }, rest))
    else ok (f, r)

-- `ReadFrame` from the check of the magic byte on.
pub read_after_head : List ℕ → List ℕ → Result ReadError (Frame × List ℕ)
read_after_head head r =
    if not (get_or head 0 0 == magic)
    then err (bad_magic (get_or head 0 0))
    else if not (get_or head 1 0 == version)
    then err (bad_version (get_or head 1 0))
    else do
      (len, rest) ← wrap_err read_len (read_uvarint r)
      read_body
          (record {
            type = get_or head 2 0;
            flags = get_or head 3 0;
            seq = uint64_be (take 8 (drop 4 head));
            payload = [];
          })
          len rest

-- The frame, and what the reader delivers after it.
pub read_frame : List ℕ → Result ReadError (Frame × List ℕ)
read_frame r = do
  (head, rest) ← wrap_err read_head (read_full header_fixed_size r)
  read_after_head head rest
