-- ===== src/Acp/Frame.antt =====
-- pkg/acp/frame.go: the constants of the protocol and a frame in memory. A byte, a `FrameType`
-- and a `Flags` are numbers below 256, a `uint64` is a number below 2 ^ 64.
use Prim.Native.Nat.{bit_and}
use ai_agent_cloud_runtime.Prelude.{
  ℕ, ◌*◌, ◌≤◌, ◌<◌, ◌^◌, Bool, String, List, length, All, ◌==◌, if◌then◌else◌,
}

abbrev pub magic : ℕ
magic = 0xac

abbrev pub version : ℕ
version = 0x01

abbrev pub frame_hello : ℕ
frame_hello = 0x01

abbrev pub frame_hello_ack : ℕ
frame_hello_ack = 0x02

abbrev pub frame_run : ℕ
frame_run = 0x10

abbrev pub frame_event : ℕ
frame_event = 0x20

abbrev pub frame_ping : ℕ
frame_ping = 0x30

abbrev pub frame_pong : ℕ
frame_pong = 0x31

abbrev pub frame_resume : ℕ
frame_resume = 0x40

abbrev pub frame_close : ℕ
frame_close = 0x50

abbrev pub frame_error : ℕ
frame_error = 0xf0

-- `FrameType.String`
unfoldable pub frame_type_string : ℕ → String
frame_type_string t =
    if t == frame_hello
    then "HELLO"
    else if t == frame_hello_ack
    then "HELLO_ACK"
    else if t == frame_run
    then "RUN"
    else if t == frame_event
    then "EVENT"
    else if t == frame_ping
    then "PING"
    else if t == frame_pong
    then "PONG"
    else if t == frame_resume
    then "RESUME"
    else if t == frame_close
    then "CLOSE"
    else if t == frame_error
    then "ERROR"
    else "UNKNOWN"

abbrev pub flag_end_stream : ℕ
flag_end_stream = 0x01

abbrev pub flag_reserved : ℕ
flag_reserved = 0x02

-- `Flags.Has`
unfoldable pub has_flag : ℕ → ℕ → Bool
has_flag f other = bit_and f other == other

abbrev pub max_payload_size : ℕ
max_payload_size = 16 * 1024 * 1024

abbrev pub header_fixed_size : ℕ
header_fixed_size = 12

pub record Frame : Type 0 where
  pub type : ℕ
  pub flags : ℕ
  pub seq : ℕ
  pub payload : List ℕ

abbrev pub IsByte : ℕ → Type 0
IsByte b = b < 256

-- What the Go types of the fields say, and the limit on the payload.
pub record IsFrame (f : Frame) : Type 0 where
  pub type_byte : IsByte f.type
  pub flags_byte : IsByte f.flags
  pub seq_u64 : f.seq < 2 ^ 64
  pub payload_bytes : All IsByte f.payload
  pub payload_fits : length f.payload ≤ max_payload_size
