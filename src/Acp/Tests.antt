-- ===== src/Acp/Tests.antt =====
-- Concrete frames, a concrete session and concrete moves of its two goroutines.
use ai_agent_cloud_runtime.Prelude.{
  ℕ, zero, suc, ◌+◌, ◌≤◌, ◌<◌, ◌≡◌, refl, ap, true, false, none, some, List, [], ◌∷◌, ◌++◌, ok, err,
  All, length, ltb, arith,
}
use ai_agent_cloud_runtime.Prelude.Text.{Text, codes}
use ai_agent_cloud_runtime.Acp.Frame.{Frame, IsFrame, IsByte, frame_event}
use ai_agent_cloud_runtime.Acp.Codec.{
  ReadError, buffer_write, write_frame, read_frame, frame_bytes, put_uint64, put_uvarint,
}
use ai_agent_cloud_runtime.Acp.Codec.RoundTrip.{read_frame-write_frame, read_frame-frame_bytes}
use ai_agent_cloud_runtime.Acp.Codec.Decode.{is_io, read_frame_truncated}
use ai_agent_cloud_runtime.Acp.Codec.Bounds.{read_frame_bounds}
use ai_agent_cloud_runtime.Acp.EventCache.{CachedEvent, SortedSets}
use ai_agent_cloud_runtime.Acp.EventCache.Replay.{members_above, SortedSetLaws}
use ai_agent_cloud_runtime.Acp.Message.{BusinessEvent, returns, emits}
use ai_agent_cloud_runtime.Acp.Session.{Conn, Peers, handle_run}
use ai_agent_cloud_runtime.Acp.Session.Events.{handle_run-Numbered}
use ai_agent_cloud_runtime.Acp.Session.Numbers.{Numbered}
use ai_agent_cloud_runtime.Acp.Session.Writer.{
  Link, new_link, waiting, writing, Move, send_frame, write_first, step, send_move, write_move,
  Steps, stop, move, queue_size,
}
use ai_agent_cloud_runtime.Acp.Session.Writer.Order.{reachable-InOrder}
use ai_agent_cloud_runtime.Acp.Session.Writer.Ending.{CanMove, Moved, ending-step}
use ai_agent_cloud_runtime.Acp.Session.Writer.Stranded.{is_gone, is_returned, overflow-stranded}

abbrev frame : Frame
frame = record { type = frame_event; flags = 1; seq = 258; payload = 7 ∷ 255 ∷ [] }

frame-IsFrame : IsFrame frame
frame-IsFrame = record {
  type_byte = ground arith;
  flags_byte = ground arith;
  seq_u64 = ground arith;
  payload_bytes = (ground arith, (ground arith, tt));
  payload_fits = ground arith;
}

read_frame-write_frame_example :
    ((write_frame buffer_write frame []).1 ≡ none)
    × (read_frame ((write_frame buffer_write frame []).0 ++ (9 ∷ [])) ≡ ok (frame, 9 ∷ []))
read_frame-write_frame_example = read_frame-write_frame frame (9 ∷ []) frame-IsFrame

-- all bytes of the frame but the last
abbrev cut : List ℕ
cut = 0xac ∷ 1 ∷ 0x20 ∷ 1 ∷ 0 ∷ 0 ∷ 0 ∷ 0 ∷ 0 ∷ 0 ∷ 1 ∷ 2 ∷ 2 ∷ 7 ∷ []

frame-cut : frame_bytes frame ≡ cut ++ (255 ∷ [])
unfolding frame_bytes put_uint64 put_uvarint
frame-cut = refl

read_frame_truncated_example : (e : ReadError) × (read_frame cut ≡ err e) × (is_io e ≡ true)
read_frame_truncated_example = read_frame_truncated frame cut [] 255 frame-IsFrame frame-cut

all_bytes : All IsByte (frame_bytes frame ++ (9 ∷ []))
unfolding frame_bytes put_uint64 put_uvarint
all_bytes = ground arith

read_frame_bounds_example :
    IsFrame frame
    × (length {A = ℕ} (9 ∷ []) + length frame.payload + 13 ≤ length (frame_bytes frame ++ (9 ∷ [])))
    × (length (frame_bytes frame ++ (9 ∷ [])) ≤ length {A = ℕ} (9 ∷ []) + length frame.payload + 22)
read_frame_bounds_example =
    read_frame_bounds (frame_bytes frame ++ (9 ∷ [])) frame (9 ∷ []) all_bytes
      (read_frame-frame_bytes frame (9 ∷ []) frame-IsFrame)

abbrev cached : List CachedEvent
cached = record { seq = 4; payload = [] } ∷ record { seq = 5; payload = 0 ∷ 0 ∷ 1 ∷ [] } ∷ []

-- A world that holds one set, and adds what is new at its end.
abbrev sets : SortedSets (List (ℕ × Text))
sets = record {
  zadd = λ key score member w. (none, w ++ (score, member) ∷ []);
  zrangebyscore = λ key above w. (ok (members_above above w), w);
}

abbrev laws : SortedSetLaws sets
laws = record {
  members = λ key w. w;
  zadd_last = λ key score member w below added. refl;
  zrangebyscore_above = λ key above w ms e. ground (arith, e);
}

abbrev token_event : BusinessEvent
token_event = record {
  kind = codes "token";
  state = [];
  from = [];
  text = codes "hi";
  index = 0;
  total = 0;
  code = [];
  message = [];
}

-- The queue is full at the third frame.
abbrev peers : Peers ℕ
peers = record {
  new_run_id = λ w. (codes "run-1", w);
  new_trace_id = λ w. (codes "trace-1", w);
  now_ms = λ w. (w, w);
  queue_full = λ w. (ltb 1 w, suc w);
  read_frame = λ w. (err (codes "EOF"), w);
  is_end = λ e. true;
  cache = none;
  run =
      λ input. emits token_event λ e. emits token_event λ e'. emits token_event λ e''. returns e'';
  unmarshal_hello = λ raw. ok [];
  unmarshal_resume = λ raw. err [];
  unmarshal_run_request =
      λ raw. ok (record { user_id = codes "u"; prompt = codes "go"; model = codes "m" });
  marshal_run_event = λ ev. ok (1 ∷ []);
  marshal_hello_ack = λ run trace. [];
  marshal_close = λ code. [];
  marshal_error = λ code message retriable. [];
}

abbrev open_conn : Conn ℕ
open_conn = record {
  run_id = codes "run-1";
  trace_id = codes "trace-1";
  seq_gen = 0;
  closed = false;
  world = 0;
}

handle_run-Numbered_example :
    Numbered open_conn (handle_run peers [] open_conn).1 (handle_run peers [] open_conn).2
handle_run-Numbered_example = handle_run-Numbered peers [] open_conn

-- Two frames are queued, and the writer writes one.
abbrev one_written : Link
one_written = record new_link {
  queue = frame ∷ [];
  written = frame ∷ [];
  accepted = frame ∷ frame ∷ [];
}

one_written-Steps : Steps new_link one_written
unfolding step send_move write_move
one_written-Steps =
    move (send_frame frame) (record new_link { queue = frame ∷ []; accepted = frame ∷ [] }) refl
      (move (send_frame frame)
        (record new_link { queue = frame ∷ frame ∷ []; accepted = frame ∷ frame ∷ [] }) refl
        (move write_first one_written refl stop))

reachable-InOrder_example :
    ((lost : List Frame) × (one_written.accepted
        ≡ one_written.written ++ (lost ++ one_written.queue))
      × (one_written.writer ≡ writing → lost ≡ []))
    × (length one_written.queue ≤ queue_size)
reachable-InOrder_example = reachable-InOrder one_written one_written-Steps

abbrev ending : Link
ending = record one_written { server = waiting; closed = true; channel_closed = true }

ending-step_example :
    CanMove ending × ((m : Move) (l' : Link) → step m ending ≡ some l' → Moved ending l')
ending-step_example = ending-step ending (refl, refl)

-- `n` frames are in the queue.
abbrev frames : ℕ → List Frame
frames zero = []
frames (suc n) = frame ∷ frames n

frames-append : (n : ℕ) → frames n ++ (frame ∷ []) ≡ frames (suc n)
frames-append zero = refl
frames-append (suc n) = ap (λ r. frame ∷ r) (frames-append n)

length-frames : (n : ℕ) → length (frames n) ≡ n
length-frames zero = refl
length-frames (suc n) = omega (arith, length-frames n)

abbrev link_with : ℕ → Link
link_with n = record new_link { queue = frames n; accepted = frames n }

send_one :
    (n : ℕ) → n < queue_size → step (send_frame frame) (link_with n) ≡ some (link_with (suc n))
unfolding step send_move
send_one n h =
    let room : ltb (length (frames n)) queue_size ≡ true = ground (arith, length-frames n) in
    rw (room, frames-append n) refl

fill : (k n m : ℕ) → k + n ≡ m → m ≤ queue_size → Steps (link_with n) (link_with m)
fill zero n m e h = let same : n ≡ m = omega (arith, e) in rw same stop
fill (suc k) n m e h =
    move (send_frame frame) (link_with (suc n)) (send_one n (omega (arith, e, h)))
      (fill k (suc n) m (omega (arith, e)) h)

abbrev overflowed : Link
overflowed = record (link_with 256) { closed = true; conn_closed = true }

overflows : step (send_frame frame) (link_with 256) ≡ some overflowed
unfolding step send_move
overflows =
    let full : ltb (length (frames 256)) queue_size ≡ false = ground (arith, length-frames 256) in
    rw full refl

overflow-stranded_example :
    (is_returned overflowed.server ≡ false) × (is_gone overflowed.writer ≡ false)
overflow-stranded_example =
    overflow-stranded frame (link_with 256) overflowed overflowed
      (fill 256 0 256 (omega arith) (omega arith)) refl refl (omega (arith, length-frames 256))
      overflows stop
