-- ===== src/Acp/Session.antt =====
-- internal/acp/session.go: the session of one connection, as the goroutine of `serve` runs it. The
-- frames that are put into the queue of the writer are the frames that an action emits.
pub mod Numbers
pub mod Events
pub mod Writer
use ai_agent_cloud_runtime.Prelude.{
  ℕ, zero, suc, ◌+◌, ◌%◌, ◌^◌, Bool, true, false, Option, none, some, List, [], ◌∷◌, ◌++◌, Result,
  ok, err, not, ltb, ◌==◌, ◌||◌, if◌then◌else◌,
}
use ai_agent_cloud_runtime.Prelude.Text.{Text, codes, is_empty, text_eq}
use ai_agent_cloud_runtime.Prelude.Act.{Act, pure, raise, call, try, emit, ◌>>=◌, ◌>>◌}
use ai_agent_cloud_runtime.Acp.Frame.{
  Frame, frame_hello, frame_hello_ack, frame_run, frame_event, frame_ping, frame_pong, frame_resume,
  frame_close, frame_error, flag_end_stream, frame_type_string,
}
use ai_agent_cloud_runtime.Acp.EventCache.{CachedEvent, SortedSets, append_event, replay}
use ai_agent_cloud_runtime.Acp.Message.{
  BusinessEvent, RunState, state_enum_str, EventPayload, RunEvent, business_to_proto, RunInput,
  RunRequest, Resume, Script, returns, emits,
}

-- The session's own state, beside the world.
pub record Conn (W : Type 0) : Type 0 where
  pub run_id : Text
  pub trace_id : Text
  pub seq_gen : ℕ
  pub closed : Bool
  pub world : W

-- What the session is connected to. JSON and protobuf are functions of it.
pub record Peers (W : Type 0) : Type 0 where
  pub new_run_id : W → Text × W
  pub new_trace_id : W → Text × W
  pub now_ms : W → ℕ × W
  -- whether the queue of 256 frames is full
  pub queue_full : W → Bool × W
  pub read_frame : W → Result Text Frame × W
  -- whether an error of a read is `io.EOF` or `net.ErrClosed`
  pub is_end : Text → Bool
  pub cache : Option (SortedSets W)
  pub run : RunInput → Script
  pub unmarshal_hello : List ℕ → Result Text Text
  pub unmarshal_resume : List ℕ → Result Text Resume
  pub unmarshal_run_request : List ℕ → Result Text RunRequest
  pub marshal_run_event : RunEvent → Result Text (List ℕ)
  pub marshal_hello_ack : (run_id trace_id : Text) → List ℕ
  pub marshal_close : Text → List ℕ
  pub marshal_error : (code message : Text) (retriable : Bool) → List ℕ

-- An action of the session: it emits the frames that go into the queue.
abbrev pub Serving : Type 0 → Type 0 → Type 0
Serving W A = Act Frame (Conn W) A

abbrev pub frame_of : (type flags seq : ℕ) (payload : List ℕ) → Frame
frame_of type flags seq payload = record {
  type = type;
  flags = flags;
  seq = seq;
  payload = payload;
}

-- `s.seqGen` and the other fields, and calls of the world.
abbrev pub outside : {W A : Type 0} → (W → A × W) → Serving W A
outside op = call (λ s. let (a, w) = op s.world in (a, record s { world = w }))

abbrev pub get : {W : Type 0} → Serving W (Conn W)
get s = (ok s, [], s)

abbrev pub ends_stream : Text → ℕ
ends_stream kind =
    if text_eq kind (codes "done") || text_eq kind (codes "error") then flag_end_stream else 0

module _ {W : Type 0} (p : Peers W) where
  -- `send`: a full queue closes the connection, and the frame is dropped.
  unfoldable pub enqueue : Frame → Bool → Serving W (Unit {0})
  enqueue f true = call (λ s. (tt, record s { closed = true }))
  enqueue f false = emit f

  unfoldable pub send : Frame → Serving W (Unit {0})
  send f = get >>= λ s. if s.closed then pure tt else outside p.queue_full >>= enqueue f

  -- `sendError`, whose error is always nil.
  unfoldable pub send_error : (code message : Text) (retriable : Bool) → Serving W (Unit {0})
  send_error code message retriable =
      send (frame_of frame_error flag_end_stream 0 (p.marshal_error code message retriable))

  unfoldable pub store :
      Option (SortedSets W) → (run_id : Text) (seq : ℕ) → List ℕ → Serving W (Unit {0})
  store none run_id seq raw = pure tt
  store (some sets) run_id seq raw = outside (append_event sets run_id seq raw) >> pure tt

  -- The function that `makeEmit` returns, from the marshalled event on.
  unfoldable pub emit_raw : BusinessEvent → Result Text (List ℕ) → Serving W (Option Text)
  emit_raw ev (err e) = pure (some e)
  emit_raw ev (ok raw) = do
    call (λ s. (tt, record s { seq_gen = (s.seq_gen + 1) % 2 ^ 64 }))
    s ← get
    store p.cache s.run_id s.seq_gen raw
    send (frame_of frame_event (ends_stream ev.kind) s.seq_gen raw)
    pure none

  unfoldable pub emit_event : BusinessEvent → Serving W (Option Text)
  emit_event ev = get >>= λ s.
      if s.closed
      then pure (some (codes "session closed"))
      else outside p.now_ms >>= λ now.
          emit_raw ev (p.marshal_run_event (business_to_proto now s.run_id s.trace_id ev))

  -- `s.disp.Run(ctx, in, emit)`
  unfoldable pub run_script : Script → Serving W (Option Text)
  run_script (returns e) = pure e
  run_script (emits ev k) = emit_event ev >>= λ e. run_script (k e)

  unfoldable pub report : Option Text → Serving W (Unit {0})
  report none = pure tt
  report (some e) = send_error (codes "internal") e true

  abbrev pub close_frame : Text → Frame
  close_frame code = frame_of frame_close flag_end_stream 0 (p.marshal_close code)

  abbrev pub run_input : Conn W → RunRequest → RunInput
  run_input s req = record {
    run_id = s.run_id;
    trace_id = s.trace_id;
    user_id = req.user_id;
    prompt = req.prompt;
    model = req.model;
  }

  -- `handleRun`
  unfoldable pub run_request : Result Text RunRequest → Serving W (Unit {0})
  run_request (err e) = send_error (codes "bad_request") (codes "decode RunRequest: " ++ e) false
  run_request (ok req) =
      if is_empty req.prompt
      then send_error (codes "bad_request") (codes "empty prompt") false
      else get >>= λ s.
          run_script (p.run (run_input s req)) >>= report >> send (close_frame (codes "completed"))

  unfoldable pub handle_run : List ℕ → Serving W (Unit {0})
  handle_run payload = run_request (p.unmarshal_run_request payload)

  -- The loop of `handleResume`.
  unfoldable pub send_cached : List CachedEvent → Serving W (Unit {0})
  send_cached [] = pure tt
  send_cached (ev ∷ evs) =
      send (frame_of frame_event 0 ev.seq ev.payload)
      >> call (λ s. (tt, if ltb s.seq_gen ev.seq then record s { seq_gen = ev.seq } else s))
      >> send_cached evs

  unfoldable pub resumed : Result Text (List CachedEvent) → Serving W (Unit {0})
  resumed (err e) = send_error (codes "internal") (codes "replay: " ++ e) true
  resumed (ok events) = send_cached events >> send (close_frame (codes "resumed"))

  unfoldable pub resume_from : Option (SortedSets W) → Resume → Serving W (Unit {0})
  resume_from none r = send_error (codes "not_supported") (codes "event cache disabled") false
  resume_from (some sets) r = outside (replay sets r.run_id r.last_seq) >>= resumed

  unfoldable pub resume_request : Result Text Resume → Serving W (Unit {0})
  resume_request (err e) = send_error (codes "bad_request") (codes "decode Resume: " ++ e) false
  resume_request (ok r) =
      if is_empty r.run_id
      then send_error (codes "bad_request") (codes "empty run_id") false
      else resume_from p.cache r

  -- `handleResume`
  unfoldable pub handle_resume : List ℕ → Serving W (Unit {0})
  handle_resume payload = resume_request (p.unmarshal_resume payload)

  -- One round of the loop of `serve`: whether it goes on.
  unfoldable pub serve_frame : Result Text Frame → Serving W Bool
  serve_frame (err e) = if p.is_end e then pure false else raise e
  serve_frame (ok f) =
      if f.type == frame_ping
      then send (frame_of frame_pong 0 0 f.payload) >> pure true
      else if f.type == frame_close
      then pure false
      else if f.type == frame_run
      then handle_run f.payload >> pure false
      else if f.type == frame_resume
      then handle_resume f.payload >> pure false
      else pure true

  -- The loop of `serve`, for at most `fuel` frames: `true` where it still goes on.
  unfoldable pub serve_loop : (fuel : ℕ) → Serving W Bool
  serve_loop zero = pure true
  serve_loop (suc fuel) = outside p.read_frame >>= serve_frame >>= λ more. elim more [
    | true ↦ serve_loop fuel
    | false ↦ pure false
  ]

  unfoldable pub greet : Result Text Text → Serving W (Unit {0})
  greet (err e) = raise (codes "decode hello: " ++ e)
  greet (ok run_id) = do
    fresh ← (if is_empty run_id then outside p.new_run_id else pure run_id)
    trace ← outside p.new_trace_id
    call (λ s. (tt, record s { run_id = fresh; trace_id = trace }))
    send (frame_of frame_hello_ack 0 0 (p.marshal_hello_ack fresh trace))

  unfoldable pub hello_frame : Result Text Frame → Serving W (Unit {0})
  hello_frame (err e) = raise (codes "read hello: " ++ e)
  hello_frame (ok f) =
      if f.type == frame_hello
      then greet (p.unmarshal_hello f.payload)
      else raise (codes "expect HELLO, got " ++ codes (frame_type_string f.type))

  -- `serve`, without the end of the writer.
  unfoldable pub serve : (fuel : ℕ) → Serving W Bool
  serve fuel = outside p.read_frame >>= hello_frame >> serve_loop fuel
