-- ===== src/Acp/Session/Writer/Stranded.antt =====
-- What becomes of a session whose queue has overflowed.
use ai_agent_cloud_runtime.Prelude.{◌≤◌, ◌≡◌, refl, Bool, true, false, some, length, arith}
use ai_agent_cloud_runtime.Acp.Frame.{Frame}
use ai_agent_cloud_runtime.Acp.Session.Writer.{
  Server, serving, returned, WriterState, gone, Link, new_link, send_frame, queue_size, send_move,
  step, Steps,
}
use ai_agent_cloud_runtime.Acp.Session.Writer.Moves.{IsKept, Steps-keeps}

abbrev pub is_gone : WriterState → Bool
is_gone gone = true
is_gone _ = false

abbrev pub is_returned : Server → Bool
is_returned returned = true
is_returned _ = false

-- The channel is closed only with the flag set, and the writer has gone only where it is closed.
abbrev IsSound : Link → Type 0
IsSound l =
    (l.closed ≡ false → l.channel_closed ≡ false)
    × (l.channel_closed ≡ false → is_gone l.writer ≡ false)

IsSound-IsKept : IsKept IsSound
IsSound-IsKept = record {
  keeps_queued = λ l f e n s. s;
  keeps_overflow = λ l e s. ground arith;
  keeps_end_closed = λ l e s. s;
  keeps_end_open = λ l e s. ground arith;
  keeps_write = λ l f fs e e' s. s;
  keeps_failure = λ l f fs e e' s. ground arith;
  keeps_drain = λ l f fs e e' s. s;
  keeps_end_writer = λ l e e' s. ground arith;
  keeps_return = λ l e s. s;
}

-- `closed` is set, but the queue of the writer is not closed.
abbrev IsStranded : Link → Type 0
IsStranded l =
    (l.closed ≡ true)
    × (l.channel_closed ≡ false)
    × (is_gone l.writer ≡ false)
    × (is_returned l.server ≡ false)

IsStranded-IsKept : IsKept IsStranded
IsStranded-IsKept = record {
  keeps_queued = λ l f e n s. ground arith;
  keeps_overflow = λ l e s. ground arith;
  keeps_end_closed = λ l e s. ground arith;
  keeps_end_open = λ l e s. ground arith;
  keeps_write = λ l f fs e e' s. s;
  keeps_failure = λ l f fs e e' s. ground arith;
  keeps_drain = λ l f fs e e' s. s;
  keeps_end_writer = λ l e e' s. ground arith;
  keeps_return = λ l e s. ground arith;
}

-- A session that is being served and still open, and a frame that finds its queue full: however
-- the two goroutines go on, `serve` never returns, and the writer never closes `sendDone`.
pub overflow-stranded :
    (f : Frame) (l l1 l2 : Link)
    → Steps new_link l
    → l.server ≡ serving
    → l.closed ≡ false
    → queue_size ≤ length l.queue
    → step (send_frame f) l ≡ some l1
    → Steps l1 l2
    → (is_returned l2.server ≡ false) × (is_gone l2.writer ≡ false)
unfolding step send_move
overflow-stranded f l l1 l2 reached at_work is_open full h rest =
    let sound = Steps-keeps IsSound IsSound-IsKept new_link l reached (λ e. refl, λ e. refl) in
    let stranded : IsStranded l1 = ground (arith, sound.0, sound.1) in
    let s = Steps-keeps IsStranded IsStranded-IsKept l1 l2 rest stranded in (s.3, s.2)
