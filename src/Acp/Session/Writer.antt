-- ===== src/Acp/Session/Writer.antt =====
-- internal/acp/session.go: the goroutine of `serve` and that of `writerLoop`, which share the queue
-- `sendCh`, the flag `closed` and the channel `sendDone`. A move is what one of them does at once.
pub mod Moves
pub mod Stranded
pub mod Order
pub mod Ending
use ai_agent_cloud_runtime.Prelude.{
  ℕ, ◌+◌, ◌≤◌, ◌≡◌, refl, ◌≢◌, Bool, true, false, Option, none, some, List, [], ◌∷◌, ◌++◌, length,
  length-append, append_assoc, append-nil, not, ◌&&◌, ltb, if◌then◌else◌, arith,
}
use ai_agent_cloud_runtime.Acp.Frame.{Frame}

-- Where `serve` is: before its deferred function, waiting for `sendDone` in it, or back.
pub data Server : Type 0 where
  serving waiting returned : Server

-- Where `writerLoop` is: in its loop, draining the queue after an error, or gone, with `sendDone`
-- closed.
pub data WriterState : Type 0 where
  writing draining gone : WriterState

pub record Link : Type 0 where
  -- `sendCh`, and whether it has been closed
  pub queue : List Frame
  pub channel_closed : Bool
  -- `s.closed`
  pub closed : Bool
  pub conn_closed : Bool
  pub server : Server
  pub writer : WriterState
  -- the frames that the writer has written, and those that `send` has queued
  pub written : List Frame
  pub accepted : List Frame

abbrev pub queue_size : ℕ
queue_size = 256

abbrev pub new_link : Link
new_link = record {
  queue = [];
  channel_closed = false;
  closed = false;
  conn_closed = false;
  server = serving;
  writer = writing;
  written = [];
  accepted = [];
}

pub data Move : Type 0 where
  send_frame : Frame → Move
  end_serve : Move
  write_first : Move
  fail_write : Move
  drain_first : Move
  end_writer : Move
  return_serve : Move

-- `send`
unfoldable pub send_move : Server → Frame → Link → Option Link
send_move serving f l =
    if l.closed
    then some l
    else some (
        if ltb (length l.queue) queue_size
        then record l { queue = l.queue ++ (f ∷ []); accepted = l.accepted ++ (f ∷ []) }
        else record l { closed = true; conn_closed = true })
send_move _ f l = none

-- The deferred function of `serve`, up to its receive from `sendDone`.
unfoldable pub end_serve_move : Server → Link → Option Link
end_serve_move serving l = some (
    if l.closed
    then record l { server = waiting }
    else record l { server = waiting; closed = true; channel_closed = true })
end_serve_move _ l = none

-- A frame that `WriteFrame` writes: the connection is still there.
unfoldable pub write_move : WriterState → Bool → List Frame → Link → Option Link
write_move writing false (f ∷ fs) l =
    some (record l { queue = fs; written = l.written ++ (f ∷ []) })
write_move _ _ _ l = none

-- An error of `WriteFrame`.
unfoldable pub fail_move : WriterState → List Frame → Link → Option Link
fail_move writing (f ∷ fs) l = some (record l { queue = fs; conn_closed = true; writer = draining })
fail_move _ _ l = none

unfoldable pub drain_move : WriterState → List Frame → Link → Option Link
drain_move draining (f ∷ fs) l = some (record l { queue = fs })
drain_move _ _ l = none

-- The end of `range s.sendCh`: the channel is empty and closed.
unfoldable pub end_writer_move : WriterState → List Frame → Bool → Link → Option Link
end_writer_move gone q c l = none
end_writer_move _ [] true l = some (record l { writer = gone })
end_writer_move _ _ _ l = none

unfoldable pub return_move : Server → WriterState → Link → Option Link
return_move waiting gone l = some (record l { server = returned })
return_move _ _ l = none

-- What a move does, where it can be made.
unfoldable pub step : Move → Link → Option Link
step (send_frame f) l = send_move l.server f l
step end_serve l = end_serve_move l.server l
step write_first l = write_move l.writer l.conn_closed l.queue l
step fail_write l = fail_move l.writer l.queue l
step drain_first l = drain_move l.writer l.queue l
step end_writer l = end_writer_move l.writer l.queue l.channel_closed l
step return_serve l = return_move l.server l.writer l

pub data Steps : Link → Link → Type 0 where
  stop : {l : Link} → Steps l l
  move : {l l'' : Link} (m : Move) (l' : Link) → step m l ≡ some l' → Steps l' l'' → Steps l l''
