-- ===== src/Acp/Session/Writer/Ending.antt =====
-- The end of a session without an overflow: `serve` has closed the queue and waits for the writer.
use ai_agent_cloud_runtime.Prelude.{
  ℕ, ◌+◌, ◌*◌, ◌<◌, ◌≡◌, refl, Bool, true, false, some, List, [], ◌∷◌, length, ◌⊎◌, arith,
}
use ai_agent_cloud_runtime.Acp.Frame.{Frame}
use ai_agent_cloud_runtime.Acp.Session.Writer.{
  Server, serving, waiting, returned, WriterState, writing, draining, gone, Link, Move, send_frame,
  end_serve, write_first, fail_write, drain_first, end_writer, return_serve, send_move,
  end_serve_move, write_move, fail_move, drain_move, end_writer_move, return_move, step,
}

abbrev pub phase : WriterState → ℕ
phase writing = 2
phase draining = 1
phase gone = 0

abbrev pub server_phase : Server → ℕ
server_phase serving = 2
server_phase waiting = 1
server_phase returned = 0

-- What a link has left to do once `serve` waits.
abbrev pub work : Link → ℕ
work l = 2 * length l.queue + phase l.writer + server_phase l.server

-- `serve` waits for the writer, and has closed its channel.
abbrev pub IsEnding : Link → Type 0
IsEnding l = (l.channel_closed ≡ true) × (l.server ≡ waiting)

abbrev pub Moved : Link → Link → Type 0
Moved l l' = (work l' < work l) × ((l'.server ≡ returned) ⊎ IsEnding l')

write_move-Moved :
    (wr : WriterState) (c : Bool) (q : List Frame) (l l' : Link)
    → l.writer ≡ wr
    → l.queue ≡ q
    → IsEnding l
    → write_move wr c q l ≡ some l'
    → Moved l l'
unfolding write_move
write_move-Moved writing false (f ∷ fs) l l' e e' s h = ground arith
write_move-Moved writing false [] l l' e e' s h = cc
write_move-Moved writing true q l l' e e' s h = cc
write_move-Moved draining c q l l' e e' s h = cc
write_move-Moved gone c q l l' e e' s h = cc

fail_move-Moved :
    (wr : WriterState) (q : List Frame) (l l' : Link)
    → l.writer ≡ wr
    → l.queue ≡ q
    → IsEnding l
    → fail_move wr q l ≡ some l'
    → Moved l l'
unfolding fail_move
fail_move-Moved writing (f ∷ fs) l l' e e' s h = ground arith
fail_move-Moved writing [] l l' e e' s h = cc
fail_move-Moved draining q l l' e e' s h = cc
fail_move-Moved gone q l l' e e' s h = cc

drain_move-Moved :
    (wr : WriterState) (q : List Frame) (l l' : Link)
    → l.writer ≡ wr
    → l.queue ≡ q
    → IsEnding l
    → drain_move wr q l ≡ some l'
    → Moved l l'
unfolding drain_move
drain_move-Moved draining (f ∷ fs) l l' e e' s h = ground arith
drain_move-Moved draining [] l l' e e' s h = cc
drain_move-Moved writing q l l' e e' s h = cc
drain_move-Moved gone q l l' e e' s h = cc

end_writer_move-Moved :
    (wr : WriterState) (q : List Frame) (c : Bool) (l l' : Link)
    → l.writer ≡ wr
    → IsEnding l
    → end_writer_move wr q c l ≡ some l'
    → Moved l l'
unfolding end_writer_move
end_writer_move-Moved gone q c l l' e s h = cc
end_writer_move-Moved writing [] true l l' e s h = ground arith
end_writer_move-Moved draining [] true l l' e s h = ground arith
end_writer_move-Moved writing [] false l l' e s h = cc
end_writer_move-Moved draining [] false l l' e s h = cc
end_writer_move-Moved writing (f ∷ fs) c l l' e s h = cc
end_writer_move-Moved draining (f ∷ fs) c l l' e s h = cc

return_move-Moved :
    (sv : Server) (wr : WriterState) (l l' : Link)
    → IsEnding l
    → return_move sv wr l ≡ some l'
    → Moved l l'
unfolding return_move
return_move-Moved waiting gone l l' s h = ground arith
return_move-Moved waiting writing l l' s h = cc
return_move-Moved waiting draining l l' s h = cc
return_move-Moved serving wr l l' s h = cc
return_move-Moved returned wr l l' s h = cc

step-Moved : (m : Move) (l l' : Link) → IsEnding l → step m l ≡ some l' → Moved l l'
unfolding step send_move end_serve_move
step-Moved (send_frame f) l l' s h = ground arith
step-Moved end_serve l l' s h = ground arith
step-Moved write_first l l' s h = write_move-Moved l.writer l.conn_closed l.queue l l' refl refl s h
step-Moved fail_write l l' s h = fail_move-Moved l.writer l.queue l l' refl refl s h
step-Moved drain_first l l' s h = drain_move-Moved l.writer l.queue l l' refl refl s h
step-Moved end_writer l l' s h =
    end_writer_move-Moved l.writer l.queue l.channel_closed l l' refl s h
step-Moved return_serve l l' s h = return_move-Moved l.server l.writer l l' s h

abbrev pub CanMove : Link → Type 0
CanMove l = (m : Move) × (l' : Link) × (step m l ≡ some l')

can_move :
    (sv : Server) (wr : WriterState) (q : List Frame) (c : Bool) (l : Link)
    → l.server ≡ sv
    → l.writer ≡ wr
    → l.queue ≡ q
    → l.channel_closed ≡ c
    → IsEnding l
    → CanMove l
unfolding step fail_move drain_move end_writer_move return_move
can_move waiting writing (f ∷ fs) c l e e' e'' x s =
    (fail_write, record l { queue = fs; conn_closed = true; writer = draining }, rw (e', e'') refl)
can_move waiting draining (f ∷ fs) c l e e' e'' x s =
    (drain_first, record l { queue = fs }, rw (e', e'') refl)
can_move waiting writing [] true l e e' e'' x s =
    (end_writer, record l { writer = gone }, rw (e', e'', x) refl)
can_move waiting draining [] true l e e' e'' x s =
    (end_writer, record l { writer = gone }, rw (e', e'', x) refl)
can_move waiting gone q c l e e' e'' x s =
    (return_serve, record l { server = returned }, rw (e, e') refl)
can_move waiting writing [] false l e e' e'' x s = absurd (ground arith)
can_move waiting draining [] false l e e' e'' x s = absurd (ground arith)
can_move serving wr q c l e e' e'' x s = absurd (ground arith)
can_move returned wr q c l e e' e'' x s = absurd (ground arith)

-- Once `serve` waits with the channel closed, some move can always be made, and every move leaves
-- less work than before and either lets `serve` return or keeps it waiting with the channel closed:
-- the session ends after finitely many moves, in whatever order they are made.
pub ending-step :
    (l : Link) → IsEnding l → CanMove l × ((m : Move) (l' : Link) → step m l ≡ some l' → Moved l l')
ending-step l s = (
  can_move l.server l.writer l.queue l.channel_closed l refl refl refl refl s,
  λ m l' h. step-Moved m l l' s h,
)
