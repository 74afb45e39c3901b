-- ===== src/Acp/Session/Writer/Moves.antt =====
-- What to show of a property of links for every move to preserve it.
use ai_agent_cloud_runtime.Prelude.{
  ◌<◌, ◌≡◌, refl, Bool, true, false, some, List, [], ◌∷◌, ◌++◌, length, arith,
}
use ai_agent_cloud_runtime.Acp.Frame.{Frame}
use ai_agent_cloud_runtime.Acp.Session.Writer.{
  Server, serving, waiting, returned, WriterState, writing, draining, gone, Link, Move, send_frame,
  end_serve, write_first, fail_write, drain_first, end_writer, return_serve, queue_size, send_move,
  end_serve_move, write_move, fail_move, drain_move, end_writer_move, return_move, step, Steps,
  stop, move,
}

abbrev queued : Link → Frame → Link
queued l f = record l { queue = l.queue ++ (f ∷ []); accepted = l.accepted ++ (f ∷ []) }

-- `P` holds after each move that changes a link, where it held before.
pub record IsKept (P : Link → Type 0) : Type 0 where
  pub keeps_queued :
      (l : Link) (f : Frame) → l.closed ≡ false → length l.queue < queue_size → P l → P (queued l f)
  pub keeps_overflow :
      (l : Link) → l.closed ≡ false → P l → P (record l { closed = true; conn_closed = true })
  pub keeps_end_closed : (l : Link) → l.closed ≡ true → P l → P (record l { server = waiting })
  pub keeps_end_open :
      (l : Link)
      → l.closed ≡ false
      → P l
      → P (record l { server = waiting; closed = true; channel_closed = true })
  pub keeps_write :
      (l : Link) (f : Frame) (fs : List Frame)
      → l.writer ≡ writing
      → l.queue ≡ f ∷ fs
      → P l
      → P (record l { queue = fs; written = l.written ++ (f ∷ []) })
  pub keeps_failure :
      (l : Link) (f : Frame) (fs : List Frame)
      → l.writer ≡ writing
      → l.queue ≡ f ∷ fs
      → P l
      → P (record l { queue = fs; conn_closed = true; writer = draining })
  pub keeps_drain :
      (l : Link) (f : Frame) (fs : List Frame)
      → l.writer ≡ draining
      → l.queue ≡ f ∷ fs
      → P l
      → P (record l { queue = fs })
  pub keeps_end_writer :
      (l : Link) → l.queue ≡ [] → l.channel_closed ≡ true → P l → P (record l { writer = gone })
  pub keeps_return : (l : Link) → l.writer ≡ gone → P l → P (record l { server = returned })

module _ (P : Link → Type 0) (k : IsKept P) where
  carry : (x l' : Link) → some x ≡ some l' → P x → P l'
  carry x l' h p = ground arith

  send_move-keeps :
      (sv : Server) (f : Frame) (l l' : Link) → send_move sv f l ≡ some l' → P l → P l'
  unfolding send_move
  send_move-keeps waiting f l l' h p = cc
  send_move-keeps returned f l l' h p = cc
  send_move-keeps serving f l l' h p = ground (arith, k.keeps_queued l f, k.keeps_overflow l)

  end_serve_move-keeps : (sv : Server) (l l' : Link) → end_serve_move sv l ≡ some l' → P l → P l'
  unfolding end_serve_move
  end_serve_move-keeps serving l l' h p = ground (arith, k.keeps_end_open l, k.keeps_end_closed l)
  end_serve_move-keeps waiting l l' h p = cc
  end_serve_move-keeps returned l l' h p = cc

  write_move-keeps :
      (wr : WriterState) (c : Bool) (q : List Frame) (l l' : Link)
      → l.writer ≡ wr
      → l.queue ≡ q
      → write_move wr c q l ≡ some l'
      → P l
      → P l'
  unfolding write_move
  write_move-keeps writing false (f ∷ fs) l l' e e' h p = ground (arith, k.keeps_write l f fs)
  write_move-keeps writing false [] l l' e e' h p = cc
  write_move-keeps writing true q l l' e e' h p = cc
  write_move-keeps draining c q l l' e e' h p = cc
  write_move-keeps gone c q l l' e e' h p = cc

  fail_move-keeps :
      (wr : WriterState) (q : List Frame) (l l' : Link)
      → l.writer ≡ wr
      → l.queue ≡ q
      → fail_move wr q l ≡ some l'
      → P l
      → P l'
  unfolding fail_move
  fail_move-keeps writing (f ∷ fs) l l' e e' h p = ground (arith, k.keeps_failure l f fs)
  fail_move-keeps writing [] l l' e e' h p = cc
  fail_move-keeps draining q l l' e e' h p = cc
  fail_move-keeps gone q l l' e e' h p = cc

  drain_move-keeps :
      (wr : WriterState) (q : List Frame) (l l' : Link)
      → l.writer ≡ wr
      → l.queue ≡ q
      → drain_move wr q l ≡ some l'
      → P l
      → P l'
  unfolding drain_move
  drain_move-keeps draining (f ∷ fs) l l' e e' h p = ground (arith, k.keeps_drain l f fs)
  drain_move-keeps draining [] l l' e e' h p = cc
  drain_move-keeps writing q l l' e e' h p = cc
  drain_move-keeps gone q l l' e e' h p = cc

  end_writer_move-keeps :
      (wr : WriterState) (q : List Frame) (c : Bool) (l l' : Link)
      → l.queue ≡ q
      → l.channel_closed ≡ c
      → end_writer_move wr q c l ≡ some l'
      → P l
      → P l'
  unfolding end_writer_move
  end_writer_move-keeps gone q c l l' e e' h p = cc
  end_writer_move-keeps writing [] true l l' e e' h p = ground (arith, k.keeps_end_writer l)
  end_writer_move-keeps draining [] true l l' e e' h p = ground (arith, k.keeps_end_writer l)
  end_writer_move-keeps writing [] false l l' e e' h p = cc
  end_writer_move-keeps draining [] false l l' e e' h p = cc
  end_writer_move-keeps writing (f ∷ fs) c l l' e e' h p = cc
  end_writer_move-keeps draining (f ∷ fs) c l l' e e' h p = cc

  return_move-keeps :
      (sv : Server) (wr : WriterState) (l l' : Link)
      → l.writer ≡ wr
      → return_move sv wr l ≡ some l'
      → P l
      → P l'
  unfolding return_move
  return_move-keeps waiting gone l l' e h p = ground (arith, k.keeps_return l)
  return_move-keeps waiting writing l l' e h p = cc
  return_move-keeps waiting draining l l' e h p = cc
  return_move-keeps serving wr l l' e h p = cc
  return_move-keeps returned wr l l' e h p = cc

  step-keeps : (m : Move) (l l' : Link) → step m l ≡ some l' → P l → P l'
  unfolding step
  step-keeps (send_frame f) l l' h p = send_move-keeps l.server f l l' h p
  step-keeps end_serve l l' h p = end_serve_move-keeps l.server l l' h p
  step-keeps write_first l l' h p =
      write_move-keeps l.writer l.conn_closed l.queue l l' refl refl h p
  step-keeps fail_write l l' h p = fail_move-keeps l.writer l.queue l l' refl refl h p
  step-keeps drain_first l l' h p = drain_move-keeps l.writer l.queue l l' refl refl h p
  step-keeps end_writer l l' h p =
      end_writer_move-keeps l.writer l.queue l.channel_closed l l' refl refl h p
  step-keeps return_serve l l' h p = return_move-keeps l.server l.writer l l' refl h p

  pub Steps-keeps : (l l' : Link) → Steps l l' → P l → P l'
  Steps-keeps l l' stop p = p
  Steps-keeps l l' (move m l1 h rest) p = Steps-keeps l1 l' rest (step-keeps m l l1 h p)
