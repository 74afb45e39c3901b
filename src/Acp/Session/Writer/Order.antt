-- ===== src/Acp/Session/Writer/Order.antt =====
-- The order of the frames on the connection.
use ai_agent_cloud_runtime.Prelude.{
  ◌≤◌, ◌<◌, ◌≡◌, refl, sym, ap, ◌∙◌, Bool, true, List, [], ◌∷◌, ◌++◌, length, length-append,
  append_assoc, arith,
}
use ai_agent_cloud_runtime.Acp.Frame.{Frame}
use ai_agent_cloud_runtime.Acp.Session.Writer.{writing, draining, Link, new_link, queue_size, Steps}
use ai_agent_cloud_runtime.Acp.Session.Writer.Moves.{IsKept, Steps-keeps}

-- The frames that were queued are those written, those lost, and those still in the queue; none is
-- lost while the writer is in its loop.
record InOrder (l : Link) : Type 0 where
  lost : List Frame
  split : l.accepted ≡ l.written ++ (lost ++ l.queue)
  lossless : l.writer ≡ writing → lost ≡ []
  bounded : length l.queue ≤ queue_size

module _ (l : Link) (f : Frame) (fs : List Frame) (s : InOrder l) where
  queued-InOrder :
      length l.queue < queue_size
      → InOrder (record l { queue = l.queue ++ (f ∷ []); accepted = l.accepted ++ (f ∷ []) })
  queued-InOrder n = record {
    lost = s.lost;
    split =
        ap (λ a. a ++ (f ∷ [])) s.split
        ∙ (append_assoc l.written (s.lost ++ l.queue) (f ∷ [])
            ∙ ap (λ r. l.written ++ r) (append_assoc s.lost l.queue (f ∷ [])));
    lossless = s.lossless;
    bounded = omega (arith, length-append l.queue (f ∷ []));
  }

  written-InOrder :
      l.writer ≡ writing
      → l.queue ≡ f ∷ fs
      → InOrder (record l { queue = fs; written = l.written ++ (f ∷ []) })
  written-InOrder e e' = record {
    lost = [];
    split = s.split ∙ (rw (s.lossless e, e') refl ∙ sym (append_assoc l.written (f ∷ []) fs));
    lossless = λ _. refl;
    bounded = ground (arith, s.bounded);
  }

  lost-InOrder :
      (c : Bool)
      → l.queue ≡ f ∷ fs
      → InOrder (record l { queue = fs; conn_closed = c; writer = draining })
  lost-InOrder c e = record {
    lost = s.lost ++ (f ∷ []);
    split =
        s.split
        ∙ ap (λ r. l.written ++ r)
            (ap (λ q. s.lost ++ q) e ∙ sym (append_assoc s.lost (f ∷ []) fs));
    lossless = λ x. cc;
    bounded = ground (arith, s.bounded);
  }

-- The frames of the link are what they were, and the writer is not in its loop, or was already.
same_frames :
    (l l' : Link)
    → InOrder l
    → l'.queue ≡ l.queue
    → l'.written ≡ l.written
    → l'.accepted ≡ l.accepted
    → (l'.writer ≡ writing → l.writer ≡ writing)
    → InOrder l'
same_frames l l' s q w a same = record {
  lost = s.lost;
  split = rw (a, w, q) s.split;
  lossless = λ e. s.lossless (same e);
  bounded = rw q s.bounded;
}

InOrder-IsKept : IsKept InOrder
InOrder-IsKept = record {
  keeps_queued = λ l f e n s. queued-InOrder l f [] s n;
  keeps_overflow = λ l e s. same_frames l _ s refl refl refl (λ x. x);
  keeps_end_closed = λ l e s. same_frames l _ s refl refl refl (λ x. x);
  keeps_end_open = λ l e s. same_frames l _ s refl refl refl (λ x. x);
  keeps_write = λ l f fs e e' s. written-InOrder l f fs s e e';
  keeps_failure = λ l f fs e e' s. lost-InOrder l f fs s true e';
  keeps_drain = λ l f fs e e' s.
      let s' = lost-InOrder l f fs s l.conn_closed e' in
      record {
        lost = s'.lost;
        split = s'.split;
        lossless = λ x. ground arith;
        bounded = s'.bounded;
      };
  keeps_end_writer = λ l e e' s. same_frames l _ s refl refl refl (λ x. cc);
  keeps_return = λ l e s. same_frames l _ s refl refl refl (λ x. x);
}

-- Whatever the two goroutines of a session have done so far: the frames that were queued are, in
-- this order, those written to the connection, some that were lost, and those still in the queue;
-- none was lost while the writer is still in its loop; and at most 256 frames are in the queue.
pub reachable-InOrder :
    (l : Link)
    → Steps new_link l
    → ((lost : List Frame) × (l.accepted ≡ l.written ++ (lost ++ l.queue))
        × (l.writer ≡ writing → lost ≡ []))
      × (length l.queue ≤ queue_size)
reachable-InOrder l reached =
    let s =
      Steps-keeps InOrder InOrder-IsKept new_link l reached
        (record { lost = []; split = refl; lossless = λ e. refl; bounded = omega arith }) in
    ((s.lost, s.split, s.lossless), s.bounded)
