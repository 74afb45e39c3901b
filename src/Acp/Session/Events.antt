-- ===== src/Acp/Session/Events.antt =====
-- The numbers of the EVENT frames that a session puts into its queue.
use ai_agent_cloud_runtime.Prelude.{
  ℕ, ◌+◌, ◌%◌, ◌^◌, ◌≡◌, refl, Bool, true, false, Option, none, some, List, [], ◌∷◌, Result, ok,
  err, ◌==◌, arith,
}
use ai_agent_cloud_runtime.Prelude.Text.{Text}
use ai_agent_cloud_runtime.Prelude.Act.{pure, ◌>>=◌, ◌>>◌}
use ai_agent_cloud_runtime.Acp.Frame.{frame_event}
use ai_agent_cloud_runtime.Acp.EventCache.{SortedSets, append_event}
use ai_agent_cloud_runtime.Acp.Message.{Script, returns, emits, BusinessEvent, RunRequest}
use ai_agent_cloud_runtime.Acp.Session.{
  Conn, Peers, Serving, frame_of, enqueue, send, send_error, store, emit_raw, emit_event,
  run_script, report, run_request, handle_run, ends_stream,
}
use ai_agent_cloud_runtime.Acp.Session.Numbers.{
  follows, Numbered, Numbers, Numbered-append, Numbers-bind, Numbers-pure, Numbers-if, Numbers-get,
  Numbered-refl,
}

abbrev conn : {W : Type 0} → (run_id trace_id : Text) (seq_gen : ℕ) (closed : Bool) → W → Conn W
conn run_id trace_id seq_gen closed w = record {
  run_id = run_id;
  trace_id = trace_id;
  seq_gen = seq_gen;
  closed = closed;
  world = w;
}

Numbered-world :
    {W : Type 0} (run trace : Text) (n : ℕ) (closed : Bool) (w w' : W)
    → Numbered (conn run trace n closed w) [] (conn run trace n closed w')
unfolding follows
Numbered-world run trace n closed w w' = record {
  last = n;
  numbers = refl;
  open_last = λ e. refl;
  stays_closed = λ e. e;
  silent = λ e. refl;
}

module _ {W : Type 0} (p : Peers W) (type flags seq : ℕ) (payload : List ℕ) where
  -- A frame that takes the numbers from `n` to `m`, in an open connection.
  Numbered-enqueue :
      (full : Bool) (run trace : Text) (n m : ℕ) (w w' : W)
      → follows n (frame_of type flags seq payload ∷ []) ≡ some m
      → Numbered
          (conn run trace n false w)
          (enqueue p (frame_of type flags seq payload) full (conn run trace m false w')).1
          (enqueue p (frame_of type flags seq payload) full (conn run trace m false w')).2
  unfolding enqueue follows
  Numbered-enqueue true run trace n m w w' h = record {
    last = n;
    numbers = refl;
    open_last = λ x. cc;
    stays_closed = λ x. refl;
    silent = λ x. refl;
  }
  Numbered-enqueue false run trace n m w w' h = record {
    last = m;
    numbers = h;
    open_last = λ x. refl;
    stays_closed = λ x. cc;
    silent = λ x. cc;
  }

  Numbered-send :
      (type == frame_event) ≡ false
      → (run trace : Text) (n : ℕ) (closed : Bool) (w : W)
      → Numbered
          (conn run trace n closed w)
          (send p (frame_of type flags seq payload) (conn run trace n closed w)).1
          (send p (frame_of type flags seq payload) (conn run trace n closed w)).2
  unfolding send ◌>>=◌ follows
  Numbered-send other run trace n true w = Numbered-refl _
  Numbered-send other run trace n false w =
      Numbered-enqueue (p.queue_full w).0 run trace n n w (p.queue_full w).1
        (rw (follows, other) refl)

  pub Numbers-send :
      (type == frame_event) ≡ false
      → Numbers W (Unit {0}) (send p (frame_of type flags seq payload))
  Numbers-send other = record {
    at = λ s. Numbered-send other s.run_id s.trace_id s.seq_gen s.closed s.world;
  }

  Numbered-queued :
      (full : Bool) (run trace : Text) (n m : ℕ) (w w' : W)
      → follows n (frame_of type flags seq payload ∷ []) ≡ some m
      → let act : Serving W (Option Text) =
          enqueue p (frame_of type flags seq payload) full >> pure none in
        Numbered
          (conn run trace n false w)
          (act (conn run trace m false w')).1
          (act (conn run trace m false w')).2
  unfolding ◌>>=◌ enqueue
  Numbered-queued true run trace n m w w' h =
      Numbered-append _ _ _ _ [] (Numbered-enqueue true run trace n m w w' h) (Numbered-refl _)
  Numbered-queued false run trace n m w w' h =
      Numbered-append _ _ _ _ [] (Numbered-enqueue false run trace n m w w' h) (Numbered-refl _)

module _ {W : Type 0} (p : Peers W) where
  follows-next :
      (n flags : ℕ) (raw : List ℕ)
      → follows n (frame_of frame_event flags ((n + 1) % 2 ^ 64) raw ∷ []) ≡ some ((n + 1) % 2 ^ 64)
  unfolding follows
  follows-next n flags raw = ground arith

  Numbered-stored :
      (o : Option (SortedSets W)) (ev : BusinessEvent) (raw : List ℕ) (run trace : Text) (n : ℕ)
      (w : W)
      → let s' = conn run trace ((n + 1) % 2 ^ 64) false w in
        let m : Serving W (Option Text) =
          store p o run s'.seq_gen raw
          >> (send p (frame_of frame_event (ends_stream ev.kind) s'.seq_gen raw) >> pure none) in
        Numbered (conn run trace n false w) (m s').1 (m s').2
  unfolding store send ◌>>=◌
  Numbered-stored none ev raw run trace n w =
      Numbered-queued p _ _ _ raw (p.queue_full w).0 run trace n _ w (p.queue_full w).1
        (follows-next n _ raw)
  Numbered-stored (some sets) ev raw run trace n w =
      let w' = (append_event sets run ((n + 1) % 2 ^ 64) raw w).1 in
      Numbered-queued p _ _ _ raw (p.queue_full w').0 run trace n _ w (p.queue_full w').1
        (follows-next n _ raw)

  Numbered-emit_raw :
      (ev : BusinessEvent) (r : Result Text (List ℕ)) (run trace : Text) (n : ℕ) (w : W)
      → let s = conn run trace n false w in Numbered s (emit_raw p ev r s).1 (emit_raw p ev r s).2
  unfolding emit_raw ◌>>=◌
  Numbered-emit_raw ev (err x) run trace n w = Numbered-refl _
  Numbered-emit_raw ev (ok raw) run trace n w = Numbered-stored p.cache ev raw run trace n w

  Numbered-emit_event :
      (ev : BusinessEvent) (run trace : Text) (n : ℕ) (closed : Bool) (w : W)
      → let s = conn run trace n closed w in Numbered s (emit_event p ev s).1 (emit_event p ev s).2
  unfolding emit_event ◌>>=◌
  Numbered-emit_event ev run trace n true w = Numbered-refl _
  Numbered-emit_event ev run trace n false w =
      let w' = (p.now_ms w).1 in
      Numbered-append _ (conn run trace n false w') _ [] _ (Numbered-world run trace n false w w')
        (Numbered-emit_raw ev _ run trace n w')

  Numbers-run_script : (sc : Script) → Numbers W (Option Text) (run_script p sc)
  unfolding run_script
  Numbers-run_script (returns e) = Numbers-pure e
  Numbers-run_script (emits ev k) =
      Numbers-bind _ _
        (record { at = λ s. Numbered-emit_event ev s.run_id s.trace_id s.seq_gen s.closed s.world })
        λ e. Numbers-run_script (k e)

  Numbers-report : (e : Option Text) → Numbers W (Unit {0}) (report p e)
  unfolding report send_error
  Numbers-report none = Numbers-pure tt
  Numbers-report (some e) = Numbers-send p _ _ _ _ refl

  Numbers-run_request : (r : Result Text RunRequest) → Numbers W (Unit {0}) (run_request p r)
  unfolding run_request send_error
  Numbers-run_request (err e) = Numbers-send p _ _ _ _ refl
  Numbers-run_request (ok req) = Numbers-if _ _ _ (Numbers-send p _ _ _ _ refl) (
      Numbers-get _ λ s.
        (Numbers-bind _ _ (Numbers-bind _ _ (Numbers-run_script _) Numbers-report)
            (λ _. Numbers-send p _ _ _ _ refl)).at
          s)

  -- `handleRun`, whatever the dispatcher emits and however full the queue is: the EVENT frames that
  -- are queued are numbered on from the session's counter without a gap or a repetition, modulo
  -- 2 ^ 64; the counter ends at the last of them, unless the connection was closed meanwhile; and
  -- a session that is closed queues nothing.
  pub handle_run-Numbered :
      (payload : List ℕ) (s : Conn W)
      → Numbered s (handle_run p payload s).1 (handle_run p payload s).2
  unfolding handle_run
  handle_run-Numbered payload s = (Numbers-run_request (p.unmarshal_run_request payload)).at s
