-- ===== src/Agent/Trace/Rules.antt =====
-- Rules for actions that leave the walk of a run where it is, and for actions that take it on.
use ai_agent_cloud_runtime.Prelude.{
  ◌≡◌, refl, Bool, true, false, some, List, [], Result, ok, err, if◌then◌else◌,
}
use ai_agent_cloud_runtime.Prelude.Text.{Text}
use ai_agent_cloud_runtime.Prelude.Act.{Act, pure, raise, call, try, continue, ◌>>=◌}
use ai_agent_cloud_runtime.Queue.Event.{Event}
use ai_agent_cloud_runtime.Agent.State.{State, failed}
use ai_agent_cloud_runtime.Agent.Trace.{follow, follow-append, Lands}

-- `m` emits no state event of the run, whether it returns or raises.
pub record Quiet (W A : Type 0) (rid : Text) (m : Act (Event State) W A) : Type 0 where
  pub at : (s : State) (w : W) → follow rid s (m w).1 ≡ some s

-- From `s` the state events of the run walk to `u`, or to `failed` where `m` raises.
pub record Walks (W A : Type 0) (rid : Text) (s u : State) (m : Act (Event State) W A)
    : Type 0 where
  pub at : (w : W) → Lands (follow rid s (m w).1) (m w).0 u

module _ {W A : Type 0} (rid : Text) where
  pub Quiet-pure : (a : A) → Quiet W A rid (pure a)
  unfolding follow
  Quiet-pure a = record { at = λ s w. refl }

  pub Quiet-raise : (e : Text) → Quiet W A rid (raise e)
  unfolding follow
  Quiet-raise e = record { at = λ s w. refl }

  pub Quiet-call : (op : W → A × W) → Quiet W A rid (call op)
  unfolding follow
  Quiet-call op = record { at = λ s w. refl }

  pub Quiet-result : (r : Result Text A) → Quiet W A rid (λ w. (r, [], w))
  unfolding follow
  Quiet-result r = record { at = λ s w. refl }

  pub Quiet-if :
      (b : Bool) (m n : Act (Event State) W A)
      → Quiet W A rid m
      → Quiet W A rid n
      → Quiet W A rid (if b then m else n)
  Quiet-if true m n hm hn = hm
  Quiet-if false m n hm hn = hn

  pub Walks-pure : (s : State) (a : A) → Walks W A rid s s (pure a)
  unfolding follow
  Walks-pure s a = record { at = λ w. refl }

  pub Walks-raise : (u : State) (e : Text) → Walks W A rid failed u (raise e)
  unfolding follow
  Walks-raise u e = record { at = λ w. refl }

  pub Walks-call : (s : State) (op : W → A × W) → Walks W A rid s s (call op)
  unfolding follow
  Walks-call s op = record { at = λ w. refl }

  pub Walks-if :
      (s u : State) (b : Bool) (m n : Act (Event State) W A)
      → Walks W A rid s u m
      → Walks W A rid s u n
      → Walks W A rid s u (if b then m else n)
  Walks-if s u true m n hm hn = hm
  Walks-if s u false m n hm hn = hn

  pub Walks-try :
      (s : State) (m : Act (Event State) W A)
      → Quiet W A rid m
      → Walks W (Result Text A) rid s s (try m)
  Walks-try s m q = record { at = λ w. q.at s w }

  pub Quiet-try :
      (m : Act (Event State) W A) → Quiet W A rid m → Quiet W (Result Text A) rid (try m)
  Quiet-try m q = record { at = λ s w. q.at s w }

module _ {W A B : Type 0} (rid : Text) (f : A → Act (Event State) W B) where
  continue-Quiet :
      (r : Result Text A) (es : List (Event State)) (w : W) (s : State)
      → follow rid s es ≡ some s
      → ((a : A) → Quiet W B rid (f a))
      → follow rid s (continue r es f w).1 ≡ some s
  continue-Quiet (ok a) es w s h q = rw (follow-append rid s s es (f a w).1 h) ((q a).at s w)
  continue-Quiet (err e) es w s h q = h

  pub Quiet-bind :
      (m : Act (Event State) W A)
      → Quiet W A rid m
      → ((a : A) → Quiet W B rid (f a))
      → Quiet W B rid (m >>= f)
  unfolding ◌>>=◌
  Quiet-bind m q k = record {
    at = λ s w. let (r, es, w') = m w in continue-Quiet r es w' s (q.at s w) k;
  }

  -- A call of which more is known than its type.
  pub Quiet-call_bind :
      (op : W → A × W) → ((w : W) → Quiet W B rid (f (op w).0)) → Quiet W B rid (call op >>= f)
  unfolding ◌>>=◌ follow
  Quiet-call_bind op k = record { at = λ s w. (k w).at s (op w).1 }

  continue-Walks :
      (r : Result Text A) (es : List (Event State)) (w : W) (s u v : State)
      → Lands (follow rid s es) r u
      → ((a : A) → Walks W B rid u v (f a))
      → Lands (follow rid s (continue r es f w).1) (continue r es f w).0 v
  continue-Walks (ok a) es w s u v h k = rw (follow-append rid s u es (f a w).1 h) ((k a).at w)
  continue-Walks (err e) es w s u v h k = h

  pub Walks-bind :
      (s u v : State) (m : Act (Event State) W A)
      → Walks W A rid s u m
      → ((a : A) → Walks W B rid u v (f a))
      → Walks W B rid s v (m >>= f)
  unfolding ◌>>=◌
  Walks-bind s u v m h k = record {
    at = λ w. let (r, es, w') = m w in continue-Walks r es w' s u v (h.at w) k;
  }
