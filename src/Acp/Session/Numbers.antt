-- ===== src/Acp/Session/Numbers.antt =====
-- The numbers of the EVENT frames that an action of a session emits, and rules for them.
use ai_agent_cloud_runtime.Prelude.{
  ℕ, ◌+◌, ◌%◌, ◌^◌, ◌≡◌, refl, ap, ◌∙◌, Bool, true, false, Option, none, some, List, [], ◌∷◌, ◌++◌,
  Result, ok, err, ◌==◌, append-nil, Bool-cases, inl, inr, if◌then◌else◌, arith,
}
use ai_agent_cloud_runtime.Prelude.Text.{Text}
use ai_agent_cloud_runtime.Prelude.Act.{pure, continue, ◌>>=◌}
use ai_agent_cloud_runtime.Acp.Frame.{Frame, frame_event}
use ai_agent_cloud_runtime.Acp.Session.{Conn, Serving, outside, get}

-- Replays the numbers of the EVENT frames after `n`: the last one, or none where one is not the
-- successor of the one before it.
unfoldable pub follows : ℕ → List Frame → Option ℕ
follows n [] = some n
follows n (f ∷ fs) =
    elim (if f.type == frame_event
      then (if f.seq == (n + 1) % 2 ^ 64 then some f.seq else none)
      else some n) [ none ↦ none | some k ↦ follows k fs ]

follows-append_step :
    (m : ℕ) (o : Option ℕ) (fs gs : List Frame)
    → ((k : ℕ) → follows k fs ≡ some m → follows k (fs ++ gs) ≡ follows m gs)
    → (elim o [ none ↦ none | some k ↦ follows k fs ]) ≡ some m
    → (elim o [ none ↦ none | some k ↦ follows k (fs ++ gs) ]) ≡ follows m gs
follows-append_step m none fs gs ih h = cc
follows-append_step m (some k) fs gs ih h = ih k h

follows-append :
    (n m : ℕ) (fs gs : List Frame) → follows n fs ≡ some m → follows n (fs ++ gs) ≡ follows m gs
unfolding follows
follows-append n m [] gs h = ground arith
follows-append n m (f ∷ fs) gs h = follows-append_step m _ fs gs (λ k. follows-append k m fs gs) h

-- From `s` to `s'` the frames `fs` are numbered on from `s.seq_gen`; `s'.seq_gen` is the last
-- number, unless the connection was closed meanwhile; a closed connection sends nothing.
pub record Numbered {W : Type 0} (s : Conn W) (fs : List Frame) (s' : Conn W) : Type 0 where
  pub last : ℕ
  pub numbers : follows s.seq_gen fs ≡ some last
  pub open_last : s'.closed ≡ false → last ≡ s'.seq_gen
  pub stays_closed : s.closed ≡ true → s'.closed ≡ true
  pub silent : s.closed ≡ true → fs ≡ []

pub record Numbers (W A : Type 0) (m : Serving W A) : Type 0 where
  pub at : (s : Conn W) → Numbered s (m s).1 (m s).2

module _ {W : Type 0} where
  pub Numbered-append :
      (s s' s'' : Conn W) (fs gs : List Frame)
      → Numbered s fs s'
      → Numbered s' gs s''
      → Numbered s (fs ++ gs) s''
  Numbered-append s s' s'' fs gs h k = elim (Bool-cases s'.closed) [
    | inl shut ↦ record {
      last = h.last;
      numbers = rw (k.silent shut, append-nil fs) h.numbers;
      open_last = λ e. ground (arith, k.stays_closed shut);
      stays_closed = λ e. k.stays_closed shut;
      silent = λ e. rw (k.silent shut, append-nil fs) (h.silent e);
    }
    | inr still_open ↦ record {
      last = k.last;
      numbers =
          follows-append s.seq_gen h.last fs gs h.numbers
          ∙ (ap (λ n. follows n gs) (h.open_last still_open) ∙ k.numbers);
      open_last = k.open_last;
      stays_closed = λ e. k.stays_closed (h.stays_closed e);
      silent = λ e. ground (arith, h.stays_closed);
    }
  ]

  module _ {A B : Type 0} where
    pub Numbers-bind :
        (m : Serving W A) (f : A → Serving W B)
        → Numbers W A m
        → ((a : A) → Numbers W B (f a))
        → Numbers W B (m >>= f)
    unfolding ◌>>=◌
    Numbers-bind m f h k = record { at = λ s. let (r, es, s') = m s in go r es s s' (h.at s) }
      where
        go :
            (r : Result Text A) (es : List Frame) (s s' : Conn W)
            → Numbered s es s'
            → Numbered s (continue r es f s').1 (continue r es f s').2
        go (ok a) es s s' n = Numbered-append s s' _ es _ n ((k a).at s')
        go (err e) es s s' n = n

  module _ {A : Type 0} where
    pub Numbers-pure : (a : A) → Numbers W A (pure a)
    unfolding follows
    Numbers-pure a = record {
      at = λ s. record {
        last = s.seq_gen;
        numbers = refl;
        open_last = λ e. refl;
        stays_closed = λ e. e;
        silent = λ e. refl;
      };
    }

    Numbers-outside : (op : W → A × W) → Numbers W A (outside op)
    unfolding follows
    Numbers-outside op = record {
      at = λ s. record {
        last = s.seq_gen;
        numbers = refl;
        open_last = λ e. refl;
        stays_closed = λ e. e;
        silent = λ e. refl;
      };
    }

    pub Numbers-if :
        (b : Bool) (m n : Serving W A)
        → Numbers W A m
        → Numbers W A n
        → Numbers W A (if b then m else n)
    Numbers-if true m n h k = h
    Numbers-if false m n h k = k

    -- An action that looks at the state first.
    pub Numbers-get :
        (f : Conn W → Serving W A)
        → ((s : Conn W) → Numbered s (f s s).1 (f s s).2)
        → Numbers W A (get >>= f)
    unfolding ◌>>=◌
    Numbers-get f h = record { at = h }

  pub Numbered-refl : (s : Conn W) → Numbered s [] s
  unfolding follows
  Numbered-refl s = record {
    last = s.seq_gen;
    numbers = refl;
    open_last = λ e. refl;
    stays_closed = λ e. e;
    silent = λ e. refl;
  }
