-- ===== src/Sandbox/CapWriter.antt =====
-- internal/sandbox/driver.go: `capWriter`, which takes the output of a command up to a limit.
use ai_agent_cloud_runtime.Prelude.{
  ℕ, zero, suc, ltb→lt, leb→le, ◌-◌, ◌≤◌, ◌<◌, ◌≡◌, refl, sym, ap, ◌∙◌, Bool, true, false, List, [],
  ◌∷◌, ◌++◌, length, take, All, leb, ltb, if◌then◌else◌, Bool-cases, inl, inr, length-append,
  length-take, take-append_le, take_of_length-le, append-nil, append_assoc, arith,
}
use ai_agent_cloud_runtime.Prelude.Int.{ℤ, clamp_zero}

pub record CapWriter : Type 0 where
  pub buf : List ℕ
  pub max : ℤ
  pub truncated : Bool

-- `Write`; what it returns is always `len(p)`, without an error.
unfoldable pub write : List ℕ → CapWriter → CapWriter
write p w =
    let max = clamp_zero w.max in
    if leb max (length w.buf)
    then record w { truncated = true }
    else if ltb (max - length w.buf) (length p)
    then record w { buf = w.buf ++ take (max - length w.buf) p; truncated = true }
    else record w { buf = w.buf ++ p }

-- The writes of a command, in order.
unfoldable pub write_all : List (List ℕ) → CapWriter → CapWriter
unfolding write
write_all [] w = w
write_all (p ∷ ps) w = write_all ps (write p w)

abbrev pub all_bytes : List (List ℕ) → List ℕ
all_bytes [] = []
all_bytes (p ∷ ps) = p ++ all_bytes ps

abbrev pub NonEmpty : List ℕ → Type 0
NonEmpty p = 0 < length p

-- `xs` is what has been written so far.
record Holds (max : ℕ) (xs : List ℕ) (w : CapWriter) : Type 0 where
  same_max : clamp_zero w.max ≡ max
  kept : w.buf ≡ take max xs
  complete : w.truncated ≡ ltb max (length xs)

take-append_more :
    (n : ℕ) (xs ys : List ℕ) → length xs ≤ n → take n (xs ++ ys) ≡ xs ++ take (n - length xs) ys
take-append_more n [] ys h = ap (λ k. take k ys) (omega arith)
take-append_more zero (x ∷ xs) ys h = absurd (omega arith)
take-append_more (suc n) (x ∷ xs) ys h =
    ap (λ r. x ∷ r)
      (take-append_more n xs ys (omega arith) ∙ ap (λ k. xs ++ take k ys) (omega arith))

module _ (max : ℕ) (xs p : List ℕ) (w : CapWriter) (s : Holds max xs w)
    (some_bytes : NonEmpty p) where
  buf_length : length w.buf ≡ (if leb max (length xs) then max else length xs)
  buf_length = rw s.kept (ground (arith, length-take max xs))

  write_full : max ≤ length w.buf → Holds max (xs ++ p) (record w { truncated = true })
  write_full full = record {
    same_max = s.same_max;
    kept = s.kept ∙ sym (take-append_le max xs p (ground (arith, buf_length)));
    complete = ground (arith, buf_length, length-append xs p);
  }

  -- Nothing has been left out yet.
  buf_whole : length w.buf < max → w.buf ≡ xs
  buf_whole room = s.kept ∙ take_of_length-le max xs (ground (arith, buf_length))

  write_cut :
      length w.buf < max
      → max - length w.buf < length p
      → Holds max
          (xs ++ p)
          (record w { buf = w.buf ++ take (max - length w.buf) p; truncated = true })
  write_cut room over = record {
    same_max = s.same_max;
    kept = rw (buf_whole room) (sym (take-append_more max xs p (ground (arith, buf_length))));
    complete = ground (arith, buf_length, buf_whole room, length-append xs p);
  }

  write_whole :
      length w.buf < max
      → length p ≤ max - length w.buf
      → Holds max (xs ++ p) (record w { buf = w.buf ++ p })
  write_whole room fits = record {
    same_max = s.same_max;
    kept =
        rw (buf_whole room)
          (sym (take_of_length-le max (xs ++ p) (ground (arith, buf_length, length-append xs p))));
    complete = s.complete ∙ ground (arith, buf_length, length-append xs p);
  }

  write-Holds : Holds max (xs ++ p) (write p w)
  unfolding write
  write-Holds = rw s.same_max (elim (Bool-cases (leb max (length w.buf))) [
    | inl full ↦ rw full (write_full (leb→le _ _ full))
    | inr room ↦ elim (Bool-cases (ltb (max - length w.buf) (length p))) [
      | inl over ↦ rw (room, over) (write_cut (ground arith) (ltb→lt _ _ over))
      | inr fits ↦ rw (room, fits) (write_whole (ground arith) (ground arith))
    ]
  ])

write_all-Holds :
    (max : ℕ) (ps : List (List ℕ)) (xs : List ℕ) (w : CapWriter)
    → All NonEmpty ps
    → Holds max xs w
    → Holds max (xs ++ all_bytes ps) (write_all ps w)
unfolding write_all
write_all-Holds max [] xs w h s = rw (append-nil xs) s
write_all-Holds max (p ∷ ps) xs w h s =
    rw⁻¹ (append_assoc xs p (all_bytes ps))
      (write_all-Holds max ps (xs ++ p) (write p w) h.1 (write-Holds max xs p w s h.0))

-- The output of a command that is written in non-empty pieces to a fresh writer: what is kept is
-- the first `max` bytes of all that was written, and `truncated` is set just where there was more.
pub write_all-take :
    (max : ℤ) (ps : List (List ℕ))
    → All NonEmpty ps
    → let w = write_all ps (record { buf = []; max = max; truncated = false }) in
      (w.buf ≡ take (clamp_zero max) (all_bytes ps))
      × (w.truncated ≡ ltb (clamp_zero max) (length (all_bytes ps)))
write_all-take max ps h =
    let s =
      write_all-Holds (clamp_zero max) ps [] (record { buf = []; max = max; truncated = false }) h
        (record {
          same_max = refl;
          kept = sym (take_of_length-le (clamp_zero max) [] (omega arith));
          complete = ground arith;
        }) in
    (s.kept, s.complete)
