-- ===== src/Acp/Codec/Uvarint.antt =====
-- The length prefix: `readUvarint` against `binary.PutUvarint`.
use native.Mathlib.Nat.{div-add-mod}
use native.Mathlib.Decide.{dec_lt}
use native.Mathlib.Numerals.{towards_suc}
use ai_agent_cloud_runtime.Prelude.{
  ℕ, zero, suc, ◌+◌, ◌*◌, ◌/◌, ◌%◌, ◌^◌, ◌≤◌, ◌<◌, ◌≡◌, refl, ap, ◌∙◌, List, ◌∷◌, ◌++◌, ok, arith,
}
use ai_agent_cloud_runtime.Prelude.Bits.{bit_and-low_seven, bit_or-top_bit, bit_or-disjoint}
use ai_agent_cloud_runtime.Acp.Codec.{put_uvarint, read_uvarint_loop, read_uvarint}

-- The last byte of a number, read where `x` holds the bits below `s`.
last_byte :
    (k b x s : ℕ) (rest : List ℕ)
    → b < 128
    → (k ≡ 0 → b ≤ 1)
    → x < 2 ^ s
    → b * 2 ^ s < 2 ^ 64
    → read_uvarint_loop (suc k) x s (b ∷ rest) ≡ ok (x + b * 2 ^ s, rest)
unfolding read_uvarint_loop
last_byte k b x s rest hb last hx fits = ground (arith, bit_or-disjoint s x b)

-- A byte `g + 128` adds its seven low bits.
inner_byte :
    (k g x s : ℕ) (rest : List ℕ)
    → g < 128
    → x < 2 ^ s
    → g * 2 ^ s < 2 ^ 64
    → read_uvarint_loop (suc k) x s ((g + 128) ∷ rest)
      ≡ read_uvarint_loop k (x + g * 2 ^ s) (s + 7) rest
unfolding read_uvarint_loop
inner_byte k g x s rest hg hx fits =
    ground (arith, bit_or-disjoint s x g, bit_and-low_seven (g + 128))

shift_seven : (s : ℕ) → 2 ^ (s + 7) ≡ 128 * 2 ^ s
shift_seven s = simp towards_suc (omega arith)

low_and_high : (n unit : ℕ) → n % 128 * unit + n / 128 * (128 * unit) ≡ n * unit
low_and_high n unit = omega (arith, ap (λ (whole : ℕ). whole * unit) (div-add-mod n 128))

high_shifted : (n s : ℕ) → n / 128 * 2 ^ (s + 7) ≡ n / 128 * (128 * 2 ^ s)
high_shifted n s = rw (shift_seven s) refl

below_product : (g x p : ℕ) → g < 128 → x < p → x + g * p < 128 * p
below_product g x p hg hx = grind arith

add_group-lt : (g x s : ℕ) → g < 128 → x < 2 ^ s → x + g * 2 ^ s < 2 ^ (s + 7)
add_group-lt g x s hg hx = omega (arith, below_product g x (2 ^ s), shift_seven s)

regroup : (w x s : ℕ) → x + w % 128 * 2 ^ s + w / 128 * 2 ^ (s + 7) ≡ x + w * 2 ^ s
regroup w x s = omega (arith, high_shifted w s, low_and_high w (2 ^ s))

-- At bit 63 there is room for one bit.
top_room : (b s : ℕ) → s ≡ 63 → b * 2 ^ s < 2 ^ 64 → b ≤ 1
top_room b s e fits = let at_top : b * 2 ^ 63 < 2 ^ 64 = rw e at fits in omega arith

put_uvarint_last : (k w : ℕ) (rest : List ℕ) → w < 128 → put_uvarint (suc k) w ++ rest ≡ w ∷ rest
unfolding put_uvarint
put_uvarint_last k w rest h = ground arith

put_uvarint_inner :
    (k w : ℕ) (rest : List ℕ)
    → 128 ≤ w
    → put_uvarint (suc k) w ++ rest ≡ (w % 128 + 128) ∷ put_uvarint k (w / 128) ++ rest
unfolding put_uvarint
put_uvarint_inner k w rest h = ground (arith, bit_or-top_bit (w % 256))

-- `w` is what is still to be read, it counts from bit `s` on, and `k + 1` bytes may follow.
read_uvarint_loop-put_uvarint :
    (k w x s : ℕ) (rest : List ℕ)
    → s + 7 * suc k ≡ 70
    → x < 2 ^ s
    → x + w * 2 ^ s < 2 ^ 64
    → read_uvarint_loop (suc k) x s (put_uvarint (suc k) w ++ rest) ≡ ok (x + w * 2 ^ s, rest)
read_uvarint_loop-put_uvarint zero w x s rest hs hx fits =
    let small : w ≤ 1 = top_room w s (omega arith) (omega arith) in
    rw (put_uvarint_last zero w rest (omega arith))
      (last_byte zero w x s rest (omega arith) (λ _. small) hx (omega arith))
read_uvarint_loop-put_uvarint (suc k) w x s rest hs hx fits = elim (dec_lt w 128) [
  | yes p ↦
      rw (put_uvarint_last (suc k) w rest p)
        (last_byte (suc k) w x s rest p (λ e. absurd (omega arith)) hx (omega arith))
  | no p ↦ rw (put_uvarint_inner (suc k) w rest (omega arith)) (
      inner_byte (suc k) (w % 128) x s (put_uvarint (suc k) (w / 128) ++ rest) (omega arith) hx
        (omega (arith, regroup w x s))
      ∙ read_uvarint_loop-put_uvarint k (w / 128) (x + w % 128 * 2 ^ s) (s + 7) rest (omega arith)
          (add_group-lt (w % 128) x s (omega arith) hx) (omega (arith, regroup w x s))
      ∙ ap (λ (t : ℕ). ok (t, rest)) (regroup w x s))
]

pub read_uvarint-put_uvarint :
    (n : ℕ) (rest : List ℕ) → n < 2 ^ 64 → read_uvarint (put_uvarint 10 n ++ rest) ≡ ok (n, rest)
unfolding read_uvarint
read_uvarint-put_uvarint n rest h = ground (arith, read_uvarint_loop-put_uvarint 9 n 0 0 rest)
