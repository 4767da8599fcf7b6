-- ===== src/Relay/Backoff.antt =====
-- The delay of backoffFor before the jitter.
use seta_im_intern.Prelude.{
  ℕ, zero, suc, ◌+◌, ◌*◌, ◌^◌, ◌%◌, ◌≤◌, ◌<◌, ◌≡◌, refl, sym, ◌∙◌, ltb, ltb→lt, Bool-cases, inl,
  inr, if◌then◌else◌, arith,
}
use native.Mathlib.Nat.{pow-succ', one-le-pow, mul-le-mul, mul_assoc}
use seta_im_intern.Relay.Drain.{RelayOptions, int64_lt, doubled_backoff, capped_backoff}

abbrev pub min : ℕ → ℕ → ℕ
min a b = if ltb b a then b else a

min-le : (a b : ℕ) → b ≤ a → min a b ≡ b
min-le a b h = ground arith

doubling : (b n : ℕ) → b * 2 ^ suc n ≡ b * 2 * 2 ^ n
doubling b n = rw (pow-succ' 2 n) (sym (mul_assoc b 2 (2 ^ n)))

grows : (b n : ℕ) → b ≤ b * 2 ^ n
grows b n =
    let h : b * 1 ≤ b * 2 ^ n =
      mul-le-mul {n₁ = b} {m₁ = 1} {n₂ = b} {m₂ = 2 ^ n} (omega arith)
        (one-le-pow n 2 (omega arith)) in
    omega (arith, h)

-- Durations that are not negative compare as numbers, and one below 2 ^ 62 doubles without wrapping.
int64_lt-ltb : (a b : ℕ) → a < 2 ^ 63 → b < 2 ^ 63 → int64_lt a b ≡ ltb a b
int64_lt-ltb a b h k =
    let p : (a + 2 ^ 63) % 2 ^ 64 ≡ a + 2 ^ 63 = omega arith in
    let q : (b + 2 ^ 63) % 2 ^ 64 ≡ b + 2 ^ 63 = omega arith in rw (p, q) (ground arith)

doubles : (b : ℕ) → b < 2 ^ 62 → b * 2 % 2 ^ 64 ≡ b * 2
doubles b h = omega arith

-- The loop's delay stays below 2 ^ 63, so that it never turns negative, when the base delay is below
-- that and the greatest delay is at most 2 ^ 62.
pub doubled_backoff-fits :
    (max n b : ℕ) → max ≤ 2 ^ 62 → b < 2 ^ 63 → doubled_backoff max n b < 2 ^ 63
unfolding doubled_backoff
doubled_backoff-fits max zero b h k = k
doubled_backoff-fits max (suc n) b h k = elim (Bool-cases (ltb b max)) [
  | inl below ↦
      let small : b < 2 ^ 62 = omega (arith, ltb→lt b max below) in
      rw (int64_lt-ltb b max k (omega arith), below, doubles b small)
        (doubled_backoff-fits max n (b * 2) h (omega arith))
  | inr reached ↦ rw (int64_lt-ltb b max k (omega arith), reached) k
]

min-doubled_backoff :
    (max n b : ℕ)
    → max ≤ 2 ^ 62
    → b < 2 ^ 63
    → min (doubled_backoff max n b) max ≡ min (b * 2 ^ n) max
unfolding doubled_backoff
min-doubled_backoff max zero b h k = let q : b * 1 ≡ b = omega arith in rw q refl
min-doubled_backoff max (suc n) b h k = elim (Bool-cases (ltb b max)) [
  | inl below ↦
      let small : b < 2 ^ 62 = omega (arith, ltb→lt b max below) in
      rw (int64_lt-ltb b max k (omega arith), below, doubles b small, doubling b n)
        (min-doubled_backoff max n (b * 2) h (omega arith))
  | inr reached ↦
      rw (int64_lt-ltb b max k (omega arith), reached)
        (let here : max ≤ b = ground arith in
          min-le b max here ∙ sym (min-le (b * 2 ^ suc n) max (omega (arith, grows b (suc n)))))
]

-- With a base delay below 2 ^ 63 and a greatest delay of at most 2 ^ 62, the delay before the jitter
-- after `n` earlier attempts is the base delay doubled `n` times, without a wrap-around, or the
-- greatest delay where that is less.
pub capped_backoff-eq :
    (options : RelayOptions) (n : ℕ)
    → options.max_backoff ≤ 2 ^ 62
    → options.base_backoff < 2 ^ 63
    → capped_backoff options n ≡ min (options.base_backoff * 2 ^ n) options.max_backoff
unfolding capped_backoff
capped_backoff-eq options n h k =
    let fits = doubled_backoff-fits options.max_backoff n options.base_backoff h k in
    rw
      (int64_lt-ltb options.max_backoff (doubled_backoff options.max_backoff n options.base_backoff)
        (omega arith) fits)
      (min-doubled_backoff options.max_backoff n options.base_backoff h k)
