-- ===== src/HwTimer/Freq.antt =====
-- `compute_psc_arr` finds the prescaler and reload value with the finest duty resolution for every
-- frequency that the pool supports.
use mathlib.Core.Path.{subst}
use native.Mathlib.Nat.{
  mul-div-le, div-le_self, lt-mul-div-succ, le-div_iff_mul-le, div-le_of_le-mul, mul_comm,
}
use hilglebone.Base.{ℕ, suc, ◌+◌, ◌-◌, ◌*◌, ◌/◌, ◌%◌, ◌^◌, ◌≤◌, ◌<◌, ◌≡◌, arith}
use hilglebone.Base.{false, some, ltb, ◌==◌}
use hilglebone.HwTimer.{
  Width, compute_psc_arr, psc_arr_of, max_arr, clock_hz, psc_max, freq_max_hz, arr_max_16,
  arr_max_32,
}

-- What a pair of prescaler and reload value is good for, at a period in clock ticks.
pub record IsSetting (period limit psc arr : ℕ) : Type 0 where
  pub psc_fits : psc ≤ psc_max
  pub arr_fits : arr ≤ limit
  pub two_levels : 1 ≤ arr
  pub not_longer : (psc + 1) * (arr + 1) ≤ period
  pub nearest : period < (psc + 1) * (arr + 2)
  pub finest : (p : ℕ) → p < psc → (p + 1) * (limit + 1) < period

reload : ℕ → ℕ → ℕ
reload period m = period / suc m - 1

two_levels_of : (m period : ℕ) → suc m * 2 ≤ period → 2 ≤ period / suc m
two_levels_of m period lo =
    (le-div_iff_mul-le (omega arith)).1 (subst (λ x. x ≤ period) (mul_comm (suc m) 2) lo)

divided :
    (m period limit : ℕ)
    → suc m * 2 ≤ period
    → period ≤ suc m * suc limit
    → m ≤ psc_max
    → ((p : ℕ) → p < m → (p + 1) * (limit + 1) < period)
    → IsSetting period limit m (reload period m)
unfolding reload
divided m period limit lo hi fits finest =
    let two : 2 ≤ period / suc m = two_levels_of m period lo in
    let top : period / suc m ≤ suc limit = div-le_of_le-mul (suc m) hi in
    let below : suc m * (period / suc m) ≤ period = mul-div-le period (suc m) in
    let above : period < suc m * (period / suc m + 1) = lt-mul-div-succ period (omega arith) in
    let one : period / suc m - 1 + 1 ≡ period / suc m = omega arith in
    let up : period / suc m - 1 + 2 ≡ period / suc m + 1 = omega arith in
    let m1 : m + 1 ≡ suc m = omega arith in
    record {
      psc_fits = fits;
      arr_fits = omega arith;
      two_levels = omega arith;
      not_longer = rw (one, m1) below;
      nearest = rw (up, m1) above;
      finest = finest;
    }

returned :
    (m period limit : ℕ)
    → (period + limit) / (limit + 1) ≡ suc m
    → m ≤ psc_max
    → limit < 2 ^ 32
    → IsSetting period limit m (reload period m)
    → psc_arr_of period limit ≡ some (m, reload period m)
unfolding psc_arr_of reload
returned m period limit e fits word s =
    let high : 1 ≤ period / suc m - 1 = s.two_levels in
    let low : period / suc m - 1 ≤ limit = s.arr_fits in
    let arr : (period / suc m + 2 ^ 64 - 1) % 2 ^ 64 ≡ period / suc m - 1 = omega arith in
    let n0 : (suc m == 0) ≡ false = ground arith in rw (e, n0, arr) (ground arith)

-- The pair that `compute_psc_arr` answers with.
abbrev pub Setting : ℕ → Width → Type 0
Setting freq_hz width =
    (psc : ℕ) × (arr : ℕ) × (compute_psc_arr freq_hz width ≡ some (psc, arr))
    × IsSetting (clock_hz / freq_hz) (max_arr width) psc arr

Found : (period limit : ℕ) → Type 0
Found period limit =
    (psc : ℕ) × (arr : ℕ) × (psc_arr_of period limit ≡ some (psc, arr))
    × IsSetting period limit psc arr

narrow : (period : ℕ) → 2 ≤ period → period ≤ clock_hz → Found period arr_max_16
unfolding Found
narrow period lo hi =
    let m : ℕ = (period + arr_max_16) / (arr_max_16 + 1) - 1 in
    let finest : (p : ℕ) → p < m → (p + 1) * (arr_max_16 + 1) < period = λ p h. omega arith in
    let s : IsSetting period arr_max_16 m (reload period m) =
      divided m period arr_max_16 (omega arith) (omega arith) (omega arith) finest in
    (
      m,
      reload period m,
      returned m period arr_max_16 (omega arith) (omega arith) (omega arith) s,
      s,
    )

wide : (period : ℕ) → 2 ≤ period → period ≤ clock_hz → Found period arr_max_32
unfolding Found
wide period lo hi =
    let s : IsSetting period arr_max_32 0 (reload period 0) =
      divided 0 period arr_max_32 (omega arith) (omega arith) (omega arith)
        (λ p h. absurd (omega arith)) in
    (
      0,
      reload period 0,
      returned 0 period arr_max_32 (omega arith) (omega arith) (omega arith) s,
      s,
    )

either_width :
    (width : Width) (period : ℕ) → 2 ≤ period → period ≤ clock_hz → Found period (max_arr width)
either_width Width.width_16 = narrow
either_width Width.width_32 = wide

-- For every frequency from 1 Hz to half the timer clock and for both counter widths, the search
-- succeeds, and its prescaler and reload value fit the registers, leave at least two duty levels,
-- give the longest timer period that is no longer than the requested one at this prescaler, and no
-- smaller prescaler can reach the period.
pub compute_psc_arr-IsSetting :
    (freq_hz : ℕ) (width : Width) → 1 ≤ freq_hz → freq_hz ≤ freq_max_hz → Setting freq_hz width
unfolding compute_psc_arr Found
compute_psc_arr-IsSetting freq_hz width lo hi =
    let lower : 2 ≤ clock_hz / freq_hz = (le-div_iff_mul-le lo).1 (omega arith) in
    let upper : clock_hz / freq_hz ≤ clock_hz = div-le_self clock_hz freq_hz in
    let s = either_width width (clock_hz / freq_hz) lower upper in
    let guard_1 : (freq_hz == 0) ≡ false = ground arith in
    let guard_2 : ltb freq_max_hz freq_hz ≡ false = ground arith in
    (s.0, s.1, rw (guard_1, guard_2) (s.2), s.3)
