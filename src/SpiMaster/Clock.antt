-- ===== src/SpiMaster/Clock.antt =====
-- `compute_br` and the clock rate that it gives.
use hilglebone.Base.{
  ℕ, zero, suc, ◌+◌, ◌≤◌, ◌<◌, ◌≡◌, arith, Bool-cases, ==_cases, leb→le, ltb, ltb→lt, ◌⊎◌, inl, inr,
  leb, ◌>>◌,
}
use hilglebone.SpiMaster.{br_from, compute_br, br_max}

-- The divider for a target rate: fast enough, and every faster setting is too fast.
pub record IsDivider (clk target br : ℕ) : Type 0 where
  pub in_field : br ≤ br_max
  pub not_faster : clk >> (br + 1) ≤ target
  pub fastest : (b : ℕ) → b < br → target < clk >> (b + 1)

step_slow :
    (br clk target : ℕ)
    → ((b : ℕ) → b < br → target < clk >> (b + 1))
    → target < clk >> (br + 1)
    → (b : ℕ) → b < br + 1
    → target < clk >> (b + 1)
step_slow br clk target slow over b lt = elim (==_cases b br) [
  | inl same ↦ rw same over
  | inr other ↦ slow b (omega arith)
]

br_from-IsDivider :
    (n br clk target : ℕ)
    → br + n ≡ 8
    → ((b : ℕ) → b < br → target < clk >> (b + 1))
    → clk >> 8 ≤ target
    → IsDivider clk target (br_from n br clk target)
unfolding br_from
br_from-IsDivider zero br clk target k slow h =
    let last : br ≡ 8 = omega arith in
    let over : target < clk >> (7 + 1) = slow 7 (omega arith) in absurd (omega arith)
br_from-IsDivider (suc n) br clk target k slow h =
    elim (Bool-cases (leb (clk >> (br + 1)) target)) [
      | inl ok ↦ rw ok (record {
        in_field = omega arith;
        not_faster = leb→le (clk >> (br + 1)) target ok;
        fastest = slow;
      })
      | inr fast ↦
          let over : target < clk >> (br + 1) = ground arith in
          rw fast (
            br_from-IsDivider n (br + 1) clk target (omega arith)
              (step_slow br clk target slow over) h)
    ]

divider : (clk target : ℕ) → clk >> 8 ≤ target → IsDivider clk target (compute_br clk target)
unfolding compute_br
divider clk target h =
    br_from-IsDivider 8 0 clk target (omega arith) (λ b lt. absurd (omega arith)) h

too_fast :
    (clk target : ℕ)
    → target < clk >> 8
    → (compute_br clk target ≡ br_max) × (target < clk >> (compute_br clk target + 1))
unfolding compute_br br_from
too_fast clk target h = (ground arith, ground arith)

-- `compute_br` gives the fastest rate that the divider can make and that is not above the target; or
-- the target is below the clock over 256, and it gives the largest divider, whose rate is above the
-- target.
pub compute_br-IsDivider :
    (clk target : ℕ)
    → IsDivider clk target (compute_br clk target)
      ⊎ ((target < clk >> 8)
          × (compute_br clk target ≡ br_max)
          × (target < clk >> (compute_br clk target + 1)))
compute_br-IsDivider clk target = elim (Bool-cases (ltb target (clk >> 8))) [
  | inl t ↦
      let low : target < clk >> 8 = ltb→lt target (clk >> 8) t in
      let f = too_fast clk target low in inr (low, f.0, f.1)
  | inr t ↦ inl (divider clk target (ground arith))
]
