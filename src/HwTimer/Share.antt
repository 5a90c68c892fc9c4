-- ===== src/HwTimer/Share.antt =====
-- What the holders of a PWM timer can rely on while others use the pool.
use mathlib.Core.Option.{some-injective}
use mathlib.Core.Path.{subst}
use hilglebone.Base.{
  ℕ, ◌+◌, ◌-◌, ◌≤◌, ◌<◌, List, ◌≡◌, refl, sym, arith, ◌≢◌, ◌⊎◌, inl, inr, true, false,
}
use hilglebone.Base.{
  get_or-set_self, get_or-set_ne, set, Bool-cases, ==_cases, Option-cases, none, some, not, ◌||◌,
  leb, ltb, ◌==◌, u8, length, if◌then◌else◌,
}
use hilglebone.HwTimer.{
  Timer, TimerState, timer_count, timer_at, is_free, is_pulse, is_pwm, compute_psc_arr,
}
use hilglebone.HwTimer.Pulse.{
  find_pulse_entry, pulse_acquire, pulse_release, pulse_start, handle_pulse_isr, pulse_max_us,
}
use hilglebone.HwTimer.Pwm.{
  pwm_join, pwm_acquire_at, pwm_acquire, pwm_drop, pwm_release, count_left, pwm_leave,
}
use hilglebone.HwTimer.Pool.{IsPool, Agrees, updated, find_pulse_entry-holds}
use hilglebone.HwTimer.Steps.{Call, step}

-- The second timer serves the channels of the first one as before.
pub record Keeps (e e' : Timer) : Type 0 where
  pub state : e'.state ≡ TimerState.pwm
  pub psc : e'.tim.psc ≡ e.tim.psc
  pub arr : e'.tim.arr ≡ e.tim.arr
  pub running : e'.tim.cen ≡ e.tim.cen
  pub clocked : e'.clock_on ≡ e.clock_on
  pub channels : e'.tim.channels ≡ e.tim.channels

held-Keeps : (e : Timer) → e.state ≡ TimerState.pwm → Keeps e e
held-Keeps e h = record {
  state = h;
  psc = refl;
  arr = refl;
  running = refl;
  clocked = refl;
  channels = refl;
}

-- A write to the entry `j` keeps what `i` serves, if it does so at `i`.
set-Keeps :
    (timers : List Timer) (i j : ℕ) (e : Timer)
    → i < length timers
    → (timer_at timers i).state ≡ TimerState.pwm
    → (j ≡ i → Keeps (timer_at timers i) e)
    → Keeps (timer_at timers i) (timer_at (set timers j e) i)
set-Keeps timers i j e h s k = elim (==_cases j i) [
  | inl same ↦
      subst (λ n. Keeps (timer_at timers i) (timer_at (set timers n e) i)) (sym same)
        (subst (Keeps (timer_at timers i)) (sym (get_or-set_self timers i e _ h)) (k same))
  | inr other ↦
      subst (Keeps (timer_at timers i)) (sym (get_or-set_ne timers j i e _ other))
        (held-Keeps (timer_at timers i) s)
]

-- The call does not give up the last reference on the timer.
abbrev pub Spares : List Timer → ℕ → Call → Type 0
Spares timers i (Call.release_pwm id) = (id ≢ i) ⊎ (2 ≤ (timer_at timers i).pwm_ref_count)
Spares timers i _ = Unit {0}

not_pulse : (s : TimerState) → s ≡ TimerState.pwm → is_pulse s ≡ true → ⊥
not_pulse s h k = let k' : false ≡ true = subst (λ x. is_pulse x ≡ true) h k in cc

not_free : (s : TimerState) → s ≡ TimerState.pwm → is_free s ≡ true → ⊥
not_free s h k = let k' : false ≡ true = subst (λ x. is_free x ≡ true) h k in cc

not_other : (s : TimerState) → s ≡ TimerState.pwm → is_pwm s ≡ false → ⊥
not_other s h k = let k' : true ≡ false = subst (λ x. is_pwm x ≡ false) h k in cc

drop-Keeps : (e : Timer) → e.state ≡ TimerState.pwm → 2 ≤ e.pwm_ref_count → Keeps e (pwm_drop e)
unfolding pwm_drop count_left pwm_leave
drop-Keeps e held two =
    let some_left : ltb 0 e.pwm_ref_count ≡ true = ground arith in
    let not_last : (e.pwm_ref_count - 1 == 0) ≡ false = ground arith in
    rw (some_left, not_last)
      (record {
        state = held;
        psc = refl;
        arr = refl;
        running = refl;
        clocked = refl;
        channels = refl;
      })

module _ (timers : List Timer) (v : IsPool timers) (i : ℕ) (b : i < timer_count)
    (held : (timer_at timers i).state ≡ TimerState.pwm) where
  inside : i < length timers
  inside = let size : length timers ≡ timer_count = v.size in omega arith

  still : Keeps (timer_at timers i) (timer_at timers i)
  still = held-Keeps (timer_at timers i) held

  found_other :
      (t j : ℕ) (e : Timer)
      → find_pulse_entry timers t ≡ some j
      → Keeps (timer_at timers i) (timer_at (set timers j e) i)
  found_other t j e f = set-Keeps timers i j e inside held (λ same. absurd (
      not_pulse (timer_at timers j).state
        (subst (λ n. (timer_at timers n).state ≡ TimerState.pwm) (sym same) held)
        (find_pulse_entry-holds timers t j f).1))

  pulse_acquire-Keeps :
      (id t : ℕ) → Keeps (timer_at timers i) (timer_at (pulse_acquire timers id t).1 i)
  unfolding pulse_acquire
  pulse_acquire-Keeps id t = elim (Bool-cases (leb timer_count id)) [
    | inl far ↦ rw far still
    | inr near ↦ elim (Bool-cases (is_free (timer_at timers id).state)) [
      | inr taken ↦ rw (near, taken) still
      | inl f ↦
          rw (near, f)
            (set-Keeps timers i id _ inside held (λ same. absurd (
              not_free (timer_at timers id).state
                (subst (λ n. (timer_at timers n).state ≡ TimerState.pwm) (sym same) held) f)))
    ]
  ]

  pulse_release-Keeps : (t : ℕ) → Keeps (timer_at timers i) (timer_at (pulse_release timers t) i)
  unfolding pulse_release
  pulse_release-Keeps t = elim (Option-cases (find_pulse_entry timers t)) [
    | inl missing ↦ rw (pulse_release, missing) still
    | inr (j, f) ↦ rw (pulse_release, f) (found_other t j _ f)
  ]

  pulse_start-Keeps :
      (t us : ℕ) → Keeps (timer_at timers i) (timer_at (pulse_start timers t us).1 i)
  unfolding pulse_start
  pulse_start-Keeps t us = elim (Option-cases (find_pulse_entry timers t)) [
    | inl missing ↦ rw (pulse_start, missing) still
    | inr (j, f) ↦ elim (Bool-cases (us == 0 || ltb (pulse_max_us timers t) us)) [
      | inl bad ↦ rw (pulse_start, f, bad) still
      | inr good ↦ rw (pulse_start, f, good) (found_other t j _ f)
    ]
  ]

  handle_pulse_isr-Keeps :
      (id : ℕ) → Keeps (timer_at timers i) (timer_at (handle_pulse_isr timers id).0 i)
  unfolding handle_pulse_isr
  handle_pulse_isr-Keeps id = elim (Bool-cases (timer_at timers id).tim.uif) [
    | inl raised ↦ rw raised (
        set-Keeps timers i id _ inside held (λ same. rw same (record {
          state = held;
          psc = refl;
          arr = refl;
          running = refl;
          clocked = refl;
          channels = refl;
        })))
    | inr clear ↦ rw clear still
  ]

  continuous : (timer_at timers i).tim.opm ≡ false
  continuous = (subst (Agrees (timer_at timers i)) held (v.each i b)).1

  update-Keeps :
      (id : ℕ)
      → Keeps (timer_at timers i) (timer_at (set timers id (updated (timer_at timers id))) i)
  update-Keeps id = set-Keeps timers i id _ inside held (λ same. rw same (record {
    state = held;
    psc = refl;
    arr = refl;
    running = rw continuous refl;
    clocked = refl;
    channels = refl;
  }))

  join-Keeps :
      (id : ℕ) (e' : Timer) (s : ℕ × ℕ)
      → pwm_join (timer_at timers id) s ≡ some e'
      → id ≡ i
      → Keeps (timer_at timers i) e'
  unfolding pwm_join
  join-Keeps id e' s h same =
      elim (Bool-cases
        (not ((timer_at timers id).psc == s.0) || not ((timer_at timers id).arr == s.1))) [
          | inl c ↦ absurd (ground arith)
          | inr c ↦
              let joined : Timer = record (timer_at timers id) {
                pwm_ref_count = u8 ((timer_at timers id).pwm_ref_count + 1);
              } in
              let eq : some joined ≡ some e' =
                subst (λ b. (if b then none else some joined) ≡ some e') c h in
              subst (Keeps (timer_at timers i)) (some-injective joined e' eq) (
                rw same (record {
                  state = held;
                  psc = refl;
                  arr = refl;
                  running = refl;
                  clocked = refl;
                  channels = refl;
                }))
        ]

  pwm_acquire-Keeps :
      (id freq_hz : ℕ) → Keeps (timer_at timers i) (timer_at (pwm_acquire timers id freq_hz).2 i)
  unfolding pwm_acquire pwm_acquire_at
  pwm_acquire-Keeps id freq_hz = elim (Bool-cases (leb timer_count id)) [
    | inl far ↦ rw far still
    | inr near ↦ elim (Bool-cases (is_pulse (timer_at timers id).state)) [
      | inl busy ↦ rw (near, busy) still
      | inr idle ↦ elim (Option-cases (compute_psc_arr freq_hz (timer_at timers id).width)) [
        | inl bad ↦ rw (near, idle, bad) still
        | inr (s, good) ↦ elim (Bool-cases (is_pwm (timer_at timers id).state)) [
          | inl shared ↦ elim (Option-cases (pwm_join (timer_at timers id) s)) [
            | inl conflict ↦ rw (near, idle, good, shared, conflict) still
            | inr (e', joined) ↦
                rw (near, idle, good, shared, joined)
                  (set-Keeps timers i id e' inside held (join-Keeps id e' s joined))
          ]
          | inr free ↦
              rw (near, idle, good, free)
                (set-Keeps timers i id _ inside held (λ same. absurd (
                  not_other (timer_at timers id).state
                    (subst (λ n. (timer_at timers n).state ≡ TimerState.pwm) (sym same) held)
                    free)))
        ]
      ]
    ]
  ]

  pwm_release-Keeps :
      (id : ℕ)
      → (id ≢ i) ⊎ (2 ≤ (timer_at timers i).pwm_ref_count)
      → Keeps (timer_at timers i) (timer_at (pwm_release timers id) i)
  unfolding pwm_release
  pwm_release-Keeps id spared = elim (Bool-cases (leb timer_count id)) [
    | inl far ↦ rw far still
    | inr near ↦ elim (Bool-cases (is_pwm (timer_at timers id).state)) [
      | inr other ↦ rw (near, other) still
      | inl pwm ↦
          rw (near, pwm)
            (set-Keeps timers i id _ inside held (λ same. elim spared [
              | inl ne ↦ absurd (ne same)
              | inr two ↦ rw same (drop-Keeps (timer_at timers i) held two)
            ]))
    ]
  ]

  -- A timer that PWM channels hold in a consistent pool keeps its prescaler, reload value, channels
  -- and clock and goes on running through every call, update event and interrupt but the release of its last
  -- reference.
  pub step-Keeps :
      (c : Call) → Spares timers i c → Keeps (timer_at timers i) (timer_at (step c timers) i)
  unfolding step
  step-Keeps (Call.acquire_pulse id t) p = pulse_acquire-Keeps id t
  step-Keeps (Call.release_pulse t) p = pulse_release-Keeps t
  step-Keeps (Call.start_pulse t us) p = pulse_start-Keeps t us
  step-Keeps (Call.acquire_pwm id freq_hz) p = pwm_acquire-Keeps id freq_hz
  step-Keeps (Call.release_pwm id) p = pwm_release-Keeps id p
  step-Keeps (Call.update id) p = update-Keeps id
  step-Keeps (Call.interrupt id) p = handle_pulse_isr-Keeps id
