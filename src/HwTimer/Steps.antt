-- ===== src/HwTimer/Steps.antt =====
-- Every operation of hw_timer.c keeps the timer pool consistent.
use mathlib.Core.List.{map}
use hilglebone.Base.{ℕ, zero, suc, ◌<◌, List, [], ◌∷◌, ◌≡◌, refl, arith, inl, inr}
use hilglebone.Base.{length, set, Bool-cases, Option-cases, some, ◌||◌, leb, ltb, ◌==◌}
use hilglebone.HwTimer.{
  Timer, Width, timer_of, timer_count, timer_at, init, is_free, is_pulse, is_pwm, compute_psc_arr,
}
use hilglebone.HwTimer.Pulse.{
  find_pulse_entry, pulse_acquire, pulse_release, pulse_start, handle_pulse_isr, pulse_max_us,
}
use hilglebone.HwTimer.Pool.{
  IsPool, IsTimer, set-IsPool, find_pulse_entry-holds, reserve-IsTimer, free-IsTimer, arm-IsTimer,
  isr-IsTimer, updated, updated-IsTimer, open-IsTimer, join-IsTimer, drop-IsTimer, pwm_of,
  neither_of,
}
use hilglebone.HwTimer.Interrupt.{Dispatched, handle_pulse_isr-Dispatched}
use hilglebone.HwTimer.Pwm.{pwm_join, pwm_acquire_at, pwm_acquire, pwm_release}

-- `find_pulse_entry` finds only timers of the pool that are reserved for pulses.
found_in :
    (timers : List Timer) (t i : ℕ)
    → IsPool timers
    → find_pulse_entry timers t ≡ some i
    → i < timer_count
found_in timers t i v h =
    let size : length timers ≡ timer_count = v.size in
    omega (arith, (find_pulse_entry-holds timers t i h).0)

pub pulse_acquire-IsPool :
    (timers : List Timer) (id t : ℕ) → IsPool timers → IsPool (pulse_acquire timers id t).1
unfolding pulse_acquire
pulse_acquire-IsPool timers id t v = elim (Bool-cases (leb timer_count id)) [
  | inl far ↦ rw far v
  | inr near ↦ elim (Bool-cases (is_free (timer_at timers id).state)) [
    | inr taken ↦ rw (near, taken) v
    | inl f ↦
        let h : id < timer_count = ground arith in
        rw (near, f)
          (set-IsPool timers id _ v h (reserve-IsTimer (timer_at timers id) t (v.each id h) f))
  ]
]

pub pulse_release-IsPool :
    (timers : List Timer) (t : ℕ) → IsPool timers → IsPool (pulse_release timers t)
unfolding pulse_release
pulse_release-IsPool timers t v = elim (Option-cases (find_pulse_entry timers t)) [
  | inl missing ↦ rw (pulse_release, missing) v
  | inr (i, f) ↦
      let h = found_in timers t i v f in
      rw (pulse_release, f)
        (set-IsPool timers i _ v h
          (free-IsTimer (timer_at timers i) (v.each i h) (find_pulse_entry-holds timers t i f).1))
]

pub pulse_start-IsPool :
    (timers : List Timer) (t us : ℕ) → IsPool timers → IsPool (pulse_start timers t us).1
unfolding pulse_start
pulse_start-IsPool timers t us v = elim (Option-cases (find_pulse_entry timers t)) [
  | inl missing ↦ rw (pulse_start, missing) v
  | inr (i, f) ↦ elim (Bool-cases (us == 0 || ltb (pulse_max_us timers t) us)) [
    | inl bad ↦ rw (pulse_start, f, bad) v
    | inr good ↦
        let h = found_in timers t i v f in
        rw (pulse_start, f, good)
          (set-IsPool timers i _ v h (
            arm-IsTimer (timer_at timers i) us (v.each i h)
              (find_pulse_entry-holds timers t i f).1))
  ]
]

pub handle_pulse_isr-IsPool :
    (timers : List Timer) (id : ℕ)
    → id < timer_count
    → IsPool timers
    → IsPool (handle_pulse_isr timers id).0
unfolding handle_pulse_isr
handle_pulse_isr-IsPool timers id h v = elim (Bool-cases (timer_at timers id).tim.uif) [
  | inl set ↦ rw set (set-IsPool timers id _ v h (isr-IsTimer (timer_at timers id) (v.each id h)))
  | inr clear ↦ rw clear v
]

pub pwm_acquire-IsPool :
    (timers : List Timer) (id freq_hz : ℕ)
    → (timer_at timers id).pwm_ref_count < 255
    → IsPool timers
    → IsPool (pwm_acquire timers id freq_hz).2
unfolding pwm_acquire pwm_acquire_at
pwm_acquire-IsPool timers id freq_hz room v = elim (Bool-cases (leb timer_count id)) [
  | inl far ↦ rw far v
  | inr near ↦ elim (Bool-cases (is_pulse (timer_at timers id).state)) [
    | inl busy ↦ rw (near, busy) v
    | inr idle ↦ elim (Option-cases (compute_psc_arr freq_hz (timer_at timers id).width)) [
      | inl bad ↦ rw (near, idle, bad) v
      | inr (s, good) ↦ elim (Bool-cases (is_pwm (timer_at timers id).state)) [
        | inl shared ↦ elim (Option-cases (pwm_join (timer_at timers id) s)) [
          | inl conflict ↦ rw (near, idle, good, shared, conflict) v
          | inr (e', joined) ↦
              let h : id < timer_count = ground arith in
              rw (near, idle, good, shared, joined)
                (set-IsPool timers id e' v h (
                  join-IsTimer (timer_at timers id) e' s (v.each id h) (pwm_of _ shared) room
                    joined))
        ]
        | inr free ↦
            let h : id < timer_count = ground arith in
            rw (near, idle, good, free)
              (set-IsPool timers id _ v h
                (open-IsTimer (timer_at timers id) s (v.each id h) (neither_of _ idle free)))
      ]
    ]
  ]
]

pub pwm_release-IsPool :
    (timers : List Timer) (id : ℕ) → IsPool timers → IsPool (pwm_release timers id)
unfolding pwm_release
pwm_release-IsPool timers id v = elim (Bool-cases (leb timer_count id)) [
  | inl far ↦ rw far v
  | inr near ↦ elim (Bool-cases (is_pwm (timer_at timers id).state)) [
    | inr other ↦ rw (near, other) v
    | inl pwm ↦
        let h : id < timer_count = ground arith in
        rw (near, pwm)
          (set-IsPool timers id _ v h
            (drop-IsTimer (timer_at timers id) (v.each id h) (pwm_of _ pwm)))
  ]
]

-- The calls that change the pool, with the update event and the interrupt of a timer.
pub data Call : Type 0 where
  acquire_pulse : (id user_token : ℕ) → Call
  release_pulse : (user_token : ℕ) → Call
  start_pulse : (user_token pulse_us : ℕ) → Call
  acquire_pwm : (id freq_hz : ℕ) → Call
  release_pwm : (id : ℕ) → Call
  update : (id : ℕ) → Call
  interrupt : (id : ℕ) → Call

unfoldable pub step : Call → List Timer → List Timer
step (Call.acquire_pulse id user_token) timers = (pulse_acquire timers id user_token).1
step (Call.release_pulse user_token) timers = pulse_release timers user_token
step (Call.start_pulse user_token pulse_us) timers = (pulse_start timers user_token pulse_us).1
step (Call.acquire_pwm id freq_hz) timers = (pwm_acquire timers id freq_hz).2
step (Call.release_pwm id) timers = pwm_release timers id
step (Call.update id) timers = set timers id (updated (timer_at timers id))
step (Call.interrupt id) timers = (handle_pulse_isr timers id).0

-- What the 8-bit reference count, the seven timers and their interrupt vectors allow.
abbrev pub Fits : List Timer → Call → Type 0
Fits timers (Call.acquire_pwm id freq_hz) = (timer_at timers id).pwm_ref_count < 255
Fits timers (Call.update id) = id < timer_count
Fits timers (Call.interrupt id) = id < timer_count
Fits timers _ = Unit {0}

-- The pools that calls can lead to from the start.
pub data Reached : List Timer → Type 0 where
  at_start : Reached init
  after :
      (timers : List Timer) (c : Call) → Reached timers → Fits timers c → Reached (step c timers)

unheld : (w : Width) (n : ℕ) → IsTimer (timer_of w n)
unheld w n = (refl, refl, refl, refl, refl, refl)

each_init :
    (widths : List (Width × ℕ)) (i : ℕ) → IsTimer (timer_at (map (λ w. timer_of w.0 w.1) widths) i)
each_init [] i = unheld Width.width_16 0
each_init (w ∷ rest) zero = unheld w.0 w.1
each_init (w ∷ rest) (suc i) = each_init rest i

init-IsPool : IsPool init
unfolding init
init-IsPool = record {
  size = refl;
  each = λ i h.
      each_init
        ((Width.width_32, 4)
          ∷ (Width.width_16, 4)
          ∷ (Width.width_16, 4)
          ∷ (Width.width_32, 4)
          ∷ (Width.width_16, 2)
          ∷ (Width.width_16, 1)
          ∷ (Width.width_16, 1)
          ∷ [])
        i;
}

pub step-IsPool :
    (timers : List Timer) (c : Call) → IsPool timers → Fits timers c → IsPool (step c timers)
unfolding step
step-IsPool timers (Call.acquire_pulse id t) v f = pulse_acquire-IsPool timers id t v
step-IsPool timers (Call.release_pulse t) v f = pulse_release-IsPool timers t v
step-IsPool timers (Call.start_pulse t us) v f = pulse_start-IsPool timers t us v
step-IsPool timers (Call.acquire_pwm id freq_hz) v f = pwm_acquire-IsPool timers id freq_hz f v
step-IsPool timers (Call.release_pwm id) v f = pwm_release-IsPool timers id v
step-IsPool timers (Call.update id) v f =
    set-IsPool timers id _ v f (updated-IsTimer (timer_at timers id) (v.each id f))
step-IsPool timers (Call.interrupt id) v f = handle_pulse_isr-IsPool timers id f v

pub consistent_at : (timers : List Timer) → Reached timers → IsPool timers
consistent_at timers Reached.at_start = init-IsPool
consistent_at timers (Reached.after ts c r f) = step-IsPool ts c (consistent_at ts r) f

-- In every pool that calls, update events of the hardware and interrupts lead to from hw_timer_init,
-- as long as each PWM acquisition is made on a timer with fewer than 255 references and each event
-- and each interrupt is that of one of the seven timers, the registers, the clock and the interrupt
-- of each timer agree with its use: a free timer is stopped, gated and unheld; a pulse timer is in
-- one-shot mode, clocked, with its interrupt and callback set; a PWM timer runs at the recorded
-- prescaler and reload value, without the update interrupt, and has a holder. The next interrupt of
-- any of the seven timers clears its update flag and changes nothing else, and it calls the callback,
-- with the timer's token, if the flag was raised and the timer is reserved for pulses, and only then.
pub Reached-IsPool :
    (timers : List Timer)
    → Reached timers
    → IsPool timers
      × ((id : ℕ) → id < timer_count → Dispatched timers id (handle_pulse_isr timers id))
Reached-IsPool timers r =
    let v = consistent_at timers r in (v, λ id h. handle_pulse_isr-Dispatched timers id v h)
