-- ===== src/HwTimer/Pool.antt =====
-- The invariant of the timer pool: the registers, the clock gate and the interrupt of every timer
-- agree with the use that it is reserved for.
use mathlib.Core.Option.{some-injective}
use mathlib.Core.Path.{subst}
use hilglebone.Base.{
  ℕ, zero, suc, ◌+◌, ◌≤◌, ◌<◌, List, [], ◌∷◌, ◌≡◌, refl, sym, arith, ◌⊎◌, inl, inr, true, false,
}
use hilglebone.Base.{
  length, length-set, get_or-set_self, get_or-set_ne, set, Bool-cases, ==_cases, Option-cases, none,
  some, not, ◌||◌, ◌&&◌, ◌==◌, u8, if◌then◌else◌,
}
use hilglebone.HwTimer.{Timer, TimerState, timer_count, timer_at, is_free, is_pulse, is_pwm}
use hilglebone.HwTimer.Pulse.{
  find_pulse_entry, pulse_configure_idle, pulse_reserve, pulse_free, pulse_arm,
}
use hilglebone.HwTimer.Pwm.{pwm_join, pwm_open, pwm_drop, count_left, pwm_leave}

-- A timer under each of its three states.
abbrev pub Agrees : Timer → TimerState → Type 0
Agrees e TimerState.free =
    (e.tim.cen ≡ false)
    × (e.tim.uie ≡ false)
    × (e.clock_on ≡ false)
    × (e.irq_on ≡ false)
    × (e.pulse_cb ≡ false)
    × (e.pwm_ref_count ≡ 0)
Agrees e TimerState.pulse =
    (e.tim.opm ≡ true)
    × (e.clock_on ≡ true)
    × (e.irq_on ≡ true)
    × (e.pulse_cb ≡ true)
    × (e.pwm_ref_count ≡ 0)
Agrees e TimerState.pwm =
    (e.tim.cen ≡ true)
    × (e.tim.opm ≡ false)
    × (e.tim.uie ≡ false)
    × (e.tim.psc ≡ e.psc)
    × (e.tim.arr ≡ e.arr)
    × (e.clock_on ≡ true)
    × (e.irq_on ≡ false)
    × (e.pulse_cb ≡ false)
    × (1 ≤ e.pwm_ref_count)
    × (e.pwm_ref_count ≤ 255)

abbrev pub IsTimer : Timer → Type 0
IsTimer e = Agrees e e.state

state_cases :
    (s : TimerState) → (s ≡ TimerState.free) ⊎ ((s ≡ TimerState.pulse) ⊎ (s ≡ TimerState.pwm))
state_cases TimerState.free = inl refl
state_cases TimerState.pulse = inr (inl refl)
state_cases TimerState.pwm = inr (inr refl)

-- A pool of the seven timers, each consistent.
pub record IsPool (timers : List Timer) : Type 0 where
  pub size : length timers ≡ timer_count
  pub each : (i : ℕ) → i < timer_count → IsTimer (timer_at timers i)

free_of : (s : TimerState) → is_free s ≡ true → s ≡ TimerState.free
free_of TimerState.free h = refl
free_of TimerState.pulse h = cc
free_of TimerState.pwm h = cc

pub pulse_of : (s : TimerState) → is_pulse s ≡ true → s ≡ TimerState.pulse
pulse_of TimerState.pulse h = refl
pulse_of TimerState.free h = cc
pulse_of TimerState.pwm h = cc

pub pwm_of : (s : TimerState) → is_pwm s ≡ true → s ≡ TimerState.pwm
pwm_of TimerState.pwm h = refl
pwm_of TimerState.free h = cc
pwm_of TimerState.pulse h = cc

pub neither_of : (s : TimerState) → is_pulse s ≡ false → is_pwm s ≡ false → s ≡ TimerState.free
neither_of TimerState.free h k = refl
neither_of TimerState.pulse h k = cc
neither_of TimerState.pwm h k = cc

pub set-IsPool :
    (timers : List Timer) (i : ℕ) (e : Timer)
    → IsPool timers
    → i < timer_count
    → IsTimer e
    → IsPool (set timers i e)
set-IsPool timers i e v h t =
    let size : length timers ≡ timer_count = v.size in
    record {
      size = rw (length-set timers i e) size;
      each = λ j hj. elim (==_cases i j) [
        | inl same ↦
            subst (λ k. IsTimer (timer_at (set timers i e) k)) same
              (subst IsTimer (sym (get_or-set_self timers i e _ (omega arith))) t)
        | inr other ↦ subst IsTimer (sym (get_or-set_ne timers i j e _ other)) (v.each j hj)
      ];
    }

pub find_pulse_entry-holds :
    (timers : List Timer) (user_token i : ℕ)
    → find_pulse_entry timers user_token ≡ some i
    → (i < length timers)
      × (is_pulse (timer_at timers i).state ≡ true)
      × ((timer_at timers i).pulse_token ≡ user_token)
unfolding find_pulse_entry
find_pulse_entry-holds [] user_token i h = cc
find_pulse_entry-holds (e ∷ rest) user_token i h =
    elim (Bool-cases (is_pulse e.state && (e.pulse_token == user_token))) [
      | inl m ↦ let here : i ≡ 0 = ground arith in rw here (omega arith, ground arith, ground arith)
      | inr m ↦ elim (Option-cases (find_pulse_entry rest user_token)) [
        | inl missing ↦ absurd (ground arith)
        | inr (k, found) ↦
            let there : i ≡ suc k = ground arith in
            let later = find_pulse_entry-holds rest user_token k found in
            rw there (omega (arith, later), later.1, later.2)
      ]
    ]

pub reserve-IsTimer :
    (e : Timer) (t : ℕ) → IsTimer e → is_free e.state ≡ true → IsTimer (pulse_reserve e t)
unfolding pulse_reserve pulse_configure_idle
reserve-IsTimer e t v h =
    let a = subst (Agrees e) (free_of e.state h) v in (refl, refl, refl, refl, a.5)

pub free-IsTimer : (e : Timer) → IsTimer e → is_pulse e.state ≡ true → IsTimer (pulse_free e)
unfolding pulse_free
free-IsTimer e v h =
    let a = subst (Agrees e) (pulse_of e.state h) v in (refl, refl, refl, refl, refl, a.4)

pub arm-IsTimer :
    (e : Timer) (us : ℕ) → IsTimer e → is_pulse e.state ≡ true → IsTimer (pulse_arm e us)
unfolding pulse_arm
arm-IsTimer e us v h =
    let s = pulse_of e.state h in subst (Agrees (pulse_arm e us)) (sym s) (subst (Agrees e) s v)

pub isr-IsTimer :
    (e : Timer) → IsTimer e → IsTimer (record e { tim = record e.tim { uif = false } })
isr-IsTimer e v = elim (state_cases e.state) [
  | inl s ↦
      subst (Agrees (record e { tim = record e.tim { uif = false } })) (sym s)
        (subst (Agrees e) s v)
  | inr (inl s) ↦
      subst (Agrees (record e { tim = record e.tim { uif = false } })) (sym s)
        (subst (Agrees e) s v)
  | inr (inr s) ↦
      subst (Agrees (record e { tim = record e.tim { uif = false } })) (sym s)
        (subst (Agrees e) s v)
]

-- An update event of the hardware: the flag is raised, and a counter in one-shot mode stops.
abbrev pub updated : Timer → Timer
updated e = record e {
  tim = record e.tim { uif = true; cen = if e.tim.opm then false else e.tim.cen };
}

pub updated-IsTimer : (e : Timer) → IsTimer e → IsTimer (updated e)
updated-IsTimer e v = elim (state_cases e.state) [
  | inl s ↦
      let a = subst (Agrees e) s v in
      subst (Agrees (updated e)) (sym s) (ground arith, a.1, a.2, a.3, a.4, a.5)
  | inr (inl s) ↦ subst (Agrees (updated e)) (sym s) (subst (Agrees e) s v)
  | inr (inr s) ↦
      let a = subst (Agrees e) s v in
      subst (Agrees (updated e)) (sym s) (ground arith, a.1, a.2, a.3, a.4, a.5, a.6, a.7, a.8, a.9)
]

pub open-IsTimer :
    (e : Timer) (s : ℕ × ℕ) → IsTimer e → e.state ≡ TimerState.free → IsTimer (pwm_open e s)
unfolding pwm_open
open-IsTimer e s v f =
    let a = subst (Agrees e) f v in
    (refl, refl, a.1, refl, refl, refl, a.3, a.4, omega arith, omega arith)

pub join-IsTimer :
    (e e' : Timer) (s : ℕ × ℕ)
    → IsTimer e
    → e.state ≡ TimerState.pwm
    → e.pwm_ref_count < 255
    → pwm_join e s ≡ some e'
    → IsTimer e'
unfolding pwm_join
join-IsTimer e e' s v f room h =
    let a = subst (Agrees e) f v in
    elim (Bool-cases (not (e.psc == s.0) || not (e.arr == s.1))) [
      | inl c ↦ absurd (ground arith)
      | inr c ↦
          let joined : Timer = record e { pwm_ref_count = u8 (e.pwm_ref_count + 1) } in
          let same : some joined ≡ some e' =
            subst (λ b. (if b then none else some joined) ≡ some e') c h in
          subst IsTimer (some-injective joined e' same) (
            subst (Agrees joined) (sym f)
              (a.0, a.1, a.2, a.3, a.4, a.5, a.6, a.7, omega arith, omega arith))
    ]

leave-IsTimer :
    (e : Timer) (left : ℕ)
    → Agrees e TimerState.pwm
    → e.state ≡ TimerState.pwm
    → left ≤ 254
    → IsTimer (pwm_leave e left)
unfolding pwm_leave
leave-IsTimer e zero a f h = (refl, a.2, refl, a.6, a.7, refl)
leave-IsTimer e (suc n) a f h =
    let nz : (suc n == 0) ≡ false = ground arith in
    let stays : pwm_leave e (suc n) ≡ record e { pwm_ref_count = suc n } = rw nz refl in
    subst IsTimer (sym stays) (
      subst (Agrees (record e { pwm_ref_count = suc n })) (sym f)
        (a.0, a.1, a.2, a.3, a.4, a.5, a.6, a.7, omega arith, omega arith))

pub drop-IsTimer : (e : Timer) → IsTimer e → e.state ≡ TimerState.pwm → IsTimer (pwm_drop e)
unfolding pwm_drop count_left
drop-IsTimer e v f =
    let a = subst (Agrees e) f v in
    let low : 1 ≤ e.pwm_ref_count = a.8 in
    let high : e.pwm_ref_count ≤ 255 = a.9 in
    let left : count_left e ≤ 254 = ground arith in leave-IsTimer e (count_left e) a f left
