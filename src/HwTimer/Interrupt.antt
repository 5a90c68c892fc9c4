-- ===== src/HwTimer/Interrupt.antt =====
-- The interrupt of a timer in stm32/project/drivers/timer/src/hw_timer.c, in a consistent pool.
use mathlib.Core.Path.{subst}
use hilglebone.Base.{ℕ, ◌<◌, List, ◌≡◌, ◌≢◌, refl, sym, ap, arith, inl, inr, false}
use hilglebone.Base.{
  length, Bool-cases, Option, some, none, get_or-set_self, get_or-set_ne, if◌then◌else◌, ◌&&◌,
}
use hilglebone.HwTimer.{Timer, timer_count, timer_at, is_pulse}
use hilglebone.HwTimer.Pulse.{handle_pulse_isr}
use hilglebone.HwTimer.Pool.{IsPool, IsTimer, Agrees, pulse_of}

-- What the interrupt of a timer does: it clears the flag and leaves all else, of this timer and of the
-- others, and it calls the callback, with the token of the timer, if the flag was raised and the timer
-- is reserved for pulses, and only then.
pub record Dispatched (timers : List Timer) (id : ℕ) (out : List Timer × Option ℕ) : Type 0 where
  pub cleared :
      timer_at out.0 id
      ≡ record (timer_at timers id) { tim = record (timer_at timers id).tim { uif = false } }
  pub others : (i : ℕ) → i ≢ id → timer_at out.0 i ≡ timer_at timers i
  pub called : out.1 ≡ (
      if (timer_at timers id).tim.uif && is_pulse (timer_at timers id).state
      then some (timer_at timers id).pulse_token
      else none)

callback_set : (e : Timer) → IsTimer e → (is_pulse e.state && e.pulse_cb) ≡ is_pulse e.state
callback_set e v = elim (Bool-cases (is_pulse e.state)) [
  | inr other ↦ rw other refl
  | inl pulse ↦ let a = subst (Agrees e) (pulse_of e.state pulse) v in rw (pulse, a.3) refl
]

flag_clear : (e : Timer) → e.tim.uif ≡ false → e ≡ record e { tim = record e.tim { uif = false } }
flag_clear e h = ap (λ b. record e { tim = record e.tim { uif = b } }) h

pub handle_pulse_isr-Dispatched :
    (timers : List Timer) (id : ℕ)
    → IsPool timers
    → id < timer_count
    → Dispatched timers id (handle_pulse_isr timers id)
unfolding handle_pulse_isr
handle_pulse_isr-Dispatched timers id v h =
    let size : length timers ≡ timer_count = v.size in
    elim (Bool-cases (timer_at timers id).tim.uif) [
      | inl raised ↦ rw raised (record {
        cleared = get_or-set_self timers id _ _ (omega arith);
        others = λ i ne. get_or-set_ne timers id i _ _ (λ e. ne (sym e));
        called = rw (raised, callback_set (timer_at timers id) (v.each id h)) refl;
      })
      | inr clear ↦ rw clear (record {
        cleared = flag_clear (timer_at timers id) clear;
        others = λ i ne. refl;
        called = rw clear refl;
      })
    ]
