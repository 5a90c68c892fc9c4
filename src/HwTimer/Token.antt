-- ===== src/HwTimer/Token.antt =====
-- A token is the only handle of a pulse timer: it leads to the timer that it reserved.
use mathlib.Core.Path.{subst}
use hilglebone.Base.{ℕ, zero, suc, ◌<◌, List, [], ◌∷◌, ◌≡◌, refl, sym, arith, inl, inr, true, false}
use hilglebone.Base.{
  get_or-set_self, length-set, set, Bool-cases, none, some, ◌&&◌, leb, ◌==◌, length,
}
use hilglebone.Base.ErrCode.{ErrCode}
use hilglebone.HwTimer.{
  Timer, TimerState, Width, timer_of, timer_count, timer_at, is_free, is_pulse,
}
use hilglebone.HwTimer.Pulse.{
  find_pulse_entry, pulse_reserve, pulse_configure_idle, pulse_acquire, pulse_free, pulse_release,
}
use hilglebone.HwTimer.Pool.{IsPool}

-- A write of a pulse timer of an unbound token binds it.
find_pulse_entry-set :
    (timers : List Timer) (t i : ℕ) (e : Timer)
    → find_pulse_entry timers t ≡ none
    → i < length timers
    → is_pulse e.state ≡ true
    → e.pulse_token ≡ t
    → find_pulse_entry (set timers i e) t ≡ some i
unfolding find_pulse_entry
find_pulse_entry-set [] t i e h b p q = absurd (omega arith)
find_pulse_entry-set (x ∷ rest) t zero e h b p q =
    let m : (is_pulse e.state && (e.pulse_token == t)) ≡ true = ground arith in
    rw (find_pulse_entry, m) refl
find_pulse_entry-set (x ∷ rest) t (suc i) e h b p q =
    elim (Bool-cases (is_pulse x.state && (x.pulse_token == t))) [
      | inl m ↦ absurd (ground arith)
      | inr m ↦
          let missing : find_pulse_entry rest t ≡ none = ground arith in
          rw (find_pulse_entry, m, find_pulse_entry-set rest t i e missing (omega arith) p q) refl
    ]

-- The acquisition succeeds, and the token leads to the timer and back.
pub record Bound (timers : List Timer) (t id : ℕ) (out : ErrCode × List Timer) : Type 0 where
  pub success : out.0 ≡ ErrCode.success
  pub leads : find_pulse_entry out.1 t ≡ some id
  pub back : (timer_at (pulse_release out.1 t) id).state ≡ TimerState.free

-- In a consistent pool, `hw_timer_pulse_acquire` of a free timer for an unbound token succeeds, the
-- token then leads to exactly that timer, and `hw_timer_pulse_release` of the token frees it.
pub pulse_acquire-Bound :
    (timers : List Timer) (id t : ℕ)
    → IsPool timers
    → id < timer_count
    → (timer_at timers id).state ≡ TimerState.free
    → find_pulse_entry timers t ≡ none
    → Bound timers t id (pulse_acquire timers id t)
unfolding pulse_acquire pulse_release pulse_free pulse_reserve pulse_configure_idle
pulse_acquire-Bound timers id t v h free unbound =
    let size : length timers ≡ timer_count = v.size in
    let near : leb timer_count id ≡ false = ground arith in
    let is : is_free (timer_at timers id).state ≡ true =
      subst (λ s. is_free s ≡ true) (sym free) refl in
    let e : Timer = pulse_reserve (timer_at timers id) t in
    let inside : id < length timers = omega arith in
    let leads : find_pulse_entry (set timers id e) t ≡ some id =
      find_pulse_entry-set timers t id e unbound inside refl refl in
    let inside' : id < length (set timers id e) = rw (length-set timers id e) inside in
    rw (near, is)
      (record {
        success = refl;
        leads = leads;
        back =
            rw
              (
                pulse_release,
                leads,
                get_or-set_self (set timers id e) id (pulse_free (timer_at (set timers id e) id))
                    (timer_of Width.width_16 0) inside',
              )
              refl;
      })
