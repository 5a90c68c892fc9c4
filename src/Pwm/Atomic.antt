-- ===== src/Pwm/Atomic.antt =====
-- A setup that is refused leaves no trace.
use mathlib.Core.Path.{subst}
use hilglebone.Base.{
  ℕ, List, ◌≡◌, refl, ap, ◌∙◌, ◌≤◌, arith, inl, inr, true, false, Bool-cases, Option-cases, leb,
  ltb, ◌==◌,
}
use hilglebone.Base.ErrCode.{ErrCode, is_success}
use hilglebone.HwTimer.{
  Timer, timer_count, timer_at, is_pulse, is_pwm, compute_psc_arr, max_channel,
}
use hilglebone.HwTimer.Pwm.{pwm_acquire, pwm_acquire_at, pwm_join}
use hilglebone.Manager.{id_none, id_in_use, register}
use hilglebone.Manager.Table.{IsManager}
use hilglebone.Manager.Laws.{register-Registered}
use hilglebone.Pwm.{World, Config, config_of, cfg_size, out_of_range, owned, sensor_at, slot_for}
use hilglebone.Pwm.Calls.{setup, setup_config, attach, enroll, configure, written, protocol_id}

-- `hw_timer_pwm_acquire` changes no timer unless it succeeds.
pwm_acquire-refused :
    (timers : List Timer) (id freq_hz : ℕ)
    → is_success (pwm_acquire timers id freq_hz).0 ≡ false
    → (pwm_acquire timers id freq_hz).2 ≡ timers
unfolding pwm_acquire pwm_acquire_at
pwm_acquire-refused timers id freq_hz bad = elim (Bool-cases (leb timer_count id)) [
  | inl far ↦ rw far refl
  | inr near ↦ elim (Bool-cases (is_pulse (timer_at timers id).state)) [
    | inl busy ↦ rw (near, busy) refl
    | inr idle ↦ elim (Option-cases (compute_psc_arr freq_hz (timer_at timers id).width)) [
      | inl missing ↦ rw (near, idle, missing) refl
      | inr (s, good) ↦ elim (Bool-cases (is_pwm (timer_at timers id).state)) [
        | inl shared ↦ elim (Option-cases (pwm_join (timer_at timers id) s)) [
          | inl conflict ↦ rw (near, idle, good, shared, conflict) refl
          | inr (e', joined) ↦
              let ok : (pwm_acquire timers id freq_hz).0 ≡ ErrCode.success =
                rw (near, idle, good, shared, joined) refl in
              let t : true ≡ false = subst (λ x. is_success x ≡ false) ok bad in cc
        ]
        | inr unshared ↦
            let ok : (pwm_acquire timers id freq_hz).0 ≡ ErrCode.success =
              rw (near, idle, good, unshared) refl in
            let t : true ≡ false = subst (λ x. is_success x ≡ false) ok bad in cc
      ]
    ]
  ]
]

enroll-success :
    (w : World) (c : Config) (idx : ℕ)
    → IsManager w.manager
    → id_in_use w.manager.slots id_none ≡ true
    → is_success (enroll w c idx).0 ≡ true
unfolding enroll
enroll-success w c idx v free =
    let r = register-Registered w.manager protocol_id idx v free in
    let low : 1 ≤ (register w.manager protocol_id idx).0 = r.id.0 in
    let live : ((register w.manager protocol_id idx).0 == id_none) ≡ false = ground arith in
    rw live refl

attach-refused :
    (w : World) (c : Config) (idx : ℕ)
    → IsManager w.manager
    → id_in_use w.manager.slots id_none ≡ true
    → is_success (attach w c idx).0 ≡ false
    → (attach w c idx).2 ≡ w
unfolding attach configure
attach-refused w c idx v free bad =
    elim (Bool-cases (is_success (pwm_acquire w.timers c.timer c.freq_hz).0)) [
      | inl got ↦
          let w' : World =
            configure (record w { timers = (pwm_acquire w.timers c.timer c.freq_hz).2 }) c idx
              (written (pwm_acquire w.timers c.timer c.freq_hz).1) in
          let same : attach w c idx ≡ enroll w' c idx = rw got refl in
          let t : true ≡ false =
            subst (λ x. x ≡ false) (enroll-success w' c idx v free)
              (subst (λ r. is_success r.0 ≡ false) same bad) in
          cc
      | inr lost ↦ rw lost (
          ap (λ timers. record w { timers = timers })
            (pwm_acquire-refused w.timers c.timer c.freq_hz lost))
    ]

config-refused :
    (w : World) (c : Config)
    → IsManager w.manager
    → id_in_use w.manager.slots id_none ≡ true
    → is_success (setup_config w c).0 ≡ false
    → (setup_config w c).2 ≡ w
unfolding setup_config
config-refused w c v free bad = elim (Bool-cases (out_of_range c)) [
  | inl e ↦ rw e refl
  | inr a ↦ elim (Bool-cases (ltb (max_channel w.timers c.timer) c.channel)) [
    | inl e ↦ rw (a, e) refl
    | inr b ↦ elim (Bool-cases (owned w c.port c.pin)) [
      | inl e ↦ rw (a, b, e) refl
      | inr d ↦ elim (Bool-cases (sensor_at w (slot_for c.timer c.channel)).in_use) [
        | inl e ↦ rw (a, b, d, e) refl
        | inr f ↦
            let same : setup_config w c ≡ attach w c (slot_for c.timer c.channel) =
              rw (a, b, d, f) refl in
            let still : is_success (attach w c (slot_for c.timer c.channel)).0 ≡ false =
              subst (λ r. is_success r.0 ≡ false) same bad in
            ap (λ r. r.2) same ∙ attach-refused w c (slot_for c.timer c.channel) v free still
      ]
    ]
  ]
]

-- With a slot of a well-formed sensor table free, a `pwm_sensor_setup` that reports an error has
-- changed nothing: no timer, pin, owner or slot.
pub setup-refused :
    (w : World) (cfg : List ℕ) (cfg_len : ℕ)
    → IsManager w.manager
    → id_in_use w.manager.slots id_none ≡ true
    → is_success (setup w cfg cfg_len).0 ≡ false
    → (setup w cfg cfg_len).2 ≡ w
unfolding setup
setup-refused w cfg cfg_len v free bad = elim (Bool-cases (ltb cfg_len cfg_size)) [
  | inl e ↦ rw e refl
  | inr e ↦
      let same : setup w cfg cfg_len ≡ setup_config w (config_of cfg) = rw e refl in
      let still : is_success (setup_config w (config_of cfg)).0 ≡ false =
        subst (λ r. is_success r.0 ≡ false) same bad in
      ap (λ r. r.2) same ∙ config-refused w (config_of cfg) v free still
]
