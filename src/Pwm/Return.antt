-- ===== src/Pwm/Return.antt =====
-- `pwm_sensor_stop` gives back what `pwm_sensor_setup` took.
use mathlib.Core.Path.{subst}
use hilglebone.Base.{
  ℕ, ◌≤◌, ◌<◌, List, [], ◌≡◌, refl, sym, ap, ◌∙◌, arith, inl, inr, true, false, not, Bool,
  Bool-cases, ltb, ◌==◌, if◌then◌else◌,
}
use hilglebone.Base.{length, get_or, set, get_or-set_self, set_back}
use hilglebone.Base.ErrCode.{ErrCode, is_success}
use hilglebone.HwTimer.{Timer, max_channel}
use hilglebone.HwTimer.Pwm.{pwm_acquire}
use hilglebone.Manager.{Manager, id_none, register}
use hilglebone.Pwm.{
  World, Config, Sensor, config_of, cfg_size, out_of_range, owned, sensor_at, slot_for,
  slot_pool_size, unused,
}
use hilglebone.Pwm.Calls.{
  setup, setup_config, attach, enroll, configure, written, protocol_id, stop, detach, sensor_of,
}
use hilglebone.Pwm.Slots.{IsOutput, slot_for-lt}

-- The two worlds agree on the slots of the backend and the owners of the pins.
abbrev pub SameClaims : World → World → Type 0
SameClaims w w' = (w'.states ≡ w.states) × (w'.pin_owned ≡ w.pin_owned)

disowned :
    (rows : List (List Bool)) (i j : ℕ)
    → i < length rows
    → get_or (get_or rows i []) j false ≡ false
    → (rows' : List (List Bool)) → rows' ≡ set rows i (set (get_or rows i []) j true)
    → set rows' i (set (get_or rows' i []) j false) ≡ rows
disowned rows i j h unowned rows' e =
    let row : List Bool = get_or rows i [] in
    let taken : get_or rows' i [] ≡ set row j true =
      ap (λ xs. get_or xs i []) e ∙ get_or-set_self rows i (set row j true) [] h in
    let back : set (get_or rows' i []) j false ≡ row =
      ap (λ r. set r j false) taken
      ∙ subst (λ b. set (set row j true) j b ≡ row) unowned (set_back row j true false) in
    ap (λ r. set rows' i r) back ∙ ap (λ xs. set xs i row) e ∙ set_back rows i (set row j true) []

-- The setup of a free slot and an unowned pin, and the stop of that slot.
detach-SameClaims :
    (w w' : World) (c : Config) (idx arr : ℕ)
    → w'.states ≡ (configure w c idx arr).states
    → w'.pin_owned ≡ (configure w c idx arr).pin_owned
    → sensor_at w idx ≡ unused
    → owned w c.port c.pin ≡ false
    → idx < length w.states
    → c.port < length w.pin_owned
    → SameClaims w (detach w' idx (sensor_of c))
unfolding configure detach
detach-SameClaims w w' c idx arr s p empty unowned inside port = (
  ap (λ xs. set xs idx unused) s
      ∙ subst (λ x. set (set w.states idx (sensor_of c)) idx x ≡ w.states) empty
          (set_back w.states idx (sensor_of c) unused),
  disowned w.pin_owned c.port c.pin port unowned w'.pin_owned p,
)

-- A successful registration changes the manager only.
enroll-world :
    (w : World) (c : Config) (idx : ℕ)
    → is_success (enroll w c idx).0 ≡ true
    → (enroll w c idx).2 ≡ record w { manager = (register w.manager protocol_id idx).1 }
unfolding enroll
enroll-world w c idx ok = elim (Bool-cases ((register w.manager protocol_id idx).0 == id_none)) [
  | inl full ↦
      let e : (enroll w c idx).0 ≡ ErrCode.out_of_resources = rw (enroll, full) refl in
      let t : false ≡ true = subst (λ x. is_success x ≡ true) e ok in cc
  | inr live ↦ rw (enroll, live) refl
]

not_ok : (x e : ErrCode) → x ≡ e → is_success e ≡ false → is_success x ≡ true → ⊥
not_ok x e same bad ok =
    let t : true ≡ false = subst (λ y. y ≡ false) (subst (λ y. is_success y ≡ true) same ok) bad in
    cc

-- What a successful setup went through.
record Accepted (w : World) (c : Config) (out : ErrCode × ℕ × World) : Type 0 where
  in_range : out_of_range c ≡ false
  unowned : owned w c.port c.pin ≡ false
  timers : List Timer
  arr : ℕ
  manager : Manager
  world :
      out.2 ≡ record (configure (record w { timers = timers }) c (slot_for c.timer c.channel) arr) {
        manager = manager;
      }

attach-Accepted :
    (w : World) (c : Config)
    → out_of_range c ≡ false
    → owned w c.port c.pin ≡ false
    → is_success (attach w c (slot_for c.timer c.channel)).0 ≡ true
    → Accepted w c (attach w c (slot_for c.timer c.channel))
unfolding attach
attach-Accepted w c a d ok =
    elim (Bool-cases (is_success (pwm_acquire w.timers c.timer c.freq_hz).0)) [
      | inr lost ↦
          absurd
            (not_ok _ (pwm_acquire w.timers c.timer c.freq_hz).0 (rw (attach, lost) refl) lost ok)
      | inl got ↦
          let idx : ℕ = slot_for c.timer c.channel in
          let ts : List Timer = (pwm_acquire w.timers c.timer c.freq_hz).2 in
          let arr : ℕ = written (pwm_acquire w.timers c.timer c.freq_hz).1 in
          let w' : World = configure (record w { timers = ts }) c idx arr in
          let same : attach w c idx ≡ enroll w' c idx = rw (attach, got) refl in
          let fine : is_success (enroll w' c idx).0 ≡ true =
            subst (λ r. is_success r.0 ≡ true) same ok in
          record {
            in_range = a;
            unowned = d;
            timers = ts;
            arr = arr;
            manager = (register w'.manager protocol_id idx).1;
            world = ap (λ r. r.2) same ∙ enroll-world w' c idx fine;
          }
    ]

config-Accepted :
    (w : World) (c : Config)
    → is_success (setup_config w c).0 ≡ true
    → Accepted w c (setup_config w c)
unfolding setup_config attach
config-Accepted w c ok = elim (Bool-cases (out_of_range c)) [
  | inl e ↦ absurd (not_ok _ ErrCode.invalid_parameter (rw (setup_config, e) refl) refl ok)
  | inr a ↦ elim (Bool-cases (ltb (max_channel w.timers c.timer) c.channel)) [
    | inl e ↦ absurd (not_ok _ ErrCode.invalid_parameter (rw (setup_config, a, e) refl) refl ok)
    | inr b ↦ elim (Bool-cases (owned w c.port c.pin)) [
      | inl e ↦ absurd (not_ok _ ErrCode.pin_conflict (rw (setup_config, a, b, e) refl) refl ok)
      | inr d ↦ elim (Bool-cases (sensor_at w (slot_for c.timer c.channel)).in_use) [
        | inl e ↦
            absurd
              (not_ok _ ErrCode.pwm_channel_in_use (rw (setup_config, a, b, d, e) refl) refl ok)
        | inr f ↦
            let idx : ℕ = slot_for c.timer c.channel in
            let same : setup_config w c ≡ attach w c idx = rw (setup_config, a, b, d, f) refl in
            subst (Accepted w c) (sym same)
              (attach-Accepted w c a d (subst (λ r. is_success r.0 ≡ true) same ok))
      ]
    ]
  ]
]

-- What `pwm_sensor_stop` of the slot of `c` does in the world that the setup left.
pub record Returned (w : World) (c : Config) (w' : World) : Type 0 where
  pub success : (stop w' (slot_for c.timer c.channel)).0 ≡ ErrCode.success
  pub claims : SameClaims w (stop w' (slot_for c.timer c.channel)).1

in_range-IsOutput :
    (c : Config) → out_of_range c ≡ false → IsOutput c.timer c.channel × (c.port ≤ 5)
unfolding out_of_range
in_range-IsOutput c h = ground arith

config-Returned :
    (w : World) (c : Config)
    → length w.states ≡ slot_pool_size
    → length w.pin_owned ≡ 6
    → sensor_at w (slot_for c.timer c.channel) ≡ unused
    → is_success (setup_config w c).0 ≡ true
    → Returned w c (setup_config w c).2
unfolding stop configure
config-Returned w c size ports empty ok =
    let a = config-Accepted w c ok in
    let idx : ℕ = slot_for c.timer c.channel in
    let w' : World = (setup_config w c).2 in
    let r = in_range-IsOutput c a.in_range in
    let inside : idx < length w.states = rw size (slot_for-lt c.timer c.channel r.0) in
    let port : c.port < length w.pin_owned = omega (arith, r) in
    let stored : sensor_at w' idx ≡ sensor_of c =
      ap (λ x. sensor_at x idx) (a.world)
      ∙ get_or-set_self w.states idx (sensor_of c) unused inside in
    let on : (sensor_at w' idx).in_use ≡ true = ap (λ x. x.in_use) stored in
    let stops : stop w' idx ≡ (ErrCode.success, detach w' idx (sensor_of c)) =
      ap
        (λ (x : Sensor).
          if not x.in_use
          then (ErrCode.invalid_sensor_id, w')
          else (ErrCode.success, detach w' idx x))
        stored in
    record {
      success = ap (λ x. x.0) stops;
      claims = subst (SameClaims w) (sym (ap (λ x. x.1) stops)) (
          detach-SameClaims w w' c idx a.arr (ap (λ x. x.states) a.world)
            (ap (λ x. x.pin_owned) a.world) empty a.unowned inside port);
    }

-- When `pwm_sensor_setup` succeeds on a cleared slot, with all slots of the pool and the pin
-- masks of all six ports there, `pwm_sensor_stop` of that slot succeeds and leaves every slot
-- and every pin's owner as they were before the setup.
pub setup-Returned :
    (w : World) (cfg : List ℕ) (cfg_len : ℕ)
    → length w.states ≡ slot_pool_size
    → length w.pin_owned ≡ 6
    → sensor_at w (slot_for (config_of cfg).timer (config_of cfg).channel) ≡ unused
    → is_success (setup w cfg cfg_len).0 ≡ true
    → Returned w (config_of cfg) (setup w cfg cfg_len).2
unfolding setup
setup-Returned w cfg cfg_len size ports empty ok = elim (Bool-cases (ltb cfg_len cfg_size)) [
  | inl short ↦
      absurd (not_ok (setup w cfg cfg_len).0 ErrCode.malformed_payload (rw short refl) refl ok)
  | inr e ↦
      let same : setup w cfg cfg_len ≡ setup_config w (config_of cfg) = rw e refl in
      subst (λ r. Returned w (config_of cfg) r.2) (sym same)
        (config-Returned w (config_of cfg) size ports empty
          (subst (λ r. is_success r.0 ≡ true) same ok))
]
