-- ===== src/I2cSlave/Access.antt =====
-- What the other side of the bus can read and change in the register map.
use mathlib.Core.Path.{subst}
use hilglebone.Base.{
  ℕ, ◌+◌, ◌<◌, List, [], ◌∷◌, ◌≡◌, refl, ◌∙◌, arith, inl, inr, true, false, not, ◌||◌, Bool,
  Bool-cases, some, none, leb, ◌==◌, u8, if◌then◌else◌, length, drop, length-set, drop-set,
}
use hilglebone.I2cSlave.{
  reg_none, Slave, Phase, Event, ev_isr, er_isr, on_addr, on_rxne, on_txe, on_reg_addr, regmap_read,
  regmap_write, expected, auto_inc_read, auto_inc_write, auto_inc_both,
}

-- An interrupt: an event, or an error.
pub data Irq : Type 0 where
  event : (e : Event) → Irq
  error : Irq

-- The interrupts one after the other: the last state and the bytes written to DR, in order.
unfoldable pub run : Slave → List Irq → Slave × List ℕ
run s [] = (s, [])
run s (Irq.error ∷ rest) = run (er_isr s) rest
run s (Irq.event e ∷ rest) =
    let (s', out) = ev_isr s e in
    let (s'', more) = run s' rest in (s'', elim out [ none ↦ more | some byte ↦ byte ∷ more ])

-- The registers that the configuration fixes are the same in both.
pub record Fixed (s s' : Slave) : Type 0 where
  pub initialized : s'.initialized ≡ s.initialized
  pub regmap_len : s'.regmap_len ≡ s.regmap_len
  pub size : length s'.regmap ≡ length s.regmap
  pub writes_allowed : s'.writes_allowed ≡ s.writes_allowed
  pub read_only : s.writes_allowed ≡ false → s'.regmap ≡ s.regmap
  pub beyond : drop s.regmap_len s'.regmap ≡ drop s.regmap_len s.regmap

same-Fixed : (s : Slave) → Fixed s s
same-Fixed s = record {
  initialized = refl;
  regmap_len = refl;
  size = refl;
  writes_allowed = refl;
  read_only = λ h. refl;
  beyond = refl;
}

then-Fixed : (a b c : Slave) → Fixed a b → Fixed b c → Fixed a c
then-Fixed a b c f g = record {
  initialized = g.initialized ∙ f.initialized;
  regmap_len = g.regmap_len ∙ f.regmap_len;
  size = g.size ∙ f.size;
  writes_allowed = g.writes_allowed ∙ f.writes_allowed;
  read_only = λ h. g.read_only (f.writes_allowed ∙ h) ∙ f.read_only h;
  beyond = subst (λ n. drop n c.regmap ≡ drop n b.regmap) f.regmap_len g.beyond ∙ f.beyond;
}

read-Fixed : (s : Slave) → Fixed s (regmap_read s).1
unfolding regmap_read
read-Fixed s = elim (Bool-cases (leb s.regmap_len s.reg_ptr)) [
  | inl far ↦ rw (regmap_read, far) (same-Fixed s)
  | inr near ↦
      elim (Bool-cases (s.auto_inc_mode == auto_inc_read || s.auto_inc_mode == auto_inc_both)) [
        | inl inc ↦
            rw (regmap_read, near, inc)
              (record {
                initialized = refl;
                regmap_len = refl;
                size = refl;
                writes_allowed = refl;
                read_only = λ h. refl;
                beyond = refl;
              })
        | inr stay ↦ rw (regmap_read, near, stay) (same-Fixed s)
      ]
]

write-Fixed : (s : Slave) (byte : ℕ) → Fixed s (regmap_write s byte)
unfolding regmap_write
write-Fixed s byte = elim (Bool-cases (not s.writes_allowed || leb s.regmap_len s.reg_ptr)) [
  | inl refused ↦ rw (regmap_write, refused) (same-Fixed s)
  | inr allowed ↦
      let inside : s.reg_ptr < s.regmap_len = ground arith in
      let writable : s.writes_allowed ≡ true = ground arith in
      elim (Bool-cases (s.auto_inc_mode == auto_inc_write || s.auto_inc_mode == auto_inc_both)) [
        | inl inc ↦
            rw (regmap_write, allowed, inc)
              (record {
                initialized = refl;
                regmap_len = refl;
                size = length-set s.regmap s.reg_ptr byte;
                writes_allowed = refl;
                read_only = λ h. cc;
                beyond = drop-set s.regmap_len s.regmap s.reg_ptr byte inside;
              })
        | inr stay ↦
            rw (regmap_write, allowed, stay)
              (record {
                initialized = refl;
                regmap_len = refl;
                size = length-set s.regmap s.reg_ptr byte;
                writes_allowed = refl;
                read_only = λ h. cc;
                beyond = drop-set s.regmap_len s.regmap s.reg_ptr byte inside;
              })
      ]
]

addr-Fixed : (s : Slave) (tra : Bool) → Fixed s (on_addr s tra)
unfolding on_addr
addr-Fixed s true = record {
  initialized = refl;
  regmap_len = refl;
  size = refl;
  writes_allowed = refl;
  read_only = λ h. refl;
  beyond = refl;
}
addr-Fixed s false = elim (Bool-cases (s.reg_addr_width == reg_none)) [
  | inl streaming ↦
      rw (on_addr, streaming)
        (record {
          initialized = refl;
          regmap_len = refl;
          size = refl;
          writes_allowed = refl;
          read_only = λ h. refl;
          beyond = refl;
        })
  | inr addressed ↦
      rw (on_addr, addressed)
        (record {
          initialized = refl;
          regmap_len = refl;
          size = refl;
          writes_allowed = refl;
          read_only = λ h. refl;
          beyond = refl;
        })
]

reg_addr-Fixed : (s : Slave) (byte : ℕ) → Fixed s (on_reg_addr s byte)
unfolding on_reg_addr
reg_addr-Fixed s byte = elim (Bool-cases (leb (expected s) (u8 (s.reg_addr_cnt + 1)))) [
  | inl all ↦
      rw (on_reg_addr, all)
        (record {
          initialized = refl;
          regmap_len = refl;
          size = refl;
          writes_allowed = refl;
          read_only = λ h. refl;
          beyond = refl;
        })
  | inr more ↦
      rw (on_reg_addr, more)
        (record {
          initialized = refl;
          regmap_len = refl;
          size = refl;
          writes_allowed = refl;
          read_only = λ h. refl;
          beyond = refl;
        })
]

rxne-Fixed : (p : Phase) (s : Slave) (byte : ℕ) → Fixed s (on_rxne p s byte)
unfolding on_rxne
rxne-Fixed Phase.rx_reg_addr s byte = reg_addr-Fixed s byte
rxne-Fixed Phase.rx_data s byte = write-Fixed s byte
rxne-Fixed Phase.idle s byte = same-Fixed s
rxne-Fixed Phase.tx s byte = same-Fixed s

txe-Fixed : (p : Phase) (s : Slave) (b : Bool) → Fixed s (on_txe p s b).0
unfolding on_txe
txe-Fixed Phase.tx s true = read-Fixed s
txe-Fixed Phase.tx s false = same-Fixed s
txe-Fixed Phase.idle s b = same-Fixed s
txe-Fixed Phase.rx_data s b = same-Fixed s
txe-Fixed Phase.rx_reg_addr s b = same-Fixed s

either-Fixed :
    (b : Bool) (s s' s'' : Slave) → Fixed s s' → Fixed s s'' → Fixed s (if b then s' else s'')
either-Fixed true s s' s'' f g = f
either-Fixed false s s' s'' f g = g

er_isr-Fixed : (s : Slave) → Fixed s (er_isr s)
unfolding er_isr
er_isr-Fixed s = record {
  initialized = refl;
  regmap_len = refl;
  size = refl;
  writes_allowed = refl;
  read_only = λ h. refl;
  beyond = refl;
}

ev_isr-Fixed : (s : Slave) (e : Event) → Fixed s (ev_isr s e).0
unfolding ev_isr er_isr
ev_isr-Fixed s e =
    let s₁ : Slave = if e.addr then on_addr s e.tra else s in
    let s₂ : Slave = if e.rxne then on_rxne s₁.phase s₁ (u8 e.dr) else s₁ in
    let s₃ : Slave = (on_txe s₂.phase s₂ (e.txe || e.btf)).0 in
    let f₁ = either-Fixed e.addr s (on_addr s e.tra) s (addr-Fixed s e.tra) (same-Fixed s) in
    let f₂ =
      either-Fixed e.rxne s₁ (on_rxne s₁.phase s₁ (u8 e.dr)) s₁ (rxne-Fixed s₁.phase s₁ (u8 e.dr))
        (same-Fixed s₁) in
    let f₃ = txe-Fixed s₂.phase s₂ (e.txe || e.btf) in
    let f₄ = either-Fixed e.stopf s₃ (er_isr s₃) s₃ (er_isr-Fixed s₃) (same-Fixed s₃) in
    then-Fixed s s₁ _ f₁ (then-Fixed s₁ s₂ _ f₂ (then-Fixed s₂ s₃ _ f₃ f₄))

-- Whatever interrupts arrive, the driver writes nothing past the length of the register map that it
-- was given, keeps that length, writes nothing at all when writes are not allowed, and stays
-- initialized or not as it was.
pub run-Fixed : (s : Slave) (irqs : List Irq) → Fixed s (run s irqs).0
unfolding run
run-Fixed s [] = same-Fixed s
run-Fixed s (Irq.error ∷ rest) =
    then-Fixed s (er_isr s) _ (er_isr-Fixed s) (run-Fixed (er_isr s) rest)
run-Fixed s (Irq.event e ∷ rest) =
    then-Fixed s (ev_isr s e).0 _ (ev_isr-Fixed s e) (run-Fixed (ev_isr s e).0 rest)
