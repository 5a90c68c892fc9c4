-- ===== src/Manager/Enroll.antt =====
-- What the setup of a backend does to the sensor table of stm32/project/command/src/sensor_manager.c.
use hilglebone.Base.{
  ℕ, ◌≡◌, ◌≢◌, refl, ap, sym, ◌∙◌, true, false, Bool, inl, inr, Bool-cases, Bool-clash, ==_iff,
  ◌==◌, if◌then◌else◌, not,
}
use hilglebone.Base.ErrCode.{ErrCode, is_success}
use hilglebone.Manager.{Manager, id_none, register}
use hilglebone.Manager.Table.{IsManager}
use hilglebone.Manager.Laws.{register-refused}

module _ {W : Type 0} (manager_of : W → Manager) (protocol_id : ℕ) (m : Manager) where
  -- A setup that succeeds registers one sensor of its protocol; one that is refused leaves the table.
  pub record IsEnrollment (out : ErrCode × ℕ × W) : Type 0 where
    pub enrolled :
        is_success out.0 ≡ true
        → (internal_id : ℕ) × ((register m protocol_id internal_id ≡ (out.1, manager_of out.2))
            × (out.1 ≢ id_none))
    pub refused : is_success out.0 ≡ false → manager_of out.2 ≡ m

  pub refuse :
      (err : ErrCode) (id : ℕ) (w : W)
      → is_success err ≡ false
      → manager_of w ≡ m
      → IsEnrollment (err, id, w)
  refuse err id w bad same = record {
    enrolled = λ ok. Bool-clash (is_success err) ok bad;
    refused = λ _. same;
  }

  pub branch :
      (b : Bool) (p q : ErrCode × ℕ × W)
      → (b ≡ true → IsEnrollment p)
      → (b ≡ false → IsEnrollment q)
      → IsEnrollment (if b then p else q)
  branch b p q on off = elim (Bool-cases b) [ inl t ↦ rw t (on t) | inr f ↦ rw f (off f) ]

  pub enroll :
      (idx : ℕ) (w u : W)
      → IsManager m
      → manager_of w ≡ (register m protocol_id idx).1
      → manager_of u ≡ (register m protocol_id idx).1
      → IsEnrollment (
          if (register m protocol_id idx).0 == id_none
          then (ErrCode.out_of_resources, id_none, u)
          else (ErrCode.success, (register m protocol_id idx).0, w))
  enroll idx w u v same undone =
      let r = register m protocol_id idx in
      branch (r.0 == id_none) (ErrCode.out_of_resources, id_none, u) (ErrCode.success, r.0, w)
        (λ full.
          refuse ErrCode.out_of_resources id_none u refl
            (undone ∙ register-refused m protocol_id idx v full))
        (λ live. record {
          enrolled = λ _. (
            idx,
            (
              ap (λ x. (r.0, x)) (sym same),
              λ e. Bool-clash (r.0 == id_none) ((==_iff _ id_none).1 e) live,
            ),
          );
          refused = λ bad. Bool-clash (is_success ErrCode.success) refl bad;
        })

-- A call that leaves the table.
module _ {W A : Type 0} (manager_of : W → Manager) (m : Manager) where
  pub record IsKept (out : A × W) : Type 0 where
    pub same : manager_of out.1 ≡ m

  pub leave : (a : A) (w : W) → manager_of w ≡ m → IsKept (a, w)
  leave a w e = record { same = e }

  pub leave_branch : (b : Bool) (p q : A × W) → IsKept p → IsKept q → IsKept (if b then p else q)
  leave_branch b p q on off = elim (Bool-cases b) [ inl t ↦ rw t on | inr e ↦ rw e off ]

pub flipped : (b : Bool) → not b ≡ true → b ≡ false
flipped true h = sym h
flipped false h = refl

pub ruleset enrollment = (refuse, branch, enroll, flipped)

pub ruleset keeping = (leave, leave_branch)
