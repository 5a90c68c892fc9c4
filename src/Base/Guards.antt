-- ===== src/Base/Guards.antt =====
-- A ladder of early returns: the tests in order, each with the status that its branch returns.
use mathlib.Core.Path.{◌≡◌, refl, subst}
use mathlib.Core.Bool.{Bool, true, false}
use mathlib.Core.List.{List, [], ◌∷◌}
use hilglebone.Base.Tests.{if◌then◌else◌, Bool-clash}
use hilglebone.Base.ErrCode.{ErrCode, is_success}

-- The status of the first test that holds, success if there is none.
unfoldable pub first_error : List (Bool × ErrCode) → ErrCode
first_error [] = ErrCode.success
first_error ((test, err) ∷ rest) = let later = first_error rest in if test then err else later

-- No branch of a ladder returns success.
abbrev pub Failing : List (Bool × ErrCode) → Type 0
Failing [] = Unit {0}
Failing ((test, err) ∷ rest) = (is_success err ≡ false) × Failing rest

-- No test of a ladder holds.
abbrev pub Passed : List (Bool × ErrCode) → Type 0
Passed [] = Unit {0}
Passed ((test, err) ∷ rest) = (test ≡ false) × Passed rest

pub first_error-Passed :
    (guards : List (Bool × ErrCode))
    → Failing guards
    → is_success (first_error guards) ≡ true
    → Passed guards
unfolding first_error
first_error-Passed [] f ok = record {}
first_error-Passed ((true, err) ∷ rest) (f, fs) ok = Bool-clash (is_success err) ok f
first_error-Passed ((false, err) ∷ rest) (f, fs) ok = (refl, first_error-Passed rest fs ok)

-- A call that succeeded did not return an error.
pub not_success : (x e : ErrCode) → x ≡ e → is_success e ≡ false → is_success x ≡ true → ⊥
not_success x e same bad ok =
    Bool-clash (is_success e) (subst (λ y. is_success y ≡ true) same ok) bad
