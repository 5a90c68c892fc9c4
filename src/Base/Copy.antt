-- ===== src/Base/Copy.antt =====
-- memcpy and memset between C arrays. The laws state the bounds that make a call memory safe.
use Prim.Native.Nat.{ℕ, zero, suc, ◌+◌, ◌-◌, ◌≤◌, ◌<◌}
use mathlib.Core.Path.{◌≡◌, refl, sym, ap, ◌∙◌}
use mathlib.Core.Logic.{◌⊎◌, inl, inr}
use mathlib.Core.List.{List, [], ◌∷◌, ◌++◌}
use native.Mathlib.Omega.{arith}
use hilglebone.Base.Array.{length, get_or, take, drop, length-append, length-take, take-append}

module _ {ℓ} {A : Type ℓ} where
  -- `memcpy(&dst[at], &src[from], n)`
  abbrev pub copy : List A → ℕ → List A → ℕ → ℕ → List A
  copy dst at src from n = take at dst ++ (take n (drop from src) ++ drop (at + n) dst)

  get_or-append :
      (xs ys : List A) (i : ℕ) (d : A) → i < length xs → get_or (xs ++ ys) i d ≡ get_or xs i d
  get_or-append [] ys i d h = absurd (omega arith)
  get_or-append (x ∷ xs) ys zero d h = refl
  get_or-append (x ∷ xs) ys (suc i) d h = get_or-append xs ys i d (omega arith)

  get_or-append_right :
      (xs ys : List A) (i j : ℕ) (d : A) → i ≡ length xs + j → get_or (xs ++ ys) i d ≡ get_or ys j d
  get_or-append_right [] ys i j d h = ap (λ k. get_or ys k d) (let e : i ≡ j = omega arith in e)
  get_or-append_right (x ∷ xs) ys zero j d h = absurd (omega arith)
  get_or-append_right (x ∷ xs) ys (suc i) j d h = get_or-append_right xs ys i j d (omega arith)

  pub get_or-take :
      (n : ℕ) (xs : List A) (i : ℕ) (d : A) → i < n → get_or (take n xs) i d ≡ get_or xs i d
  get_or-take zero xs i d h = absurd (omega arith)
  get_or-take (suc n) [] i d h = refl
  get_or-take (suc n) (x ∷ xs) zero d h = refl
  get_or-take (suc n) (x ∷ xs) (suc i) d h = get_or-take n xs i d (omega arith)

  pub get_or-drop :
      (n : ℕ) (xs : List A) (i : ℕ) (d : A) → get_or (drop n xs) i d ≡ get_or xs (n + i) d
  get_or-drop zero xs i d = ap (λ k. get_or xs k d) (let e : i ≡ zero + i = omega arith in e)
  get_or-drop (suc n) [] i d = refl
  get_or-drop (suc n) (x ∷ xs) i d =
      get_or-drop n xs i d
      ∙ ap (λ k. get_or (x ∷ xs) k d) (let e : suc (n + i) ≡ suc n + i = omega arith in e)

  pub length-drop : (n : ℕ) (xs : List A) → length (drop n xs) ≡ length xs - n
  length-drop zero xs = omega arith
  length-drop (suc n) [] = omega arith
  length-drop (suc n) (x ∷ xs) = omega (arith, length-drop n xs)

  drop-append : (n : ℕ) (xs ys : List A) → n ≡ length xs → drop n (xs ++ ys) ≡ ys
  drop-append zero [] ys h = refl
  drop-append zero (x ∷ xs) ys h = absurd (omega arith)
  drop-append (suc n) [] ys h = absurd (omega arith)
  drop-append (suc n) (x ∷ xs) ys h = drop-append n xs ys (omega arith)

  take-append_at : (n : ℕ) (xs ys : List A) → n ≡ length xs → take n (xs ++ ys) ≡ xs
  take-append_at n xs ys h = ap (λ k. take k (xs ++ ys)) h ∙ take-append xs ys

  -- A copy within both arrays.
  module _ (dst : List A) (at : ℕ) (src : List A) (from n : ℕ) (room : at + n ≤ length dst)
      (given : from + n ≤ length src) where
    length-part : length (take n (drop from src)) ≡ n
    length-part = length-take n (drop from src) (omega (arith, length-drop from src, given))

    pub length-copy : length (copy dst at src from n) ≡ length dst
    length-copy = omega (
      arith,
      room,
      length-append (take at dst) (take n (drop from src) ++ drop (at + n) dst),
      length-append (take n (drop from src)) (drop (at + n) dst),
      length-part,
      length-take at dst (omega (arith, room)),
      length-drop (at + n) dst,
    )

    -- The copied part reads back.
    pub take-drop-copy : take n (drop at (copy dst at src from n)) ≡ take n (drop from src)
    take-drop-copy =
        ap (take n)
          (drop-append at (take at dst) _ (sym (length-take at dst (omega (arith, room)))))
        ∙ take-append_at n (take n (drop from src)) _ (sym length-part)

    pub get_or-copy :
        (i : ℕ) (d : A)
        → i < n
        → get_or (copy dst at src from n) (at + i) d ≡ get_or src (from + i) d
    get_or-copy i d h =
        get_or-append_right (take at dst) _ (at + i) i d
          (omega (arith, length-take at dst (omega (arith, room))))
        ∙ get_or-append (take n (drop from src)) _ i d (omega (arith, length-part, h))
        ∙ get_or-take n (drop from src) i d h
        ∙ get_or-drop from src i d

    -- The rest of the array stays.
    pub get_or-copy_outside :
        (i : ℕ) (d : A)
        → (i < at) ⊎ (at + n ≤ i)
        → get_or (copy dst at src from n) i d ≡ get_or dst i d
    get_or-copy_outside i d (inl h) =
        get_or-append (take at dst) _ i d
          (omega (arith, h, length-take at dst (omega (arith, room))))
        ∙ get_or-take at dst i d h
    get_or-copy_outside i d (inr h) =
        let k = i - (at + n) in
        get_or-append_right (take at dst) _ i (n + k) d
          (omega (arith, h, length-take at dst (omega (arith, room))))
        ∙ get_or-append_right (take n (drop from src)) _ (n + k) k d (omega (arith, length-part))
        ∙ get_or-drop (at + n) dst k d
        ∙ ap (λ j. get_or dst j d) (let e : at + n + k ≡ i = omega (arith, h) in e)
