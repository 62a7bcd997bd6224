-- ===== src/Base/Lists.antt =====
-- Lists measured and indexed by native numbers, under the library's names, and `memcpy`.
use Prim.Native.Nat.{ℕ, zero, suc, ◌+◌, ◌-◌, ◌≤◌, ◌<◌, min}
use mathlib.Core.Path.{◌≡◌, refl, sym, ap, ap₂}
use mathlib.Core.List.{List, [], ◌∷◌, ◌++◌}
use native.Mathlib.Omega.{arith}
use camera_controller.Base.Tests.{ltb, le→ltb_false, if◌then◌else◌}

module _ {ℓ} {A : Type ℓ} where
  abbrev pub length : List A → ℕ
  length [] = 0
  length (x ∷ xs) = suc (length xs)

  abbrev pub get_or : List A → ℕ → A → A
  get_or [] i d = d
  get_or (x ∷ xs) zero d = x
  get_or (x ∷ xs) (suc i) d = get_or xs i d

  abbrev pub take : ℕ → List A → List A
  take zero xs = []
  take (suc n) [] = []
  take (suc n) (x ∷ xs) = x ∷ take n xs

  abbrev pub drop : ℕ → List A → List A
  drop zero xs = xs
  drop (suc n) [] = []
  drop (suc n) (x ∷ xs) = drop n xs

  abbrev pub replicate : ℕ → A → List A
  replicate zero a = []
  replicate (suc n) a = a ∷ replicate n a

  abbrev pub foldl {κ} : {S : Type κ} → (S → A → S) → S → List A → S
  foldl f s [] = s
  foldl f s (x ∷ xs) = foldl f (f s x) xs

-- Every entry has the property.
abbrev pub All {ℓ κ} : {A : Type ℓ} → (A → Type κ) → List A → Type κ
All P [] = Unit
All P (x ∷ xs) = P x × All P xs

pub All-snoc {ℓ κ} :
    {A : Type ℓ} (P : A → Type κ) {x : A} (xs : List A) → All P xs → P x → All P (xs ++ x ∷ [])
All-snoc P [] h k = (k, tt)
All-snoc P (y ∷ xs) (h, hs) k = (h, All-snoc P xs hs k)

-- The loads and stores of `memcpy(array + at, bytes, length bytes)`: the bytes from `at` on are
-- replaced. What would reach past the end of the array is dropped.
unfoldable pub memcpy {ℓ} : {A : Type ℓ} → List A → ℕ → List A → List A
memcpy [] at bytes = []
memcpy (x ∷ xs) (suc at) bytes = x ∷ memcpy xs at bytes
memcpy (x ∷ xs) zero [] = x ∷ xs
memcpy (x ∷ xs) zero (b ∷ bytes) = b ∷ memcpy xs zero bytes

module _ {ℓ} {A : Type ℓ} where
  pub length-append : (xs ys : List A) → length (xs ++ ys) ≡ length xs + length ys
  length-append [] ys = omega arith
  length-append (x ∷ xs) ys = omega (arith, length-append xs ys)

  pub length-take : (n : ℕ) (xs : List A) → length (take n xs) ≡ min n (length xs)
  length-take zero xs = omega arith
  length-take (suc n) [] = omega arith
  length-take (suc n) (x ∷ xs) = omega (arith, length-take n xs)

  pub length-drop : (n : ℕ) (xs : List A) → length (drop n xs) ≡ length xs - n
  length-drop zero xs = omega arith
  length-drop (suc n) [] = omega arith
  length-drop (suc n) (x ∷ xs) = omega (arith, length-drop n xs)

  pub take-append-drop : (n : ℕ) (xs : List A) → take n xs ++ drop n xs ≡ xs
  take-append-drop zero xs = refl
  take-append-drop (suc n) [] = refl
  take-append-drop (suc n) (x ∷ xs) = rw (take-append-drop n xs)

  pub take_all : (n : ℕ) (xs : List A) → length xs ≤ n → take n xs ≡ xs
  take_all zero [] h = refl
  take_all zero (x ∷ xs) h = absurd (omega arith)
  take_all (suc n) [] h = refl
  take_all (suc n) (x ∷ xs) h = ap (◌∷◌ x) (take_all n xs (omega arith))

  pub drop_all : (n : ℕ) (xs : List A) → length xs ≤ n → drop n xs ≡ []
  drop_all zero [] h = refl
  drop_all zero (x ∷ xs) h = absurd (omega arith)
  drop_all (suc n) [] h = refl
  drop_all (suc n) (x ∷ xs) h = drop_all n xs (omega arith)

  pub take_cut : (n m : ℕ) (xs : List A) → n ≡ min m (length xs) → take n xs ≡ take m xs
  take_cut zero zero xs h = refl
  take_cut zero (suc m) [] h = refl
  take_cut zero (suc m) (x ∷ xs) h = absurd (omega arith)
  take_cut (suc n) zero xs h = absurd (omega arith)
  take_cut (suc n) (suc m) [] h = refl
  take_cut (suc n) (suc m) (x ∷ xs) h = ap (◌∷◌ x) (take_cut n m xs (omega arith))

  pub drop_cut : (n m : ℕ) (xs : List A) → n ≡ min m (length xs) → drop n xs ≡ drop m xs
  drop_cut zero zero xs h = refl
  drop_cut zero (suc m) [] h = refl
  drop_cut zero (suc m) (x ∷ xs) h = absurd (omega arith)
  drop_cut (suc n) zero xs h = absurd (omega arith)
  drop_cut (suc n) (suc m) [] h = refl
  drop_cut (suc n) (suc m) (x ∷ xs) h = drop_cut n m xs (omega arith)

  pub drop-append : (n : ℕ) (xs ys : List A) → n ≤ length xs → drop n (xs ++ ys) ≡ drop n xs ++ ys
  drop-append zero xs ys h = refl
  drop-append (suc n) [] ys h = absurd (omega arith)
  drop-append (suc n) (x ∷ xs) ys h = drop-append n xs ys (omega arith)

  pub drop-append_past : (n : ℕ) (xs ys : List A) → drop (length xs + n) (xs ++ ys) ≡ drop n ys
  drop-append_past n [] ys = ap (λ k. drop k ys) (omega arith)
  drop-append_past n (x ∷ xs) ys =
      let e : suc (length xs) + n ≡ suc (length xs + n) = omega arith in
      rw e (drop-append_past n xs ys)

  pub drop-drop : (n m : ℕ) (xs : List A) → drop n (drop m xs) ≡ drop (m + n) xs
  drop-drop n zero xs = ap (λ k. drop k xs) (omega arith)
  drop-drop zero (suc m) [] = sym (drop_all (suc m + 0) [] (omega arith))
  drop-drop (suc n) (suc m) [] = sym (drop_all (suc m + suc n) [] (omega arith))
  drop-drop n (suc m) (x ∷ xs) =
      let e : suc m + n ≡ suc (m + n) = omega arith in rw e (drop-drop n m xs)

  pub get_or-append :
      (xs ys : List A) (i : ℕ) (d : A)
      → get_or (xs ++ ys) i d
        ≡ (if ltb i (length xs) then get_or xs i d else get_or ys (i - length xs) d)
  get_or-append [] ys i d =
      rw (le→ltb_false i 0 (omega arith)) (ap (λ k. get_or ys k d) (omega arith))
  get_or-append (x ∷ xs) ys zero d = ground arith
  get_or-append (x ∷ xs) ys (suc i) d = ground (arith, get_or-append xs ys i d)

  pub get_or-take :
      (n : ℕ) (xs : List A) (i : ℕ) (d : A) → i < n → get_or (take n xs) i d ≡ get_or xs i d
  get_or-take zero xs i d h = elim h [ ]
  get_or-take (suc n) [] i d h = refl
  get_or-take (suc n) (x ∷ xs) zero d h = refl
  get_or-take (suc n) (x ∷ xs) (suc i) d h = get_or-take n xs i d (omega arith)

  pub get_or-drop :
      (n : ℕ) (xs : List A) (i : ℕ) (d : A) → get_or (drop n xs) i d ≡ get_or xs (n + i) d
  get_or-drop zero xs i d = ap (λ k. get_or xs k d) (omega arith)
  get_or-drop (suc n) [] i d = refl
  get_or-drop (suc n) (x ∷ xs) i d = ground (arith, get_or-drop n xs i d)

  -- Two lists of one length with the same entries are equal.
  pub list_ext :
      (d : A) (xs ys : List A)
      → length xs ≡ length ys
      → ((i : ℕ) → i < length xs → get_or xs i d ≡ get_or ys i d)
      → xs ≡ ys
  list_ext d [] [] h e = refl
  list_ext d [] (y ∷ ys) h e = absurd (omega arith)
  list_ext d (x ∷ xs) [] h e = absurd (omega arith)
  list_ext d (x ∷ xs) (y ∷ ys) h e =
      ap₂ ◌∷◌ (e 0 (omega arith)) (list_ext d xs ys (omega arith) (λ i p. e (suc i) (omega arith)))

  pub foldl-append {κ} :
      {S : Type κ} (f : S → A → S) (s : S) (xs ys : List A)
      → foldl f s (xs ++ ys) ≡ foldl f (foldl f s xs) ys
  foldl-append f s [] ys = refl
  foldl-append f s (x ∷ xs) ys = foldl-append f (f s x) xs ys

  pub length-replicate : (n : ℕ) (a : A) → length (replicate n a) ≡ n
  length-replicate zero a = refl
  length-replicate (suc n) a = ap suc (length-replicate n a)

module _ {ℓ} {A : Type ℓ} where
  pub length-memcpy :
      (xs : List A) (at : ℕ) (bytes : List A) → length (memcpy xs at bytes) ≡ length xs
  unfolding memcpy
  length-memcpy [] at bytes = refl
  length-memcpy (x ∷ xs) (suc at) bytes = ap suc (length-memcpy xs at bytes)
  length-memcpy (x ∷ xs) zero [] = refl
  length-memcpy (x ∷ xs) zero (b ∷ bytes) = ap suc (length-memcpy xs zero bytes)

  pub get_or-memcpy :
      (xs : List A) (at : ℕ) (bytes : List A) (i : ℕ) (d : A)
      → i < length xs
      → get_or (memcpy xs at bytes) i d ≡ (
          if ltb i at
          then get_or xs i d
          else if ltb i (at + length bytes)
          then get_or bytes (i - at) d
          else get_or xs i d)
  unfolding memcpy
  get_or-memcpy [] at bytes i d h = absurd (omega arith)
  get_or-memcpy (x ∷ xs) (suc at) bytes zero d h = ground arith
  get_or-memcpy (x ∷ xs) (suc at) bytes (suc i) d h = ground (arith, get_or-memcpy xs at bytes i d)
  get_or-memcpy (x ∷ xs) zero [] i d h = ground arith
  get_or-memcpy (x ∷ xs) zero (b ∷ bytes) zero d h = ground arith
  get_or-memcpy (x ∷ xs) zero (b ∷ bytes) (suc i) d h =
      ground (arith, get_or-memcpy xs zero bytes i d)

  pub memcpy_nil : (xs : List A) (at : ℕ) → memcpy xs at [] ≡ xs
  unfolding memcpy
  memcpy_nil [] at = refl
  memcpy_nil (x ∷ xs) zero = refl
  memcpy_nil (x ∷ xs) (suc at) = ap (◌∷◌ x) (memcpy_nil xs at)

  memcpy_cons_suc :
      (xs : List A) (at : ℕ) (b : A) (bytes : List A)
      → memcpy (memcpy xs at (b ∷ [])) (suc at) bytes ≡ memcpy xs at (b ∷ bytes)
  unfolding memcpy
  memcpy_cons_suc [] at b bytes = refl
  memcpy_cons_suc (x ∷ xs) zero b bytes = ap (λ l. b ∷ memcpy l zero bytes) (memcpy_nil xs zero)
  memcpy_cons_suc (x ∷ xs) (suc at) b bytes = ap (◌∷◌ x) (memcpy_cons_suc xs at b bytes)

  -- A copy is a copy of its first byte and then of the others.
  pub memcpy_cons :
      (xs : List A) (at : ℕ) (b : A) (bytes : List A)
      → memcpy (memcpy xs at (b ∷ [])) (at + 1) bytes ≡ memcpy xs at (b ∷ bytes)
  memcpy_cons xs at b bytes =
      let e : at + 1 ≡ suc at = omega arith in rw e (memcpy_cons_suc xs at b bytes)
