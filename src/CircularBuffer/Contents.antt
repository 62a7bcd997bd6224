-- ===== src/CircularBuffer/Contents.antt =====
-- The bytes that a ring holds, oldest first.
use camera_controller.Base.{
  ℕ, zero, suc, ◌+◌, ◌-◌, ◌%◌, ◌^◌, ◌≤◌, ◌<◌, ◌≡◌, refl, ap, true, List, [], ◌∷◌, arith, ltb,
  if◌then◌else◌, length, get_or, length-replicate, mod-eq_of_lt, mod-eq-sub-mod, lt→ltb,
  le→ltb_false,
}
use native.Mathlib.Decide.{dec_lt}
use camera_controller.CircularBuffer.{CircularBuffer, init, current_size}

-- The number of bytes held: a full ring has `head` and `tail` at one place, as an empty one has.
abbrev pub count : CircularBuffer → ℕ
count c =
    if c.is_empty
    then 0
    else if ltb c.tail c.head
    then c.head - c.tail
    else c.head + c.size - c.tail

-- `f 0, f 1, …, f (n - 1)`
abbrev pub tabulate : ℕ → (ℕ → ℕ) → List ℕ
tabulate zero f = []
tabulate (suc n) f = f 0 ∷ tabulate n (λ i. f (suc i))

-- The `i`th oldest byte.
abbrev pub byte_at : CircularBuffer → ℕ → ℕ
byte_at c i = get_or c.buffer ((c.tail + i) % c.size) 0

abbrev pub contents : CircularBuffer → List ℕ
contents c = tabulate (count c) (byte_at c)

-- The representation invariant. The size limit keeps `head + size` below 2 ^ 32.
pub record IsValid (c : CircularBuffer) : Type 0 where
  pub storage : length c.buffer ≡ c.size
  pub pos_size : 0 < c.size
  pub small : c.size < 2 ^ 31
  pub head_in : c.head < c.size
  pub tail_in : c.tail < c.size
  pub empty_meets : c.is_empty ≡ true → c.head ≡ c.tail

pub length-tabulate : (n : ℕ) (f : ℕ → ℕ) → length (tabulate n f) ≡ n
length-tabulate zero f = refl
length-tabulate (suc n) f = ap suc (length-tabulate n (λ i. f (suc i)))

pub get_or-tabulate : (n : ℕ) (f : ℕ → ℕ) (i : ℕ) → i < n → get_or (tabulate n f) i 0 ≡ f i
get_or-tabulate zero f i h = elim h [ ]
get_or-tabulate (suc n) f zero h = refl
get_or-tabulate (suc n) f (suc i) h = get_or-tabulate n (λ k. f (suc k)) i (omega arith)

-- One turn round the ring.
pub mod_once : (x s : ℕ) → x < s + s → x % s ≡ (if ltb x s then x else x - s)
mod_once x s h = elim (dec_lt x s) [
  | yes p ↦ rw (lt→ltb x s p) (mod-eq_of_lt p)
  | no p ↦ rw (le→ltb_false x s (omega arith)) (
      omega (
        arith,
        mod-eq-sub-mod {n = x} {m = s} (omega arith),
        mod-eq_of_lt {n = x - s} {m = s} (omega arith),
      ))
]

pub length-contents : (c : CircularBuffer) → length (contents c) ≡ count c
length-contents c = length-tabulate (count c) (byte_at c)

pub count-le : {c : CircularBuffer} → IsValid c → count c ≤ c.size
count-le v = ground arith

-- A new ring is valid and holds nothing, for the sizes below 2 ^ 31.
pub init-IsValid :
    (size : ℕ) → 0 < size → size < 2 ^ 31 → IsValid (init size) × (contents (init size) ≡ [])
unfolding init
init-IsValid size p q = ground (arith, length-replicate {A = ℕ} size 0)

-- `currentSize` is the number of bytes held.
pub current_size_lem : {c : CircularBuffer} → IsValid c → current_size c ≡ length (contents c)
unfolding current_size
current_size_lem {c} v = ground (arith, length-contents c)
