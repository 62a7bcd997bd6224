-- ===== src/CircularBuffer/Print.antt =====
-- `print()` of src/circular_buffer.h: what it writes, as texts and numbers.
use Prim.Native.String.{String}
use camera_controller.Base.{
  ℕ, zero, suc, ◌+◌, ◌-◌, ◌<◌, ◌≡◌, refl, ap, true, false, List, [], ◌∷◌, ◌++◌, ◌==◌, if◌then◌else◌,
  get_or, replicate, arith,
}
use camera_controller.Base.Int.{ℤ, pos, ◌-ℤ◌, ltb_ℤ}
use camera_controller.CircularBuffer.{CircularBuffer, current_size}
use camera_controller.CircularBuffer.Contents.{IsValid}

pub data Item : Type 0 where
  text : String → Item
  number : ℤ → Item

-- `for (unsigned int i = 0; i < size; i++)`, from `i` on.
unfoldable pub for_each : (ℕ → List Item) → ℕ → ℕ → List Item
for_each body zero i = []
for_each body (suc n) i = body i ++ for_each body n (i + 1)

-- The mark of the column `at`.
abbrev pub mark : String → ℕ → ℕ → List Item
mark name at i = text (if i == at then name else "\t ") ∷ []

-- The last operation, by the sign of `lastop`: a positive one is that of `put`, a negative one of `get`.
unfoldable pub last_operation : ℤ → List Item
last_operation lastop =
    if ltb_ℤ (pos 0) lastop
    then text "put " ∷ number lastop ∷ text "\n" ∷ []
    else if ltb_ℤ lastop (pos 0)
    then text "get " ∷ number (pos 0 -ℤ lastop) ∷ text "\n" ∷ []
    else text "none\n" ∷ []

unfoldable pub print : CircularBuffer → List Item
print c =
    (text "CB (" ∷ number (pos c.size) ∷ text ")\t LastOp: " ∷ [])
    ++ (last_operation c.lastop
        ++ (for_each (λ i. text "\t" ∷ number (pos i) ∷ []) c.size 0
            ++ (text "\n"
                ∷ (for_each (λ i. text "\t" ∷ number (pos (get_or c.buffer i 0)) ∷ []) c.size 0
                    ++ (text "\n"
                        ∷ (for_each (mark "\tT" c.tail) c.size 0
                            ++ (text "\n"
                                ∷ (for_each (mark "\tH" c.head) c.size 0
                                    ++ (text "\n"
                                        ∷ text "Curr size: "
                                        ∷ number (pos (current_size c))
                                        ∷ text ", empty: "
                                        ∷ text (if c.is_empty then "true" else "false")
                                        ∷ text "\n"
                                        ∷ [])))))))))

no_marks :
    (name : String) (at n i : ℕ) → at < i → for_each (mark name at) n i ≡ replicate n (text "\t ")
unfolding for_each
no_marks name at zero i h = refl
no_marks name at (suc n) i h =
    let other : (i == at) ≡ false = ground arith in
    rw (other, no_marks name at n (i + 1) (omega arith)) refl

one_mark :
    (name : String) (at k n i : ℕ)
    → at ≡ i + k
    → k < n
    → for_each (mark name at) n i
      ≡ replicate k (text "\t ") ++ text name ∷ replicate (n - k - 1) (text "\t ")
unfolding for_each
one_mark name at k zero i e h = absurd (omega arith)
one_mark name at zero (suc n) i e h =
    let here : (i == at) ≡ true = ground arith in
    rw (here, no_marks name at n (i + 1) (omega arith))
      (ap (λ m. text name ∷ replicate m (text "\t ")) left)
  where
    left : n ≡ suc n - 0 - 1
    left = omega arith
one_mark name at (suc k) (suc n) i e h =
    let other : (i == at) ≡ false = ground arith in
    rw (other, one_mark name at k n (i + 1) (omega arith) (omega arith))
      (ap (λ m. text "\t " ∷ (replicate k (text "\t ") ++ text name ∷ replicate m (text "\t ")))
        left)
  where
    left : n - k - 1 ≡ suc n - suc k - 1
    left = omega arith

-- The rows of a valid ring mark one column each, that of its tail and that of its head.
marks-print :
    {c : CircularBuffer}
    → IsValid c
    → (for_each (mark "\tT" c.tail) c.size 0
        ≡ replicate c.tail (text "\t ")
          ++ text "\tT" ∷ replicate (c.size - c.tail - 1) (text "\t "))
      × (for_each (mark "\tH" c.head) c.size 0
          ≡ replicate c.head (text "\t ")
            ++ text "\tH" ∷ replicate (c.size - c.head - 1) (text "\t "))
marks-print {c} v = (
  one_mark "\tT" c.tail c.tail c.size 0 (omega arith) v.tail_in,
  one_mark "\tH" c.head c.head c.size 0 (omega arith) v.head_in,
)
