-- ===== src/CircularBuffer/Get.antt =====
-- `get` takes bytes off the front: a read of `len` bytes returns the oldest `len`, or all there are.
mod Fetch
use camera_controller.Base.{
  ℕ, min, ◌+◌, ◌-◌, ◌%◌, ◌≤◌, ◌<◌, ◌≡◌, refl, ap, sym, subst, ◌∙◌, Bool, true, false, List, [],
  ◌++◌, arith, ltb, leb, ◌==◌, if◌then◌else◌, length, get_or, take, drop, length-append,
  length-take, length-drop, get_or-take, get_or-drop, get_or-append, list_ext, mod-add-mod, sub32,
  u32, lt→ltb, le→ltb_false, Bool-cases, inl, inr, take_cut, drop_cut, take_all, drop_all,
}
use native.Mathlib.Decide.{dec_lt, dec_le}
use native.Mathlib.Nat.{add_assoc}
use camera_controller.Base.Int.{ℤ, signed32}
use camera_controller.CircularBuffer.{CircularBuffer, fetch, get, get_byte, max_length, bytes_at}
use camera_controller.CircularBuffer.Contents.{
  IsValid, count, byte_at, contents, mod_once, length-contents, get_or-tabulate, count-le,
}
use camera_controller.CircularBuffer.Get.Fetch.{
  out-fetch, fetch-IsValid, count-fetch, left-fetch, tail-fetch,
}

-- What a read of `len` bytes promises of the ring after it, the number returned and the bytes copied.
pub record Get (c : CircularBuffer) (len : ℕ) (after : CircularBuffer) (n : ℕ) (out : List ℕ)
    : Type 0 where
  pub valid : IsValid after
  pub returned : n ≡ min len (length (contents c))
  pub copied : out ≡ take len (contents c)
  pub left : contents after ≡ drop len (contents c)
  pub same_size : after.size ≡ c.size

-- The read of `n` bytes that are held, in one piece or in two.
fetch-Get :
    {c : CircularBuffer} (v : IsValid c) (n : ℕ)
    → n ≤ count c
    → (b : Bool) → (b ≡ true → n ≡ count c) × (b ≡ false → n < count c)
    → (len : ℕ) → n ≡ min len (count c)
    → Get c len (fetch c (u32 (c.tail + n)) n b).0 n (fetch c (u32 (c.tail + n)) n b).2
fetch-Get {c} v n enough b flag len e = record {
  valid = fetch-IsValid v n enough b flag;
  returned = omega (arith, length-contents c);
  copied = out-fetch v n enough b ∙ take_cut n len (contents c) (omega (arith, length-contents c));
  left =
      left-fetch v n enough b flag ∙ drop_cut n len (contents c) (omega (arith, length-contents c));
  same_size = unfold fetch in refl;
}

max_length-count : {c : CircularBuffer} → IsValid c → c.is_empty ≡ false → max_length c ≡ count c
max_length-count v h = ground arith

contents-nil : (c : CircularBuffer) → c.is_empty ≡ true → contents c ≡ []
contents-nil c e = rw e

lastop-IsValid : {c : CircularBuffer} (l : ℤ) → IsValid c → IsValid (record c { lastop = l })
lastop-IsValid l v = record {
  storage = v.storage;
  pos_size = v.pos_size;
  small = v.small;
  head_in = v.head_in;
  tail_in = v.tail_in;
  empty_meets = v.empty_meets;
}

empty-Get :
    {c : CircularBuffer} (len : ℕ) (l : ℤ)
    → IsValid c
    → c.is_empty ≡ true
    → Get c len (record c { lastop = l }) 0 []
empty-Get {c} len l v e = record {
  valid = lastop-IsValid l v;
  returned = omega (arith, ap length (contents-nil c e));
  copied = rw (contents-nil c e) (sym (take_all len [] (omega arith)));
  left = contents-nil c e ∙ rw (contents-nil c e) (sym (drop_all len [] (omega arith)));
  same_size = refl;
}

module _ (c : CircularBuffer) (len : ℕ) where
  -- The three ways through `get`.
  abbrev called : CircularBuffer
  called = record c { lastop = signed32 (sub32 0 len) }

  get_empty : c.is_empty ≡ true → get c len ≡ (called, 0, [])
  unfolding get
  get_empty e = ground arith

  get_all :
      IsValid c
      → c.is_empty ≡ false
      → count c ≤ len
      → get c len ≡ fetch called (u32 (c.tail + count c)) (count c) true
  unfolding get
  get_all v e h = ground (arith, max_length-count v e)

  get_part :
      IsValid c
      → c.is_empty ≡ false
      → len < count c
      → get c len ≡ fetch called (u32 (c.tail + len)) len false
  unfolding get
  get_part v e h = ground (arith, max_length-count v e)

abbrev Gets : CircularBuffer → ℕ → CircularBuffer × ℕ × List ℕ → Type 0
Gets c len (after, n, out) = Get c len after n out

as_if_old :
    (c : CircularBuffer) (len : ℕ) {l : ℤ} (r : CircularBuffer × ℕ × List ℕ)
    → Gets (record c { lastop = l }) len r
    → Gets c len r
as_if_old c len r g = record {
  valid = g.valid;
  returned = g.returned;
  copied = g.copied;
  left = g.left;
  same_size = g.same_size;
}

-- `get`, on a valid ring and every length: it returns the oldest `len` bytes, or all the bytes held
-- where these are fewer, leaves exactly the rest, and keeps the ring valid.
pub get-Get :
    {c : CircularBuffer} (len : ℕ) → IsValid c → Get c len (get c len).0 (get c len).1 (get c len).2
unfolding fetch
get-Get {c} len v = elim (Bool-cases c.is_empty) [
  | inl e ↦
      subst (Gets c len) (sym (get_empty c len e)) (empty-Get len (signed32 (sub32 0 len)) v e)
  | inr e ↦ elim (dec_le (count c) len) [
    | yes all ↦ subst (Gets c len) (sym (get_all c len v e all)) (
        as_if_old c len _ (
          fetch-Get (lastop-IsValid _ v) (count c) (omega arith) true ((λ _. refl), (λ h. cc)) len
            (omega arith)))
    | no some_left ↦ subst (Gets c len) (sym (get_part c len v e (omega arith))) (
        as_if_old c len _ (
          fetch-Get (lastop-IsValid _ v) len (omega arith) false ((λ h. cc), (λ _. omega arith)) len
            (omega arith)))
  ]
]

count-eq-one :
    {c : CircularBuffer}
    → IsValid c
    → c.is_empty ≡ false
    → (((c.tail + 1) % c.size == c.head) ≡ (leb (count c) 1)) × (0 < count c)
count-eq-one {c} v e = ground (arith, mod_once (c.tail + 1) c.size)

-- On a valid ring the one-byte `get(val)` does what `get(buf, 1)` does, `lastop` included.
pub get_byte-eq-get : {c : CircularBuffer} → IsValid c → get_byte c ≡ get c 1
unfolding get_byte fetch
get_byte-eq-get {c} v = elim (Bool-cases c.is_empty) [
  | inl e ↦ rw (get_empty c 1 e) (ground arith)
  | inr e ↦
      let one : count c ≤ 1 → count c ≡ 1 = λ h. omega (arith, count-eq-one v e) in
      elim (dec_le (count c) 1) [
        | yes all ↦ ground (
          arith,
          get_all c 1 v e all,
          count-eq-one v e,
          ap (λ (k : ℕ). bytes_at c.buffer c.tail k) (one all),
        )
        | no some_left ↦ ground (arith, get_part c 1 v e (omega arith), count-eq-one v e)
      ]
]
