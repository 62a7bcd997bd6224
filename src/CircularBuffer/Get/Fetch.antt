-- ===== src/CircularBuffer/Get/Fetch.antt =====
-- The two pieces of a read, and the ring after it.
use camera_controller.Base.{
  ℕ, ◌+◌, ◌-◌, ◌%◌, ◌≤◌, ◌<◌, ◌≡◌, refl, sym, ◌∙◌, Bool, true, false, List, ◌++◌, arith, ltb,
  if◌then◌else◌, length, get_or, take, drop, length-append, length-take, length-drop, get_or-take,
  get_or-drop, get_or-append, list_ext, mod-add-mod, sub32, u32, lt→ltb, le→ltb_false,
}
use native.Mathlib.Decide.{dec_lt}
use native.Mathlib.Nat.{add_assoc}
use camera_controller.CircularBuffer.{CircularBuffer, fetch, bytes_at}
use camera_controller.CircularBuffer.Contents.{
  IsValid, count, byte_at, contents, mod_once, length-contents, get_or-tabulate, count-le,
}

module _ {c : CircularBuffer} (v : IsValid c) (n : ℕ) (enough : n ≤ count c) where
  byte_at-take : (i : ℕ) → i < n → get_or (take n (contents c)) i 0 ≡ byte_at c i
  byte_at-take i lt =
      get_or-take n (contents c) i 0 lt ∙ get_or-tabulate (count c) (byte_at c) i (omega arith)

  length-take-contents : length (take n (contents c)) ≡ n
  length-take-contents = omega (arith, length-take n (contents c), length-contents c)

  -- The bytes that `fetch` copies, in one piece and in two.
  out_flat : c.tail + n ≤ c.size → bytes_at c.buffer c.tail n ≡ take n (contents c)
  out_flat h = list_ext 0 _ _ (omega (arith, whole, length-take-contents)) λ i lt.
      let lt' : i < n = omega (arith, whole) in
      get_or-take n (drop c.tail c.buffer) i 0 lt'
      ∙ get_or-drop c.tail c.buffer i 0
      ∙ rw (
        byte_at-take i lt',
        mod_once (c.tail + i) c.size (omega arith),
        lt→ltb (c.tail + i) c.size (omega arith),
      )
    where
      whole : length (bytes_at c.buffer c.tail n) ≡ n
      whole =
          omega
            (arith, length-take n (drop c.tail c.buffer), length-drop c.tail c.buffer, v.storage)

  out_round :
      c.size < c.tail + n
      → bytes_at c.buffer c.tail (c.size - c.tail) ++ bytes_at c.buffer 0 (n - (c.size - c.tail))
        ≡ take n (contents c)
  out_round h =
      list_ext 0 _ _
        (omega (
          arith,
          length-append first second,
          first_all,
          second_all,
          length-take-contents,
          v.storage,
        ))
        λ i lt.
          let lt' : i < n = omega (arith, length-append first second, first_all, second_all) in
          rw (byte_at-take i lt') (
            ground (
              arith,
              first_all,
              get_or-append first second i 0,
              mod_once (c.tail + i) c.size,
              get_or-take (c.size - c.tail) (drop c.tail c.buffer) i 0,
              get_or-drop c.tail c.buffer i 0,
              get_or-take (n - (c.size - c.tail)) c.buffer (i - (c.size - c.tail)) 0,
              count-le v,
            ))
    where
      first : List ℕ
      first = bytes_at c.buffer c.tail (c.size - c.tail)

      second : List ℕ
      second = bytes_at c.buffer 0 (n - (c.size - c.tail))

      first_all : length first ≡ c.size - c.tail
      first_all = omega (
        arith,
        length-take (c.size - c.tail) (drop c.tail c.buffer),
        length-drop c.tail c.buffer,
        v.storage,
      )

      second_all : length second ≡ n - (c.size - c.tail)
      second_all =
          omega (arith, length-take (n - (c.size - c.tail)) c.buffer, v.storage, count-le v)

  pub out-fetch : (b : Bool) → (fetch c (u32 (c.tail + n)) n b).2 ≡ take n (contents c)
  unfolding fetch
  out-fetch b =
      let sz : sub32 c.size c.tail ≡ c.size - c.tail = omega arith in
      let rest : c.size < c.tail + n → sub32 n (c.size - c.tail) ≡ n - (c.size - c.tail) =
        λ h. omega (arith, count-le v) in
      elim (dec_lt c.size (c.tail + n)) [
        | yes h ↦
            rw (lt→ltb c.size (u32 (c.tail + n)) (omega (arith, count-le v)), sz, rest h)
              (out_round h)
        | no h ↦ rw (le→ltb_false c.size (u32 (c.tail + n)) (omega arith)) (out_flat (omega arith))
      ]

  pub tail-fetch :
      (b : Bool)
      → (fetch c (u32 (c.tail + n)) n b).0.tail
        ≡ (if ltb (c.tail + n) c.size then c.tail + n else c.tail + n - c.size)
  unfolding fetch
  tail-fetch b = ground (arith, count-le v, mod_once (c.tail + n) c.size)

  -- The flag tells whether the read takes all there is.
  module _ (b : Bool) (flag : (b ≡ true → n ≡ count c) × (b ≡ false → n < count c)) where
    pub fetch-IsValid : IsValid (fetch c (u32 (c.tail + n)) n b).0
    unfolding fetch
    fetch-IsValid = ground (arith, tail-fetch b, count-le v)

    pub count-fetch : count (fetch c (u32 (c.tail + n)) n b).0 ≡ count c - n
    unfolding fetch
    count-fetch = ground (arith, tail-fetch b, count-le v)

    pub left-fetch : contents (fetch c (u32 (c.tail + n)) n b).0 ≡ drop n (contents c)
    left-fetch =
        list_ext 0 _ _ (omega (arith, sizes, length-drop n (contents c), length-contents c)) λ i lt.
          let lt' : i < count after = omega (arith, length-contents after) in
          rw
            (
              get_or-drop n (contents c) i 0,
              get_or-tabulate (count c) (byte_at c) (n + i) (omega (arith, count-fetch)),
            )
            (get_or-tabulate (count after) (byte_at after) i lt'
              ∙ rw (same_buffer, same_size, moved, mod-add-mod, add_assoc))
      where
        after : CircularBuffer
        after = (fetch c (u32 (c.tail + n)) n b).0

        sizes : length (contents after) ≡ count c - n
        sizes = omega (arith, length-contents after, count-fetch)

        same_buffer : after.buffer ≡ c.buffer
        same_buffer = unfold fetch in refl

        same_size : after.size ≡ c.size
        same_size = unfold fetch in refl

        moved : after.tail ≡ (c.tail + n) % c.size
        moved =
            omega
              (arith, tail-fetch b ∙ sym (mod_once (c.tail + n) c.size (omega (arith, count-le v))))
