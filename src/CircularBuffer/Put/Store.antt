-- ===== src/CircularBuffer/Put/Store.antt =====
-- The write of bytes that fit into the ring: where they stand, and what they leave of the older ones.
use camera_controller.Base.{
  ℕ, min, ◌+◌, ◌-◌, ◌%◌, ◌≤◌, ◌<◌, ◌≡◌, refl, sym, ◌∙◌, List, ◌++◌, arith, ltb, leb, if◌then◌else◌,
  length, get_or, Bool-cases, inl, inr, u32, sub32, lt→ltb, le→ltb_false, take, drop, memcpy,
  length-append, length-take, length-drop, length-memcpy, get_or-memcpy, get_or-take, get_or-drop,
  get_or-append, list_ext, mod-lt, mod-eq-sub-mod, mod-add-mod,
}
use native.Mathlib.Nat.{add_assoc}
use native.Mathlib.Decide.{dec_lt}
use camera_controller.CircularBuffer.{CircularBuffer, written, store}
use camera_controller.CircularBuffer.Contents.{
  IsValid, count, byte_at, contents, mod_once, length-contents, get_or-tabulate, count-le,
}

length-written : (c : CircularBuffer) (vs : List ℕ) → length (written c vs) ≡ length c.buffer
unfolding written
length-written c vs = elim (Bool-cases (ltb c.size (u32 (c.head + length vs)))) [
  | inl e ↦ rw (e, length-memcpy, length-memcpy)
  | inr e ↦ rw (e, length-memcpy)
]

-- How many steps round the ring lead from `head` to index `j`.
abbrev steps_after : CircularBuffer → ℕ → ℕ
steps_after c j = if leb c.head j then j - c.head else j + c.size - c.head

module _ {c : CircularBuffer} (vs : List ℕ) (v : IsValid c) (fit : length vs ≤ c.size) where
  -- The copy that goes round the end, and the copy that does not.
  written_round :
      c.size < c.head + length vs
      → written c vs
        ≡ memcpy (memcpy c.buffer c.head (take (c.size - c.head) vs)) 0 (drop (c.size - c.head) vs)
  unfolding written
  written_round h =
      let sz : sub32 c.size c.head ≡ c.size - c.head = omega arith in
      rw (lt→ltb c.size (u32 (c.head + length vs)) (omega arith), sz)

  written_flat : c.head + length vs ≤ c.size → written c vs ≡ memcpy c.buffer c.head vs
  unfolding written
  written_flat h = rw (le→ltb_false c.size (u32 (c.head + length vs)) (omega arith))

  -- The byte at index `j` after the copy.
  written-byte :
      (j : ℕ)
      → j < c.size
      → let k = steps_after c j in
        get_or (written c vs) j 0
        ≡ (if ltb k (length vs) then get_or vs k 0 else get_or c.buffer j 0)
  written-byte j lt = elim (dec_lt c.size (c.head + length vs)) [
    | yes h ↦ rw (written_round h) (
        ground (
          arith,
          get_or-memcpy (memcpy c.buffer c.head (take (c.size - c.head) vs)) 0
              (drop (c.size - c.head) vs) j 0,
          get_or-memcpy c.buffer c.head (take (c.size - c.head) vs) j 0,
          length-memcpy c.buffer c.head (take (c.size - c.head) vs),
          length-take (c.size - c.head) vs,
          length-drop (c.size - c.head) vs,
          get_or-take (c.size - c.head) vs (j - c.head) 0,
          get_or-drop (c.size - c.head) vs j 0,
          v.storage,
        ))
    | no h ↦ rw (written_flat (omega arith)) (ground (arith, get_or-memcpy c.buffer c.head vs j 0))
  ]

-- How many of the oldest bytes a write of `len` bytes pushes out.
abbrev dropped : CircularBuffer → ℕ → ℕ
dropped c len = count c + len - c.size

module _ {c : CircularBuffer} (vs : List ℕ) (v : IsValid c) (some_input : 0 < length vs)
    (fit : length vs ≤ c.size) where
  tail-store : (store c vs).tail ≡ (
      if ltb (c.tail + dropped c (length vs)) c.size
      then c.tail + dropped c (length vs)
      else c.tail + dropped c (length vs) - c.size)
  unfolding store
  tail-store = ground (
    arith,
    mod_once c.tail c.size,
    mod_once (c.tail + c.size) c.size,
    mod_once (c.head + length vs) c.size,
  )

  head-store : (store c vs).head ≡ (
      if ltb (c.head + length vs) c.size then c.head + length vs else c.head + length vs - c.size)
  unfolding store
  head-store = ground (arith, mod_once (c.head + length vs) c.size)

  pub store-IsValid : IsValid (store c vs)
  unfolding store
  store-IsValid = ground (arith, length-written c vs, tail-store, head-store, count-le v)

  pub count-store : count (store c vs) ≡ min c.size (count c + length vs)
  unfolding store
  count-store = ground (arith, tail-store, head-store)

  -- Byte `e` of the old contents and the new bytes stands `e - count` steps after the old `head`.
  steps_from_head :
      (e : ℕ)
      → dropped c (length vs) ≤ e
      → e < count c + length vs
      → let j = (c.tail + e) % c.size in
        let k = steps_after c j in (e < count c → length vs ≤ k) × (count c ≤ e → k ≡ e - count c)
  steps_from_head e low high = ground (
    arith,
    mod_once (c.tail + e) c.size,
    mod_once (c.tail + e - c.size) c.size,
    mod-eq-sub-mod {n = c.tail + e} {m = c.size},
  )

  written-byte_of :
      (e : ℕ)
      → dropped c (length vs) ≤ e
      → e < count c + length vs
      → get_or (written c vs) ((c.tail + e) % c.size) 0 ≡ get_or (contents c ++ vs) e 0
  written-byte_of e low high =
      let here = written-byte vs v fit ((c.tail + e) % c.size) (mod-lt _ v.pos_size) in
      let steps = steps_from_head e low high in
      let k = steps_after c ((c.tail + e) % c.size) in
      let spec = get_or-append (contents c) vs e 0 in
      elim (dec_lt e (count c)) [
        | yes old ↦
            rw
              (
                spec,
                length-contents c,
                lt→ltb e (count c) old,
                get_or-tabulate (count c) (byte_at c) e old,
              )
              (here ∙ rw (le→ltb_false k (length vs) (steps.0 old)))
        | no new ↦
            rw
              (
                spec,
                length-contents c,
                le→ltb_false e (count c) (omega arith),
                ← steps.1 (omega arith),
              )
              (here ∙ rw (lt→ltb k (length vs) (omega (arith, steps.1 (omega arith)))))
      ]

  buffer-store : (store c vs).buffer ≡ written c vs
  unfolding store
  buffer-store = refl

  byte_at-store :
      (i : ℕ)
      → i < count (store c vs)
      → byte_at (store c vs) i ≡ get_or (contents c ++ vs) (dropped c (length vs) + i) 0
  byte_at-store i lt =
      let d = dropped c (length vs) in
      let size-store : (store c vs).size ≡ c.size = unfold store in refl in
      let moved : (store c vs).tail ≡ (c.tail + d) % c.size =
        omega
          (arith, tail-store ∙ sym (mod_once (c.tail + d) c.size (omega (arith, count-le v)))) in
      rw (buffer-store, size-store, moved, mod-add-mod, add_assoc)
        (written-byte_of (d + i) (omega arith) (omega (arith, count-store)))

  pub contents-store : contents (store c vs) ≡ drop (dropped c (length vs)) (contents c ++ vs)
  contents-store =
      list_ext 0 _ _
        (omega (
          arith,
          length-contents c,
          length-contents (store c vs),
          count-store,
          length-append (contents c) vs,
          length-drop (dropped c (length vs)) (contents c ++ vs),
          count-le v,
        ))
        λ i lt.
          let lt' : i < count (store c vs) = omega (arith, length-contents (store c vs)) in
          rw (get_or-drop (dropped c (length vs)) (contents c ++ vs) i 0) (
            get_or-tabulate (count (store c vs)) (byte_at (store c vs)) i lt' ∙ byte_at-store i lt')

-- What `put` promises of the ring `after` it.
