-- ===== src/CircularBuffer.antt =====
-- src/circular_buffer.h: a ring of bytes in which a write that does not fit drops the oldest bytes.
-- `unsigned int` locals and sums wrap at 2 ^ 32, as the conversions of the source do.
pub mod Contents
pub mod Put
pub mod Get
pub mod Print
use camera_controller.Base.{
  ℕ, ◌+◌, ◌-◌, ◌%◌, ◌^◌, Bool, true, false, ◌&&◌, not, List, [], ◌∷◌, ◌++◌, ltb, leb, ◌==◌,
  if◌then◌else◌, length, get_or, take, drop, replicate, memcpy, u32, sub32,
}
use camera_controller.Base.Int.{ℤ, pos, negsuc, signed32}

-- The fields of the class. `buffer` is the allocation that the constructor makes.
pub record CircularBuffer : Type 0 where
  pub lastop : ℤ
  pub buffer : List ℕ
  pub head : ℕ
  pub tail : ℕ
  pub is_empty : Bool
  pub size : ℕ

-- The constructor, with its `memset`.
unfoldable pub init : ℕ → CircularBuffer
init size = record {
  lastop = pos 0;
  buffer = replicate size 0;
  head = 0;
  tail = 0;
  is_empty = true;
  size = size;
}

-- `length` bytes of `buffer + at`, as a `memcpy` out of the ring reads them.
abbrev pub bytes_at : List ℕ → ℕ → ℕ → List ℕ
bytes_at buffer at length = take length (drop at buffer)

-- The one or two `memcpy` of `put`: from `head` to the end, then from the start.
unfoldable pub written : CircularBuffer → List ℕ → List ℕ
written c values =
    let sz = sub32 c.size c.head in
    if ltb c.size (u32 (c.head + length values))
    then memcpy (memcpy c.buffer c.head (take sz values)) 0 (drop sz values)
    else memcpy c.buffer c.head values

-- The part of `put` after the input is cut to the ring's size.
unfoldable pub store : CircularBuffer → List ℕ → CircularBuffer
store c values =
    let len = length values in
    let new_head = u32 (c.head + len) in
    let t_tail = if leb c.head c.tail then c.tail else u32 (c.tail + c.size) in
    let t_tail' =
      if leb c.head t_tail && ltb t_tail new_head && not c.is_empty then new_head else t_tail in
    record c {
      buffer = written c values;
      head = new_head % c.size;
      tail = t_tail' % c.size;
      is_empty = false;
    }

-- `put(values, length)`. The list is `values[0 .. length)`.
unfoldable pub put : CircularBuffer → List ℕ → CircularBuffer
put c values =
    let len = length values in
    let c' = record c { lastop = signed32 (u32 len) } in
    if len == 0
    then c'
    else store c' (if ltb c.size len then drop (len - c.size) values else values)

-- `put(val)`
pub put_byte : CircularBuffer → ℕ → CircularBuffer
put_byte c val = put c (val ∷ [])

-- `get(val)`: how many bytes were read, and those bytes.
pub get_byte : CircularBuffer → CircularBuffer × ℕ × List ℕ
get_byte c =
    let c' = record c { lastop = negsuc 0 } in
    let next = u32 (c.tail + 1) % c.size in
    if c.is_empty
    then (c', 0, [])
    else (record c' { tail = next; is_empty = next == c.head }, 1, bytes_at c.buffer c.tail 1)

-- The number of bytes that can be read, as `get` works it out.
abbrev pub max_length : CircularBuffer → ℕ
max_length c =
    let t_head = if ltb c.head c.tail then u32 (c.head + c.size) else c.head in
    if (t_head == c.tail) && not c.is_empty then c.size else sub32 t_head c.tail

-- The copy and the new tail, for a `length` that is already cut to what there is.
unfoldable pub fetch : CircularBuffer → ℕ → ℕ → Bool → CircularBuffer × ℕ × List ℕ
fetch c new_tail len drained =
    let sz = sub32 c.size c.tail in
    let out =
      if ltb c.size new_tail
      then bytes_at c.buffer c.tail sz ++ bytes_at c.buffer 0 (sub32 len sz)
      else bytes_at c.buffer c.tail len in
    (record c { tail = new_tail % c.size; is_empty = drained }, len, out)

-- `get(buf, length)`: the new state, the number returned, and the bytes copied to `buf`.
unfoldable pub get : CircularBuffer → ℕ → CircularBuffer × ℕ × List ℕ
unfolding fetch
get c len =
    let c' = record c { lastop = signed32 (sub32 0 len) } in
    let most = max_length c in
    if c.is_empty
    then (c', 0, [])
    else if leb most len
    then fetch c' (u32 (c.tail + most)) most true
    else fetch c' (u32 (c.tail + len)) len c.is_empty

-- `currentSize()`
unfoldable pub current_size : CircularBuffer → ℕ
current_size c =
    if c.is_empty
    then 0
    else if ltb c.tail c.head
    then sub32 c.head c.tail
    else sub32 (u32 (c.head + c.size)) c.tail

-- `totalSize()`
pub total_size : CircularBuffer → ℕ
total_size c = c.size
