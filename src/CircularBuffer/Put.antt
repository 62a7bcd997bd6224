-- ===== src/CircularBuffer/Put.antt =====
-- `put` appends its bytes and drops the oldest ones that no longer fit.
mod Store
use camera_controller.Base.{
  ℕ, min, ◌+◌, ◌-◌, ◌%◌, ◌≤◌, ◌<◌, ◌≡◌, refl, append-nil, drop-append_past, sym, ◌∙◌, List, [], ◌∷◌,
  ◌++◌, arith, ltb, leb, if◌then◌else◌, length, get_or, Bool-cases, inl, inr, u32, sub32, lt→ltb,
  suc-beq-zero, le→ltb_false, take, drop, memcpy, length-append, length-take, length-drop,
  length-memcpy, get_or-memcpy, get_or-take, get_or-drop, get_or-append, list_ext, mod-lt,
  mod-eq-sub-mod, mod-add-mod,
}
use native.Mathlib.Nat.{add_assoc}
use native.Mathlib.Decide.{dec_lt}
use camera_controller.Base.Int.{ℤ, signed32}
use camera_controller.CircularBuffer.{CircularBuffer, written, store, put}
use camera_controller.CircularBuffer.Contents.{
  IsValid, count, byte_at, contents, mod_once, length-contents, get_or-tabulate, count-le,
}
use camera_controller.CircularBuffer.Put.Store.{store-IsValid, count-store, contents-store}

pub record Put (c : CircularBuffer) (values : List ℕ) (after : CircularBuffer) : Type 0 where
  pub valid : IsValid after
  pub holds :
      contents after ≡ drop (length (contents c) + length values - c.size) (contents c ++ values)
  pub same_size : after.size ≡ c.size

module _ {c : CircularBuffer} (v : IsValid c) where
  lastop-IsValid : (l : ℤ) → IsValid (record c { lastop = l })
  lastop-IsValid l = record {
    storage = v.storage;
    pos_size = v.pos_size;
    small = v.small;
    head_in = v.head_in;
    tail_in = v.tail_in;
    empty_meets = v.empty_meets;
  }

  nil-Put : (l : ℤ) → Put c [] (record c { lastop = l })
  nil-Put l = record {
    valid = lastop-IsValid l;
    holds =
        let none_lost : length (contents c) + 0 - c.size ≡ 0 =
          omega (arith, length-contents c, count-le v) in
        rw (none_lost, append-nil);
    same_size = refl;
  }

  store-Put : (vs : List ℕ) → 0 < length vs → length vs ≤ c.size → Put c vs (store c vs)
  store-Put vs p fit = record {
    valid = store-IsValid vs v p fit;
    holds = rw (length-contents c) (contents-store vs v p fit);
    same_size = unfold store in refl;
  }

  -- Input longer than the ring: only its last `size` bytes are stored.
  store-Put_cut :
      (values : List ℕ)
      → c.size < length values
      → Put c values (store c (drop (length values - c.size) values))
  store-Put_cut values long = record {
    valid = kept.valid;
    holds =
        kept.holds
        ∙ rw (
          all_pushed,
          drop-append_past 0 (contents c) vs,
          input_cut,
          drop-append_past (length values - c.size) (contents c) values,
        );
    same_size = kept.same_size;
  }
    where
      vs : List ℕ
      vs = drop (length values - c.size) values

      filled : length vs ≡ c.size
      filled = omega (arith, length-drop (length values - c.size) values)

      kept : Put c vs (store c vs)
      kept = store-Put vs (omega (arith, filled, v.pos_size)) (omega (arith, filled))

      all_pushed : length (contents c) + length vs - c.size ≡ length (contents c) + 0
      all_pushed = omega (arith, filled)

      input_cut :
          length (contents c) + length values - c.size
          ≡ length (contents c) + (length values - c.size)
      input_cut = omega arith

-- `put`, on a valid ring and every input: the ring then holds the last `size` bytes of what it held
-- followed by the input, and stays valid; only the oldest bytes are lost.
pub put-Put : {c : CircularBuffer} (values : List ℕ) → IsValid c → Put c values (put c values)
unfolding put
put-Put [] v = nil-Put v _
put-Put {c} (x ∷ xs) v =
    let values = x ∷ xs in
    let l = signed32 (u32 (length values)) in
    elim (dec_lt c.size (length values)) [
      | yes long ↦
          rw (suc-beq-zero, lt→ltb _ _ long)
            (as_if_old (store-Put_cut (lastop-IsValid v l) values long))
      | no fits ↦
          rw (suc-beq-zero, le→ltb_false c.size (length values) (omega arith))
            (as_if_old (store-Put (lastop-IsValid v l) values (omega arith) (omega arith)))
    ]
  where
    as_if_old :
        {l : ℤ} {after : CircularBuffer}
        → Put (record c { lastop = l }) (x ∷ xs) after
        → Put c (x ∷ xs) after
    as_if_old p = record { valid = p.valid; holds = p.holds; same_size = p.same_size }
