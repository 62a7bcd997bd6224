-- ===== src/TcpServer/Drain.antt =====
-- The sender empties the ring.
use camera_controller.Base.{
  ℕ, zero, suc, ◌-◌, ◌*◌, ◌≤◌, ◌≡◌, refl, ap, ◌∙◌, true, List, [], ◌∷◌, ◌==◌, length, length-drop,
  arith, Bool-cases, inl, inr,
}
use camera_controller.CircularBuffer.{current_size}
use camera_controller.CircularBuffer.Contents.{IsValid, contents, current_size_lem}
use camera_controller.CircularBuffer.Get.{get-Get}
use camera_controller.TcpServer.{TcpServer, Sockets, sender_round}

module _ {S W : Type 0} (os : Sockets W) where
  -- `k` rounds of `fn_sender`.
  unfoldable pub sender_rounds : ℕ → TcpServer S W → TcpServer S W
  sender_rounds zero t = t
  sender_rounds (suc k) t = sender_rounds k (sender_round os t)

  -- What a round leaves behind.
  record Round (t t' : TcpServer S W) : Type 0 where
    valid : IsValid t'.send_buf
    connected : t'.client_connected ≡ true
    fewer : length (contents t'.send_buf) ≡ length (contents t.send_buf) - 512

  sender_round-Round :
      (t : TcpServer S W)
      → IsValid t.send_buf
      → t.client_connected ≡ true
      → Round t (sender_round os t)
  unfolding sender_round
  sender_round-Round t v c = elim (Bool-cases (current_size t.send_buf == 0)) [
    | inl e ↦
        rw (c, e, sender_round)
          (record { valid = v; connected = refl; fewer = ground (arith, current_size_lem v) })
    | inr e ↦
        rw (c, e, sender_round)
          (record {
            valid = (get-Get 512 v).valid;
            connected = refl;
            fewer = ap length (get-Get 512 v).left ∙ length-drop 512 (contents t.send_buf);
          })
  ]

  -- While a client is connected, `k` rounds of the sender empty a ring that holds at most 512 bytes
  -- for each of them.
  pub sender_rounds-empty :
      (k : ℕ) (t : TcpServer S W)
      → IsValid t.send_buf
      → t.client_connected ≡ true
      → length (contents t.send_buf) ≤ 512 * k
      → contents (sender_rounds k t).send_buf ≡ []
  unfolding sender_rounds
  sender_rounds-empty zero t v c h = nothing (contents t.send_buf) (omega arith)
    where
      nothing : (xs : List ℕ) → length xs ≤ 0 → xs ≡ []
      nothing [] h = refl
      nothing (x ∷ xs) h = absurd (omega arith)
  sender_rounds-empty (suc k) t v c h =
      let r = sender_round-Round t v c in
      sender_rounds-empty k (sender_round os t) r.valid r.connected (omega (arith, r.fewer))
