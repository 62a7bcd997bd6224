-- ===== src/TcpServer/Sent.antt =====
-- After enough rounds of the sender, everything given to `sendData` has been sent.
use camera_controller.Base.{
  ℕ, zero, suc, ◌*◌, ◌≤◌, ◌≡◌, refl, sym, ap, ◌∙◌, true, not, ◌||◌, List, [], ◌∷◌, ◌++◌, ◌==◌,
  append-nil, arith, Bool-cases, inl, inr,
}
use camera_controller.Base.Int.{ℤ}
use camera_controller.CircularBuffer.{current_size}
use camera_controller.CircularBuffer.Contents.{IsValid, contents, length-contents, count-le}
use camera_controller.CircularBuffer.Put.{put-Put}
use camera_controller.CircularBuffer.Get.{get-Get}
use camera_controller.TcpServer.{TcpServer, Sockets, send_data, sender_round}
use camera_controller.TcpServer.Drain.{sender_rounds, sender_rounds-empty}
use camera_controller.TcpServer.Order.{
  Step, give, sender, given, step, steps_run, stream, NoLoss, sender-stream, steps_run-stream,
}

module _ {S : Type 0} (os : Sockets (List ℕ))
    (appends : (sck : ℤ) (bytes sent : List ℕ) → os.send sck bytes sent ≡ sent ++ bytes) where
  -- What the threads that use the ring keep.
  record Same (t t' : TcpServer S (List ℕ)) : Type 0 where
    valid : IsValid t'.send_buf
    size : t'.send_buf.size ≡ t.send_buf.size
    client : t'.client_connected ≡ t.client_connected

  step-Same : (s : Step) (t : TcpServer S (List ℕ)) → IsValid t.send_buf → Same t (step os s t)
  unfolding step send_data sender_round
  step-Same (give bytes) t v = record {
    valid = (put-Put bytes v).valid;
    size = (put-Put bytes v).same_size;
    client = refl;
  }
  step-Same sender t v =
      elim (Bool-cases (not t.client_connected || (current_size t.send_buf == 0))) [
        | inl e ↦ rw (e, step, sender_round) (record { valid = v; size = refl; client = refl })
        | inr e ↦
            rw (e, step, sender_round)
              (record {
                valid = (get-Get 512 v).valid;
                size = (get-Get 512 v).same_size;
                client = refl;
              })
      ]

  steps_run-Same :
      (steps : List Step) (t : TcpServer S (List ℕ))
      → IsValid t.send_buf
      → Same t (steps_run os steps t)
  unfolding steps_run
  steps_run-Same [] t v = record { valid = v; size = refl; client = refl }
  steps_run-Same (s ∷ steps) t v =
      let one = step-Same s t v in
      let all = steps_run-Same steps (step os s t) one.valid in
      record { valid = all.valid; size = all.size ∙ one.size; client = all.client ∙ one.client }

  sender_rounds-stream :
      (k : ℕ) (t : TcpServer S (List ℕ))
      → IsValid t.send_buf
      → stream os (sender_rounds os k t) ≡ stream os t
  unfolding sender_rounds step
  sender_rounds-stream zero t v = refl
  sender_rounds-stream (suc k) t v =
      sender_rounds-stream k (sender_round os t) (step-Same sender t v).valid
      ∙ sender-stream os appends t v

  -- With a valid ring and sockets that send all that they are given, while a client is connected
  -- and no write overflows the ring: however the calls of `sendData` and the rounds of the sender
  -- have interleaved, one more round for each 512 bytes of the ring's size sends what is left. What
  -- was handed to `send` is then all that was sent or in the ring before and all that was given, in
  -- order.
  pub sender_rounds-sent :
      (k : ℕ) (steps : List Step) (t : TcpServer S (List ℕ))
      → IsValid t.send_buf
      → t.client_connected ≡ true
      → NoLoss os steps t
      → t.send_buf.size ≤ 512 * k
      → (sender_rounds os k (steps_run os steps t)).world ≡ stream os t ++ given steps
  sender_rounds-sent k steps t v c n enough =
      let t' : TcpServer S (List ℕ) = steps_run os steps t in
      let same = steps_run-Same steps t v in
      let after = sender_rounds os k t' in
      let empty : contents after.send_buf ≡ [] =
        sender_rounds-empty os k t' same.valid (same.client ∙ c)
          (omega (arith, same.size, length-contents t'.send_buf, count-le same.valid)) in
      sym (append-nil after.world)
      ∙ ap (λ l. after.world ++ l) (sym empty)
      ∙ sender_rounds-stream k t' same.valid
      ∙ steps_run-stream os appends steps t v n
