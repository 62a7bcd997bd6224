-- ===== src/TcpServer/Order.antt =====
-- What the sender sends is what was given to `sendData`, in order.
use camera_controller.Base.{
  ℕ, ◌+◌, ◌-◌, ◌≤◌, ◌≡◌, refl, sym, ap, ◌∙◌, not, ◌||◌, List, [], ◌∷◌, ◌++◌, ◌==◌, length, take,
  drop, take-append-drop, append_assoc, append-nil, arith, Bool-cases, inl, inr,
}
use camera_controller.Base.Int.{ℤ}
use camera_controller.CircularBuffer.{get, current_size}
use camera_controller.CircularBuffer.Contents.{IsValid, contents}
use camera_controller.CircularBuffer.Put.{put-Put}
use camera_controller.CircularBuffer.Get.{get-Get}
use camera_controller.TcpServer.{TcpServer, Sockets, send_data, sender_round}

-- A step of the threads that use the ring: bytes given to `sendData`, or a round of the sender.
pub data Step : Type 0 where
  give : List ℕ → Step
  sender : Step

-- All the bytes that are given.
unfoldable pub given : List Step → List ℕ
given [] = []
given (give bytes ∷ steps) = bytes ++ given steps
given (sender ∷ steps) = given steps

-- Sockets that collect what is sent.
module _ {S : Type 0} (os : Sockets (List ℕ)) where
  unfoldable pub step : Step → TcpServer S (List ℕ) → TcpServer S (List ℕ)
  step (give bytes) t = send_data bytes t
  step sender t = sender_round os t

  unfoldable pub steps_run : List Step → TcpServer S (List ℕ) → TcpServer S (List ℕ)
  steps_run [] t = t
  steps_run (s ∷ steps) t = steps_run steps (step s t)

  -- What is sent and what waits in the ring.
  abbrev pub stream : TcpServer S (List ℕ) → List ℕ
  stream t = t.world ++ contents t.send_buf

  -- No write overflows the ring.
  unfoldable pub NoLoss : List Step → TcpServer S (List ℕ) → Type 0
  NoLoss [] t = Unit
  NoLoss (give bytes ∷ steps) t =
      (length (contents t.send_buf) + length bytes ≤ t.send_buf.size)
      × NoLoss steps (step (give bytes) t)
  NoLoss (sender ∷ steps) t = NoLoss steps (step sender t)

  module _
      (appends : (sck : ℤ) (bytes sent : List ℕ) → os.send sck bytes sent ≡ sent ++ bytes) where
    give-stream :
        (bytes : List ℕ) (t : TcpServer S (List ℕ))
        → IsValid t.send_buf
        → length (contents t.send_buf) + length bytes ≤ t.send_buf.size
        → stream (step (give bytes) t) ≡ stream t ++ bytes
    unfolding step send_data
    give-stream bytes t v fits =
        let all : length (contents t.send_buf) + length bytes - t.send_buf.size ≡ 0 = omega arith in
        ap (λ held. t.world ++ held) ((put-Put bytes v).holds ∙ rw all refl)
        ∙ sym (append_assoc t.world (contents t.send_buf) bytes)

    pub sender-stream :
        (t : TcpServer S (List ℕ)) → IsValid t.send_buf → stream (step sender t) ≡ stream t
    unfolding step sender_round
    sender-stream t v =
        elim (Bool-cases (not t.client_connected || (current_size t.send_buf == 0))) [
          | inl e ↦ rw (e, step, sender_round) refl
          | inr e ↦
              let g = get-Get 512 v in
              rw (e, step, sender_round, appends)
                (ap (λ out. (t.world ++ out) ++ contents (get t.send_buf 512).0) g.copied
                  ∙ ap (λ held. (t.world ++ take 512 (contents t.send_buf)) ++ held) g.left
                  ∙ append_assoc t.world (take 512 (contents t.send_buf))
                      (drop 512 (contents t.send_buf))
                  ∙ ap (λ xs. t.world ++ xs) (take-append-drop 512 (contents t.send_buf)))
        ]

    pub step-IsValid :
        (s : Step) (t : TcpServer S (List ℕ)) → IsValid t.send_buf → IsValid (step s t).send_buf
    unfolding step send_data sender_round
    step-IsValid (give bytes) t v = (put-Put bytes v).valid
    step-IsValid sender t v =
        elim (Bool-cases (not t.client_connected || (current_size t.send_buf == 0))) [
          | inl e ↦ rw (e, step, sender_round) v
          | inr e ↦ rw (e, step, sender_round) (get-Get 512 v).valid
        ]

    -- With a valid ring and sockets that send all that they are given: however the two threads
    -- interleave, the bytes handed to `send`, followed by those that wait in the ring, are those
    -- that were there before followed by all that is given to `sendData`, in order, as long as no
    -- write overflows the ring.
    pub steps_run-stream :
        (steps : List Step) (t : TcpServer S (List ℕ))
        → IsValid t.send_buf
        → NoLoss steps t
        → stream (steps_run steps t) ≡ stream t ++ given steps
    unfolding steps_run given NoLoss
    steps_run-stream [] t v n = sym (append-nil (stream t))
    steps_run-stream (give bytes ∷ steps) t v n =
        steps_run-stream steps (step (give bytes) t) (step-IsValid (give bytes) t v) n.1
        ∙ ap (λ xs. xs ++ given steps) (give-stream bytes t v n.0)
        ∙ append_assoc (stream t) bytes (given steps)
    steps_run-stream (sender ∷ steps) t v n =
        steps_run-stream steps (step sender t) (step-IsValid sender t v) n
        ∙ ap (λ xs. xs ++ given steps) (sender-stream t v)
