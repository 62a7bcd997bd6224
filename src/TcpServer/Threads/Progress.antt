-- ===== src/TcpServer/Threads/Progress.antt =====
-- That the sender can send what there is.
use camera_controller.Base.{
  ℕ, ◌+◌, ◌-◌, ◌≤◌, ◌<◌, ◌≡◌, ◌≢◌, inl, inr, refl, ap, subst, Bool-cases, true, false, List, [],
  ◌∷◌, ◌++◌, All, arith, length, take,
}
use camera_controller.Base.Int.{ℤ}
use camera_controller.CircularBuffer.{CircularBuffer, get}
use camera_controller.CircularBuffer.Contents.{IsValid, contents}
use camera_controller.CircularBuffer.Get.{get-Get}
use camera_controller.TcpServer.Threads.{
  SenderAt, starting, testing, going_to_wait, asleep, sending, wake, Threads, started, must_wait,
  Label, quiet, Step, given, lock, take as taking, send, Run, here, next,
}
use camera_controller.TcpServer.Threads.Client.{Stays}
use camera_controller.TcpServer.Threads.Wakeups.{Attentive, test-nothing, Rouse, Rouse-later}

-- The bytes that the sender sends next: those that it has taken, or the oldest 512 of the ring at most.
abbrev pub next_bytes : SenderAt → List ℕ → List ℕ
next_bytes starting held = take 512 held
next_bytes testing held = take 512 held
next_bytes going_to_wait held = take 512 held
next_bytes asleep held = take 512 held
next_bytes (sending bytes) held = bytes

-- A run of at most `k` steps that ends with the call of `send` for `bytes`; none of them is a call of
-- `sendData`, the end of the connection, or a wake-up that nobody has asked for.
pub record Sends (k : ℕ) (sck : ℤ) (sent : List (ℤ × List ℕ)) (bytes : List ℕ) (t : Threads)
    : Type 0 where
  pub labels : List Label
  pub after : Threads
  pub run : Run labels t after
  pub by_itself : All (λ l. l ≡ quiet) labels
  pub short : length labels ≤ k
  pub sends : after.sent ≡ sent ++ (sck, bytes) ∷ []

first :
    {k : ℕ} {sck : ℤ} {sent : List (ℤ × List ℕ)} {bytes : List ℕ} {t t' : Threads}
    → Step quiet t t'
    → Sends k sck sent bytes t'
    → Sends (k + 1) sck sent bytes t
first step s = record {
  labels = quiet ∷ s.labels;
  after = s.after;
  run = next step s.run;
  by_itself = (refl, s.by_itself);
  short = omega (arith, s.short);
  sends = s.sends;
}

in_four :
    {k : ℕ} {sck : ℤ} {sent : List (ℤ × List ℕ)} {bytes : List ℕ} {t : Threads}
    → k ≤ 4
    → Sends k sck sent bytes t
    → Sends 4 sck sent bytes t
in_four fits s = record {
  labels = s.labels;
  after = s.after;
  run = s.run;
  by_itself = s.by_itself;
  short = omega (arith, s.short, fits);
  sends = s.sends;
}

goes_on :
    (t : Threads)
    → IsValid t.send_buf
    → t.client_connected ≡ true
    → contents t.send_buf ≢ []
    → must_wait t ≡ false
goes_on t v flag some = elim (Bool-cases (must_wait t)) [
  | inl waits ↦ absurd (some (test-nothing t v flag waits))
  | inr goes ↦ goes
]

sending-Sends :
    (t : Threads) (bytes : List ℕ) → t.sender ≡ sending bytes → Sends 1 t.sck_client t.sent bytes t
sending-Sends t bytes at = record {
  labels = quiet ∷ [];
  after = _;
  run = next (send bytes at) here;
  by_itself = (refl, tt);
  short = omega arith;
  sends = refl;
}

testing-Sends :
    (t : Threads)
    → IsValid t.send_buf
    → t.sender ≡ testing
    → must_wait t ≡ false
    → Sends 2 t.sck_client t.sent (take 512 (contents t.send_buf)) t
testing-Sends t v at goes = first (taking at goes) (
    subst (λ bytes. Sends 1 t.sck_client t.sent bytes (taken_from t)) (get-Get 512 v).copied
      (sending-Sends (taken_from t) (get t.send_buf 512).2 refl))
  where
    taken_from : Threads → Threads
    taken_from u = record u {
      send_buf = (get u.send_buf 512).0;
      sender = sending (get u.send_buf 512).2;
    }

starting-Sends :
    (t : Threads)
    → IsValid t.send_buf
    → t.sender ≡ starting
    → must_wait t ≡ false
    → Sends 3 t.sck_client t.sent (take 512 (contents t.send_buf)) t
starting-Sends t v at goes =
    first (lock at) (testing-Sends (record t { sender = testing }) v refl goes)

asleep-Sends :
    (t : Threads)
    → IsValid t.send_buf
    → t.sender ≡ asleep
    → 0 < t.notifies
    → must_wait t ≡ false
    → Sends 4 t.sck_client t.sent (take 512 (contents t.send_buf)) t
asleep-Sends t v at pending goes = first (given (t.notifies - 1) (omega arith)) (
    starting-Sends (record t { notifies = t.notifies - 1; sender = wake t.sender }) v (ap wake at)
      goes)

Roused-Sends :
    (t : Threads) (at : SenderAt)
    → t.sender ≡ at
    → Attentive at t.notifies (contents t.send_buf)
    → IsValid t.send_buf
    → contents t.send_buf ≢ []
    → must_wait t ≡ false
    → Sends 4 t.sck_client t.sent (next_bytes at (contents t.send_buf)) t
Roused-Sends t starting at a v some goes = in_four (omega arith) (starting-Sends t v at goes)
Roused-Sends t testing at a v some goes = in_four (omega arith) (testing-Sends t v at goes)
Roused-Sends t going_to_wait at a v some goes = absurd (some a)
Roused-Sends t asleep at (inl nothing) v some goes = absurd (some nothing)
Roused-Sends t asleep at (inr pending) v some goes = asleep-Sends t v at pending goes
Roused-Sends t (sending bytes) at a v some goes = in_four (omega arith) (sending-Sends t bytes at)

-- Whatever the threads have done since `start`, with a valid ring: once `fn_server` notifies that a
-- client is there, while the sender is not on its way to sleep, and again once bytes are given to
-- `sendData` while a client is there, the sender never gets stuck: as long as this client stays, at
-- any moment at which the ring holds bytes there is a run of four steps at most, without another
-- call of `sendData` or a wake-up that nobody has asked for, that ends with a call of `send` to the
-- client, for the bytes that the sender has taken, or else for the oldest 512 of the ring, or all
-- where these are fewer.
pub Run-Sends :
    {labels later : List Label} {send_buf : CircularBuffer} {t u t' : Threads}
    → IsValid send_buf
    → Run labels (started send_buf) t
    → Rouse t u
    → Run later u t'
    → Stays later
    → contents t'.send_buf ≢ []
    → Sends 4 t'.sck_client t'.sent (next_bytes t'.sender (contents t'.send_buf)) t'
Run-Sends {t' = t'} v run rouse later stays some =
    let r = Rouse-later v run rouse later stays in
    Roused-Sends t' t'.sender refl r.attentive r.valid some (goes_on t' r.valid r.flag some)
