-- ===== src/TcpServer/Threads/Lost.antt =====
-- What the threads can lose. `fn_sender` sends without the mutex, and `fn_server` never takes it:
-- the flag can be set, and the sender notified, between the test of the sender's `while` and its
-- `wait`.
use camera_controller.Base.{
  ℕ, ◌+◌, ◌-◌, ◌≤◌, ◌<◌, ◌≡◌, refl, ap, ◌∙◌, true, false, List, [], ◌∷◌, All, arith, length, take,
  take_all, ◌==◌,
}
use camera_controller.Base.Int.{pos, ltb_ℤ}
use camera_controller.CircularBuffer.{CircularBuffer, put, current_size}
use camera_controller.CircularBuffer.Contents.{IsValid, contents, current_size_lem}
use camera_controller.CircularBuffer.Put.{put-Put}
use camera_controller.CircularBuffer.Get.{get-Get}
use camera_controller.TcpServer.Threads.{
  receiving, asleep, Threads, started, Label, quiet, Step, give, given, accept, refuse, connect,
  serve, receive, leave, lock, test, wait, wake_up, disconnect, take as taking, send, sending, Run,
  here, next,
}

-- A client is served and bytes wait for it, but the sender sleeps and nobody is to notify it.
pub record IsStuck (bytes : List ℕ) (t : Threads) : Type 0 where
  pub server : t.server ≡ receiving
  pub connected : t.client_connected ≡ true
  pub sender : t.sender ≡ asleep
  pub no_notify : t.notifies ≡ 0
  pub waiting : contents t.send_buf ≡ bytes
  pub nothing_sent : t.sent ≡ []

step-IsStuck :
    {bytes : List ℕ} {l : Label} {t t' : Threads}
    → Step l t t'
    → l ≡ quiet
    → IsStuck bytes t
    → IsStuck bytes t'
step-IsStuck (give bytes free) q stuck = absurd (cc)
step-IsStuck (given n some) q stuck = absurd (omega (arith, stuck.no_notify))
step-IsStuck (accept sck at) q stuck = let is = stuck.server in absurd (cc)
step-IsStuck (refuse at bad) q stuck = let is = stuck.server in absurd (cc)
step-IsStuck (connect at good) q stuck = let is = stuck.server in absurd (cc)
step-IsStuck (serve at) q stuck = let is = stuck.server in absurd (cc)
step-IsStuck (receive at) q stuck = stuck
step-IsStuck (disconnect at) q stuck = absurd (cc)
step-IsStuck (leave at) q stuck = let is = stuck.server in absurd (cc)
step-IsStuck (lock at) q stuck = let is = stuck.sender in absurd (cc)
step-IsStuck (test at waits) q stuck = let is = stuck.sender in absurd (cc)
step-IsStuck (wait at) q stuck = let is = stuck.sender in absurd (cc)
step-IsStuck (wake_up at) q stuck = absurd (cc)
step-IsStuck (taking at goes) q stuck = let is = stuck.sender in absurd (cc)
step-IsStuck (send bytes at) q stuck = let is = stuck.sender in absurd (cc)

-- So it stays in every run, until `sendData` is called, the client leaves, or the sender wakes up
-- by itself.
Run-IsStuck :
    {bytes : List ℕ} {labels : List Label} {t t' : Threads}
    → Run labels t t'
    → All (λ l. l ≡ quiet) labels
    → IsStuck bytes t
    → IsStuck bytes t'
Run-IsStuck here quiets stuck = stuck
Run-IsStuck (next s run) (q, quiets) stuck = Run-IsStuck run quiets (step-IsStuck s q stuck)

-- The state after the steps of `lost_wakeup`.
abbrev stuck_threads : CircularBuffer → List ℕ → ℕ → Threads
stuck_threads send_buf bytes sck = record {
  sck_client = pos sck;
  client_connected = true;
  send_buf = put send_buf bytes;
  server = receiving;
  sender = asleep;
  notifies = 0;
  sent = [];
}

good : (sck : ℕ) → ltb_ℤ (pos sck) (pos 0) ≡ false
good sck = ground arith

-- The sender tests the flag, a client is accepted, and then the sender sleeps.
stuck-Run :
    (send_buf : CircularBuffer) (bytes : List ℕ) (sck : ℕ)
    → (labels : List Label) × Run labels (started send_buf) (stuck_threads send_buf bytes sck)
stuck-Run send_buf bytes sck = (
  _,
  next (give bytes refl) (
      next (given 0 refl) (
        next (lock refl) (
          next (test refl refl) (
            next (accept (pos sck) refl)
              (next (connect refl (good sck)) (next (serve refl) (next (wait refl) here))))))),
)

-- From `start`, with a valid ring that is empty, for any bytes that it has room for and any socket:
-- there is a run of the threads after which a client is served and the bytes wait for it in the
-- ring, with nothing sent, while the sender sleeps and nobody is to notify it.
pub lost_wakeup :
    (send_buf : CircularBuffer) (bytes : List ℕ) (sck : ℕ)
    → IsValid send_buf
    → contents send_buf ≡ []
    → length bytes ≤ send_buf.size
    → (labels : List Label) × (t : Threads) × Run labels (started send_buf) t
      × (t.sck_client ≡ pos sck)
      × IsStuck bytes t
lost_wakeup send_buf bytes sck v empty fits =
    let (labels, run) = stuck-Run send_buf bytes sck in
    let none_lost : 0 + length bytes - send_buf.size ≡ 0 = omega arith in
    let stuck : IsStuck bytes (stuck_threads send_buf bytes sck) = record {
      server = refl;
      connected = refl;
      sender = refl;
      no_notify = refl;
      waiting = (put-Put bytes v).holds ∙ rw (empty, none_lost) refl;
      nothing_sent = refl;
    } in
    (labels, stuck_threads send_buf bytes sck, run, refl, stuck)

-- From `start`, with a valid ring that is empty, for any bytes, one at least and 512 at most, that
-- it has room for, and any two sockets: there is a run of the threads after which the sender has
-- taken the bytes while the first socket is the client's, and a later one after which it has sent
-- them to the second, and nothing else to anyone.
pub next_client :
    (send_buf : CircularBuffer) (bytes : List ℕ) (a b : ℕ)
    → IsValid send_buf
    → contents send_buf ≡ []
    → 0 < length bytes
    → length bytes ≤ 512
    → length bytes ≤ send_buf.size
    → (labels later : List Label) × (t t' : Threads) × Run labels (started send_buf) t
      × (t.sck_client ≡ pos a)
      × (t.sender ≡ sending bytes)
      × Run later t t'
      × (t'.sent ≡ (pos b, bytes) ∷ [])
next_client send_buf bytes a b v empty some small fits =
    let none_lost : 0 + length bytes - send_buf.size ≡ 0 = omega arith in
    let p = put-Put bytes v in
    let held : contents (put send_buf bytes) ≡ bytes = p.holds ∙ rw (empty, none_lost) refl in
    let out = (get-Get 512 p.valid).copied ∙ ap (take 512) held ∙ take_all 512 bytes small in
    let goes : (current_size (put send_buf bytes) == 0) ≡ false =
      ground (arith, current_size_lem p.valid, ap length held) in
    (
      _,
      _,
      _,
      _,
      next (give bytes refl) (
          next (given 0 refl) (
            next (accept (pos a) refl) (
              next (connect refl (good a))
                (next (serve refl) (next (lock refl) (next (taking refl goes) here)))))),
      refl,
      ap sending out,
      next (disconnect refl)
          (next (leave refl) (next (accept (pos b) refl) (next (send _ refl) here))),
      ap (λ l. (pos b, l) ∷ []) out,
    )
