-- ===== src/TcpServer/Threads.antt =====
-- The threads of src/communication/TCPServer.cpp statement by statement, as a step relation: the
-- callers of `sendData`, `fn_server` and `fn_sender`, with the mutex, the condition variable and
-- the flag that is set without the mutex. What a socket call answers is part of the step.
pub mod Client
pub mod Wakeups
pub mod Progress
pub mod Lost
pub mod Order
use camera_controller.Base.{
  ℕ, suc, ◌+◌, ◌≡◌, Bool, true, false, not, ◌||◌, List, [], ◌∷◌, ◌++◌, ◌==◌,
}
use camera_controller.Base.Int.{ℤ, pos, negsuc, ltb_ℤ}
use camera_controller.CircularBuffer.{CircularBuffer, put, get, current_size}

-- Where `fn_server` stands: in `accept`; after it; with the flag set; in `receive`; with the flag
-- cleared. After either change of the flag it has still to notify.
pub data ServerAt : Type 0 where
  accepting accepted connected receiving disconnected : ServerAt

-- Where `fn_sender` stands: before the mutex, which a thread that is woken asks for again too; with
-- the mutex before the test of its `while`; with the mutex before it waits; asleep; with bytes that
-- it has to send, the mutex released.
pub data SenderAt : Type 0 where
  starting testing going_to_wait asleep : SenderAt
  sending : List ℕ → SenderAt

abbrev pub holds_mutex : SenderAt → Bool
holds_mutex starting = false
holds_mutex testing = true
holds_mutex going_to_wait = true
holds_mutex asleep = false
holds_mutex (sending bytes) = false

-- `cv_sender.notify_one()`: only a thread that sleeps takes notice.
abbrev pub wake : SenderAt → SenderAt
wake starting = starting
wake testing = testing
wake going_to_wait = going_to_wait
wake asleep = starting
wake (sending bytes) = sending bytes

-- The members that the threads share. `notifies` counts the callers of `sendData` that have released the
-- mutex and not notified yet; `sent` lists the calls of `send`.
pub record Threads : Type 0 where
  pub sck_client : ℤ
  pub client_connected : Bool
  pub send_buf : CircularBuffer
  pub server : ServerAt
  pub sender : SenderAt
  pub notifies : ℕ
  pub sent : List (ℤ × List ℕ)

-- Both threads when `start` has created them.
abbrev pub started : CircularBuffer → Threads
started send_buf = record {
  sck_client = negsuc 0;
  client_connected = false;
  send_buf = send_buf;
  server = accepting;
  sender = starting;
  notifies = 0;
  sent = [];
}

-- The test of the sender's `while`.
abbrev pub must_wait : Threads → Bool
must_wait t = not t.client_connected || (current_size t.send_buf == 0)

-- What a step is: bytes are given to `sendData`, the client leaves, the sender wakes up though
-- nobody has notified it, as the standard allows, or another step.
pub data Label : Type 0 where
  gives : List ℕ → Label
  leaves spurious quiet : Label

-- The statements that use these members; what `receive` gives to the decoder is none of them.
pub data Step : Label → Threads → Threads → Type 0 where
  give :
      {t : Threads} (bytes : List ℕ)
      → holds_mutex t.sender ≡ false
      → Step
          (gives bytes)
          t
          (record t { send_buf = put t.send_buf bytes; notifies = t.notifies + 1 })
  given :
      {t : Threads} (n : ℕ)
      → t.notifies ≡ n + 1
      → Step quiet t (record t { notifies = n; sender = wake t.sender })
  accept :
      {t : Threads} (sck : ℤ)
      → t.server ≡ accepting
      → Step quiet t (record t { sck_client = sck; server = accepted })
  refuse :
      {t : Threads}
      → t.server ≡ accepted
      → ltb_ℤ t.sck_client (pos 0) ≡ true
      → Step quiet t (record t { server = accepting })
  connect :
      {t : Threads}
      → t.server ≡ accepted
      → ltb_ℤ t.sck_client (pos 0) ≡ false
      → Step quiet t (record t { client_connected = true; server = connected })
  serve :
      {t : Threads}
      → t.server ≡ connected
      → Step quiet t (record t { server = receiving; sender = wake t.sender })
  receive : {t : Threads} → t.server ≡ receiving → Step quiet t t
  disconnect :
      {t : Threads}
      → t.server ≡ receiving
      → Step leaves t (record t { client_connected = false; server = disconnected })
  leave :
      {t : Threads}
      → t.server ≡ disconnected
      → Step quiet t (record t { server = accepting; sender = wake t.sender })
  lock : {t : Threads} → t.sender ≡ starting → Step quiet t (record t { sender = testing })
  test :
      {t : Threads}
      → t.sender ≡ testing
      → must_wait t ≡ true
      → Step quiet t (record t { sender = going_to_wait })
  wait : {t : Threads} → t.sender ≡ going_to_wait → Step quiet t (record t { sender = asleep })
  wake_up : {t : Threads} → t.sender ≡ asleep → Step spurious t (record t { sender = starting })
  take :
      {t : Threads}
      → t.sender ≡ testing
      → must_wait t ≡ false
      → Step quiet t
          (record t { send_buf = (get t.send_buf 512).0; sender = sending (get t.send_buf 512).2 })
  send :
      {t : Threads} (bytes : List ℕ)
      → t.sender ≡ sending bytes
      → Step quiet t (record t { sender = starting; sent = t.sent ++ (t.sck_client, bytes) ∷ [] })

-- One step after the other.
pub data Run : List Label → Threads → Threads → Type 0 where
  here : {t : Threads} → Run [] t t
  next :
      {l : Label} {labels : List Label} {t t' t'' : Threads}
      → Step l t t'
      → Run labels t' t''
      → Run (l ∷ labels) t t''
