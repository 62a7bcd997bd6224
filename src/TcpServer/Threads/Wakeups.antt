-- ===== src/TcpServer/Threads/Wakeups.antt =====
-- Whether the sender can sleep while there is something to send.
use camera_controller.Base.{
  ℕ, ◌+◌, ◌<◌, ◌≡◌, ◌≢◌, ◌⊎◌, inl, inr, refl, ap, ◌∙◌, subst, true, false, List, [], ◌∷◌, arith,
  length,
}
use camera_controller.CircularBuffer.{CircularBuffer, put}
use camera_controller.CircularBuffer.Contents.{IsValid, contents, current_size_lem}
use camera_controller.CircularBuffer.Put.{put-Put}
use camera_controller.CircularBuffer.Get.{get-Get}
use camera_controller.TcpServer.Threads.{
  connected, receiving, SenderAt, starting, testing, going_to_wait, asleep, sending, holds_mutex,
  wake, Threads, started, must_wait, Label, Step, give, given, accept, refuse, connect, serve,
  receive, disconnect, leave, lock, test, wait, wake_up, take, send, Run, here, next,
}
use camera_controller.TcpServer.Threads.Client.{
  InSync, has_client, Stays, step-InSync, Run-InSync, step-flag,
}

pub step-IsValid :
    {l : Label} {t t' : Threads} → Step l t t' → IsValid t.send_buf → IsValid t'.send_buf
step-IsValid (give bytes free) v = (put-Put bytes v).valid
step-IsValid (given n some) v = v
step-IsValid (accept sck at) v = v
step-IsValid (refuse at bad) v = v
step-IsValid (connect at good) v = v
step-IsValid (serve at) v = v
step-IsValid (receive at) v = v
step-IsValid (disconnect at) v = v
step-IsValid (leave at) v = v
step-IsValid (lock at) v = v
step-IsValid (test at waits) v = v
step-IsValid (wait at) v = v
step-IsValid (wake_up at) v = v
step-IsValid (take at goes) v = (get-Get 512 v).valid
step-IsValid (send bytes at) v = v

-- A sender that sleeps has nothing to send, or will be notified; one that is about to sleep has
-- nothing to send.
abbrev pub Attentive : SenderAt → ℕ → List ℕ → Type 0
Attentive starting notifies held = Unit
Attentive testing notifies held = Unit
Attentive going_to_wait notifies held = held ≡ []
Attentive asleep notifies held = (held ≡ []) ⊎ (0 < notifies)
Attentive (sending bytes) notifies held = Unit

abbrev pub IsAttentive : Threads → Type 0
IsAttentive t = Attentive t.sender t.notifies (contents t.send_buf)

wake-Attentive :
    (at : SenderAt) (n m : ℕ) (held : List ℕ) → Attentive at n held → Attentive (wake at) m held
wake-Attentive starting n m held a = tt
wake-Attentive testing n m held a = tt
wake-Attentive going_to_wait n m held a = a
wake-Attentive asleep n m held a = tt
wake-Attentive (sending bytes) n m held a = tt

give-Attentive :
    (at : SenderAt) (n : ℕ) (held : List ℕ) → holds_mutex at ≡ false → Attentive at (n + 1) held
give-Attentive starting n held free = tt
give-Attentive testing n held free = tt
give-Attentive going_to_wait n held free = absurd (cc)
give-Attentive asleep n held free = inr (omega arith)
give-Attentive (sending bytes) n held free = tt

no-contents : (xs : List ℕ) → length xs ≡ 0 → xs ≡ []
no-contents [] h = refl
no-contents (x ∷ xs) h = absurd (omega arith)

-- With a client, the sender waits only for bytes.
pub test-nothing :
    (t : Threads)
    → IsValid t.send_buf
    → t.client_connected ≡ true
    → must_wait t ≡ true
    → contents t.send_buf ≡ []
test-nothing t v flag waits = no-contents (contents t.send_buf) (ground (arith, current_size_lem v))

step-IsAttentive :
    {l : Label} {t t' : Threads}
    → Step l t t'
    → IsValid t.send_buf
    → t.client_connected ≡ true
    → IsAttentive t
    → IsAttentive t'
step-IsAttentive {t} (give bytes free) v flag a = give-Attentive t.sender t.notifies _ free
step-IsAttentive {t} (given n some) v flag a =
    wake-Attentive t.sender t.notifies n (contents t.send_buf) a
step-IsAttentive (accept sck at) v flag a = a
step-IsAttentive (refuse at bad) v flag a = a
step-IsAttentive (connect at good) v flag a = a
step-IsAttentive {t} (serve at) v flag a =
    wake-Attentive t.sender t.notifies t.notifies (contents t.send_buf) a
step-IsAttentive (receive at) v flag a = a
step-IsAttentive (disconnect at) v flag a = a
step-IsAttentive {t} (leave at) v flag a =
    wake-Attentive t.sender t.notifies t.notifies (contents t.send_buf) a
step-IsAttentive (lock at) v flag a = tt
step-IsAttentive {t} (test at waits) v flag a = test-nothing t v flag waits
step-IsAttentive {t} (wait at) v flag a =
    inl (subst (λ s. Attentive s t.notifies (contents t.send_buf)) at a)
step-IsAttentive (wake_up at) v flag a = tt
step-IsAttentive (take at goes) v flag a = tt
step-IsAttentive (send bytes at) v flag a = tt

Run-IsAttentive :
    {labels : List Label} {t t' : Threads}
    → Run labels t t'
    → Stays labels
    → IsValid t.send_buf
    → InSync t
    → t.client_connected ≡ true
    → IsAttentive t
    → IsAttentive t'
Run-IsAttentive here stays v sync flag a = a
Run-IsAttentive (next s run) (stay, stays) v sync flag a =
    Run-IsAttentive run stays (step-IsValid s v) (step-InSync s sync) (step-flag s stay sync flag)
      (step-IsAttentive s v flag a)

Run-flag :
    {labels : List Label} {t t' : Threads}
    → Run labels t t'
    → Stays labels
    → InSync t
    → t.client_connected ≡ true
    → t'.client_connected ≡ true
Run-flag here stays sync flag = flag
Run-flag (next s run) (stay, stays) sync flag =
    Run-flag run stays (step-InSync s sync) (step-flag s stay sync flag)

pub Run-IsValid :
    {labels : List Label} {t t' : Threads}
    → Run labels t t'
    → IsValid t.send_buf
    → IsValid t'.send_buf
Run-IsValid here v = v
Run-IsValid (next s run) v = Run-IsValid run (step-IsValid s v)

roused : (at : SenderAt) (n : ℕ) (held : List ℕ) → at ≢ going_to_wait → Attentive (wake at) n held
roused starting n held not_going = tt
roused testing n held not_going = tt
roused going_to_wait n held not_going = absurd (not_going refl)
roused asleep n held not_going = tt
roused (sending bytes) n held not_going = tt

-- Two steps with a client: `fn_server` notifies that it is there, while the sender is not on its way to
-- sleep, or bytes are given to `sendData`.
pub data Rouse : Threads → Threads → Type 0 where
  by_server :
      {t : Threads}
      → t.server ≡ connected
      → t.sender ≢ going_to_wait
      → Rouse t (record t { server = receiving; sender = wake t.sender })
  by_data :
      {t : Threads} (bytes : List ℕ)
      → t.client_connected ≡ true
      → holds_mutex t.sender ≡ false
      → Rouse t (record t { send_buf = put t.send_buf bytes; notifies = t.notifies + 1 })

-- What holds after either.
pub record Roused (t : Threads) : Type 0 where
  pub sync : InSync t
  pub flag : t.client_connected ≡ true
  pub valid : IsValid t.send_buf
  pub attentive : IsAttentive t

Rouse-Roused : {t u : Threads} → Rouse t u → InSync t → IsValid t.send_buf → Roused u
Rouse-Roused {t} (by_server at not_going) sync v = record {
  sync = sync ∙ ap has_client at;
  flag = sync ∙ ap has_client at;
  valid = v;
  attentive = roused t.sender t.notifies (contents t.send_buf) not_going;
}
Rouse-Roused {t} (by_data bytes flag free) sync v = record {
  sync = sync;
  flag = flag;
  valid = (put-Put bytes v).valid;
  attentive = give-Attentive t.sender t.notifies _ free;
}

-- What holds as long as the client stays.
pub Rouse-later :
    {labels later : List Label} {send_buf : CircularBuffer} {t u t' : Threads}
    → IsValid send_buf
    → Run labels (started send_buf) t
    → Rouse t u
    → Run later u t'
    → Stays later
    → Roused t'
Rouse-later v run rouse later stays =
    let r = Rouse-Roused rouse (Run-InSync run refl) (Run-IsValid run v) in
    record {
      sync = Run-InSync later r.sync;
      flag = Run-flag later stays r.sync r.flag;
      valid = Run-IsValid later r.valid;
      attentive = Run-IsAttentive later stays r.valid r.sync r.flag r.attentive;
    }

-- Whatever the threads have done since `start`, with a valid ring: once `fn_server` notifies that a
-- client is there, while the sender is not on its way to sleep, and again once bytes are given to
-- `sendData` while a client is there, the sender misses nothing: as long as this client stays, it
-- sleeps with no notification of `sendData` to come only when the ring has nothing to send.
pub Run-asleep :
    {labels later : List Label} {send_buf : CircularBuffer} {t u t' : Threads}
    → IsValid send_buf
    → Run labels (started send_buf) t
    → Rouse t u
    → Run later u t'
    → Stays later
    → t'.sender ≡ asleep
    → t'.notifies ≡ 0
    → contents t'.send_buf ≡ []
Run-asleep {t' = t'} v run rouse later stays sleeps no_notify =
    let r = Rouse-later v run rouse later stays in
    elim (subst (λ s. Attentive s t'.notifies (contents t'.send_buf)) sleeps r.attentive) [
      | inl nothing ↦ nothing
      | inr some ↦ absurd (omega arith)
    ]
