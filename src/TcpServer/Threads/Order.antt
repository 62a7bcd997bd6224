-- ===== src/TcpServer/Threads/Order.antt =====
-- What the threads of src/communication/TCPServer.cpp send, against what is given to `sendData`.
use mathlib.Core.List.{Sublist, Sublistᴰ}
use mathlib.Core.List.Sublist
use mathlib.Core.List.Sublistᴰ
use mathlib.Core.Logic.{∥∥₁_map}
use camera_controller.Base.{
  ℕ, zero, suc, ◌+◌, ◌-◌, ◌≡◌, refl, sym, ap, ◌∙◌, subst, List, [], ◌∷◌, ◌++◌, append-nil,
  append_assoc, length, drop, take, take-append-drop,
}
use camera_controller.Base.Int.{ℤ}
use camera_controller.CircularBuffer.{get, put}
use camera_controller.CircularBuffer.Contents.{IsValid, contents}
use camera_controller.CircularBuffer.Put.{put-Put}
use camera_controller.CircularBuffer.Get.{get-Get}
use camera_controller.TcpServer.Threads.{
  SenderAt, starting, testing, going_to_wait, asleep, sending, wake, Threads, Label, gives, leaves,
  spurious, quiet, Step, give, given, accept, refuse, connect, serve, receive, disconnect, leave,
  lock, test, wait, wake_up, take as taking, send, Run, here, next,
}
use camera_controller.TcpServer.Threads.Wakeups.{step-IsValid}

-- The bytes of the calls of `send`, in order.
unfoldable pub all_sent : List (ℤ × List ℕ) → List ℕ
all_sent [] = []
all_sent ((sck, bytes) ∷ calls) = bytes ++ all_sent calls

-- The bytes that the sender has taken and not sent yet.
abbrev pub taken : SenderAt → List ℕ
taken starting = []
taken testing = []
taken going_to_wait = []
taken asleep = []
taken (sending bytes) = bytes

-- What is sent, what is to be sent next, and what waits in the ring.
abbrev pub stream : Threads → List ℕ
stream t = all_sent t.sent ++ (taken t.sender ++ contents t.send_buf)

-- The bytes given to `sendData`.
abbrev pub bytes_given : Label → List ℕ
bytes_given (gives bytes) = bytes
bytes_given leaves = []
bytes_given spurious = []
bytes_given quiet = []

unfoldable pub all_given : List Label → List ℕ
all_given [] = []
all_given (l ∷ labels) = bytes_given l ++ all_given labels

all_sent-append :
    (calls others : List (ℤ × List ℕ))
    → all_sent (calls ++ others) ≡ all_sent calls ++ all_sent others
unfolding all_sent
all_sent-append [] others = refl
all_sent-append ((sck, bytes) ∷ calls) others =
    ap (λ l. bytes ++ l) (all_sent-append calls others)
    ∙ sym (append_assoc bytes (all_sent calls) (all_sent others))

append-Sublist : (p : List ℕ) {l m : List ℕ} → Sublist l m → Sublist (p ++ l) (p ++ m)
append-Sublist [] h = h
append-Sublist (x ∷ p) h = Sublist.cons-cons x (append-Sublist p h)

Sublistᴰ-append : {l m : List ℕ} (s : List ℕ) → Sublistᴰ l m → Sublistᴰ (l ++ s) (m ++ s)
Sublistᴰ-append s Sublistᴰ.slnil = Sublistᴰ.refl s
Sublistᴰ-append s (Sublistᴰ.cons h) = Sublistᴰ.cons (Sublistᴰ-append s h)
Sublistᴰ-append s (Sublistᴰ.cons-cons e h) = Sublistᴰ.cons-cons e (Sublistᴰ-append s h)

Sublist-append : {l m : List ℕ} (s : List ℕ) → Sublist l m → Sublist (l ++ s) (m ++ s)
Sublist-append s h = ∥∥₁_map h (Sublistᴰ-append s)

drop-Sublist : (n : ℕ) (l : List ℕ) → Sublist (drop n l) l
drop-Sublist zero l = Sublist.refl l
drop-Sublist (suc n) [] = Sublist.refl []
drop-Sublist (suc n) (x ∷ l) = Sublist.cons x (drop-Sublist n l)

-- A step that gives nothing moves bytes along.
same-Sublist : {l m : List ℕ} → l ≡ m → Sublist l (m ++ [])
same-Sublist {l} e = subst (Sublist l) (e ∙ sym (append-nil _)) (Sublist.refl l)

module _ (t : Threads) where
  -- The same bytes are taken.
  taken-Sublist :
      (at : SenderAt)
      → taken at ≡ taken t.sender
      → Sublist (all_sent t.sent ++ (taken at ++ contents t.send_buf)) (stream t ++ [])
  taken-Sublist at e = same-Sublist (ap (λ l. all_sent t.sent ++ (l ++ contents t.send_buf)) e)

  taken-wake : (at : SenderAt) → taken (wake at) ≡ taken at
  taken-wake starting = refl
  taken-wake testing = refl
  taken-wake going_to_wait = refl
  taken-wake asleep = refl
  taken-wake (sending bytes) = refl

  give-Sublist :
      (bytes : List ℕ)
      → IsValid t.send_buf
      → Sublist
          (all_sent t.sent ++ (taken t.sender ++ contents (put t.send_buf bytes)))
          (stream t ++ bytes)
  give-Sublist bytes v =
      let held = contents t.send_buf in
      let lost = length held + length bytes - t.send_buf.size in
      rw
        (
          (put-Put bytes v).holds,
          append_assoc (all_sent t.sent) (taken t.sender ++ held) bytes,
          append_assoc (taken t.sender) held bytes,
        )
        (append-Sublist (all_sent t.sent)
          (append-Sublist (taken t.sender) (drop-Sublist lost (held ++ bytes))))

  take-stream :
      IsValid t.send_buf
      → t.sender ≡ testing
      → all_sent t.sent ++ ((get t.send_buf 512).2 ++ contents (get t.send_buf 512).0) ≡ stream t
  take-stream v at =
      let g = get-Get 512 v in
      ap (λ out. all_sent t.sent ++ (out ++ contents (get t.send_buf 512).0)) g.copied
      ∙ ap (λ left. all_sent t.sent ++ (take 512 (contents t.send_buf) ++ left)) g.left
      ∙ ap (λ l. all_sent t.sent ++ l) (take-append-drop 512 (contents t.send_buf))
      ∙ ap (λ l. all_sent t.sent ++ (taken l ++ contents t.send_buf)) (sym at)

  send-stream :
      (bytes : List ℕ)
      → t.sender ≡ sending bytes
      → all_sent (t.sent ++ (t.sck_client, bytes) ∷ []) ++ contents t.send_buf ≡ stream t
  unfolding all_sent
  send-stream bytes at =
      ap (λ l. l ++ contents t.send_buf) (all_sent-append t.sent ((t.sck_client, bytes) ∷ []))
      ∙ ap (λ l. (all_sent t.sent ++ l) ++ contents t.send_buf) (append-nil bytes)
      ∙ append_assoc (all_sent t.sent) bytes (contents t.send_buf)
      ∙ ap (λ l. all_sent t.sent ++ (taken l ++ contents t.send_buf)) (sym at)

step-Sublist :
    {l : Label} {t t' : Threads}
    → Step l t t'
    → IsValid t.send_buf
    → Sublist (stream t') (stream t ++ bytes_given l)
step-Sublist {t} (give bytes free) v = give-Sublist t bytes v
step-Sublist {t} (given n some) v = taken-Sublist t (wake t.sender) (taken-wake t t.sender)
step-Sublist {t} (accept sck at) v = same-Sublist refl
step-Sublist {t} (refuse at bad) v = same-Sublist refl
step-Sublist {t} (connect at good) v = same-Sublist refl
step-Sublist {t} (serve at) v = taken-Sublist t (wake t.sender) (taken-wake t t.sender)
step-Sublist {t} (receive at) v = same-Sublist refl
step-Sublist {t} (disconnect at) v = same-Sublist refl
step-Sublist {t} (leave at) v = taken-Sublist t (wake t.sender) (taken-wake t t.sender)
step-Sublist {t} (lock at) v = taken-Sublist t testing (ap taken (sym at))
step-Sublist {t} (test at waits) v = taken-Sublist t going_to_wait (ap taken (sym at))
step-Sublist {t} (wait at) v = taken-Sublist t asleep (ap taken (sym at))
step-Sublist {t} (wake_up at) v = taken-Sublist t starting (ap taken (sym at))
step-Sublist {t} (taking at goes) v = same-Sublist (take-stream t v at)
step-Sublist {t} (send bytes at) v = same-Sublist (send-stream t bytes at)

-- However the threads interleave, statement by statement, with a valid ring: the bytes sent to any
-- client, then those that the sender has taken, then those in the ring, are those that there were
-- before, followed by those given to `sendData`, in that order, with none repeated; some may be
-- missing.
pub Run-Sublist :
    {labels : List Label} {t t' : Threads}
    → Run labels t t'
    → IsValid t.send_buf
    → Sublist (stream t') (stream t ++ all_given labels)
unfolding all_given
Run-Sublist here v = same-Sublist refl
Run-Sublist {labels} {t} (next {l = l} {labels = rest} s run) v =
    rw (← append_assoc (stream t) (bytes_given l) (all_given rest)) (
      Sublist.trans (Run-Sublist run (step-IsValid s v))
        (Sublist-append (all_given rest) (step-Sublist s v)))
