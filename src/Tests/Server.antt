-- ===== src/Tests/Server.antt =====
-- Runs of the server's threads.
use camera_controller.Base.{ℕ, ◌≡◌, ◌≢◌, refl, true, List, [], ◌∷◌, ◌++◌, All, arith, memcpy, take}
use camera_controller.Base.Int.{ℤ, pos}
use camera_controller.CircularBuffer.{init, current_size, get, put, fetch, store, written}
use camera_controller.CircularBuffer.Contents.{IsValid, contents, init-IsValid}
use mathlib.Core.List.{Sublist}
use camera_controller.TcpServer.Threads.{
  connected, receiving, asleep, sending, wake, Threads, started, Label, gives, leaves, quiet, give,
  given, accept, connect, serve, lock, test, wait, take as taking, send, Run, here, next,
}
use camera_controller.TcpServer.Threads.Client.{Stays, Run-to_client}
use camera_controller.TcpServer.Threads.Wakeups.{by_server}
use camera_controller.TcpServer.Threads.Progress.{Sends, Run-Sends}
use camera_controller.TcpServer.Threads.Lost.{IsStuck, lost_wakeup, next_client}
use camera_controller.TcpServer.Threads.Order.{stream, all_given, Run-Sublist}

abbrev ring : Threads
ring = started (init 16)

ring-IsValid : IsValid (init 16)
ring-IsValid = (init-IsValid 16 (omega arith) (omega arith)).0

-- A client that has just been accepted, with a byte in the ring.
abbrev with_client : Threads
with_client = record ring {
  sck_client = pos 4;
  client_connected = true;
  send_buf = put (init 16) (7 ∷ []);
  server = connected;
}

abbrev client_labels : List Label
client_labels = gives (7 ∷ []) ∷ quiet ∷ quiet ∷ quiet ∷ []

client-Run : Run client_labels ring with_client
client-Run =
    next (give (7 ∷ []) refl)
      (next (given 0 refl) (next (accept (pos 4) refl) (next (connect refl refl) here)))

-- `fn_server` has notified.
abbrev roused : Threads
roused = record with_client { server = receiving; sender = wake with_client.sender }

-- The byte is sent, and the sender goes to sleep.
abbrev served : Threads
served = record with_client {
  send_buf = (get (put (init 16) (7 ∷ [])) 512).0;
  server = receiving;
  sender = asleep;
  sent = (pos 4, 7 ∷ []) ∷ [];
}

abbrev served_labels : List Label
served_labels = quiet ∷ quiet ∷ quiet ∷ quiet ∷ quiet ∷ quiet ∷ []

served-Run :
    Run served_labels
      (record with_client { server = receiving; sender = wake with_client.sender })
      served
unfolding put store written init get fetch current_size memcpy
served-Run = next (lock refl) (
    next (taking refl refl)
      (next (send _ refl) (next (lock refl) (next (test refl refl) (next (wait refl) here)))))

-- No step is the end of the connection.
served-Stays : Stays served_labels
served-Stays =
    (quiet-stays, (quiet-stays, (quiet-stays, (quiet-stays, (quiet-stays, (quiet-stays, tt))))))
  where
    quiet-stays : quiet ≢ leaves
    quiet-stays e = cc

Run-to_client_example :
    (served.client_connected ≡ true)
    × (served.sck_client ≡ with_client.sck_client)
    × ((since : List (ℤ × List ℕ)) × (served.sent ≡ with_client.sent ++ since)
        × All (λ call. call.0 ≡ with_client.sck_client) since)
Run-to_client_example =
    Run-to_client client-Run refl (next (serve refl) served-Run) ((λ e. cc), served-Stays)

-- The sender has the byte of the ring to send.
Run-Sends_example : Sends 4 (pos 4) [] (take 512 (contents roused.send_buf)) roused
unfolding put store written init
Run-Sends_example = Run-Sends ring-IsValid client-Run (by_server refl (λ e. cc)) here tt (λ e. cc)

lost_wakeup_example :
    (labels : List Label) × (t : Threads) × Run labels (started (init 16)) t
    × (t.sck_client ≡ pos 4)
    × IsStuck (7 ∷ 8 ∷ []) t
unfolding init
lost_wakeup_example = lost_wakeup (init 16) (7 ∷ 8 ∷ []) 4 ring-IsValid refl (omega arith)

next_client_example :
    (labels later : List Label) × (t t' : Threads) × Run labels (started (init 16)) t
    × (t.sck_client ≡ pos 4)
    × (t.sender ≡ sending (7 ∷ 8 ∷ []))
    × Run later t t'
    × (t'.sent ≡ (pos 5, 7 ∷ 8 ∷ []) ∷ [])
unfolding init
next_client_example =
    next_client (init 16) (7 ∷ 8 ∷ []) 4 5 ring-IsValid refl (omega arith) (omega arith)
      (omega arith)

Run-Sublist_example : Sublist (stream with_client) (stream ring ++ all_given client_labels)
Run-Sublist_example = Run-Sublist client-Run ring-IsValid
