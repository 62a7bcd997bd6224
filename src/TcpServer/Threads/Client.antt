-- ===== src/TcpServer/Threads/Client.antt =====
-- What holds of the flag and of the client's socket, however the threads interleave.
use camera_controller.Base.{
  ℕ, ◌≡◌, ◌≢◌, refl, sym, ap, ◌∙◌, Bool, true, false, List, [], ◌∷◌, ◌++◌, append-nil, append_assoc,
  All, All-snoc,
}
use camera_controller.Base.Int.{ℤ}
use camera_controller.CircularBuffer.{CircularBuffer}
use camera_controller.TcpServer.Threads.{
  ServerAt, accepting, accepted, connected, receiving, disconnected, starting, Threads, started,
  Label, leaves, Step, give, given, accept, refuse, connect, serve, receive, disconnect, leave,
  lock, test, wait, wake_up, take, send, Run, here, next,
}

-- Whether the server has a client, by where its thread stands.
abbrev pub has_client : ServerAt → Bool
has_client accepting = false
has_client accepted = false
has_client connected = true
has_client receiving = true
has_client disconnected = false

-- The flag is up to date.
abbrev pub InSync : Threads → Type 0
InSync t = t.client_connected ≡ has_client t.server

pub step-InSync : {l : Label} {t t' : Threads} → Step l t t' → InSync t → InSync t'
step-InSync (give bytes free) sync = sync
step-InSync (given n some) sync = sync
step-InSync (accept sck at) sync = sync ∙ ap has_client at
step-InSync (refuse at bad) sync = sync ∙ ap has_client at
step-InSync (connect at good) sync = refl
step-InSync (serve at) sync = sync ∙ ap has_client at
step-InSync (receive at) sync = sync
step-InSync (disconnect at) sync = refl
step-InSync (leave at) sync = sync ∙ ap has_client at
step-InSync (lock at) sync = sync
step-InSync (test at waits) sync = sync
step-InSync (wait at) sync = sync
step-InSync (wake_up at) sync = sync
step-InSync (take at goes) sync = sync
step-InSync (send bytes at) sync = sync

-- The client `sck` is still there, and what was sent since `before` went to it.
record Served (sck : ℤ) (before : List (ℤ × List ℕ)) (t : Threads) : Type 0 where
  sync : InSync t
  flag : t.client_connected ≡ true
  same : t.sck_client ≡ sck
  since : List (ℤ × List ℕ)
  split : t.sent ≡ before ++ since
  to_client : All (λ call. call.0 ≡ sck) since

same-Served :
    {sck : ℤ} {before : List (ℤ × List ℕ)} {t t' : Threads}
    → Served sck before t
    → InSync t'
    → t'.client_connected ≡ t.client_connected
    → t'.sck_client ≡ t.sck_client
    → t'.sent ≡ t.sent
    → Served sck before t'
same-Served served sync flag same sent = record {
  sync = sync;
  flag = flag ∙ served.flag;
  same = same ∙ served.same;
  since = served.since;
  split = sent ∙ served.split;
  to_client = served.to_client;
}

-- A step that the server makes only without a client.
idle-absurd :
    {sck : ℤ} {before : List (ℤ × List ℕ)} {t : Threads}
    → Served sck before t
    → has_client t.server ≡ false
    → ⊥
idle-absurd served idle = let flag = served.flag in let sync = served.sync in cc

send-Served :
    {sck : ℤ} {before : List (ℤ × List ℕ)} {t : Threads} (bytes : List ℕ)
    → Served sck before t
    → Served sck before
        (record t { sender = starting; sent = t.sent ++ (t.sck_client, bytes) ∷ [] })
send-Served {before} {t} bytes served = record {
  sync = served.sync;
  flag = served.flag;
  same = served.same;
  since = served.since ++ (t.sck_client, bytes) ∷ [];
  split =
      ap (λ l. l ++ (t.sck_client, bytes) ∷ []) served.split
      ∙ append_assoc before served.since ((t.sck_client, bytes) ∷ []);
  to_client = All-snoc _ served.since served.to_client served.same;
}

step-Served :
    {sck : ℤ} {before : List (ℤ × List ℕ)} {l : Label} {t t' : Threads}
    → Step l t t'
    → l ≢ leaves
    → Served sck before t
    → Served sck before t'
step-Served (give bytes free) stays served = same-Served served served.sync refl refl refl
step-Served (given n some) stays served = same-Served served served.sync refl refl refl
step-Served (accept sck at) stays served = absurd (idle-absurd served (ap has_client at))
step-Served (refuse at bad) stays served = absurd (idle-absurd served (ap has_client at))
step-Served (connect at good) stays served = absurd (idle-absurd served (ap has_client at))
step-Served {t} (serve at) stays served =
    same-Served served (step-InSync (serve {t = t} at) served.sync) refl refl refl
step-Served (receive at) stays served = served
step-Served (disconnect at) stays served = absurd (stays refl)
step-Served (leave at) stays served = absurd (idle-absurd served (ap has_client at))
step-Served (lock at) stays served = same-Served served served.sync refl refl refl
step-Served (test at waits) stays served = same-Served served served.sync refl refl refl
step-Served (wait at) stays served = same-Served served served.sync refl refl refl
step-Served (wake_up at) stays served = same-Served served served.sync refl refl refl
step-Served (take at goes) stays served = same-Served served served.sync refl refl refl
step-Served (send bytes at) stays served = send-Served bytes served

-- No step of these is the end of a connection.
abbrev pub Stays : List Label → Type 0
Stays = All (λ l. l ≢ leaves)

Run-Served :
    {sck : ℤ} {before : List (ℤ × List ℕ)} {labels : List Label} {t t' : Threads}
    → Run labels t t'
    → Stays labels
    → Served sck before t
    → Served sck before t'
Run-Served here stays served = served
Run-Served (next s run) (stay, stays) served = Run-Served run stays (step-Served s stay served)

pub Run-InSync : {labels : List Label} {t t' : Threads} → Run labels t t' → InSync t → InSync t'
Run-InSync here sync = sync
Run-InSync (next s run) sync = Run-InSync run (step-InSync s sync)

Served-start : {t : Threads} → InSync t → t.client_connected ≡ true → Served t.sck_client t.sent t
Served-start {t} sync flag = record {
  sync = sync;
  flag = flag;
  same = refl;
  since = [];
  split = sym (append-nil t.sent);
  to_client = tt;
}

pub step-flag :
    {l : Label} {t t' : Threads}
    → Step l t t'
    → l ≢ leaves
    → InSync t
    → t.client_connected ≡ true
    → t'.client_connected ≡ true
step-flag s stay sync flag = (step-Served s stay (Served-start sync flag)).flag

-- Whatever the threads have done since `start` and do then, statement by statement: from a moment
-- at which the flag is set until the client leaves, the flag stays set, the socket is the same, and
-- each call of `send` is for that socket.
pub Run-to_client :
    {labels later : List Label} {send_buf : CircularBuffer} {t t' : Threads}
    → Run labels (started send_buf) t
    → t.client_connected ≡ true
    → Run later t t'
    → Stays later
    → (t'.client_connected ≡ true)
      × (t'.sck_client ≡ t.sck_client)
      × ((since : List (ℤ × List ℕ)) × (t'.sent ≡ t.sent ++ since)
          × All (λ call. call.0 ≡ t.sck_client) since)
Run-to_client {t} run flag later stays =
    let served = Run-Served later stays (Served-start (Run-InSync run refl) flag) in
    (served.flag, served.same, (served.since, served.split, served.to_client))
