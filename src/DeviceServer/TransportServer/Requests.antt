-- ===== src/DeviceServer/TransportServer/Requests.antt =====
-- src/lab3/src/transport_server.c: what becomes of one request.
use ie0417_dev_b.Base.{
  ℕ, ◌+◌, ◌-◌, ◌≤◌, ◌<◌, ◌≡◌, ◌≢◌, refl, true, Option, none, some, [], ◌∷◌, ◌++◌, ℤ, CString,
  length, take, drop, arith, All, ◌⊎◌, inl, inr,
}
use ie0417_dev_b.Process.{
  World, malloc, and_then-none, if_null-none, str, print, request_received, mem-append,
}
use ie0417_dev_b.Files.{junk_bytes}
use ie0417_dev_b.Uthash.{Uthash, has_key}
use ie0417_dev_b.SensorCommands.Command.{c_string}
use ie0417_dev_b.DeviceServer.Command.{CjsonText, printed}
use ie0417_dev_b.DeviceServer.CommandManager.{CommandHashEntry, CommandManager}
use ie0417_dev_b.DeviceServer.CommandManager.Add.{fn_for}
use ie0417_dev_b.DeviceServer.CommandManager.Send.{answer, with_one, cmd_send-answers}
use ie0417_dev_b.DeviceServer.CommandManager.Table.{IsWellFormed}
use ie0417_dev_b.DeviceServer.TransportServer.{
  Frame, copied, int_limit, CmdRequestHdr, header_of, response_text, copy_payload, prepare_reply,
  answer_request, serve,
}
use ie0417_dev_b.DeviceServer.TransportServer.Memory.{
  NoOom, c_string-append, c_string-end, IsWellFormed-live,
}
use ie0417_dev_b.DeviceServer.TransportServer.Sending.{answer-faults, serve-faults}

-- A request that names a command, with a payload of `size` bytes inside the frame; the 94 bytes that
-- are copied hold the string `json` with its terminator.
pub record IsRequest (frame : Frame) (name : CString) (size : ℕ) (json : CString) : Type 0 where
  pub header : header_of frame ≡ some (record { cmd_name = some name; payload_size = size })
  pub long_enough : copied ≤ size
  pub inside : size ≤ length frame
  pub offset_fits : length frame - size < int_limit
  pub ends : c_string (take copied (drop (length frame - size) frame)) ≡ some json

copy-request :
    (frame : Frame) (name : CString) (size : ℕ) (json : CString) (b : ℕ) (w : World)
    → IsRequest frame name size json
    → copy_payload frame size b w ≡ some (json, w)
unfolding copy_payload str
copy-request frame name size json b w q =
    let s = take copied (drop (length frame - size) frame) in
    let whole =
      c_string-append s (junk_bytes (w.junk b) (length s) (size - length s)) json q.ends in
    ground (arith, whole, q.long_enough, q.inside, q.offset_fits)

response_text-printed :
    (json t : CString) (w : World)
    → All (λ c. c ≢ 0) t
    → response_text json (printed (some t)) w ≡ some (t, w)
unfolding response_text str
response_text-printed json t w p = rw (c_string-end t p) refl

-- The world after a request is copied and printed, and after its reply is prepared: four blocks more.
abbrev requested : World → (name : CString) → (size : ℕ) → (json : CString) → World
requested w name size json = record w {
  next = w.next + 1 + 1;
  live = (w.next + 1) ∷ w.next ∷ w.live;
  out = w.out ++ request_received name size json ∷ [];
}

abbrev pub prepared : World → (name : CString) → (size : ℕ) → (json : CString) → World
prepared w name size json = record w {
  next = w.next + 1 + 1 + 1 + 1;
  live = (w.next + 1 + 1 + 1) ∷ (w.next + 1 + 1) ∷ (w.next + 1) ∷ w.next ∷ w.live;
  out = w.out ++ request_received name size json ∷ [];
}

module _ (H : Uthash CommandHashEntry) (J : CjsonText) where
  open H use {Table, find, items}

  prepare-run :
      (w : World) (m : CommandManager Table) (frame : Frame) (name : CString) (size : ℕ)
      (json reply : CString) (pl rep : ℕ)
      → NoOom w
      → IsWellFormed H w m
      → IsRequest frame name size json
      → has_key name (items m.cmd_ht) ≡ true
      → answer H J (fn_for name) json (some (w.next + 1 + 1)) ≡ printed (some reply)
      → All (λ c. c ≢ 0) reply
      → prepare_reply H J m frame (some pl) (some rep) w
        ≡ some (
          record { payload = pl; response = w.next + 1; resp_buff = reply },
          prepared w name size json,
        )
  unfolding prepare_reply str print
  prepare-run w m frame name size json reply pl rep c h q k r t =
      let n = w.next in
      let w2 = requested w name size json in
      let h2 : IsWellFormed H w2 m =
        IsWellFormed-live H w w2 m (λ a e. mem-append a ((n + 1) ∷ n ∷ []) w.live e) h in
      rw
        (
          q.header,
          c n,
          copy-request frame name size json n _ q,
          c (n + 1),
          cmd_send-answers H J w2 m name json (c (n + 1 + 1)) h2.live_self h2.table,
          k,
          r,
          response_text-printed json reply (with_one w2) t,
          c (n + 1 + 1 + 1),
        )
        refl

  copy-short :
      (frame : Frame) (size b : ℕ) (w : World)
      → (size < copied) ⊎ (length frame < size)
      → copy_payload frame size b w ≡ none
  unfolding copy_payload
  copy-short frame size b w (inl h) = ground (arith, h)
  copy-short frame size b w (inr h) = ground (arith, h)

  prepare-short :
      (m : CommandManager Table) (frame : Frame) (header : CmdRequestHdr) (payload rep : Option ℕ)
      (w : World)
      → header_of frame ≡ some header
      → (header.payload_size < copied) ⊎ (length frame < header.payload_size)
      → prepare_reply H J m frame payload rep w ≡ none
  unfolding prepare_reply
  prepare-short m frame header none rep w e h = rw e refl
  prepare-short m frame header (some pl) rep w e h = rw e (
      and_then-none (malloc w) _
        λ b w'. if_null-none b _ w' λ a. rw (copy-short frame header.payload_size a w' h) refl)

  -- A request whose header gives a payload size below 94, or above the size of the frame, makes the
  -- server fault, and already before its reply is prepared, whatever the command, the memory and
  -- the answer of the socket are.
  pub serve-overruns :
      (w : World) (m : CommandManager Table) (frame : Frame) (header : CmdRequestHdr)
      (payload rep : Option ℕ) (send_ret : ℤ)
      → header_of frame ≡ some header
      → (header.payload_size < copied) ⊎ (length frame < header.payload_size)
      → (prepare_reply H J m frame payload rep w ≡ none)
        × (serve H J m (some frame) send_ret w ≡ none)
  serve-overruns w m frame header payload rep send_ret e h =
      (prepare-short m frame header payload rep w e h, serve-faults H J w m frame send_ret)

  -- With memory for every allocation, a request of a known command, with a payload of at least 94
  -- bytes inside the frame whose first 94 bytes hold a terminated string, and for which the command
  -- prints an answer, is printed, and the block of its reply is filled with exactly the text of
  -- that answer; four more blocks are allocated and the manager stays well-formed. Sending the
  -- reply then faults, since the block has no room for the terminator of the string that it is read
  -- as.
  pub reply-prepared :
      (w : World) (m : CommandManager Table) (frame : Frame) (name : CString) (size : ℕ)
      (json reply : CString) (pl rep : ℕ) (send_ret : ℤ)
      → NoOom w
      → IsWellFormed H w m
      → IsRequest frame name size json
      → has_key name (items m.cmd_ht) ≡ true
      → answer H J (fn_for name) json (some (w.next + 1 + 1)) ≡ printed (some reply)
      → All (λ c. c ≢ 0) reply
      → (prepare_reply H J m frame (some pl) (some rep) w
          ≡ some (
            record { payload = pl; response = w.next + 1; resp_buff = reply },
            prepared w name size json,
          ))
        × IsWellFormed H (prepared w name size json) m
        × (answer_request H J m frame (some pl) (some rep) send_ret w ≡ none)
  reply-prepared w m frame name size json reply pl rep send_ret c h q k r t =
      let n = w.next in
      (
        prepare-run w m frame name size json reply pl rep c h q k r t,
        IsWellFormed-live H w (prepared w name size json) m
            (λ a e. mem-append a ((n + 1 + 1 + 1) ∷ (n + 1 + 1) ∷ (n + 1) ∷ n ∷ []) w.live e) h,
        answer-faults H J m frame (some pl) (some rep) send_ret w,
      )
