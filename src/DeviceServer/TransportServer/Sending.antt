-- ===== src/DeviceServer/TransportServer/Sending.antt =====
-- src/lab3/src/transport_server.c: the reply of a request, which cannot be sent.
use ie0417_dev_b.Base.{
  ℕ, ◌≡◌, ◌≢◌, refl, Option, none, some, List, [], ◌∷◌, ◌++◌, ℤ, CString, bytes, length, All, inl,
  inr, Option-cases,
}
use ie0417_dev_b.Process.{World, pure, malloc, and_then-none, str, print, text, request_received}
use ie0417_dev_b.Process.Post.{Post, after-Post, and_then-Post, null-Post, Post-none}
use ie0417_dev_b.Files.{junk_bytes}
use ie0417_dev_b.Uthash.{Uthash}
use ie0417_dev_b.SensorCommands.Command.{c_string}
use ie0417_dev_b.DeviceServer.Command.{CjsonText, Response, printed, block}
use ie0417_dev_b.DeviceServer.CommandManager.{
  CommandHashEntry, CommandManager, command_manager_cmd_send,
}
use ie0417_dev_b.DeviceServer.TransportServer.{
  Frame, header_of, PreparedReply, response_text, copy_payload, send_reply, prepare_reply,
  answer_request, serve,
}
use ie0417_dev_b.DeviceServer.TransportServer.Memory.{c_string-full, c_string-proper}

-- No byte is zero, as in the text of a string.
abbrev Proper : CString → Type 0
Proper s = All (λ c. c ≢ 0) s

str-Proper : (s : List ℕ) (w : World) → Post Proper (str (c_string s) w)
unfolding str
str-Proper s w = elim (Option-cases (c_string s)) [
  | inl e ↦ rw e tt
  | inr (t, e) ↦ rw e (c_string-proper s t e)
]

response_text-Proper :
    (json : CString) (r : Response) (w : World) → Post Proper (response_text json r w)
unfolding response_text
response_text-Proper json (printed none) w = tt
response_text-Proper json (printed (some s)) w = str-Proper (s ++ 0 ∷ []) w
response_text-Proper json (block none) w = tt
response_text-Proper json (block (some a)) w = str-Proper (junk_bytes (w.junk a) 0 (length json)) w

-- A block that the text of the reply fills cannot be read as a string.
send-full :
    (x : PreparedReply) (send_ret : ℤ) (w : World)
    → All (λ c. c ≢ 0) x.resp_buff
    → send_reply x send_ret w ≡ none
unfolding send_reply str
send-full x send_ret w p = rw (c_string-full x.resp_buff p) refl

module _ (H : Uthash CommandHashEntry) (J : CjsonText) where
  open H use {Table}

  -- Whatever is prepared, the block is filled by its text, so that it cannot be sent.
  abbrev Full : PreparedReply → Type 0
  Full x = Proper x.resp_buff

  prepare-Full :
      (m : CommandManager Table) (frame : Frame) (payload rep : Option ℕ) (w : World)
      → Post Full (prepare_reply H J m frame payload rep w)
  unfolding prepare_reply
  prepare-Full m frame payload rep w = null-Post Full (header_of frame) _ w λ header w0.
      null-Post Full payload _ w0 λ pl w1. after-Post Full (malloc w1) _ λ b w2.
        null-Post Full b _ w2 λ buff w3.
          after-Post Full (copy_payload frame header.payload_size buff w3) _ λ json w4.
            after-Post Full (str header.cmd_name w4) _ λ name w5.
              after-Post Full (print (request_received name header.payload_size json) w5) _ λ x w6.
                after-Post Full (malloc w6) _ λ r w7. null-Post Full r _ w7 λ response w8.
                  after-Post Full (command_manager_cmd_send H J m name json none w8) _ λ a w9.
                    and_then-Post Full Proper (response_text json a w9) _
                      (response_text-Proper json a w9)
                      λ t w10 proper. after-Post Full (malloc w10) _ λ rb w11.
                        null-Post Full rep _ w11 λ p w12.
                          null-Post Full rb
                            (λ y.
                              pure (record { payload = pl; response = response; resp_buff = t }))
                            w12 λ y w13. proper

  pub answer-faults :
      (m : CommandManager Table) (frame : Frame) (payload rep : Option ℕ) (send_ret : ℤ) (w : World)
      → answer_request H J m frame payload rep send_ret w ≡ none
  unfolding answer_request
  answer-faults m frame payload rep send_ret w =
      Post-none Full (prepare_reply H J m frame payload rep w) _
        (prepare-Full m frame payload rep w) λ x w' full. send-full x send_ret w' full

  -- Every request makes the server fault, whatever it is and whatever memory is granted.
  pub serve-faults :
      (w : World) (m : CommandManager Table) (frame : Frame) (send_ret : ℤ)
      → serve H J m (some frame) send_ret w ≡ none
  unfolding serve
  serve-faults w m frame send_ret =
      and_then-none (print (text (bytes "Awaiting Request...\n")) w) _ λ x w1.
        and_then-none (malloc w1) _ λ payload w2. and_then-none (malloc w2) _ λ hdr w3.
          and_then-none (malloc w3) _ λ rep w4. answer-faults m frame payload rep send_ret w4
