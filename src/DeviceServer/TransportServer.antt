-- ===== src/DeviceServer/TransportServer.antt =====
-- src/lab3/src/transport_server.c: the thread that answers the requests of a socket.
pub mod Closing
pub mod Memory
pub mod Requests
pub mod Sending
pub mod Thread
mod Tests
use ie0417_dev_b.Base.{
  ℕ, zero, suc, ◌+◌, ◌-◌, ◌*◌, Bool, true, false, Option, none, some, List, [], ◌∷◌, ◌++◌, ℤ, pos,
  is_nonzero, CString, bytes, length, take, drop, leb, ltb, if◌then◌else◌,
}
use ie0417_dev_b.Process.{
  World, M, Ptr, pure, fault, ◌>>=◌, ◌>>◌, if_null, malloc, free, str, print, text,
  request_received, thread_started, thread_finished,
}
use ie0417_dev_b.Uthash.{Uthash}
use ie0417_dev_b.Files.{junk_bytes}
use ie0417_dev_b.SensorCommands.Command.{c_string}
use ie0417_dev_b.DeviceServer.Command.{CjsonText, Response, printed, block}
use ie0417_dev_b.DeviceServer.CommandManager.{
  CommandHashEntry, CommandManager, command_manager_create, command_manager_command_add,
  command_manager_command_remove, command_manager_cmd_send, command_manager_destroy,
}

-- The bytes of a frame; NULL where the wait for it is interrupted.
abbrev pub Frame : Type 0
Frame = List ℕ

-- `cmd_name` of `struct cmd_request_hdr`, and the whole packed structure.
abbrev pub cmd_name_size : ℕ
cmd_name_size = 100

abbrev pub header_size : ℕ
header_size = 104

-- `memcpy` copies this many bytes of the payload, whatever its size.
abbrev pub copied : ℕ
copied = 94

-- The first number that is too large for an `int`.
abbrev pub int_limit : ℕ
int_limit = 2147483648

-- `payload_size`, a little-endian number of four bytes.
abbrev pub le32 : List ℕ → Option ℕ
le32 (a ∷ b ∷ c ∷ d ∷ r) = some (a + 256 * b + 65536 * c + 16777216 * d)
le32 _ = none

-- `struct cmd_request_hdr` at the start of a frame. The name may be without a terminator.
pub record CmdRequestHdr : Type 0 where
  pub cmd_name : Option CString
  pub payload_size : ℕ

unfoldable pub header_of : Frame → Option CmdRequestHdr
unfolding c_string
header_of frame = elim (le32 (drop cmd_name_size frame)) [
  | none ↦ none
  | some size ↦
      some (record { cmd_name = c_string (take cmd_name_size frame); payload_size = size })
]

-- What a block of `size` bytes holds once `s` is written to its start.
abbrev pub block_bytes : List ℕ → ℕ → (ℕ → ℕ) → List ℕ
block_bytes s size junk = s ++ junk_bytes junk (length s) (size - length s)

-- The end of one round of the loop: on with the next request after a reply, or `goto out`.
pub data Round : Type 0 where
  replied : Frame → Round
  leaves : Round

-- `*response` after the command, as `strlen` reads it: what cJSON printed with its terminator, or the
-- block of the request buffer, of `strlen(json)` bytes that nothing has written.
unfoldable pub response_text : (json : CString) → Response → M CString
unfolding str c_string junk_bytes
response_text json (printed none) w = none
response_text json (printed (some t)) w = str (c_string (t ++ 0 ∷ [])) w
response_text json (block none) w = none
response_text json (block (some a)) w = str (c_string (junk_bytes (w.junk a) 0 (length json))) w

-- What a request has when its reply is to be sent: the blocks of `payload` and `response`, and the
-- bytes of the block `rep->resp_buff`, which has room for the text of the reply and no more.
pub record PreparedReply : Type 0 where
  pub payload : ℕ
  pub response : ℕ
  pub resp_buff : List ℕ

-- The reply is read as a string to be printed and sent; with the answer of `zframe_send`.
unfoldable pub send_reply : PreparedReply → (send_ret : ℤ) → M Round
unfolding free str print c_string
send_reply reply send_ret = do
  sent ← str (c_string reply.resp_buff)
  print (text (bytes "\n Sending back... \n " ++ (sent ++ bytes " \n")))
  if is_nonzero send_ret
      then pure leaves
      else (do free reply.payload; free reply.response; pure (replied sent))

-- The payload is copied to a block of `payload_size` bytes, which is read as a string.
unfoldable pub copy_payload : Frame → ℕ → (buff : ℕ) → M CString
unfolding str c_string junk_bytes
copy_payload frame size buff w =
    if ltb (length frame) size
    then none
    else if leb int_limit (length frame - size)
    then none
    else if ltb size copied
    then none
    else str
        (c_string (block_bytes (take copied (drop (length frame - size) frame)) size (w.junk buff)))
        w

module _ (H : Uthash CommandHashEntry) (J : CjsonText) where
  open H use {Table}

  -- From the request to the copy of its reply.
  unfoldable pub prepare_reply :
      CommandManager Table → Frame → (payload rep : Option ℕ) → M PreparedReply
  unfolding malloc str print header_of copy_payload response_text command_manager_cmd_send
  prepare_reply m frame payload rep = if_null (header_of frame) fault λ header.
      if_null payload fault λ pl. do
        b ← malloc
        if_null b fault λ buff. do
          json ← copy_payload frame header.payload_size buff
          name ← str header.cmd_name
          print (request_received name header.payload_size json)
          r ← malloc
          if_null r fault λ response. do
            answer ← command_manager_cmd_send H J m name json none
            t ← response_text json answer
            rb ← malloc
            if_null rep fault λ p.
                if_null rb fault
                  λ a. pure (record { payload = pl; response = response; resp_buff = t })

  unfoldable pub answer_request :
      CommandManager Table → Frame → (payload rep : Option ℕ) → (send_ret : ℤ) → M Round
  unfolding prepare_reply send_reply
  answer_request m frame payload rep send_ret = do
    reply ← prepare_reply m frame payload rep
    send_reply reply send_ret

  unfoldable pub serve : CommandManager Table → Option Frame → (send_ret : ℤ) → M Round
  unfolding malloc print answer_request
  serve m received send_ret = do
    print (text (bytes "Awaiting Request...\n"))
    payload ← malloc
    header ← malloc
    rep ← malloc
    if_null received (pure leaves) λ frame. answer_request m frame payload rep send_ret

  -- The loop, over what `zframe_recv` and `zframe_send` answer until `zsys_interrupted` is set; the
  -- result is the replies.
  unfoldable pub serve_all : CommandManager Table → List (Option Frame × ℤ) → M (List Frame)
  unfolding serve
  serve_all m [] = pure []
  serve_all m ((received, send_ret) ∷ l) = do
    round ← serve m received send_ret
    let rest = serve_all m l
    elim round [ leaves ↦ pure [] | replied f ↦ do fs ← rest; pure (f ∷ fs) ]

  unfoldable pub msg_server_fn : (tid : ℕ) → List (Option Frame × ℤ) → M (List Frame)
  unfolding print command_manager_create command_manager_command_add serve_all
      command_manager_command_remove command_manager_destroy
  msg_server_fn tid requests = do
    print (thread_started tid)
    created ← command_manager_create H (bytes "message")
    if_null created fault λ m. do
      m' ← command_manager_command_add H m (bytes "ping_pong")
      replies ← serve_all m' requests
      print (thread_finished tid)
      m'' ← command_manager_command_remove H m' (bytes "message")
      m3 ← command_manager_command_remove H m'' (bytes "ping_pong")
      command_manager_destroy H m3
      pure replies

  -- With the answer of `pthread_create`: the main thread sleeps until the interrupt and joins the
  -- server, whose requests are `requests`.
  unfoldable pub server_exec :
      (created : ℤ) (tid : ℕ) → List (Option Frame × ℤ) → M (ℤ × List Frame)
  unfolding msg_server_fn
  server_exec created tid requests =
      if is_nonzero created
      then pure (created, [])
      else (do replies ← msg_server_fn tid requests; pure (pos 0, replies))
