-- ===== src/DeviceServer/TransportServer/Tests.antt =====
-- A server that is asked for its message.
use ie0417_dev_b.Base.{
  ℕ, ◌≡◌, ◌≢◌, refl, false, All, none, some, [], ◌∷◌, ◌++◌, pos, CString, bytes, arith, replicate,
  inl,
}
use ie0417_dev_b.Process.{World}
use ie0417_dev_b.Uthash.{Uthash, association_list}
use ie0417_dev_b.SensorCommands.Command.{strncpy, c_string}
use ie0417_dev_b.DeviceServer.Command.{CjsonText, message, exec_func_msg}
use ie0417_dev_b.DeviceServer.CommandManager.{CommandHashEntry, CommandManager}
use ie0417_dev_b.DeviceServer.CommandManager.Table.{IsWellFormed, first_entry}
use ie0417_dev_b.DeviceServer.TransportServer.{
  Frame, cmd_name_size, header_of, CmdRequestHdr, prepare_reply, answer_request, serve,
}
use ie0417_dev_b.DeviceServer.TransportServer.Requests.{
  IsRequest, prepared, reply-prepared, serve-overruns,
}
use ie0417_dev_b.DeviceServer.TransportServer.Thread.{Answers}

abbrev H : Uthash CommandHashEntry
H = association_list CommandHashEntry

-- JSON values that are texts already.
abbrev J : CjsonText
J = record {
  Json = CString;
  create_object = [];
  create_string = λ s. s;
  add_item_to_object = λ o k v. o ++ (k ++ v);
  parse = λ s. some s;
  print = λ s. some s;
}

abbrev world : World
world = record {
  next = 4;
  live = 3 ∷ 2 ∷ 1 ∷ [];
  oom = λ n. false;
  junk = λ n i. 7;
  out = [];
  open_files = 0;
}

abbrev manager : CommandManager H.Table
manager = record { addr = 1; cmd_ht = (message, first_entry H 2 message) ∷ [] }

ready : IsWellFormed H world manager
ready = record {
  live_self = refl;
  table = (record { live_entry = refl; live_command = refl; name = refl; execute = refl }, tt);
}

-- A request of a name, of the given payload size.
abbrev request : CString → ℕ → Frame
request name size = strncpy name cmd_name_size ++ size ∷ 0 ∷ 0 ∷ 0 ∷ 104 ∷ 105 ∷ replicate 92 0

is_request : IsRequest (request message 94) message 94 (bytes "hi")
unfolding header_of c_string strncpy
is_request = record {
  header = refl;
  long_enough = omega arith;
  inside = omega arith;
  offset_fits = omega arith;
  ends = refl;
}

abbrev reply : CString
reply = bytes "messageEsto fue un mensaje"

proper : All (λ c. c ≢ 0) reply
proper = ground arith

reply-prepared_example :
    (prepare_reply H J manager (request message 94) (some 9) (some 8) world
      ≡ some (
        record { payload = 9; response = 5; resp_buff = reply },
        prepared world message 94 (bytes "hi"),
      ))
    × IsWellFormed H (prepared world message 94 (bytes "hi")) manager
    × (answer_request H J manager (request message 94) (some 9) (some 8) (pos 0) world ≡ none)
unfolding exec_func_msg
reply-prepared_example =
    reply-prepared H J world manager (request message 94) message 94 (bytes "hi") reply 9 8 (pos 0)
      (λ n. refl) ready is_request refl refl proper

abbrev short_header : CmdRequestHdr
short_header = record { cmd_name = some message; payload_size = 93 }

serve-overruns_example :
    (prepare_reply H J manager (request message 93) (some 9) (some 8) world ≡ none)
    × (serve H J manager (some (request message 93)) (pos 0) world ≡ none)
unfolding header_of c_string strncpy
serve-overruns_example =
    serve-overruns H J world manager (request message 93) short_header (some 9) (some 8) (pos 0)
      refl (inl (omega arith))

-- The wait for the first request is interrupted.
abbrev interrupted : Answers
interrupted = (none, pos 0) ∷ []
