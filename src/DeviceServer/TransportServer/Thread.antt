-- ===== src/DeviceServer/TransportServer/Thread.antt =====
-- src/lab3/src/transport_server.c: the server thread from its start to its end.
use ie0417_dev_b.Base.{Bool, Option, ℤ, bytes, ℕ, ◌+◌, false, is_some, List, [], ◌∷◌, ◌++◌}
use ie0417_dev_b.Process.{text, World}
use ie0417_dev_b.Uthash.{Uthash}
use ie0417_dev_b.DeviceServer.Command.{message}
use ie0417_dev_b.DeviceServer.CommandManager.{CommandHashEntry, CommandManager}
use ie0417_dev_b.DeviceServer.CommandManager.Add.{with_two}
use ie0417_dev_b.DeviceServer.CommandManager.Table.{first_entry, with_three}
use ie0417_dev_b.DeviceServer.TransportServer.{Frame}
use ie0417_dev_b.DeviceServer.TransportServer.Closing.{server_table}

-- What `zframe_recv` and `zframe_send` answer, round by round, up to the interrupt.
abbrev pub Answers : Type 0
Answers = List (Option Frame × ℤ)

-- A request arrives before the interrupt.
abbrev pub brings_request : Answers → Bool
brings_request [] = false
brings_request ((received, send_ret) ∷ l) = is_some received

-- How many blocks the thread allocates for a round that it leaves by the interrupt.
abbrev pub wait_blocks : Answers → ℕ
wait_blocks [] = 0
wait_blocks (x ∷ l) = 3

module _ (H : Uthash CommandHashEntry) where
  open H use {Table, null, find, add_keyptr, items-add, items-null, is_some-find}

  abbrev manager : ℕ → CommandManager Table
  manager a = record { addr = a; cmd_ht = server_table H a }

  -- The world after the manager and its two commands are made.
  abbrev opened : World → World
  opened w = with_two (with_three H w)

  abbrev first_manager : ℕ → CommandManager Table
  first_manager a = record {
    addr = a;
    cmd_ht = add_keyptr null message (first_entry H (a + 1) message);
  }

  -- The world after a wait for a request.
  abbrev awaited : World → World
  awaited w = record w {
    next = w.next + 1 + 1 + 1;
    live = (w.next + 1 + 1) ∷ (w.next + 1) ∷ w.next ∷ w.live;
    out = w.out ++ text (bytes "Awaiting Request...\n") ∷ [];
  }
