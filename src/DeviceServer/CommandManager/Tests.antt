-- ===== src/DeviceServer/CommandManager/Tests.antt =====
-- The manager that the server makes, with the commands "message" and "ping_pong".
use ie0417_dev_b.Base.{
  ℕ, List, ◌+◌, ◌≡◌, refl, false, ◌⊎◌, none, some, [], ◌∷◌, ◌++◌, ◌==◌, length, CString, bytes,
  if◌then◌else◌,
}
use ie0417_dev_b.Process.{World, Ptr, remove}
use ie0417_dev_b.Uthash.{Uthash, association_list, has_key, Entry, erase_entry}
use ie0417_dev_b.DeviceServer.Command.{CjsonText, message, ping_pong}
use ie0417_dev_b.DeviceServer.CommandManager.{
  CommandHashEntry, CommandManager, command_manager_create, command_manager_command_add,
  command_manager_command_remove, command_manager_cmd_send, command_manager_destroy,
}
use ie0417_dev_b.DeviceServer.CommandManager.Add.{
  fn_for, command_at, count_key, command_add-other_name,
}
use ie0417_dev_b.DeviceServer.CommandManager.AnyMemory.{added_or_not, command_add-any_memory}
use ie0417_dev_b.DeviceServer.CommandManager.Leaks.{
  Change, adds, removes, change_all, create_change_destroy-leaves,
}
use ie0417_dev_b.DeviceServer.CommandManager.Owned.{Kept}
use ie0417_dev_b.DeviceServer.CommandManager.Send.{
  IsTable, with_one, answer, cmd_send-answers, command_remove-items,
}
use ie0417_dev_b.DeviceServer.CommandManager.Table.{IsWellFormed, command_add-IsWellFormed}

abbrev H : Uthash CommandHashEntry
H = association_list CommandHashEntry

-- JSON values that are texts already.
abbrev J : CjsonText
J = record {
  Json = CString;
  create_object = [];
  create_string = λ s. s;
  add_item_to_object = λ o k v. o ++ (k ++ v);
  parse = λ s. some s;
  print = λ s. some s;
}

abbrev world : World
world = record { next = 1; live = []; oom = λ n. false; junk = λ n i. 0; out = []; open_files = 0 }

-- The manager after `command_manager_create("message")`.
abbrev first : Ptr CommandHashEntry
first = record { addr = 3; val = record { cmd = command_at 2 message (bytes "Atribute msg") } }

abbrev manager : CommandManager H.Table
manager = record { addr = 1; cmd_ht = (message, first) ∷ [] }

abbrev created : World
created = record {
  next = 4;
  live = 3 ∷ 2 ∷ 1 ∷ [];
  oom = λ n. false;
  junk = λ n i. 0;
  out = [];
  open_files = 0;
}

test_create : command_manager_create H message world ≡ some (some manager, created)
unfolding command_manager_create
test_create = refl

complete : IsTable created manager.cmd_ht
complete = (record { live_entry = refl; live_command = refl; name = refl; execute = refl }, tt)

-- The same with the fifth allocation refused: the entry of the command that is added.
abbrev scarce : World
scarce = record created { oom = λ n. n == 5 }

command_add-any_memory_example : command_manager_command_add H manager ping_pong scarce ≡ (
    if has_key ping_pong (H.items manager.cmd_ht)
    then some (manager, scarce)
    else added_or_not H manager ping_pong scarce)
command_add-any_memory_example = command_add-any_memory H scarce manager ping_pong refl

-- A name twice, of which the manager makes one command, that goes and comes again.
abbrev changes : List Change
changes =
    adds ping_pong
    ∷ adds ping_pong
    ∷ removes ping_pong
    ∷ removes (bytes "reboot")
    ∷ adds ping_pong
    ∷ []

create_change_destroy-leaves_example :
    (m : CommandManager H.Table) × (w1 : World) × (m' : CommandManager H.Table) × (n : ℕ)
    × (w2 : World) × (w3 : World) × (command_manager_create H message world ≡ some (some m, w1))
    × (change_all H m changes w1 ≡ some ((m', n), w2))
    × (command_manager_destroy H m' w2 ≡ some (tt, w3))
    × Kept world.next world w3
    × (length w3.live ≡ length world.live + (1 + n))
create_change_destroy-leaves_example =
    create_change_destroy-leaves H world message changes (λ k. refl)

command_add-other_name_example :
    (m' : CommandManager H.Table) × (w' : World) × (command_manager_command_add H manager
        (bytes "reboot")
        created
      ≡ some (m', w'))
    × (count_key ping_pong (H.items m'.cmd_ht) ≡ count_key ping_pong (H.items manager.cmd_ht) + 1)
    × (has_key (bytes "reboot") (H.items m'.cmd_ht) ≡ false)
command_add-other_name_example =
    command_add-other_name H created manager (bytes "reboot") refl refl refl refl refl refl

cmd_send-answers_example :
    command_manager_cmd_send H J manager message (bytes "{}") none created ≡ (
      if has_key message (H.items manager.cmd_ht)
      then some (answer H J (fn_for message) (bytes "{}") (some 4), with_one created)
      else none)
cmd_send-answers_example =
    cmd_send-answers H J created manager message (bytes "{}") refl refl complete

command_remove-items_example :
    ((has_key message (H.items manager.cmd_ht) ≡ false)
      × (command_manager_command_remove H manager message created ≡ some (manager, created)))
    ⊎ ((q : Ptr CommandHashEntry) × (t : H.Table) × Entry message q (H.items manager.cmd_ht)
        × (H.items t ≡ erase_entry q.addr (H.items manager.cmd_ht))
        × (command_manager_command_remove H manager message created
            ≡ some (
              record manager { cmd_ht = t },
              record created { live = remove q.addr created.live },
            )))
command_remove-items_example = command_remove-items H created manager message refl complete

ready : IsWellFormed H created manager
ready = record { live_self = refl; table = complete }

command_add-IsWellFormed_example :
    (m' : CommandManager H.Table) × (w' : World) × (command_manager_command_add H manager
        (bytes "reboot")
        created
      ≡ some (m', w'))
    × IsWellFormed H w' m'
command_add-IsWellFormed_example =
    command_add-IsWellFormed H created manager (bytes "reboot") refl refl ready
