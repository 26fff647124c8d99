-- ===== src/DeviceServer/CommandManager.antt =====
-- src/lab3/src/command_manager.c: commands in a hash table by name.
pub mod Add
pub mod Leaks
pub mod Owned
pub mod AnyMemory
pub mod Send
pub mod Spacing
pub mod Table
mod Tests
use ie0417_dev_b.Base.{
  ℕ, zero, suc, Option, none, some, is_some, List, [], ◌∷◌, ℤ, pos, negsuc, is_nonzero, CString,
  bytes, bytes_eq, length, ◌==◌, if◌then◌else◌,
}
use ie0417_dev_b.Process.{M, Ptr, pure, fault, ◌>>=◌, ◌>>◌, if_null, malloc, free, deref, load}
use ie0417_dev_b.Uthash.{Uthash}
use ie0417_dev_b.DeviceServer.Command.{
  CjsonText, CommandInfo, Response, message, message_command_create, ping_pong_command_create,
  command_execute,
}

pub record CommandHashEntry : Type 0 where
  pub cmd : Ptr CommandInfo

-- `struct CommandManager` is its block, and the table that the operations pass on.
pub record CommandManager (Table : Type 0) : Type 0 where
  pub addr : ℕ
  pub cmd_ht : Table

-- -ENOMEM, and the other failures.
abbrev pub minus_enomem : ℤ
minus_enomem = negsuc 11

abbrev pub minus_one : ℤ
minus_one = negsuc 0

-- `realloc(p, size)` of the GNU C library.
unfoldable pub realloc : Option ℕ → ℕ → M (Option ℕ)
unfolding malloc free
realloc none size = malloc
realloc (some a) zero = do free a; pure none
realloc (some a) (suc n) = do p ← malloc; if_null p (pure none) λ b. do free a; pure (some b)

-- Access to a field of the manager.
unfoldable pub access : ℕ → M (Unit {0})
unfolding deref
access a = deref (record { addr = a; val = tt })

-- The name decides between the two commands; any name but "message" means the second one.
unfoldable pub command_of : CString → CString → M (Option (Ptr CommandInfo))
unfolding message_command_create ping_pong_command_create
command_of name attributes =
    if bytes_eq name message
    then message_command_create (some attributes)
    else ping_pong_command_create (some attributes)

module _ (H : Uthash CommandHashEntry) where
  open H use {Table, null, add_keyptr, find, delete, items}

  -- `command` may be NULL, and its name is read once the entry is allocated.
  unfoldable pub command_ht_add : Table → Option (Ptr CommandInfo) → M (ℤ × Table)
  unfolding malloc load
  command_ht_add t command = do
    m ← malloc
    if_null m (pure (minus_enomem, t)) λ a. do
      cmd ← load command
      if_null command fault
          λ p. pure (pos 0, add_keyptr t cmd.name (record { addr = a; val = record { cmd = p } }))

  unfoldable pub command_ht_remove : Table → Ptr CommandInfo → M (ℤ × Table)
  unfolding deref free
  command_ht_remove t command = do
    cmd ← deref command
    if_null (find t cmd.name) (pure (minus_one, t))
        λ entry. do let t' = delete t entry; free entry.addr; pure (pos 0, t')

  -- HASH_ITER keeps the next entry in `tmp`, so it visits the entries that it began with.
  unfoldable pub command_ht_destroy_loop : List (CString × Ptr CommandHashEntry) → Table → M Table
  unfolding free
  command_ht_destroy_loop [] t = pure t
  command_ht_destroy_loop ((k, entry) ∷ l) t = do
    let t' = delete t entry
    free entry.addr
    command_ht_destroy_loop l t'

  unfoldable pub command_ht_destroy : Table → M Table
  unfolding command_ht_destroy_loop
  command_ht_destroy t = command_ht_destroy_loop (items t) t

  unfoldable pub command_manager_ht_create : CString → M (ℤ × Table)
  unfolding command_of command_ht_add
  command_manager_ht_create name = do
    command ←
        command_of name
          (if bytes_eq name message then bytes "Atribute msg" else bytes "Atribute ping_pong")
    if_null command (pure (minus_one, null)) λ c. command_ht_add null (some c)

  unfoldable pub command_manager_create : CString → M (Option (CommandManager Table))
  unfolding malloc command_manager_ht_create
  command_manager_create name = do
    m ← malloc
    if_null m (pure none) λ a. do
      (ret, t) ← command_manager_ht_create name
      if is_nonzero ret then pure none else pure (some (record { addr = a; cmd_ht = t }))

  -- The code goes on with a NULL command, and drops the result of `command_ht_add`.
  unfoldable pub command_manager_command_add :
      CommandManager Table → CString → M (CommandManager Table)
  unfolding access command_of command_ht_add
  command_manager_command_add m name = do
    access m.addr
    if is_some (find m.cmd_ht name) then pure m else (do
      command ← command_of name (bytes "This is a attribute")
      (ret, t) ← command_ht_add m.cmd_ht command
      pure (record { addr = m.addr; cmd_ht = t }))

  unfoldable pub command_manager_command_remove :
      CommandManager Table → CString → M (CommandManager Table)
  unfolding access deref command_ht_remove
  command_manager_command_remove m name = do
    access m.addr
    if_null (find m.cmd_ht name) (pure m) λ q. do
      entry ← deref q
      (ret, t) ← command_ht_remove m.cmd_ht entry.cmd
      pure (record { addr = m.addr; cmd_ht = t })

  -- The entry is used without a test for NULL.
  unfoldable pub command_manager_cmd_send :
      (J : CjsonText) → CommandManager Table → CString → CString → Option ℕ → M Response
  unfolding realloc access load command_execute
  command_manager_cmd_send J m name json return_buff = do
    buff ← realloc return_buff (length json)
    access m.addr
    entry ← load (find m.cmd_ht name)
    command_execute J entry.cmd json buff

  unfoldable pub command_manager_destroy : CommandManager Table → M (Unit {0})
  unfolding access command_ht_destroy free
  command_manager_destroy m = do access m.addr; command_ht_destroy m.cmd_ht; free m.addr
