-- ===== src/SensorCmds/Reads.antt =====
-- src/lab4/c/sensor_commands/tools/sensor_cmds/main.c: the read commands that the second experiment
-- sends.
use ie0417_dev_b.Base.{
  ◌+◌, ◌≡◌, refl, ◌==◌, Bool-cases, Option-cases, inl, inr, Option, none, some, List, [], ◌∷◌, ◌++◌,
  length, subst, sym, CString, is_nonzero,
}
use ie0417_dev_b.Process.{World, Run, Ptr, mem, malloc, deref, str}
use ie0417_dev_b.Utlist.{Utlist}
use ie0417_dev_b.Uthash.{Uthash}
use ie0417_dev_b.Cjson.{Cjson}
use ie0417_dev_b.SensorCommands.Types.{
  Command, SsrReadCmdData, ssr_read_cmd_data, ssr_read_cmd_exec_fn,
}
use ie0417_dev_b.SensorCommands.Command.{command_create}
use ie0417_dev_b.SensorCommands.Factory.{SensorConstructor}
use ie0417_dev_b.SensorCommands.CommandQueue.{CmdQNode, send_malloc}
use ie0417_dev_b.SensorCommands.Manager.{
  SensorHashEntry, Manager, sensor_manager_sensor_get, sensor_manager_read_cmd_create,
}
use ie0417_dev_b.SensorCmds.{Runner, after_create, send_read_commands}
use ie0417_dev_b.SensorCmds.Talk.{
  Request, queue_send, T, done, return, and_ask, if_null, Reply, play, and_ask_assoc,
  and_ask-return,
}

-- Of the command that a run returns, if it returns one.
abbrev Yields : (Ptr Command → Type 0) → Run (Option (Ptr Command)) → Type 0
Yields P none = Unit
Yields P (some (none, w)) = Unit
Yields P (some (some c, w)) = P c

-- What goes on without a request.
abbrev pub IsSilent : {A B : Type 0} → (A → T B) → Type 0
IsSilent {A} k = (a : A) (w : World) (l : List Reply) → (play (k a w) l).0 ≡ []

module _ (J : Cjson) (F : Uthash SensorConstructor) (H : Uthash SensorHashEntry) where
  open H use {Table, find}

  -- A command that reads the sensor that the table has for a name.
  pub record IsReadOf (t : Table) (name : CString) (c : Ptr Command) : Type 0 where
    pub read_data : Ptr SsrReadCmdData
    pub entry : Ptr SensorHashEntry
    pub execute : c.val.execute ≡ some ssr_read_cmd_exec_fn
    pub priv : c.val.priv ≡ some (ssr_read_cmd_data read_data)
    pub found : find t name ≡ some entry
    pub sensor : read_data.val.ssr ≡ entry.val.ssr

  -- Requests that send read commands of the names, in their order. Names with `P` may be left out, and
  -- the rest of the names where it has `Q`.
  pub data SendsBut (P : CString → Type 0) (Q : List CString → Type 0) (t : Table)
      : List CString → List Request → Type 0 where
    ends : {names : List CString} → Q names → SendsBut P Q t names []
    skips :
        {name : CString} {names : List CString} {rs : List Request}
        → P name
        → SendsBut P Q t names rs
        → SendsBut P Q t (name ∷ names) rs
    sends :
        {name : CString} {names : List CString} {rs : List Request} {c : Ptr Command}
        → IsReadOf t name c
        → SendsBut P Q t names rs
        → SendsBut P Q t (name ∷ names) (queue_send (send_malloc c) ∷ rs)

  -- Of some of the names.
  abbrev pub Sends : Table → List CString → List Request → Type 0
  Sends = SendsBut (λ name. Unit) (λ names. Unit)

  create-IsReadOf :
      (smgr : Ptr (Manager J F H)) (name : CString) (w : World)
      → Yields
          (IsReadOf smgr.val.sensor_ht name)
          (sensor_manager_read_cmd_create J F H smgr (some name) w)
  unfolding sensor_manager_read_cmd_create sensor_manager_sensor_get command_create malloc deref str
  create-IsReadOf smgr name w =
      let live = w.next ∷ w.live in
      elim (Bool-cases (w.oom w.next)) [
        | inl o ↦ rw o tt
        | inr o ↦ elim (Bool-cases (mem smgr.addr live)) [
          | inr d ↦ rw (o, d) tt
          | inl d ↦ elim (Option-cases (find smgr.val.sensor_ht name)) [
            | inl f ↦ rw (o, d, f) tt
            | inr (q, f) ↦ elim (Bool-cases (mem q.addr live)) [
              | inr g ↦ rw (o, d, f, g) tt
              | inl g ↦ elim (Bool-cases (w.oom (w.next + 1))) [
                | inl h ↦ rw (o, d, f, g, h) tt
                | inr h ↦
                    rw (o, d, f, g, h)
                      (record {
                        read_data = record { addr = w.next; val = record { ssr = q.val.ssr } };
                        entry = q;
                        execute = refl;
                        priv = refl;
                        found = f;
                        sensor = refl;
                      })
              ]
            ]
          ]
        ]
      ]

  module _ (L : Utlist (Ptr (CmdQNode (Ptr Command)))) (r : Runner L)
      (smgr : Ptr (Manager J F H)) where
    abbrev table : Table
    table = smgr.val.sensor_ht

    -- The commands with one more entry, as the loop goes on.
    abbrev pub with_entry :
        {B : Type 0}
        → Option (Ptr Command)
        → (Option (List (Option (Ptr Command))) → T B)
        → Option (List (Option (Ptr Command)))
        → T B
    with_entry c k cmds w = and_ask (if_null cmds (return none) (λ cs. return (some (c ∷ cs))) w) k

    pub with_entry-IsSilent :
        {B : Type 0} (c : Option (Ptr Command)) (k : Option (List (Option (Ptr Command))) → T B)
        → IsSilent k
        → IsSilent (with_entry c k)
    with_entry-IsSilent c k s none w l = s none w l
    with_entry-IsSilent c k s (some cs) w l = s (some (c ∷ cs)) w l

    -- The requests of a round whose command is `o`, and of what follows.
    round-Sends :
        {B : Type 0} (name : CString) (names : List CString)
        (rest : T (Option (List (Option (Ptr Command)))))
        (k : Option (List (Option (Ptr Command))) → T B)
        → IsSilent k
        → ((k : Option (List (Option (Ptr Command))) → T B)
            → IsSilent k
            → (w : World) (l : List Reply) → Sends table names (play (and_ask (rest w) k) l).0)
        → (o : Run (Option (Ptr Command))) → Yields (IsReadOf table name) o
        → (l : List Reply)
        → Sends table
            (name ∷ names)
            (play (and_ask (and_ask (done o) (λ cmd. after_create L r name cmd rest)) k) l).0
    unfolding after_create play
    round-Sends name names rest k s h none y l = ends tt
    round-Sends name names rest k s h (some (none, w)) y l = skips tt (
        subst (λ t. Sends table names (play t l).0) (sym (and_ask_assoc (rest _) _ k))
          (h (with_entry none k) (with_entry-IsSilent none k s) _ l))
    round-Sends name names rest k s h (some (some c, w)) y [] = sends y (ends tt)
    round-Sends name names rest k s h (some (some c, w)) y ((z, o) ∷ l) =
        elim (Bool-cases (is_nonzero z)) [
          | inl b ↦ sends y (rw (b, s none (record w { out = w.out ++ o }) l) (ends tt))
          | inr b ↦ sends y (
              rw b (
                subst (λ t. Sends table names (play t l).0) (sym (and_ask_assoc (rest _) _ k))
                  (h (with_entry (some c) k) (with_entry-IsSilent (some c) k s) _ l)))
        ]

    loop-Sends :
        {B : Type 0} (names : List CString) (k : Option (List (Option (Ptr Command))) → T B)
        → IsSilent k
        → (w : World) (l : List Reply)
        → Sends table names (play (and_ask (send_read_commands L J F H r smgr names w) k) l).0
    unfolding send_read_commands play
    loop-Sends [] k s w l = subst (Sends table []) (sym (s (some []) w l)) (ends tt)
    loop-Sends (name ∷ names) k s w l = elim (Bool-cases (length name == 0)) [
      | inl b ↦ rw (b, s _ w l) (ends tt)
      | inr b ↦ rw b (
          round-Sends name names (send_read_commands L J F H r smgr names) k s (loop-Sends names)
            (sensor_manager_read_cmd_create J F H smgr (some name) w) (create-IsReadOf smgr name w)
            l)
    ]

    -- Whatever memory is granted and whatever is answered, what the first loop of
    -- `sensor_command_experiment` asks for is to send read commands for some of the names, in the
    -- order of the names, each with the sensor that the table of the manager has for its name.
    pub send_read_commands-Sends :
        (names : List CString) (w : World) (l : List Reply)
        → Sends table names (play (send_read_commands L J F H r smgr names w) l).0
    unfolding play
    send_read_commands-Sends names w l =
        subst (λ t. Sends table names (play t l).0)
          (and_ask-return (send_read_commands L J F H r smgr names w))
          (loop-Sends names return (λ a w l. refl) w l)
