-- ===== src/SensorCmds/AllReads.antt =====
-- src/lab4/c/sensor_commands/tools/sensor_cmds/main.c: the read commands that the second experiment
-- sends where memory and every request are granted.
use ie0417_dev_b.Base.{
  ◌+◌, ◌≤◌, ◌<◌, ◌≡◌, refl, ap, ◌∙◌, Option-cases, inl, inr, true, Option, none, some, List, [],
  ◌∷◌, CString, arith,
}
use ie0417_dev_b.Process.{World, Run, Ptr, mem}
use ie0417_dev_b.Process.Growth.{Grows, Grows-trans, Grows-granted}
use ie0417_dev_b.Uthash.{Uthash}
use ie0417_dev_b.Cjson.{Cjson}
use ie0417_dev_b.SensorCommands.Types.{Command}
use ie0417_dev_b.SensorCommands.Command.{command_create}
use ie0417_dev_b.SensorCommands.Factory.{SensorConstructor}
use ie0417_dev_b.SensorCommands.Manager.{
  SensorHashEntry, Manager, sensor_manager_sensor_get, sensor_manager_read_cmd_create,
}
use ie0417_dev_b.SensorCommands.Manager.Load.{NoOom}
use ie0417_dev_b.SensorCmds.Talk.{Request}
use ie0417_dev_b.SensorCmds.Reads.{IsReadOf, SendsBut}

module _ (J : Cjson) (F : Uthash SensorConstructor) (H : Uthash SensorHashEntry)
    (smgr : Ptr (Manager J F H)) where
  open H use {Table, find}

  abbrev pub table : Table
  table = smgr.val.sensor_ht

  -- There is memory, and the blocks of the manager and of its entries are allocated.
  pub record IsReady (w : World) : Type 0 where
    pub memory : NoOom w
    pub live_self : mem smgr.addr w.live ≡ true
    pub live_entries :
        (name : CString) (q : Ptr SensorHashEntry)
        → find table name ≡ some q
        → mem q.addr w.live ≡ true

  pub IsReady-grow : (w w' : World) → Grows w w' → IsReady w → IsReady w'
  IsReady-grow w w' g h = record {
    memory = λ n. ap (λ f. f n) g.oom ∙ h.memory n;
    live_self = g.live smgr.addr h.live_self;
    live_entries = λ name q e. g.live q.addr (h.live_entries name q e);
  }

  -- The read command of a name is made where the table has the name.
  pub data Makes (name : CString) (w : World) : Run (Option (Ptr Command)) → Type 0 where
    missing : {w' : World} → Grows w w' → find table name ≡ none → Makes name w (some (none, w'))
    makes :
        {w' : World} {c : Ptr Command}
        → Grows w w'
        → IsReadOf J F H table name c
        → w.next ≤ c.addr
        → c.addr < w'.next
        → mem c.addr w'.live ≡ true
        → Makes name w (some (some c, w'))

  pub create-Makes :
      (name : CString) (w : World)
      → IsReady w
      → Makes name w (sensor_manager_read_cmd_create J F H smgr (some name) w)
  unfolding sensor_manager_read_cmd_create sensor_manager_sensor_get command_create
  create-Makes name w h =
      let w1 : World = record w { next = w.next + 1; live = w.next ∷ w.live } in
      let g1 = Grows-granted w w.out in
      let ready = IsReady-grow w w1 g1 h in
      elim (Option-cases (find table name)) [
        | inl f ↦ rw (h.memory w.next, ready.live_self, f) (missing g1 f)
        | inr (q, f) ↦
            rw
              (
                h.memory w.next,
                ready.live_self,
                f,
                ready.live_entries name q f,
                h.memory (w.next + 1),
              )
              (makes (Grows-trans g1 (Grows-granted w1 w.out))
                (record {
                  read_data = record { addr = w.next; val = record { ssr = q.val.ssr } };
                  entry = q;
                  execute = refl;
                  priv = refl;
                  found = f;
                  sensor = refl;
                })
                (omega arith) (omega arith) (ground arith))
      ]

  -- Every name that the table has is sent.
  abbrev pub SendsAll : List CString → List Request → Type 0
  SendsAll = SendsBut J F H (λ name. find table name ≡ none) (λ names. names ≡ []) table
