-- ===== src/SensorCmds/Reports.antt =====
-- What executing the read commands of sensors prints.
use mathlib.Core.Path.{ap₂}
use ie0417_dev_b.Base.{
  ℕ, ◌≡◌, refl, sym, ap, ◌∙◌, subst, true, false, inl, inr, some, List, [], ◌∷◌, ◌++◌, ℤ, pos,
  CString, append-nil, append_assoc, All, arith, is_some, bytes_eq, ◌||◌,
}
use ie0417_dev_b.Process.{World, M, Ptr, Output, mem, pure, ◌>>◌, read_command}
use ie0417_dev_b.Uthash.{Uthash, Entry, has_key}
use ie0417_dev_b.Cjson.{Cjson}
use ie0417_dev_b.SensorCommands.Types.{Sensor, Command, SsrReadCmdData, ssr_read_cmd_data}
use ie0417_dev_b.SensorCommands.Command.{command_execute, ssr_read_cmd_exec}
use ie0417_dev_b.SensorCommands.Sensor.Lifecycle.{sensor_read-level, sensor_read-temp}
use ie0417_dev_b.SensorCommands.Factory.{SensorConstructor}
use ie0417_dev_b.SensorCommands.Manager.{SensorHashEntry, Manager}
use ie0417_dev_b.SensorCommands.Manager.Load.{Kind, temp, lev, type_of, sensor_of, Config, NoOom}
use ie0417_dev_b.SensorCommands.Manager.Lookup
use ie0417_dev_b.SensorCommands.Manager.Lookup.{Listed, LiveAt}
use ie0417_dev_b.SensorCommands.Manager.ReadCommand.{reading, value_of, unit_of, report}
use ie0417_dev_b.SensorCommands.Manager.AnyMemory.{HoldsAll}
use ie0417_dev_b.SensorCmds.Talk.{Request}
use ie0417_dev_b.SensorCmds.Reads.{IsReadOf, ends, skips, sends}
use ie0417_dev_b.SensorCmds.AllReads.{IsReady, SendsAll}
use ie0417_dev_b.SensorCmds.Executes.{sent_commands}

-- The calls of `command_execute` in the loop of `cmd_runner_consumer`.
unfoldable pub run_commands : List (Ptr Command) → M (Unit {0})
unfolding command_execute
run_commands [] = pure tt
run_commands (c ∷ l) = do command_execute (some c); run_commands l

-- The reports of the names that are listed, in their order, each of a sensor of the name.
pub data Reports (l : Config) : List CString → List Output → Type 0 where
  no_more : Reports l [] []
  passes :
      {name : CString} {names : List CString} {o : List Output}
      → Lookup.names name l ≡ false
      → Reports l names o
      → Reports l (name ∷ names) o
  reports :
      {name : CString} {names : List CString} {o : List Output} (k : Kind)
      → Listed k name l
      → Reports l names o
      → Reports l (name ∷ names) (report k name ++ o)

-- The blocks of a read command.
abbrev pub IsLiveCommand : World → Ptr Command → Type 0
IsLiveCommand w c =
    (mem c.addr w.live ≡ true)
    × ((d : Ptr SsrReadCmdData)
        → c.val.priv ≡ some (ssr_read_cmd_data d)
        → mem d.addr w.live ≡ true)

-- Executing the read command with its data in block `b`.
abbrev read_of : ℕ → Ptr Sensor → M ℤ
read_of b s =
    ssr_read_cmd_exec (some (ssr_read_cmd_data (record { addr = b; val = record { ssr = s } })))

exec-report :
    (w : World) (k : Kind) (name : CString) (a b : ℕ)
    → mem b w.live ≡ true
    → LiveAt w a
    → read_of b (sensor_of k a name) w ≡ some (pos 0, record w { out = w.out ++ report k name })
unfolding ssr_read_cmd_exec
exec-report w temp name a b m l = ground (
  arith,
  sensor_read-temp w a name (l.0, l.1),
  append_assoc w.out (reading temp name ∷ [])
      (read_command (type_of temp) name (value_of temp) (unit_of temp) ∷ []),
)
exec-report w lev name a b m l = ground (
  arith,
  sensor_read-level w a name (l.0, l.1),
  append_assoc w.out (reading lev name ∷ [])
      (read_command (type_of lev) name (value_of lev) (unit_of lev) ∷ []),
)

-- An entry of the table belongs to a listed sensor of its name.
pub record Found (w : World) (l : Config) (name : CString) (q : Ptr SensorHashEntry) : Type 0 where
  pub kind : Kind
  pub block : ℕ
  pub listed : Listed kind name l
  pub is : q.val.ssr ≡ sensor_of kind block name
  pub live_entry : mem q.addr w.live ≡ true
  pub live : LiveAt w block

pub Entry-Found :
    (w : World) (l : Config) (es : List (CString × Ptr SensorHashEntry))
    → HoldsAll w l es
    → (name : CString) (q : Ptr SensorHashEntry) → Entry name q es
    → Found w l name q
Entry-Found w [] [] h name q e = absurd e
Entry-Found w [] (x ∷ es) h name q e = absurd h
Entry-Found w (x ∷ l) [] h name q e = absurd e
Entry-Found w ((k, n) ∷ l) (x ∷ es) (h, hs) name q (inl (i, j)) = record {
  kind = k;
  block = h.block;
  listed = inl (refl, sym h.key ∙ i);
  is =
      ap (λ (p : Ptr SensorHashEntry). p.val.ssr) (sym j)
      ∙ h.sensor
      ∙ ap (sensor_of k h.block) (sym h.key ∙ i);
  live_entry = rw (← j) h.live_entry;
  live = h.live;
}
Entry-Found w ((k, n) ∷ l) (x ∷ es) (h, hs) name q (inr e) =
    let f = Entry-Found w l es hs name q e in
    record {
      kind = f.kind;
      block = f.block;
      listed = inr f.listed;
      is = f.is;
      live_entry = f.live_entry;
      live = f.live;
    }

pub has_key-names :
    (w : World) (l : Config) (es : List (CString × Ptr SensorHashEntry)) (key : CString)
    → HoldsAll w l es
    → has_key key es ≡ Lookup.names key l
has_key-names w [] [] key h = refl
has_key-names w [] (x ∷ es) key h = absurd h
has_key-names w (x ∷ l) [] key h = absurd h
has_key-names w ((k, n) ∷ l) (x ∷ es) key (h, hs) =
    ap₂ (λ n b. bytes_eq n key || b) h.key (has_key-names w l es key hs)

module _ (J : Cjson) (F : Uthash SensorConstructor) (H : Uthash SensorHashEntry) where
  open H use {Table, items, find-Entry, is_some-find}

  execute-report :
      (w : World) (l : Config) (t : Table) (name : CString) (c : Ptr Command) (out : List Output)
      → HoldsAll w l (items t)
      → IsReadOf J F H t name c
      → IsLiveCommand w c
      → (k : Kind) × Listed k name l
        × (command_execute (some c) (record w { out = out })
            ≡ some (pos 0, record w { out = out ++ report k name }))
  unfolding command_execute
  execute-report w l t name c out h r (live, live_data) =
      let f = Entry-Found w l (items t) h name r.entry (find-Entry t name r.entry r.found) in
      (
        f.kind,
        f.listed,
        rw (live, r.execute, r.priv)
            (ap (λ s. read_of r.read_data.addr s (record w { out = out })) (r.sensor ∙ f.is)
              ∙ exec-report (record w { out = out }) f.kind name f.block r.read_data.addr
                  (live_data r.read_data r.priv) f.live),
      )

  -- A manager that holds the sensors of a configuration is ready, and stays so.
  pub HoldsAll-IsReady :
      (w : World) (l : Config) (smgr : Ptr (Manager J F H))
      → NoOom w
      → mem smgr.addr w.live ≡ true
      → HoldsAll w l (items smgr.val.sensor_ht)
      → IsReady J F H smgr w
  HoldsAll-IsReady w l smgr m self h = record {
    memory = m;
    live_self = self;
    live_entries = λ name q e.
        (Entry-Found w l (items smgr.val.sensor_ht) h name q
          (find-Entry smgr.val.sensor_ht name q e)).live_entry;
  }

  -- Executing the commands that are sent of all names prints the reports.
  pub run-Reports :
      (w : World) (l : Config) (smgr : Ptr (Manager J F H)) (names : List CString)
      (rs : List Request) (out : List Output)
      → HoldsAll w l (items smgr.val.sensor_ht)
      → SendsAll J F H smgr names rs
      → All (IsLiveCommand w) (sent_commands rs)
      → (o : List Output) × (run_commands (sent_commands rs) (record w { out = out })
          ≡ some (tt, record w { out = out ++ o }))
        × Reports l names o
  unfolding run_commands
  run-Reports w l smgr names rs out h (ends e) a =
      ([], rw (append-nil out) refl, subst (λ n. Reports l n []) (sym e) no_more)
  run-Reports w l smgr (name ∷ names) rs out h (skips f s) a =
      let t = smgr.val.sensor_ht in
      let (o, run, r) = run-Reports w l smgr names rs out h s a in
      let not_listed =
        sym (is_some-find t name ∙ has_key-names w l (items t) name h) ∙ ap is_some f in
      (o, run, passes not_listed r)
  run-Reports w l smgr (name ∷ names) (r ∷ rs) out h (sends {c = c} is s) (a, live) =
      let (k, listed, exec) = execute-report w l smgr.val.sensor_ht name c out h is a in
      let (o, run, r) = run-Reports w l smgr names rs (out ++ report k name) h s live in
      (
        report k name ++ o,
        rw (exec, run)
            (ap (λ x. some (tt, record w { out = x })) (append_assoc out (report k name) o)),
        reports k listed r,
      )
