-- ===== src/SensorCmds/Experiment.antt =====
-- src/lab4/c/sensor_commands/tools/sensor_cmds/main.c: the second experiment, from its start to its
-- end.
use ie0417_dev_b.Base.{
  ℕ, ◌+◌, ◌≤◌, ◌<◌, ◌≡◌, refl, sym, ap, ◌∙◌, true, false, is_some, Option, some, List, [], ◌∷◌,
  ◌++◌, length, CString, ℤ, pos, arith, bytes, subst, All, ◌==◌,
}
use ie0417_dev_b.Process.{World, Run, Ptr, Output, mem, text}
use ie0417_dev_b.Process.Frees.{Freeable, Freeable-append, Freeable-grow}
use ie0417_dev_b.Utlist.{Utlist}
use ie0417_dev_b.Uthash.{Uthash}
use ie0417_dev_b.Cjson.{Cjson}
use ie0417_dev_b.Files.{Files}
use ie0417_dev_b.SensorCommands.Types.{
  Command, SsrReadCmdData, ssr_read_cmd_data, ssr_read_cmd_exec_fn,
}
use ie0417_dev_b.SensorCommands.Command.{c_string}
use ie0417_dev_b.SensorCommands.Factory.{SensorConstructor}
use ie0417_dev_b.SensorCommands.CommandQueue.{CmdQNode, InitAnswers, send_malloc}
use ie0417_dev_b.SensorCommands.Manager.{
  SensorHashEntry, SensorManagerConfig, Manager, sensor_manager_create,
}
use ie0417_dev_b.SensorCommands.Manager.Create.{
  IsConfig, prepared, manager, sensor_manager_create-load,
}
use ie0417_dev_b.SensorCommands.Manager.Frees.{owns}
use ie0417_dev_b.SensorCommands.Manager.Owned.{
  owns-Freeable, owns-Below, added-oom, entries-HoldsAll,
}
use ie0417_dev_b.SensorCommands.Manager.Load.{Kind, sensor_of, Config, NoOom, entries_of, added}
use ie0417_dev_b.SensorCommands.Manager.Lookup
use ie0417_dev_b.SensorCommands.Manager.Lookup.{Listed, added-AllLive, mem-added}
use ie0417_dev_b.SensorCommands.Manager.AnyMemory.{HoldsAll}
use ie0417_dev_b.SensorCommands.CommandQueue.{all_up}
use ie0417_dev_b.SensorCommands.CommandQueue.Init.{fresh}
use ie0417_dev_b.SensorCommands.CommandRunner.Api.{runner_create-fresh}
use ie0417_dev_b.SensorCmds.{
  Runner, runner_cfg, sensor_names, create_manager, send_read_commands, sensor_command_experiment,
}
use ie0417_dev_b.SensorCmds.Basic.{IsGranted, granted, before, stop_signal}
use ie0417_dev_b.SensorCmds.ReadLoop.{Commands, cmd_blocks, Loop, send_read_commands-Loop}
use ie0417_dev_b.SensorCmds.Finish.{after_loop, after_loop-run}
use ie0417_dev_b.SensorCmds.Talk.{
  Request, create_thread, queue_send, join_thread, Talk, and_ask, play, finished,
}
use ie0417_dev_b.SensorCmds.Reads.{ends, skips, sends}
use ie0417_dev_b.SensorCmds.AllReads.{SendsAll}
use ie0417_dev_b.SensorCmds.Reports.{Entry-Found, has_key-names, HoldsAll-IsReady}

-- The requests send, for each of the names that is listed, in order, one command that reads a listed
-- sensor of the name, and nothing else.
pub data ReadsListed (l : Config) : List CString → List Request → Type 0 where
  all_read : ReadsListed l [] []
  unlisted :
      {name : CString} {names : List CString} {rs : List Request}
      → Lookup.names name l ≡ false
      → ReadsListed l names rs
      → ReadsListed l (name ∷ names) rs
  reads :
      {name : CString} {names : List CString} {rs : List Request} {c : Ptr Command} (k : Kind)
      (block : ℕ) (d : Ptr SsrReadCmdData)
      → Listed k name l
      → c.val.execute ≡ some ssr_read_cmd_exec_fn
      → c.val.priv ≡ some (ssr_read_cmd_data d)
      → d.val.ssr ≡ sensor_of k block name
      → ReadsListed l names rs
      → ReadsListed l (name ∷ names) (queue_send (send_malloc c) ∷ rs)

module _ (J : Cjson) (F : Uthash SensorConstructor) (H : Uthash SensorHashEntry) where
  open H use {items, is_some-find, find-Entry}

  SendsAll-ReadsListed :
      (smgr : Ptr (Manager J F H)) (w : World) (l : Config) (names : List CString)
      (rs : List Request)
      → HoldsAll w l (items smgr.val.sensor_ht)
      → SendsAll J F H smgr names rs
      → ReadsListed l names rs
  SendsAll-ReadsListed smgr w l names rs h (ends e) =
      subst (λ n. ReadsListed l n []) (sym e) all_read
  SendsAll-ReadsListed smgr w l (name ∷ names) rs h (skips f s) =
      let t = smgr.val.sensor_ht in
      unlisted (sym (is_some-find t name ∙ has_key-names w l (items t) name h) ∙ ap is_some f)
        (SendsAll-ReadsListed smgr w l names rs h s)
  SendsAll-ReadsListed smgr w l (name ∷ names) (r ∷ rs) h (sends i s) =
      let t = smgr.val.sensor_ht in
      let f = Entry-Found w l (items t) h name i.entry (find-Entry t name i.entry i.found) in
      reads f.kind f.block i.read_data f.listed i.execute i.priv (i.sensor ∙ f.is)
        (SendsAll-ReadsListed smgr w l names rs h s)

at_least_two :
    (left : List (List Output))
    → 2 ≤ length left
    → (o : List Output) × (o' : List Output) × (rest : List (List Output)) × (left ≡ o ∷ o' ∷ rest)
at_least_two [] h = absurd (omega (arith, h))
at_least_two (o ∷ []) h = absurd (omega (arith, h))
at_least_two (o ∷ o' ∷ rest) h = (o, o', rest, refl)

module _ (L : Utlist (Ptr (CmdQNode (Ptr Command)))) (J : Cjson) (F : Uthash SensorConstructor)
    (H : Uthash SensorHashEntry) (signal : ℕ) where
  create_manager-named :
      (files : Files) (cfg_filename : List ℕ) (f : CString) (w : World)
      (o : Run (Option (Ptr (Manager J F H))))
      → c_string cfg_filename ≡ some f
      → sensor_manager_create J F H files (record { cfg_filename = f }) w ≡ o
      → create_manager J F H files cfg_filename w ≡ o
  unfolding create_manager
  create_manager-named files cfg_filename f w o e run = rw (create_manager, e) run

  -- The end of the experiment behind its first loop.
  concluded :
      (r : Runner L) (smgr : Ptr (Manager J F H)) (names : List CString) (w : World)
      (outs : List (List Output)) (t : Talk (Option Commands))
      (loop : Loop J F H smgr ℤ names w outs t)
      → 2 ≤ length loop.left
      → Freeable (cmd_blocks loop.cmds ++ owns J F H smgr (r.addr ∷ [])) loop.last
      → (w' : World) × (play (and_ask t (after_loop L J F H r smgr signal)) (granted outs) ≡ (
        loop.requests ++ queue_send (send_malloc (stop_signal signal)) ∷ join_thread ∷ [],
        finished (some (pos 0, w')),
      ))
  concluded r smgr names w outs t loop long h =
      let (o, o', rest, two) = at_least_two loop.left long in
      let (w', run) = after_loop-run L J F H r smgr signal loop.cmds loop.last o o' rest h in
      (w', loop.run (after_loop L J F H r smgr signal) ∙ ap (before loop.requests) (rw two run))

  -- The experiment from its first loop on, with a manager that was loaded in the world `w`.
  from_loop :
      (r : Runner L) (w : World) (cfg : SensorManagerConfig) (j : J.Json) (l : Config) (t : H.Table)
      (outs : List (List Output))
      → H.items t ≡ entries_of (prepared w).next l
      → NoOom w
      → mem r.addr w.live ≡ true
      → r.addr < w.next
      → 7 ≤ length outs
      → let smgr = manager J F H w.next cfg j t in
        (rs : List Request) × (w' : World) × (play
            (and_ask
              (send_read_commands L J F H r smgr sensor_names (added (prepared w) l))
              (after_loop L J F H r smgr signal))
            (granted outs)
          ≡ (
            rs ++ queue_send (send_malloc (stop_signal signal)) ∷ join_thread ∷ [],
            finished (some (pos 0, w')),
          ))
        × ReadsListed l sensor_names rs
  from_loop r w cfg j l t outs e m live old long =
      let smgr = manager J F H w.next cfg j t in
      let w3 : World = added (prepared w) l in
      let rest = r.addr ∷ [] in
      let owned : Freeable (owns J F H smgr rest) w3 =
        owns-Freeable w rest ((live, tt), (tt, tt)) (old, tt) J F H cfg j l t e in
      let below = owns-Below J F H w rest cfg j l t (old, tt) e in
      let holds : HoldsAll w3 l (H.items t) =
        rw e (entries-HoldsAll w3 (prepared w).next l (added-AllLive (prepared w) l)) in
      let ready =
        HoldsAll-IsReady J F H w3 l smgr (λ n. ap (λ f. f n) (added-oom (prepared w) l) ∙ m n)
          (mem-added (prepared w) l w.next (ground arith)) holds in
      let not_empty : All (λ name. (length name == 0) ≡ false) sensor_names =
        (refl, (refl, (refl, (refl, (refl, tt))))) in
      let loop =
        send_read_commands-Loop J F H smgr ℤ L r sensor_names not_empty w3 ready outs
          (omega (arith, long)) in
      let all_owned : Freeable (cmd_blocks loop.cmds ++ owns J F H smgr rest) loop.last =
        Freeable-append w3.next (cmd_blocks loop.cmds) (owns J F H smgr rest) loop.last loop.blocks
          (Freeable-grow (owns J F H smgr rest) w3 loop.last loop.grows owned) loop.new.0 below in
      let (w', run) =
        concluded r smgr sensor_names w3 outs _ loop (omega (arith, loop.replies, long))
          all_owned in
      (
        loop.requests,
        w',
        run,
        SendsAll-ReadsListed J F H smgr w3 l sensor_names loop.requests holds loop.all,
      )

  -- With memory for every allocation, every request granted and a configuration file of known sensors,
  -- the second experiment comes to its end and returns 0; it asks for the consumer thread, for each
  -- of its names that the file lists a read command of that name, the stop signal and the join.
  pub experiment-reads_all :
      (ans : InitAnswers) (files : Files) (cfg_filename : List ℕ) (f : CString) (l : Config)
      (w : World) (started : List Output) (outs : List (List Output))
      → IsGranted ans
      → NoOom w
      → c_string cfg_filename ≡ some f
      → IsConfig J files f (w.junk (w.next + 1 + 1)) l
      → 7 ≤ length outs
      → (rs : List Request) × (w' : World) × (play
            (sensor_command_experiment L J F H ans signal files cfg_filename w)
            (granted (started ∷ outs))
          ≡ (
            create_thread
                ∷ (rs ++ queue_send (send_malloc (stop_signal signal)) ∷ join_thread ∷ []),
            finished (some (pos 0, w')),
          ))
        × ReadsListed l sensor_names rs
  unfolding sensor_command_experiment play
  experiment-reads_all ans files cfg_filename f l w started outs g m e c long =
      let r : Runner L = record {
        addr = w.next;
        val = record { queue = fresh L 100; primitives = all_up };
      } in
      let w2 : World = record w {
        next = w.next + 1;
        live = w.next ∷ w.live;
        out =
            (w.out ++ text (bytes "++++++++++ SensorManager experiment ++++++++++\n") ∷ [])
            ++ started;
      } in
      let cfg : SensorManagerConfig = record { cfg_filename = f } in
      let (t, load, is) = sensor_manager_create-load J F H w2 files cfg l m c in
      let (rs, w', run, reads_all) =
        from_loop r w2 cfg c.json l t outs is m (ground arith) (omega arith) long in
      (
        rs,
        w',
        rw
            (
              runner_create-fresh L ans (some runner_cfg) w 100 (refl, omega arith, omega arith)
                  (m w.next) g.empty_ok g.occupied_ok g.mutex_ok,
              create_manager-named files cfg_filename f w2 _ e load,
            )
            (ap (before (create_thread ∷ [])) run),
        reads_all,
      )
