-- ===== src/SensorCommands/Manager/Create.antt =====
-- manager.c: reading the configuration file, and creating the manager.
use ie0417_dev_b.Base.{
  ℕ, ◌+◌, ◌≡◌, ◌≢◌, refl, ap, ◌∙◌, true, false, Option, none, some, ◌∷◌, ◌++◌, pos, CString, bytes,
  length, arith,
}
use ie0417_dev_b.Process.{World, Ptr}
use ie0417_dev_b.Uthash.{Uthash}
use ie0417_dev_b.Cjson.{Cjson}
use ie0417_dev_b.Files.{File, Files}
use ie0417_dev_b.SensorCommands.Factory.{SensorConstructor}
use ie0417_dev_b.SensorCommands.Factory.Laws.{IsFactory, factory, sensor_factory_create-IsFactory}
use ie0417_dev_b.SensorCommands.Manager.{
  SensorHashEntry, SensorManagerConfig, Manager, cjson_handle_create, file_buffer, sensor_ht_create,
  sensor_manager_create,
}
use ie0417_dev_b.SensorCommands.Manager.Load.{
  Config, Describes, NoOom, entries_of, added, sensor_ht_loop-load,
}

module _ (J : Cjson) where
  open J use {Json, parse, get_object_item, get_array_size}

  -- Whenever `cjson_handle_create` returns, with a handle or with NULL, as many files are open as
  -- before.
  handle_create-closes :
      (files : Files) (name : CString) (w w' : World) (o : Option Json)
      → cjson_handle_create J files name w ≡ some (o, w')
      → w'.open_files ≡ w.open_files
  unfolding cjson_handle_create
  handle_create-closes files name w w' o e = ground arith

  -- A file that can be read, and whose bytes are a JSON document to cJSON, which does not read on
  -- behind them. The code does not see to that: it writes no zero byte.
  pub record IsJson (files : Files) (name : CString) (junk : ℕ → ℕ) (j : Json) : Type 0 where
    pub file : File
    pub exists : files name ≡ some file
    pub seek_end : file.seek_end_ret ≡ pos 0
    pub seek_set : file.seek_set_ret ≡ pos 0
    pub bytes_read : file.read_ret ≢ 0
    pub parses : parse (file_buffer file junk) ≡ some (some j)

  pub handle_create-ok :
      (files : Files) (name : CString) (w : World) (j : Json)
      → w.oom w.next ≡ false
      → IsJson files name (w.junk w.next) j
      → cjson_handle_create J files name w
        ≡ some (some j, record w { next = w.next + 1; live = w.next ∷ w.live })
  unfolding cjson_handle_create
  handle_create-ok files name w j m f = ground arith

  pub handle_create-refused :
      (files : Files) (name : CString) (w : World) (j : Json)
      → w.oom w.next ≡ true
      → IsJson files name (w.junk w.next) j
      → cjson_handle_create J files name w ≡ some (none, record w { next = w.next + 1 })
  unfolding cjson_handle_create
  handle_create-refused files name w j m f = ground arith

  -- The file holds the configuration: an object with the array of its sensors.
  pub record IsConfig (files : Files) (name : CString) (junk : ℕ → ℕ) (l : Config) : Type 0 where
    pub json : Json
    pub document : IsJson files name junk json
    pub sensors : Json
    pub has_sensors : get_object_item (some json) (bytes "sensors") ≡ some sensors
    pub size : get_array_size sensors ≡ length l
    pub described : Describes J sensors 0 l

-- The world with the blocks of the manager, the file buffer, the factory and its two constructors.
abbrev pub prepared : World → World
prepared w = record w {
  next = w.next + 1 + 1 + 1 + 1 + 1;
  live =
      (w.next + 1 + 1 + 1 + 1)
      ∷ (w.next + 1 + 1 + 1)
      ∷ (w.next + 1 + 1)
      ∷ (w.next + 1)
      ∷ w.next
      ∷ w.live;
}

module _ (J : Cjson) (F : Uthash SensorConstructor) (H : Uthash SensorHashEntry) where
  open J use {Json}
  open H use {Table, null, items, items-null}

  -- The manager in block `a`.
  abbrev pub manager : ℕ → SensorManagerConfig → Json → Table → Ptr (Manager J F H)
  manager a cfg j t = record {
    addr = a;
    val = record { cfg = cfg; cfg_cjson = j; sf = factory F (a + 1 + 1); sensor_ht = t };
  }

  ht_create-load :
      (w : World) (files : Files) (name : CString) (junk : ℕ → ℕ) (l : Config)
      (c : IsConfig J files name junk l) (n : ℕ)
      → NoOom w
      → IsFactory F w (factory F n) (n + 1) (n + 1 + 1)
      → (t : Table) × (sensor_ht_create J F H (factory F n) c.json w ≡ some ((pos 0, t), added w l))
        × (items t ≡ entries_of w.next l)
  unfolding sensor_ht_create
  ht_create-load w files name junk l c n m f =
      let (t, run, is) =
        sensor_ht_loop-load J F H w (factory F n) (n + 1) (n + 1 + 1) m f c.sensors 0 l c.described
          null in
      (t, rw (c.has_sensors, c.size) run, is ∙ ap (λ r. r ++ entries_of w.next l) items-null)

  -- With memory for every allocation and a configuration file that reads as a JSON object with an
  -- array of known sensors, `sensor_manager_create` returns a manager whose table holds exactly the
  -- sensors of the file, in its order.
  pub sensor_manager_create-load :
      (w : World) (files : Files) (cfg : SensorManagerConfig) (l : Config)
      → NoOom w
      → (c : IsConfig J files cfg.cfg_filename (w.junk (w.next + 1)) l)
      → (t : Table) × (sensor_manager_create J F H files cfg w
          ≡ some (some (manager w.next cfg c.json t), added (prepared w) l))
        × (items t ≡ entries_of (prepared w).next l)
  unfolding sensor_manager_create
  sensor_manager_create-load w files cfg l m c =
      let w1 : World = record w { next = w.next + 1; live = w.next ∷ w.live } in
      let w2 : World = record w { next = w.next + 1 + 1; live = (w.next + 1) ∷ w.next ∷ w.live } in
      let (made, is_factory) =
        sensor_factory_create-IsFactory F w2 (m (w.next + 1 + 1)) (m (w.next + 1 + 1 + 1))
          (m (w.next + 1 + 1 + 1 + 1)) in
      let (t, run, is) =
        ht_create-load (prepared w) files cfg.cfg_filename _ l c (w.next + 1 + 1) m is_factory in
      (
        t,
        rw
            (
              m w.next,
              handle_create-ok J files cfg.cfg_filename w1 c.json (m (w.next + 1)) c.document,
              made,
              run,
            )
            refl,
        is,
      )
