-- ===== src/SensorCommands/Manager/Destroy.antt =====
-- manager.c: what `sensor_manager_destroy` frees, and what it leaves allocated.
use ie0417_dev_b.Base.{ℕ, ◌+◌, ◌<◌, ◌≡◌, refl, ap, ◌∙◌, true, some, List, [], ◌∷◌, CString, arith}
use ie0417_dev_b.Process.{World, Ptr, mem, remove, ◌>>=◌, if_null, pure, free}
use ie0417_dev_b.Uthash.{Uthash}
use ie0417_dev_b.Cjson.{Cjson}
use ie0417_dev_b.Files.{Files}
use ie0417_dev_b.SensorCommands.Factory.{
  SensorConstructor, sensor_factory_destroy, ctor_ht_destroy_loop,
}
use ie0417_dev_b.SensorCommands.Factory.Laws.{factory, items-factory, destroy-items}
use ie0417_dev_b.SensorCommands.Manager.{
  SensorHashEntry, SensorManagerConfig, Manager, sensor_ht_destroy, sensor_ht_destroy_loop,
  sensor_manager_create, sensor_manager_destroy,
}
use ie0417_dev_b.SensorCommands.Manager.Load.{Config, sensor_of, entries_of, grown, added, NoOom}
use ie0417_dev_b.SensorCommands.Manager.Create.{
  IsConfig, prepared, manager, sensor_manager_create-load,
}

-- The blocks of a configuration on top of others, where the first has the number `n`: with the
-- entries of the table, and without them.
abbrev pub loaded_blocks : ℕ → Config → List ℕ → List ℕ
loaded_blocks n [] base = base
loaded_blocks n (x ∷ l) base = loaded_blocks (n + 1 + 1 + 1) l ((n + 1 + 1) ∷ (n + 1) ∷ n ∷ base)

abbrev pub sensor_blocks : ℕ → Config → List ℕ → List ℕ
sensor_blocks n [] base = base
sensor_blocks n (x ∷ l) base = sensor_blocks (n + 1 + 1 + 1) l ((n + 1) ∷ n ∷ base)

live-added : (w : World) (l : Config) → (added w l).live ≡ loaded_blocks w.next l w.live
live-added w [] = refl
live-added w ((k, name) ∷ l) = live-added (grown w k name) l

-- A block that is older than those of the configuration is freed among the others.
module _ (a : ℕ) where
  mem-loaded_blocks :
      (n : ℕ) (l : Config) (base : List ℕ)
      → mem a base ≡ true
      → mem a (loaded_blocks n l base) ≡ true
  mem-loaded_blocks n [] base h = h
  mem-loaded_blocks n (x ∷ l) base h =
      mem-loaded_blocks (n + 1 + 1 + 1) l ((n + 1 + 1) ∷ (n + 1) ∷ n ∷ base) (ground arith)

  remove-loaded_blocks :
      (n : ℕ) (l : Config) (base : List ℕ)
      → a < n
      → remove a (loaded_blocks n l base) ≡ loaded_blocks n l (remove a base)
  remove-loaded_blocks n [] base h = refl
  remove-loaded_blocks n (x ∷ l) base h =
      remove-loaded_blocks (n + 1 + 1 + 1) l ((n + 1 + 1) ∷ (n + 1) ∷ n ∷ base) (omega arith)
      ∙ ap (loaded_blocks (n + 1 + 1 + 1) l) (ground arith)

  mem-sensor_blocks :
      (n : ℕ) (l : Config) (base : List ℕ)
      → mem a base ≡ true
      → mem a (sensor_blocks n l base) ≡ true
  mem-sensor_blocks n [] base h = h
  mem-sensor_blocks n (x ∷ l) base h =
      mem-sensor_blocks (n + 1 + 1 + 1) l ((n + 1) ∷ n ∷ base) (ground arith)

  remove-sensor_blocks :
      (n : ℕ) (l : Config) (base : List ℕ)
      → a < n
      → remove a (sensor_blocks n l base) ≡ sensor_blocks n l (remove a base)
  remove-sensor_blocks n [] base h = refl
  remove-sensor_blocks n (x ∷ l) base h =
      remove-sensor_blocks (n + 1 + 1 + 1) l ((n + 1) ∷ n ∷ base) (omega arith)
      ∙ ap (sensor_blocks (n + 1 + 1 + 1) l) (ground arith)

free-live :
    (a : ℕ) (w : World) (live live' : List ℕ)
    → mem a live ≡ true
    → remove a live ≡ live'
    → free a (record w { live = live }) ≡ some (tt, record w { live = live' })
unfolding free
free-live a w live live' h e = ground arith

module _ (J : Cjson) (F : Uthash SensorConstructor) (H : Uthash SensorHashEntry) where
  open H use {Table, delete, items}

  ht_destroy :
      (w : World) (n : ℕ) (l : Config) (base : List ℕ) (t : Table)
      → (t' : Table) × (sensor_ht_destroy_loop J F H
            (entries_of n l)
            t
            (record w { live = loaded_blocks n l base })
          ≡ some (t', record w { live = sensor_blocks n l base }))
  unfolding sensor_ht_destroy_loop
  ht_destroy w n [] base t = (t, refl)
  ht_destroy w n ((k, name) ∷ l) base t =
      let rest = (n + 1) ∷ n ∷ base in
      let (t', run) =
        ht_destroy w (n + 1 + 1 + 1) l rest
          (delete t (record { addr = n + 1 + 1; val = record { ssr = sensor_of k n name } })) in
      (
        t',
        rw
            (free-live (n + 1 + 1) w _ (loaded_blocks (n + 1 + 1 + 1) l rest)
              (mem-loaded_blocks (n + 1 + 1) (n + 1 + 1 + 1) l ((n + 1 + 1) ∷ rest) (ground arith))
              (remove-loaded_blocks (n + 1 + 1) (n + 1 + 1 + 1) l ((n + 1 + 1) ∷ rest) (omega arith)
                ∙ ap (loaded_blocks (n + 1 + 1 + 1) l) (ground arith)))
            run,
      )

  free_sensor-blocks :
      (a : ℕ) (w : World) (n : ℕ) (l : Config) (base base' : List ℕ)
      → a < n
      → mem a base ≡ true
      → remove a base ≡ base'
      → free a (record w { live = sensor_blocks n l base })
        ≡ some (tt, record w { live = sensor_blocks n l base' })
  free_sensor-blocks a w n l base base' h m e =
      free-live a w (sensor_blocks n l base) (sensor_blocks n l base')
        (mem-sensor_blocks a n l base m)
        (remove-sensor_blocks a n l base h ∙ ap (sensor_blocks n l) e)

  factory_destroy :
      (w : World) (a n : ℕ) (l : Config) (base : List ℕ)
      → a + 1 + 1 < n
      → sensor_factory_destroy F
          (factory F a)
          (record w { live = sensor_blocks n l ((a + 1 + 1) ∷ (a + 1) ∷ a ∷ base) })
        ≡ some (tt, record w { live = sensor_blocks n l base })
  unfolding ctor_ht_destroy_loop
  factory_destroy w a n l base h =
      let w1 : World = record w { live = sensor_blocks n l ((a + 1 + 1) ∷ (a + 1) ∷ a ∷ base) } in
      rw
        (
          destroy-items F (factory F a) w1 _ (items-factory F a)
              (mem-sensor_blocks a n l ((a + 1 + 1) ∷ (a + 1) ∷ a ∷ base) (ground arith)),
          free_sensor-blocks (a + 1) w n l ((a + 1 + 1) ∷ (a + 1) ∷ a ∷ base)
              ((a + 1 + 1) ∷ a ∷ base) (omega arith) (ground arith) (ground arith),
          free_sensor-blocks (a + 1 + 1) w n l ((a + 1 + 1) ∷ a ∷ base) (a ∷ base) h (ground arith)
              (ground arith),
        )
        (free_sensor-blocks a w n l (a ∷ base) base (omega arith) (ground arith) (ground arith))

  destroy-steps :
      (p : Ptr (Manager J F H)) (t' : Table) (w w1 w2 w3 : World)
      → mem p.addr w.live ≡ true
      → sensor_ht_destroy J F H p.val.sensor_ht w ≡ some (t', w1)
      → sensor_factory_destroy F p.val.sf w1 ≡ some (tt, w2)
      → free p.addr w2 ≡ some (tt, w3)
      → sensor_manager_destroy J F H p w ≡ some (tt, w3)
  unfolding sensor_manager_destroy
  destroy-steps p t' w w1 w2 w3 m table factory self = rw (m, table, factory) self

  destroy-items_lem :
      (t : Table) (l : List (CString × Ptr SensorHashEntry)) (w : World)
      → items t ≡ l
      → sensor_ht_destroy J F H t w ≡ sensor_ht_destroy_loop J F H l t w
  unfolding sensor_ht_destroy
  destroy-items_lem t l w e = ap (λ r. sensor_ht_destroy_loop J F H r t w) e

  -- The blocks that stay allocated: two for each sensor, and the buffer of the file, on top of those
  -- from before.
  abbrev pub left_over : World → Config → List ℕ
  left_over w l = sensor_blocks (prepared w).next l ((w.next + 1) ∷ w.live)

  destroy-run :
      (w : World) (l : Config) (t : Table)
      → items t ≡ entries_of (prepared w).next l
      → (cfg : SensorManagerConfig) (j : J.Json)
      → sensor_manager_destroy J F H (manager J F H w.next cfg j t) (added (prepared w) l)
        ≡ some (tt, record (added (prepared w) l) { live = left_over w l })
  unfolding sensor_manager_destroy sensor_ht_destroy
  destroy-run w l t e cfg j =
      let n = (prepared w).next in
      let w1 : World = added (prepared w) l in
      let base = (prepared w).live in
      let (t', run) = ht_destroy w1 n l base t in
      let same : w1 ≡ record w1 { live = loaded_blocks n l base } =
        ap (λ x. record w1 { live = x }) (live-added (prepared w) l) in
      let table =
        destroy-items_lem t (entries_of n l) w1 e
        ∙ ap (sensor_ht_destroy_loop J F H (entries_of n l) t) same
        ∙ run in
      destroy-steps (manager J F H w.next cfg j t) t' w1 _ _ _
        (ap (mem w.next) (live-added (prepared w) l)
          ∙ mem-loaded_blocks w.next n l base (ground arith))
        table
        (factory_destroy w1 (w.next + 1 + 1) n l ((w.next + 1) ∷ w.next ∷ w.live) (omega arith))
        (free_sensor-blocks w.next w1 n l ((w.next + 1) ∷ w.next ∷ w.live) ((w.next + 1) ∷ w.live)
          (omega arith) (ground arith) (ground arith))

  -- A manager that `sensor_manager_create` returns and `sensor_manager_destroy` takes down frees
  -- the manager, the factory, its constructors and the table entries; the file buffer and the two
  -- blocks of every sensor stay allocated, and nothing else.
  pub manager_destroy-create :
      (w : World) (files : Files) (cfg : SensorManagerConfig) (l : Config)
      → NoOom w
      → IsConfig J files cfg.cfg_filename (w.junk (w.next + 1)) l
      → (do
        m ← sensor_manager_create J F H files cfg
        if_null m (pure tt) (sensor_manager_destroy J F H))
          w
        ≡ some (tt, record (added (prepared w) l) { live = left_over w l })
  manager_destroy-create w files cfg l m c =
      let (t, run, is) = sensor_manager_create-load J F H w files cfg l m c in
      rw run (destroy-run w l t is cfg c.json)
