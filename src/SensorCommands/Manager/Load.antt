-- ===== src/SensorCommands/Manager/Load.antt =====
-- manager.c: loading the sensors of a configuration.
use ie0417_dev_b.Base.{
  ℕ, ◌+◌, ◌≡◌, refl, sym, ◌∙◌, true, false, some, List, [], ◌∷◌, ◌++◌, pos, CString, bytes, length,
  arith, append-nil, append_assoc,
}
use ie0417_dev_b.Process.{World, Ptr, mem, sensor_added, Output}
use ie0417_dev_b.Uthash.{Uthash}
use ie0417_dev_b.Cjson.{Cjson}
use ie0417_dev_b.SensorCommands.Types.{Sensor}
use ie0417_dev_b.SensorCommands.Sensor.Lifecycle.{
  level_sensor, temp_sensor, constructed-ok, level_sensor_create-constructed,
  temp_sensor_create-constructed,
}
use ie0417_dev_b.SensorCommands.Factory.{
  SensorConstructor, SensorFactory, sensor_factory_sensor_create,
}
use ie0417_dev_b.SensorCommands.Factory.Laws.{IsFactory, sensor_create-by_type}
use ie0417_dev_b.SensorCommands.Manager.{SensorHashEntry, sensor_ht_add, sensor_ht_loop}

-- The two types of sensors, and the sensor of a type in blocks `a` and `a + 1`.
pub data Kind : Type 0 where
  temp lev : Kind

abbrev pub type_of : Kind → CString
type_of temp = bytes "temperature"
type_of lev = bytes "level"

abbrev pub sensor_of : Kind → ℕ → CString → Ptr Sensor
sensor_of temp a name = temp_sensor a (some name)
sensor_of lev a name = level_sensor a (some name)

-- What a configuration lists: a type and a name for each sensor.
abbrev pub Config : Type 0
Config = List (Kind × CString)

-- The entries of the table, where the next allocation has the number `n`: each sensor takes three.
abbrev pub entries_of : ℕ → Config → List (CString × Ptr SensorHashEntry)
entries_of n [] = []
entries_of n ((k, name) ∷ l) =
    (name, record { addr = n + 1 + 1; val = record { ssr = sensor_of k n name } })
    ∷ entries_of (n + 1 + 1 + 1) l

-- The world after one sensor has been made and added, and after all of a configuration.
abbrev pub grown : World → Kind → CString → World
grown w k name = record w {
  next = w.next + 1 + 1 + 1;
  live = (w.next + 1 + 1) ∷ (w.next + 1) ∷ w.next ∷ w.live;
  out = w.out ++ sensor_added name (type_of k) ∷ [];
}

abbrev pub added : World → Config → World
added w [] = w
added w ((k, name) ∷ l) = added (grown w k name) l

module _ (J : Cjson) where
  open J use {Json, get_object_item, get_array_item, get_string_value}

  -- Item `i` of the array is an object with this type and name.
  pub record IsItem (sensors : Json) (i : ℕ) (k : Kind) (name : CString) : Type 0 where
    pub type_item : Json
    pub name_item : Json
    pub has_type : get_object_item (get_array_item sensors i) (bytes "type") ≡ some type_item
    pub has_name : get_object_item (get_array_item sensors i) (bytes "name") ≡ some name_item
    pub type_string : get_string_value type_item ≡ some (type_of k)
    pub name_string : get_string_value name_item ≡ some name

  -- The items of the array from `i` on are those of the configuration.
  abbrev pub Describes : Json → ℕ → Config → Type 0
  Describes sensors i [] = Unit
  Describes sensors i ((k, name) ∷ l) = IsItem sensors i k name × Describes sensors (i + 1) l

abbrev pub NoOom : World → Type 0
NoOom w = (n : ℕ) → w.oom n ≡ false

module _ (J : Cjson) (F : Uthash SensorConstructor) (H : Uthash SensorHashEntry) where
  open J use {Json}
  open H use {Table, add_keyptr, items, items-add}

  pub create-ok :
      (w : World) (sf : Ptr (SensorFactory F.Table)) (a b : ℕ)
      → NoOom w
      → IsFactory F w sf a b
      → (k : Kind) (name : CString)
      → sensor_factory_sensor_create F sf (some (type_of k)) (some name) w
        ≡ some (
          some (sensor_of k w.next name),
          record w { next = w.next + 1 + 1; live = (w.next + 1) ∷ w.next ∷ w.live },
        )
  create-ok w sf a b m f temp name =
      sensor_create-by_type F w sf a b f (bytes "temperature") (some name)
      ∙ temp_sensor_create-constructed (some name) w
      ∙ constructed-ok w _ (m w.next) (m (w.next + 1))
  create-ok w sf a b m f lev name =
      sensor_create-by_type F w sf a b f (bytes "level") (some name)
      ∙ level_sensor_create-constructed (some name) w
      ∙ constructed-ok w _ (m w.next) (m (w.next + 1))

  pub add-ok :
      (w : World) (t : Table) (a : ℕ)
      → w.oom w.next ≡ false
      → mem (a + 1) w.live ≡ true
      → (k : Kind) (name : CString)
      → sensor_ht_add J F H t (sensor_of k a name) w
        ≡ some (
          (
            pos 0,
            add_keyptr t name (record { addr = w.next; val = record { ssr = sensor_of k a name } }),
          ),
          record w {
            next = w.next + 1;
            live = w.next ∷ w.live;
            out = w.out ++ sensor_added name (type_of k) ∷ [];
          },
        )
  unfolding sensor_ht_add
  add-ok w t a m l temp name = ground arith
  add-ok w t a m l lev name = ground arith

  -- A factory stays one while blocks are allocated.
  pub IsFactory-grow :
      (w : World) (sf : Ptr (SensorFactory F.Table)) (a b x y z n : ℕ) (o : List Output)
      → IsFactory F w sf a b
      → IsFactory F (record w { next = n; live = x ∷ y ∷ z ∷ w.live; out = o }) sf a b
  IsFactory-grow w sf a b x y z n o f = record {
    live_self = ground (arith, f.live_self);
    live_temp = ground (arith, f.live_temp);
    live_level = ground (arith, f.live_level);
    ctors = f.ctors;
  }

  -- Every sensor of the configuration is made and added to the table, in order, and the loop
  -- returns 0.
  pub sensor_ht_loop-load :
      (w : World) (sf : Ptr (SensorFactory F.Table)) (a b : ℕ)
      → NoOom w
      → IsFactory F w sf a b
      → (sensors : Json) (i : ℕ) (l : Config) → Describes J sensors i l
      → (t : Table)
      → (t' : Table) × (sensor_ht_loop J F H sf sensors (length l) i t w
          ≡ some ((pos 0, t'), added w l))
        × (items t' ≡ items t ++ entries_of w.next l)
  unfolding sensor_ht_loop
  sensor_ht_loop-load w sf a b m f sensors i [] d t = (t, refl, sym (append-nil (items t)))
  sensor_ht_loop-load w sf a b m f sensors i ((k, name) ∷ l) (d, ds) t =
      let w2 : World = record w { next = w.next + 1 + 1; live = (w.next + 1) ∷ w.next ∷ w.live } in
      let w3 = grown w k name in
      let entry : Ptr SensorHashEntry = record {
        addr = w.next + 1 + 1;
        val = record { ssr = sensor_of k w.next name };
      } in
      let (t', run, is) =
        sensor_ht_loop-load w3 sf a b m (IsFactory-grow w sf a b _ _ _ _ _ f) sensors (i + 1) l ds
          (add_keyptr t name entry) in
      (
        t',
        rw
            (
              d.has_type,
              d.has_name,
              d.type_string,
              d.name_string,
              create-ok w sf a b m f k name,
              add-ok w2 t w.next (m (w.next + 1 + 1)) (ground arith) k name,
            )
            run,
        is
            ∙ rw (items-add t name entry)
                (append_assoc (items t) ((name, entry) ∷ []) (entries_of (w.next + 1 + 1 + 1) l)),
      )
