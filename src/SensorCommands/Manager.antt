-- ===== src/SensorCommands/Manager.antt =====
-- manager.c: the sensors of a configuration file, in a hash table by name.
mod Tests
pub mod Sample
pub mod Load
pub mod Errors
pub mod ReadCommand
pub mod Lookup
pub mod Destroy
pub mod Create
pub mod AnyMemory
pub mod Created
pub mod Frees
pub mod Owned
use ie0417_dev_b.Base.{
  ℕ, zero, suc, ◌+◌, ◌-◌, Option, none, some, List, [], ◌∷◌, ◌++◌, ℤ, pos, negsuc, is_nonzero,
  CString, bytes, length, take, ◌==◌, if◌then◌else◌,
}
use ie0417_dev_b.Process.{
  fault, M, World, Ptr, pure, ◌>>=◌, ◌>>◌, if_null, malloc, free, deref, str, print, sensor_added,
}
use ie0417_dev_b.Uthash.{Uthash}
use ie0417_dev_b.Cjson.{Cjson}
use ie0417_dev_b.Files.{File, Files, opened, closed, junk_bytes}
use ie0417_dev_b.SensorCommands.Types.{
  Sensor, SsrReadCmdData, ssr_read_cmd_data, ssr_read_cmd_exec_fn, Command,
}
use ie0417_dev_b.SensorCommands.Command.{command_create, c_string}
use ie0417_dev_b.SensorCommands.Factory.{
  SensorConstructor, SensorFactory, minus_enomem, sensor_factory_create,
  sensor_factory_sensor_create, sensor_factory_destroy,
}

pub record SensorHashEntry : Type 0 where
  pub ssr : Ptr Sensor

pub record SensorManagerConfig : Type 0 where
  pub cfg_filename : CString

pub record SensorManager (Json Ctors Sensors : Type 0) : Type 0 where
  pub cfg : SensorManagerConfig
  pub cfg_cjson : Json
  pub sf : Ptr (SensorFactory Ctors)
  pub sensor_ht : Sensors

abbrev pub minus_one : ℤ
minus_one = negsuc 0

-- What the buffer holds after `fread`. The code writes no zero byte behind the text, and has no room
-- for it.
abbrev pub file_buffer : File → (ℕ → ℕ) → List ℕ
file_buffer f junk =
    take f.read_ret f.content ++ junk_bytes junk f.read_ret (length f.content - f.read_ret)

module _ (J : Cjson) where
  open J use {Json, parse}

  unfoldable pub cjson_handle_create : Files → CString → M (Option Json)
  unfolding malloc opened closed str
  cjson_handle_create files filename = if_null (files filename) (pure none) λ f. do
    opened
    if is_nonzero f.seek_end_ret
        then (do closed; pure none)
        else if is_nonzero f.seek_set_ret
        then (do closed; pure none)
        else (do
          p ← malloc
          if_null p (do closed; pure none)
              λ a.
                if f.read_ret == 0
                then (do closed; pure none)
                else (do closed; λ w. if_null (parse (file_buffer f (w.junk a))) fault pure w))

module _ (J : Cjson) (F : Uthash SensorConstructor) (H : Uthash SensorHashEntry) where
  open J use {Json, get_object_item, get_array_size, get_array_item, get_string_value}
  open H use {Table, null, add_keyptr, find, delete, items}

  abbrev pub Manager : Type 0
  Manager = SensorManager Json F.Table Table

  unfoldable pub sensor_ht_add : Table → Ptr Sensor → M (ℤ × Table)
  unfolding malloc deref str print
  sensor_ht_add t p = do
    m ← malloc
    if_null m (pure (minus_enomem, t)) λ a. do
      ssr ← deref p
      name ← str ssr.info.name
      type ← str ssr.info.type
      print (sensor_added name type)
      pure (pos 0, add_keyptr t name (record { addr = a; val = record { ssr = p } }))

  -- The loop of `sensor_ht_create`, with `rounds` indices left from `i` on.
  unfoldable pub sensor_ht_loop :
      Ptr (SensorFactory F.Table) → Json → (rounds i : ℕ) → Table → M (ℤ × Table)
  unfolding sensor_ht_add
  sensor_ht_loop sf sensors zero i t = pure (pos 0, t)
  sensor_ht_loop sf sensors (suc rounds) i t =
      let sensor = get_array_item sensors i in
      if_null (get_object_item sensor (bytes "type")) (pure (minus_one, t)) λ type.
        if_null (get_object_item sensor (bytes "name")) (pure (minus_one, t)) λ name. do
          ssr ← sensor_factory_sensor_create F sf (get_string_value type) (get_string_value name)
          if_null ssr (pure (minus_one, t)) λ s. do
            (ret, t') ← sensor_ht_add t s
            if is_nonzero ret then pure (ret, t') else sensor_ht_loop sf sensors rounds (i + 1) t'

  unfoldable pub sensor_ht_create : Ptr (SensorFactory F.Table) → Json → M (ℤ × Table)
  unfolding sensor_ht_loop
  sensor_ht_create sf cfg =
      if_null (get_object_item (some cfg) (bytes "sensors")) (pure (minus_one, null))
        λ sensors. sensor_ht_loop sf sensors (get_array_size sensors) 0 null

  -- HASH_ITER keeps the next entry in `tmp`, so it visits the entries that it began with.
  unfoldable pub sensor_ht_destroy_loop : List (CString × Ptr SensorHashEntry) → Table → M Table
  unfolding free
  sensor_ht_destroy_loop [] t = pure t
  sensor_ht_destroy_loop ((k, entry) ∷ l) t = do
    let t' = delete t entry
    free entry.addr
    sensor_ht_destroy_loop l t'

  unfoldable pub sensor_ht_destroy : Table → M Table
  unfolding sensor_ht_destroy_loop
  sensor_ht_destroy t = sensor_ht_destroy_loop (items t) t

  unfoldable pub sensor_manager_create : Files → SensorManagerConfig → M (Option (Ptr Manager))
  unfolding malloc cjson_handle_create sensor_factory_create sensor_ht_create
  sensor_manager_create files cfg = do
    p ← malloc
    if_null p (pure none) λ a. do
      json ← cjson_handle_create J files cfg.cfg_filename
      if_null json (pure none) λ j. do
        factory ← sensor_factory_create F
        if_null factory (pure none) λ sf. do
          (ret, t) ← sensor_ht_create sf j
          if is_nonzero ret
              then pure none
              else pure (
                  some (record {
                    addr = a;
                    val = record { cfg = cfg; cfg_cjson = j; sf = sf; sensor_ht = t };
                  }))

  unfoldable pub sensor_manager_sensor_get : Ptr Manager → Option CString → M (Option (Ptr Sensor))
  unfolding deref str
  sensor_manager_sensor_get p name = do
    smgr ← deref p
    key ← str name
    if_null (find smgr.sensor_ht key) (pure none) λ q. do entry ← deref q; pure (some entry.ssr)

  unfoldable pub sensor_manager_read_cmd_create :
      Ptr Manager → Option CString → M (Option (Ptr Command))
  unfolding malloc sensor_manager_sensor_get command_create
  sensor_manager_read_cmd_create p name = do
    m ← malloc
    if_null m (pure none) λ a. do
      ssr ← sensor_manager_sensor_get p name
      if_null ssr (pure none) λ s.
          command_create (some (ssr_read_cmd_data (record { addr = a; val = record { ssr = s } })))
            (some ssr_read_cmd_exec_fn)

  -- `cJSON_Delete` frees the handle, whose memory belongs to cJSON.
  unfoldable pub sensor_manager_destroy : Ptr Manager → M (Unit {0})
  unfolding deref sensor_ht_destroy sensor_factory_destroy free
  sensor_manager_destroy p = do
    smgr ← deref p
    sensor_ht_destroy smgr.sensor_ht
    sensor_factory_destroy F smgr.sf
    free p.addr
