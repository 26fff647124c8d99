-- ===== src/SensorCommands/Factory.antt =====
-- factory.c: sensor constructors in a hash table, found by the type of the sensor.
pub mod Laws
pub mod AnyMemory
use ie0417_dev_b.Base.{
  ℕ, suc, Bool, ◌||◌, not, Option, none, some, is_some, List, [], ◌∷◌, ℤ, pos, negsuc, is_nonzero,
  CString, bytes, length, ◌==◌, if◌then◌else◌,
}
use ie0417_dev_b.Process.{
  M, World, Ptr, pure, fault, ◌>>=◌, ◌>>◌, if_null, malloc, free, deref, str,
}
use ie0417_dev_b.Uthash.{Uthash}
use ie0417_dev_b.SensorCommands.Types.{Sensor}
use ie0417_dev_b.SensorCommands.Sensor.{level_sensor_create, temp_sensor_create}

-- The functions that a `create_fn` field points to.
pub data CreateFn : Type 0 where
  temp_create level_create : CreateFn

pub record SensorCtorInfo : Type 0 where
  pub type : CString
  pub create_fn : Option CreateFn

pub record SensorConstructor : Type 0 where
  pub info : SensorCtorInfo

pub record SensorFactory (Table : Type 0) : Type 0 where
  pub ctor_ht : Table

abbrev pub ctors_info : List SensorCtorInfo
ctors_info =
    record { type = bytes "temperature"; create_fn = some temp_create }
    ∷ record { type = bytes "level"; create_fn = some level_create }
    ∷ record { type = []; create_fn = none }
    ∷ []

-- The call through `create_fn`; a call through NULL is a fault.
abbrev pub call_create : Option CreateFn → Option CString → M (Option (Ptr Sensor))
call_create none name = fault
call_create (some temp_create) name = temp_sensor_create name
call_create (some level_create) name = level_sensor_create name

-- ENOMEM is 12.
abbrev pub minus_enomem : ℤ
minus_enomem = negsuc 11

module _ (H : Uthash SensorConstructor) where
  open H use {Table, null, add_keyptr, find, delete, items}

  unfoldable pub ctor_ht_add : Table → SensorCtorInfo → M (ℤ × Table)
  unfolding malloc
  ctor_ht_add t info = do
    p ← malloc
    if_null p (pure (minus_enomem, t)) λ a.
        pure (pos 0, add_keyptr t info.type (record { addr = a; val = record { info = info } }))

  -- The loop of `ctor_ht_create` from an element of the array on; there is none past its end.
  unfoldable pub ctor_ht_loop : List SensorCtorInfo → Table → M (ℤ × Table)
  unfolding ctor_ht_add
  ctor_ht_loop [] t = fault
  ctor_ht_loop (info ∷ rest) t =
      if (length info.type == 0) || not (is_some info.create_fn) then pure (pos 0, t) else do
        (ret, t') ← ctor_ht_add t info
        if is_nonzero ret then pure (ret, t') else ctor_ht_loop rest t'

  unfoldable pub ctor_ht_create : M (ℤ × Table)
  unfolding ctor_ht_loop
  ctor_ht_create = ctor_ht_loop ctors_info null

  -- HASH_ITER keeps the next entry in `tmp`, so it visits the entries that it began with.
  unfoldable pub ctor_ht_destroy_loop : List (CString × Ptr SensorConstructor) → Table → M Table
  unfolding free
  ctor_ht_destroy_loop [] t = pure t
  ctor_ht_destroy_loop ((k, ctor) ∷ l) t = do
    let t' = delete t ctor
    free ctor.addr
    ctor_ht_destroy_loop l t'

  unfoldable pub ctor_ht_destroy : Table → M Table
  unfolding ctor_ht_destroy_loop
  ctor_ht_destroy t = ctor_ht_destroy_loop (items t) t

  -- The code drops the result of `ctor_ht_create`.
  unfoldable pub sensor_factory_create : M (Option (Ptr (SensorFactory Table)))
  unfolding malloc ctor_ht_create
  sensor_factory_create = do
    p ← malloc
    if_null p (pure none) λ a. do
      (ret, t) ← ctor_ht_create
      pure (some (record { addr = a; val = record { ctor_ht = t } }))

  unfoldable pub sensor_factory_sensor_create :
      Ptr (SensorFactory Table) → (type name : Option CString) → M (Option (Ptr Sensor))
  unfolding deref str
  sensor_factory_sensor_create p type name = do
    sf ← deref p
    key ← str type
    if_null (find sf.ctor_ht key) (pure none)
        λ q. do ctor ← deref q; call_create ctor.info.create_fn name

  unfoldable pub sensor_factory_destroy : Ptr (SensorFactory Table) → M (Unit {0})
  unfolding deref ctor_ht_destroy free
  sensor_factory_destroy p = do sf ← deref p; ctor_ht_destroy sf.ctor_ht; free p.addr
