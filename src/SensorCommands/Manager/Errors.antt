-- ===== src/SensorCommands/Manager/Errors.antt =====
-- manager.c: a configuration with an item that cannot be loaded.
use ie0417_dev_b.Base.{
  ℕ, zero, suc, ◌+◌, ◌<◌, ◌≡◌, sym, ◌∙◌, subst, false, none, some, [], ◌∷◌, ◌++◌, CString, bytes,
  length, arith, append-nil, append_assoc, bytes_eq,
}
use ie0417_dev_b.Process.{World, Ptr}
use ie0417_dev_b.Uthash.{Uthash}
use ie0417_dev_b.Cjson.{Cjson}
use ie0417_dev_b.SensorCommands.Factory.{SensorConstructor, SensorFactory}
use ie0417_dev_b.SensorCommands.Factory.Laws.{IsFactory, sensor_create-by_type, temperature, level}
use ie0417_dev_b.SensorCommands.Manager.{SensorHashEntry, sensor_ht_loop, minus_one}
use ie0417_dev_b.SensorCommands.Manager.Load.{
  sensor_of, Config, entries_of, grown, added, Describes, NoOom, IsFactory-grow, create-ok, add-ok,
}

module _ (J : Cjson) where
  open J use {Json, get_object_item, get_array_item, get_string_value}

  -- An item without a type or a name, or of a type that no constructor has.
  pub data IsBad (sensors : Json) (i : ℕ) : Type 0 where
    no_type : get_object_item (get_array_item sensors i) (bytes "type") ≡ none → IsBad sensors i
    no_name :
        (t : Json)
        → get_object_item (get_array_item sensors i) (bytes "type") ≡ some t
        → get_object_item (get_array_item sensors i) (bytes "name") ≡ none
        → IsBad sensors i
    unknown_type :
        (t n : Json) (type : CString)
        → get_object_item (get_array_item sensors i) (bytes "type") ≡ some t
        → get_object_item (get_array_item sensors i) (bytes "name") ≡ some n
        → get_string_value t ≡ some type
        → bytes_eq temperature type ≡ false
        → bytes_eq level type ≡ false
        → IsBad sensors i

module _ (J : Cjson) (F : Uthash SensorConstructor) (H : Uthash SensorHashEntry) where
  open J use {Json, get_string_value}
  open H use {Table, add_keyptr, items, items-add}

  bad-step :
      (w : World) (sf : Ptr (SensorFactory F.Table)) (a b : ℕ)
      → IsFactory F w sf a b
      → (sensors : Json) (i : ℕ) → IsBad J sensors i
      → (n : ℕ) (t : Table)
      → sensor_ht_loop J F H sf sensors (suc n) i t w ≡ some ((minus_one, t), w)
  unfolding sensor_ht_loop
  bad-step w sf a b f sensors i (no_type e) n t = rw e
  bad-step w sf a b f sensors i (no_name x e e') n t = rw (e, e')
  bad-step w sf a b f sensors i (unknown_type x y type e e' s nt nl) n t =
      rw (e, e', s, sensor_create-by_type F w sf a b f type (get_string_value y), nt, nl)

  -- With a complete factory and memory for every allocation, the loop of `sensor_ht_create` returns
  -- -1 at the first item without a type or a name or with an unknown type, and the sensors of the
  -- items before it stay in the table.
  pub sensor_ht_loop-bad :
      (w : World) (sf : Ptr (SensorFactory F.Table)) (a b : ℕ)
      → NoOom w
      → IsFactory F w sf a b
      → (sensors : Json) (i : ℕ) (l : Config) → Describes J sensors i l
      → IsBad J sensors (i + length l)
      → (n : ℕ) → length l < n
      → (t : Table)
      → (t' : Table) × (sensor_ht_loop J F H sf sensors n i t w ≡ some ((minus_one, t'), added w l))
        × (items t' ≡ items t ++ entries_of w.next l)
  unfolding sensor_ht_loop
  sensor_ht_loop-bad w sf a b m f sensors i l d bad zero h t = absurd (omega arith)
  sensor_ht_loop-bad w sf a b m f sensors i [] d bad (suc n) h t = (
    t,
    bad-step w sf a b f sensors i (subst (IsBad J sensors) (omega arith) bad) n t,
    sym (append-nil (items t)),
  )
  sensor_ht_loop-bad w sf a b m f sensors i ((k, name) ∷ l) ds bad (suc n) h t =
      let d = ds.0 in
      let w2 : World = record w { next = w.next + 1 + 1; live = (w.next + 1) ∷ w.next ∷ w.live } in
      let entry : Ptr SensorHashEntry = record {
        addr = w.next + 1 + 1;
        val = record { ssr = sensor_of k w.next name };
      } in
      let bad' : IsBad J sensors (i + 1 + length l) = subst (IsBad J sensors) (omega arith) bad in
      let (t', run, is) =
        sensor_ht_loop-bad (grown w k name) sf a b m (IsFactory-grow J F H w sf a b _ _ _ _ _ f)
          sensors (i + 1) l ds.1 bad' n (omega arith) (add_keyptr t name entry) in
      (
        t',
        rw
            (
              d.has_type,
              d.has_name,
              d.type_string,
              d.name_string,
              create-ok J F H w sf a b m f k name,
              add-ok J F H w2 t w.next (m (w.next + 1 + 1)) (ground arith) k name,
            )
            run,
        is
            ∙ rw (items-add t name entry)
                (append_assoc (items t) ((name, entry) ∷ []) (entries_of (w.next + 1 + 1 + 1) l)),
      )
