-- ===== src/SensorCommands/Manager/Lookup.antt =====
-- manager.c: finding a sensor by its name.
use ie0417_dev_b.Base.{
  ℕ, ◌+◌, ◌≡◌, refl, sym, ap, ◌∙◌, subst, Bool, true, false, ◌||◌, ◌⊎◌, inl, inr, Option, none,
  some, is_some, [], ◌∷◌, CString, arith, bytes_eq,
}
use ie0417_dev_b.Process.{World, Ptr, mem}
use ie0417_dev_b.Uthash.{Uthash, Entry, has_key}
use ie0417_dev_b.Cjson.{Cjson}
use ie0417_dev_b.SensorCommands.Types.{Sensor}
use ie0417_dev_b.SensorCommands.Factory.{SensorConstructor}
use ie0417_dev_b.SensorCommands.Manager.{SensorHashEntry, Manager, sensor_manager_sensor_get}
use ie0417_dev_b.SensorCommands.Manager.Load.{Kind, sensor_of, Config, entries_of, grown, added}

-- The configuration lists the name.
abbrev pub names : CString → Config → Bool
names key [] = false
names key ((k, name) ∷ l) = bytes_eq name key || names key l

-- The configuration lists a sensor of the type and the name.
abbrev pub Listed : Kind → CString → Config → Type 0
Listed k key [] = ⊥
Listed k key ((j, name) ∷ l) = ((j ≡ k) × (name ≡ key)) ⊎ Listed k key l

-- Sensor and state of a sensor in block `a` are allocated.
abbrev pub LiveAt : World → ℕ → Type 0
LiveAt w a = (mem (a + 1) w.live ≡ true) × (mem a w.live ≡ true)

-- The blocks of all sensors and of their entries, of which the first has the number `n`, are allocated.
abbrev pub AllLive : World → ℕ → Config → Type 0
AllLive w n [] = Unit
AllLive w n (x ∷ l) = (mem (n + 1 + 1) w.live ≡ true) × LiveAt w n × AllLive w (n + 1 + 1 + 1) l

pub mem-added :
    (w : World) (l : Config) (a : ℕ) → mem a w.live ≡ true → mem a (added w l).live ≡ true
mem-added w [] a h = h
mem-added w ((k, name) ∷ l) a h = mem-added (grown w k name) l a (ground arith)

-- What loading a configuration allocates is allocated afterwards.
pub added-AllLive : (w : World) (l : Config) → AllLive (added w l) w.next l
added-AllLive w [] = tt
added-AllLive w ((k, name) ∷ l) = (
  mem-added (grown w k name) l _ (ground arith),
  (mem-added (grown w k name) l _ (ground arith), mem-added (grown w k name) l _ (ground arith)),
  added-AllLive (grown w k name) l,
)

has_key-names : (n : ℕ) (l : Config) (key : CString) → has_key key (entries_of n l) ≡ names key l
has_key-names n [] key = refl
has_key-names n ((k, name) ∷ l) key =
    ap (λ b. bytes_eq name key || b) (has_key-names (n + 1 + 1 + 1) l key)

-- An entry with the key belongs to a sensor of that name.
record Hit (w : World) (l : Config) (key : CString) (q : Ptr SensorHashEntry) : Type 0 where
  kind : Kind
  block : ℕ
  is : q.val.ssr ≡ sensor_of kind block key
  listed : Listed kind key l
  live_entry : mem q.addr w.live ≡ true
  live : LiveAt w block

Entry-Hit :
    (w : World) (n : ℕ) (l : Config) (key : CString) (q : Ptr SensorHashEntry)
    → AllLive w n l
    → Entry key q (entries_of n l)
    → Hit w l key q
Entry-Hit w n [] key q a e = absurd e
Entry-Hit w n ((k, name) ∷ l) key q a (inl (i, j)) = record {
  kind = k;
  block = n;
  is = sym (ap (λ (p : Ptr SensorHashEntry). p.val.ssr) j) ∙ ap (sensor_of k n) i;
  listed = inl (refl, i);
  live_entry = rw (← j) a.0;
  live = a.1;
}
Entry-Hit w n ((k, name) ∷ l) key q a (inr e) =
    let h = Entry-Hit w (n + 1 + 1 + 1) l key q a.2 e in
    record {
      kind = h.kind;
      block = h.block;
      is = h.is;
      listed = inr h.listed;
      live_entry = h.live_entry;
      live = h.live;
    }

module _ (J : Cjson) (F : Uthash SensorConstructor) (H : Uthash SensorHashEntry) where
  open H use {Table, find, items, is_some-find, find-Entry}

  -- A manager whose table holds the sensors of a configuration.
  pub record IsLoaded (w : World) (p : Ptr (Manager J F H)) (n : ℕ) (l : Config) : Type 0 where
    pub live_self : mem p.addr w.live ≡ true
    pub table : items p.val.sensor_ht ≡ entries_of n l
    pub live : AllLive w n l

  get-missing :
      (w : World) (p : Ptr (Manager J F H)) (key : CString)
      → mem p.addr w.live ≡ true
      → find p.val.sensor_ht key ≡ none
      → sensor_manager_sensor_get J F H p (some key) w ≡ some (none, w)
  unfolding sensor_manager_sensor_get
  get-missing w p key h e = ground arith

  get-found :
      (w : World) (p : Ptr (Manager J F H)) (key : CString) (q : Ptr SensorHashEntry)
      → mem p.addr w.live ≡ true
      → find p.val.sensor_ht key ≡ some q
      → mem q.addr w.live ≡ true
      → sensor_manager_sensor_get J F H p (some key) w ≡ some (some q.val.ssr, w)
  unfolding sensor_manager_sensor_get
  get-found w p key q h e l = ground arith

  -- The result of a lookup: a sensor of the name, of a type that is listed with it, exactly if the
  -- configuration lists the name.
  pub data Lookup (w : World) (key : CString) (l : Config) (o : Option (Ptr Sensor)) : Type 0 where
    hit :
        (k : Kind) (a : ℕ)
        → o ≡ some (sensor_of k a key)
        → Listed k key l
        → LiveAt w a
        → names key l ≡ true
        → Lookup w key l o
    miss : o ≡ none → names key l ≡ false → Lookup w key l o

  -- In a manager that holds the sensors of a configuration, `sensor_manager_sensor_get` changes
  -- nothing and returns a sensor of the name, of a type listed with it, if the configuration lists
  -- the name, and NULL if it does not.
  pub sensor_get-Lookup :
      (w : World) (p : Ptr (Manager J F H)) (n : ℕ) (l : Config)
      → IsLoaded w p n l
      → (key : CString)
      → (o : Option (Ptr Sensor)) × (sensor_manager_sensor_get J F H p (some key) w ≡ some (o, w))
        × Lookup w key l o
  sensor_get-Lookup w p n l m key = go (find p.val.sensor_ht key) refl
    where
      counted : is_some (find p.val.sensor_ht key) ≡ names key l
      counted = is_some-find p.val.sensor_ht key ∙ ap (has_key key) m.table ∙ has_key-names n l key

      go :
          (o : Option (Ptr SensorHashEntry))
          → find p.val.sensor_ht key ≡ o
          → (r : Option (Ptr Sensor)) × (sensor_manager_sensor_get J F H p (some key) w
              ≡ some (r, w))
            × Lookup w key l r
      go none e = (none, get-missing w p key m.live_self e, miss refl (sym counted ∙ ap is_some e))
      go (some q) e =
          let h =
            Entry-Hit w n l key q m.live
              (subst (Entry key q) m.table (find-Entry p.val.sensor_ht key q e)) in
          (
            some q.val.ssr,
            get-found w p key q m.live_self e h.live_entry,
            hit h.kind h.block (ap some h.is) h.listed h.live (sym counted ∙ ap is_some e),
          )
