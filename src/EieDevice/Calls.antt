-- ===== src/EieDevice/Calls.antt =====
-- src/proyecto/eie_device/src/eie_device.c: making and destroying a device, and its calls.
use ie0417_dev_b.Base.{
  ℕ, ◌+◌, ◌≡◌, refl, ap, ◌∙◌, true, false, ◌||◌, Option, none, some, [], ◌∷◌, ◌++◌, ℤ, CString,
  bytes, length, leb, arith, if◌then◌else◌, Bool-cases, inl, inr, is_some,
}
use ie0417_dev_b.Process.{World, Ptr, mem, mem-remove, remove, text}
use ie0417_dev_b.Uthash.{Uthash}
use ie0417_dev_b.EieDevice.{
  Mqtt, CjsonCase, FunctionInfo, DeviceHashEntry, EieDeviceConfig, Device, minus_one, copy_value,
  eie_device_create, eie_device_destroy, eie_device_start, eie_device_stop, eie_device_send_message,
}

copy_value-some :
    {J : Type 0} (value : J → Option CString) (a : ℕ) (i : J) (s : CString) (w : World)
    → value i ≡ some s
    → copy_value value 60 (some a) (some i) w ≡ (if leb 60 (length s) then none else some (s, w))
unfolding copy_value
copy_value-some value a i s w e = rw e (ground arith)

module _ (J : CjsonCase) where
  open J use {Json, parse, get_object_item_case_sensitive, value_string, print_json}

  -- The configuration is a JSON document with the address and the id of the device.
  pub record IsConfig (cfg : EieDeviceConfig) (address id : CString) : Type 0 where
    pub json : Json
    pub address_item : Json
    pub id_item : Json
    pub display : CString
    pub parses : parse cfg.config_json ≡ some json
    pub has_address :
        get_object_item_case_sensitive
          (get_object_item_case_sensitive
            (get_object_item_case_sensitive
              (get_object_item_case_sensitive (some json) cfg.name)
              (bytes "properties"))
            (bytes "configuration"))
          (bytes "address")
        ≡ some address_item
    pub has_id :
        get_object_item_case_sensitive
          (get_object_item_case_sensitive
            (get_object_item_case_sensitive
              (get_object_item_case_sensitive (some json) cfg.name)
              (bytes "properties"))
            (bytes "configuration"))
          (bytes "id")
        ≡ some id_item
    pub address_string : value_string address_item ≡ some address
    pub id_string : value_string id_item ≡ some id
    pub prints : print_json json ≡ some display

module _ (H : Uthash DeviceHashEntry) (B : Mqtt) (J : CjsonCase) where
  open H use {Table, null, add_keyptr, items, items-add, items-null}
  open B use {Net, Client}

  -- The device in block `a`, with its entry in block `a + 1` and its client in block `a + 4`.
  abbrev pub device_at : ℕ → EieDeviceConfig → Ptr FunctionInfo → Client → Ptr (Device H B)
  device_at a cfg f c = record {
    addr = a;
    val = record {
      name = cfg.name;
      client = record { addr = a + 1 + 1 + 1 + 1; val = c };
      functions =
          add_keyptr null f.val.name (record { addr = a + 1; val = record { function = f } });
      features = cfg.config_json;
    };
  }

  -- The world after the five allocations and the output of `eie_device_create`.
  abbrev pub with_device : World → CString → World
  with_device w display = record w {
    next = w.next + 1 + 1 + 1 + 1 + 1;
    live =
        (w.next + 1 + 1 + 1 + 1)
        ∷ (w.next + 1 + 1 + 1)
        ∷ (w.next + 1 + 1)
        ∷ (w.next + 1)
        ∷ w.next
        ∷ w.live;
    out = w.out ++ text (bytes "Feature recieved:\n " ++ (display ++ bytes "\n")) ∷ [];
  }

  -- With memory for every allocation and a JSON configuration with the address and the id of the
  -- device, `eie_device_create` makes a device whose table has the one function and registers its
  -- callbacks with the client of that address and id; where the address or the id has 60 bytes or
  -- more it writes past a block.
  pub device_create-connects :
      (w : World) (cfg : EieDeviceConfig) (f : Ptr FunctionInfo) (net : Net) (address id : CString)
      → ((n : ℕ) → w.oom n ≡ false)
      → mem f.addr w.live ≡ true
      → (c : IsConfig J cfg address id)
      → eie_device_create H B J cfg (some f) net w ≡ (
          if leb 60 (length address) || leb 60 (length id)
          then none
          else some (
            (
              some (device_at w.next cfg f (B.create address id net).0),
              (B.set_callbacks (B.create address id net).0 w.next (B.create address id net).1).1,
            ),
            with_device w c.display,
          ))
  unfolding eie_device_create
  device_create-connects w cfg f net address id m h c =
      let there : mem f.addr ((w.next + 1) ∷ w.next ∷ w.live) ≡ true = ground arith in
      elim (Bool-cases (leb 60 (length address))) [
        | inl long ↦
            rw
              (
                m w.next,
                m (w.next + 1),
                there,
                m (w.next + 1 + 1),
                m (w.next + 1 + 1 + 1),
                m (w.next + 1 + 1 + 1 + 1),
                c.parses,
                c.has_address,
                c.address_string,
                long,
              )
              refl
        | inr fits ↦
            rw
              (
                m w.next,
                m (w.next + 1),
                there,
                m (w.next + 1 + 1),
                m (w.next + 1 + 1 + 1),
                m (w.next + 1 + 1 + 1 + 1),
                c.parses,
                c.has_address,
                c.address_string,
                fits,
                c.has_id,
                c.id_string,
              )
              (elim (Bool-cases (leb 60 (length id))) [
                | inl long ↦ rw long refl
                | inr fits' ↦ rw (fits', c.prints) refl
              ])
      ]

  -- Destroying a device frees the device and the entry of its table, whatever else is allocated.
  pub destroy-run :
      (w : World) (a : ℕ) (cfg : EieDeviceConfig) (f : Ptr FunctionInfo) (c : Client) (net : Net)
      (uninit : ℤ)
      → mem a w.live ≡ true
      → mem (a + 1) w.live ≡ true
      → mem (a + 1 + 1 + 1 + 1) w.live ≡ true
      → eie_device_destroy H B (device_at a cfg f c) uninit net w
        ≡ some ((uninit, B.destroy c net), record w { live = remove a (remove (a + 1) w.live) })
  unfolding eie_device_destroy
  destroy-run w a cfg f c net uninit self entry_live client =
      let entry : Ptr DeviceHashEntry = record { addr = a + 1; val = record { function = f } } in
      let one : items (add_keyptr null f.val.name entry) ≡ (f.val.name, entry) ∷ [] =
        items-add null f.val.name entry ∙ ap (λ l. l ++ (f.val.name, entry) ∷ []) items-null in
      let still = mem-remove a (a + 1) w.live (omega arith) self in
      rw (self, client, one, entry_live, still) refl

  -- With memory for every allocation and a JSON configuration with an address and an id of less
  -- than 60 bytes, a device that `eie_device_create` makes is taken down by `eie_device_destroy`
  -- without a fault: the client of that address and id is destroyed, the result is whatever the
  -- uninitialised local variable holds, and the block of the client and the two blocks of its
  -- address and id stay allocated, and nothing else.
  pub device_create_destroy :
      (w : World) (cfg : EieDeviceConfig) (f : Ptr FunctionInfo) (net : Net) (address id : CString)
      (uninit : ℤ)
      → ((n : ℕ) → w.oom n ≡ false)
      → mem f.addr w.live ≡ true
      → (c : IsConfig J cfg address id) → leb 60 (length address) ≡ false
      → leb 60 (length id) ≡ false
      → (d : Ptr (Device H B)) × (net1 : Net) × (w1 : World) × (w2 : World) × (eie_device_create H B
            J cfg
            (some f)
            net
            w
          ≡ some ((some d, net1), w1))
        × (eie_device_destroy H B d uninit net1 w1
            ≡ some ((uninit, B.destroy (B.create address id net).0 net1), w2))
        × (w2.live ≡ (w.next + 1 + 1 + 1 + 1) ∷ (w.next + 1 + 1 + 1) ∷ (w.next + 1 + 1) ∷ w.live)
  device_create_destroy w cfg f net address id uninit m h c short short' = (
    device_at w.next cfg f (B.create address id net).0,
    (B.set_callbacks (B.create address id net).0 w.next (B.create address id net).1).1,
    with_device w c.display,
    _,
    device_create-connects w cfg f net address id m h c ∙ rw (short, short') refl,
    destroy-run (with_device w c.display) w.next cfg f _ _ uninit (ground arith) (ground arith)
        (ground arith),
    ground arith,
  )

module _ (H : Uthash DeviceHashEntry) (B : Mqtt) where
  open B use {Net}

  abbrev pub refused : World → CString → Net → Option ((ℤ × Net) × World)
  refused w s net = some ((minus_one, net), record w { out = w.out ++ text s ∷ [] })

  -- Without a device `eie_device_start`, `eie_device_stop` and `eie_device_send_message`, and
  -- without a message `eie_device_send_message`, return -1, print one line, and leave the
  -- connection as it is.
  pub calls-refused :
      (p : Option (Ptr (Device H B))) (s : Option CString) (net : Net) (w : World)
      → (eie_device_start H B none net w ≡ refused w (bytes "Device pointer cannot be null\n") net)
        × (eie_device_stop H B none net w ≡ refused w (bytes "Device pointer cannot be null\n") net)
        × (eie_device_send_message H B none s net w
            ≡ refused w (bytes "Device pointer cannot be null\n") net)
        × (eie_device_send_message H B p none net w
            ≡ refused w
                (if is_some p
                  then bytes "Message pointer cannot be null\n"
                  else bytes "Device pointer cannot be null\n")
                net)
  unfolding eie_device_start eie_device_stop eie_device_send_message
  calls-refused none s net w = (refl, refl, refl, refl)
  calls-refused (some p) s net w = (refl, refl, refl, refl)
