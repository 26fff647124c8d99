-- ===== src/EieDevice.antt =====
-- src/proyecto/eie_device/src/eie_device.c: a device that exchanges messages with an MQTT broker,
-- and its table of callback functions.
mod Tests
pub mod Messages
pub mod Program
pub mod Keys
pub mod Startup
pub mod Calls
use ie0417_dev_b.Base.{
  ℕ, Bool, Option, none, some, List, [], ◌∷◌, ◌++◌, ℤ, pos, negsuc, is_nonzero, leb, CString, bytes,
  length, if◌then◌else◌,
}
use ie0417_dev_b.Process.{
  World, M, Ptr, pure, fault, ◌>>=◌, ◌>>◌, if_null, malloc, free, deref, load, str, print, text,
}
use ie0417_dev_b.Uthash.{Uthash}

-- What the device uses of the library MQTTClient, over the state of the connection.
pub record Mqtt : Type 1 where
  pub Net : Type 0
  pub Client : Type 0
  pub create : (address id : CString) → Net → Client × Net
  pub set_callbacks : Client → (device : ℕ) → Net → ℤ × Net
  pub connect : Client → (keep_alive clean_session : ℕ) → Net → ℤ × Net
  pub subscribe : Client → (topic : CString) → (qos : ℕ) → Net → ℤ × Net
  pub disconnect : Client → (timeout : ℕ) → Net → ℤ × Net
  pub publish_message : Client → (topic payload : CString) → (qos retained : ℕ) → Net → ℤ × Net
  pub destroy : Client → Net → Net

-- What it uses of cJSON. `value_string` is the field `valuestring`.
pub record CjsonCase : Type 1 where
  pub Json : Type 0
  pub parse : CString → Option Json
  pub get_object_item_case_sensitive : Option Json → CString → Option Json
  pub value_string : Json → Option CString
  pub print_json : Json → Option CString

-- A callback function goes by its address.
pub record FunctionInfo : Type 0 where
  pub name : CString
  pub execute : ℕ

pub record DeviceHashEntry : Type 0 where
  pub function : Ptr FunctionInfo

pub record EieDeviceConfig : Type 0 where
  pub name : CString
  pub config_json : CString

-- `client` points to a block of its own.
pub record EieDevice (Client Table : Type 0) : Type 0 where
  pub name : CString
  pub client : Ptr Client
  pub functions : Table
  pub features : CString

abbrev pub minus_one : ℤ
minus_one = negsuc 0

abbrev pub minus_enomem : ℤ
minus_enomem = negsuc 11

-- `strcpy` of the `valuestring` of an item that may be NULL into a block of `size` bytes that may be
-- NULL.
unfoldable pub copy_value :
    {J : Type 0} → (J → Option CString) → (size : ℕ) → Option ℕ → Option J → M CString
unfolding str
copy_value value size p item =
    if_null item fault
      λ i. if_null p fault λ a. do s ← str (value i); if leb size (length s) then fault else pure s

unfoldable pub info_create : CString → Option ℕ → M (Option (Ptr FunctionInfo))
unfolding malloc free
info_create name execute = do
  p ← malloc
  if_null p (pure none) λ a.
      if_null execute (do free a; pure none)
        λ f. pure (some (record { addr = a; val = record { name = name; execute = f } }))

module _ (H : Uthash DeviceHashEntry) where
  open H use {Table, null, add_keyptr, find, delete, items}

  unfoldable pub eie_device_ht_add : Table → Option (Ptr FunctionInfo) → M (ℤ × Table)
  unfolding malloc load
  eie_device_ht_add t function = do
    m ← malloc
    if_null m (pure (minus_enomem, t)) λ a. do
      info ← load function
      if_null function fault λ p.
          pure (pos 0, add_keyptr t info.name (record { addr = a; val = record { function = p } }))

  unfoldable pub eie_device_ht_remove : Table → Ptr FunctionInfo → M (ℤ × Table)
  unfolding deref free
  eie_device_ht_remove t function = do
    info ← deref function
    if_null (find t info.name) (pure (minus_one, t))
        λ entry. do let t' = delete t entry; free entry.addr; pure (pos 0, t')

  -- HASH_ITER keeps the next entry in `tmp`, so it visits the entries that it began with.
  unfoldable pub eie_device_ht_destroy_loop : List (CString × Ptr DeviceHashEntry) → Table → M Table
  unfolding free
  eie_device_ht_destroy_loop [] t = pure t
  eie_device_ht_destroy_loop ((k, entry) ∷ l) t = do
    let t' = delete t entry
    free entry.addr
    eie_device_ht_destroy_loop l t'

  unfoldable pub eie_device_ht_destroy : Table → M Table
  unfolding eie_device_ht_destroy_loop
  eie_device_ht_destroy t = eie_device_ht_destroy_loop (items t) t

  unfoldable pub eie_device_ht_create : Option (Ptr FunctionInfo) → M (ℤ × Table)
  unfolding eie_device_ht_add
  eie_device_ht_create function = eie_device_ht_add null function

module _ (H : Uthash DeviceHashEntry) (B : Mqtt) where
  open H use {Table}
  open B use {Net, Client}

  abbrev pub Device : Type 0
  Device = EieDevice Client Table

  -- `uninit` is what the local variable `ret` holds, which nothing writes.
  unfoldable pub eie_device_destroy : Ptr Device → (uninit : ℤ) → Net → M (ℤ × Net)
  unfolding deref free eie_device_ht_destroy
  eie_device_destroy p uninit net = do
    device ← deref p
    client ← deref device.client
    eie_device_ht_destroy H device.functions
    free p.addr
    pure (uninit, B.destroy client net)

  -- The answers of `MQTTClient_connect` and `MQTTClient_subscribe` are dropped. `asprintf` allocates
  -- the topic, and without memory leaves it undefined.
  unfoldable pub eie_device_start : Option (Ptr Device) → Net → M (ℤ × Net)
  unfolding deref malloc print
  eie_device_start none net = do
    print (text (bytes "Device pointer cannot be null\n"))
    pure (minus_one, net)
  eie_device_start (some p) net = do
    device ← deref p
    client ← deref device.client
    let (connected, net') = B.connect client 20 1 net
    t ← malloc
    if_null t fault λ a. do
      let topic = bytes "eie-manager/" ++ device.name
      print (text (bytes "Subscribing to topic " ++ (topic ++ bytes " for client using QoS 0\n\n")))
      let (subscribed, net'') = B.subscribe client topic 0 net'
      pure (pos 0, net'')

  unfoldable pub eie_device_stop : Option (Ptr Device) → Net → M (ℤ × Net)
  unfolding deref print
  eie_device_stop none net = do
    print (text (bytes "Device pointer cannot be null\n"))
    pure (minus_one, net)
  eie_device_stop (some p) net = do
    device ← deref p
    client ← deref device.client
    pure (B.disconnect client 10000 net)

  unfoldable pub eie_device_send_message : Option (Ptr Device) → Option CString → Net → M (ℤ × Net)
  unfolding deref print
  eie_device_send_message none msg_json net = do
    print (text (bytes "Device pointer cannot be null\n"))
    pure (minus_one, net)
  eie_device_send_message (some p) none net = do
    print (text (bytes "Message pointer cannot be null\n"))
    pure (minus_one, net)
  eie_device_send_message (some p) (some msg_json) net = do
    device ← deref p
    client ← deref device.client
    let answer = B.publish_message client (bytes "eie_device/tests") (bytes "Test") 0 0 net
    print (text (bytes "Waiting for publication\n"))
    pure answer

module _ (H : Uthash DeviceHashEntry) (B : Mqtt) (J : CjsonCase) where
  open B use {Net}
  open J use {Json, parse, get_object_item_case_sensitive, value_string, print_json}

  -- The client's block must be there, since `*client` is read. The answer of
  -- `MQTTClient_setCallbacks` is dropped.
  unfoldable pub eie_device_create :
      EieDeviceConfig → Option (Ptr FunctionInfo) → Net → M (Option (Ptr (Device H B)) × Net)
  unfolding malloc eie_device_ht_create copy_value str print
  eie_device_create cfg function net = do
    p ← malloc
    if_null p (pure (none, net)) λ a. do
      (ret, t) ← eie_device_ht_create H function
      if is_nonzero ret then pure (none, net) else (do
        tmp0 ← malloc
        tmp1 ← malloc
        c ← malloc
        if_null (parse cfg.config_json) (pure (none, net)) λ json. do
          let feature_id = get_object_item_case_sensitive (some json) cfg.name
          let properties = get_object_item_case_sensitive feature_id (bytes "properties")
          let configuration = get_object_item_case_sensitive properties (bytes "configuration")
          address ←
              copy_value value_string 60 tmp0
                (get_object_item_case_sensitive configuration (bytes "address"))
          id ←
              copy_value value_string 60 tmp1
                (get_object_item_case_sensitive configuration (bytes "id"))
          display ← str (print_json json)
          print (text (bytes "Feature recieved:\n " ++ (display ++ bytes "\n")))
          if_null c fault λ b. do
            let (client, net') = B.create address id net
            let (set, net'') = B.set_callbacks client a net'
            pure (
              some (record {
                addr = a;
                val = record {
                  name = cfg.name;
                  client = record { addr = b; val = client };
                  functions = t;
                  features = cfg.config_json;
                };
              }),
              net'',
            ))
