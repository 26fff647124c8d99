-- ===== src/EieDevice/Messages.antt =====
-- src/proyecto/eie_device/src/eie_device.c: the handlers of an MQTT client's events.
use ie0417_dev_b.Base.{
  ℕ, ◌≡◌, refl, Bool, false, Option, none, some, ℤ, CString, bytes, arith, if◌then◌else◌,
  Option-cases, inl, inr,
}
use ie0417_dev_b.Process.{
  World, M, Ptr, pure, fault, ◌>>=◌, ◌>>◌, if_null, malloc, deref, load, print, text, and_then-none,
}
use ie0417_dev_b.Uthash.{Uthash}
use ie0417_dev_b.EieDevice.{Mqtt, DeviceHashEntry, Device, copy_value, eie_device_send_message}

-- cJSON with the documents that are allocated. A handle points to an item of a document; items under
-- it are reached through it, and are freed with it.
pub record CjsonOwned : Type 1 where
  pub Json : Type 0
  pub Documents : Type 0
  pub parse : CString → Documents → Option Json × Documents
  pub get_object_item_case_sensitive : Documents → Option Json → CString → Option Json
  pub value_string : Documents → Json → Option CString
  pub is_live : Documents → Json → Bool
  pub delete : Documents → Json → Documents
  pub get-null : (d : Documents) (key : CString) → get_object_item_case_sensitive d none key ≡ none
  pub delete-child :
      (d : Documents) (j c : Json) (key : CString)
      → get_object_item_case_sensitive d (some j) key ≡ some c
      → is_live (delete d j) c ≡ false

module _ (J : CjsonOwned) where
  open J use {
    Json, Documents, parse, get_object_item_case_sensitive, value_string, is_live, delete, get-null,
    delete-child,
  }

  -- `cJSON_Delete`: NULL is skipped, and freeing what is free is a fault.
  unfoldable pub cjson_delete : Option Json → Documents → M Documents
  cjson_delete none d = pure d
  cjson_delete (some j) d = if is_live d j then pure (delete d j) else fault

  -- The three calls at the end of `eie_device_parse_ditto_json`.
  unfoldable pub delete_items :
      (feature_id properties ditto_payload : Option Json) → Documents → M Documents
  unfolding cjson_delete
  delete_items feature_id properties ditto_payload d = do
    d2 ← cjson_delete feature_id d
    d3 ← cjson_delete properties d2
    cjson_delete ditto_payload d3

  -- `features` is a block of 254 bytes, or NULL; the result is the string that is left in it.
  unfoldable pub eie_device_parse_ditto_json :
      (payload : CString) (features : Option ℕ) (topic_name : CString)
      → Documents
      → M (CString × Documents)
  unfolding copy_value delete_items
  eie_device_parse_ditto_json payload features topic_name d = do
    let (ditto_payload, d1) = parse payload d
    let feature_id = get_object_item_case_sensitive d1 ditto_payload topic_name
    let properties = get_object_item_case_sensitive d1 feature_id (bytes "properties")
    s ← copy_value (value_string d1) 254 features properties
    d2 ← delete_items feature_id properties ditto_payload d1
    pure (s, d2)

module _ (H : Uthash DeviceHashEntry) (B : Mqtt) (J : CjsonOwned) where
  open B use {Net}
  open J use {Documents}

  -- `callback` is what the function at an address writes to `response`, and `uninit` is what a caller
  -- finds as the result, since the code returns none.
  module _ (callback : ℕ → CString → CString → CString) (uninit : ℤ)
      (context : Ptr (Device H B)) where
    -- What follows the two allocations.
    unfoldable pub msg_arrived :
        (features response : Option ℕ) (topic_name payload : CString)
        → Net
        → Documents
        → M (ℤ × Net × Documents)
    unfolding eie_device_parse_ditto_json deref load eie_device_send_message
    msg_arrived features response topic_name payload net d = do
      (s, d') ← eie_device_parse_ditto_json J payload features topic_name d
      device ← deref context
      entry ← load (H.find device.functions topic_name)
      function ← deref entry.function
      if_null response fault λ r. do
        (ret, net') ←
            eie_device_send_message H B (some context)
              (some (callback function.execute topic_name s)) net
        pure (uninit, net', d')

    unfoldable pub eie_device_msg_arrived_cb :
        (topic_name payload : CString) → Net → Documents → M (ℤ × Net × Documents)
    unfolding print malloc msg_arrived
    eie_device_msg_arrived_cb topic_name payload net d = do
      print (text (bytes "Message recieved.\n"))
      features ← malloc
      response ← malloc
      msg_arrived features response topic_name payload net d

unfoldable pub eie_device_msg_delivered_cb : M (Unit {0})
unfolding print
eie_device_msg_delivered_cb = print (text (bytes "Message delivered.\n"))

unfoldable pub eie_device_conn_lost_cb : M (Unit {0})
unfolding print
eie_device_conn_lost_cb = print (text (bytes "Connection lost.\n"))

module _ (J : CjsonOwned) where
  open J use {
    Json, Documents, parse, get_object_item_case_sensitive, value_string, get-null, delete-child,
    is_live,
  }

  -- The item under another is freed twice.
  delete_items-none :
      (feature_id : Option Json) (c : Json) (ditto_payload : Option Json) (key : CString)
      (d : Documents) (w : World)
      → get_object_item_case_sensitive d feature_id key ≡ some c
      → delete_items J feature_id (some c) ditto_payload d w ≡ none
  unfolding delete_items
  delete_items-none none c root key d w e = absurd (ground (arith, get-null d key))
  delete_items-none (some j) c root key d w e = ground (arith, delete-child d j c key)

  -- `eie_device_parse_ditto_json` faults, whatever the payload and the memory are.
  pub parse_ditto_json-none :
      (payload : CString) (features : Option ℕ) (topic_name : CString) (d : Documents) (w : World)
      → eie_device_parse_ditto_json J payload features topic_name d w ≡ none
  unfolding eie_device_parse_ditto_json
  parse_ditto_json-none payload features topic_name d w =
      let d1 = (parse payload d).1 in
      let feature_id = get_object_item_case_sensitive d1 (parse payload d).0 topic_name in
      elim (Option-cases (get_object_item_case_sensitive d1 feature_id (bytes "properties"))) [
        | inl e ↦ rw e refl
        | inr (c, e) ↦ rw e (
            and_then-none (copy_value (value_string d1) 254 features (some c) w) _ (λ s w'.
              rw (delete_items-none feature_id c (parse payload d).0 (bytes "properties") d1 w' e)
                refl))
      ]

module _ (H : Uthash DeviceHashEntry) (B : Mqtt) (J : CjsonOwned) where
  open B use {Net}
  open J use {Documents}

  module _ (callback : ℕ → CString → CString → CString) (uninit : ℤ)
      (context : Ptr (Device H B)) where
    arrived-none :
        (features response : Option ℕ) (topic_name payload : CString) (net : Net) (d : Documents)
        (w : World)
        → msg_arrived H B J callback uninit context features response topic_name payload net d w
          ≡ none
    unfolding msg_arrived
    arrived-none features response topic_name payload net d w =
        rw (parse_ditto_json-none J payload features topic_name d w) refl

    -- Every call of `eie_device_msg_arrived_cb` faults, for any message and in any state: it copies
    -- through a NULL pointer or a block that is too small, or it deletes an item of the document
    -- twice.
    pub msg_arrived_cb-none :
        (topic_name payload : CString) (net : Net) (d : Documents) (w : World)
        → eie_device_msg_arrived_cb H B J callback uninit context topic_name payload net d w ≡ none
    unfolding eie_device_msg_arrived_cb
    msg_arrived_cb-none topic_name payload net d w =
        let rest = λ (features response : Option ℕ).
          msg_arrived H B J callback uninit context features response topic_name payload net d in
        and_then-none (print (text (bytes "Message recieved.\n")) w)
          (λ x. do features ← malloc; response ← malloc; rest features response)
          λ x w1.
            and_then-none (malloc w1) (λ features. do response ← malloc; rest features response)
              λ features w2.
                and_then-none (malloc w2) (rest features)
                  (λ response w3. arrived-none features response topic_name payload net d w3)
