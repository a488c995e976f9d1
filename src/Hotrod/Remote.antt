-- ===== src/Hotrod/Remote.antt =====
-- hotrod/hotrod.go: the operations of a RemoteCache on one key and on the whole cache.
pub mod Answers
pub mod Previous
use go_client.Prelude.{
  ℕ, List, [], ◌∷◌, Option, none, some, Bool, true, false, if◌then◌else◌, bit_or,
}
use go_client.Io.{Bytes}
use go_client.Codec.Wire.{EntryMetadata}
use go_client.Operation.Entry
use go_client.Operation.Entry.{EntryOp, CasResponse}
use go_client.Operation.Key
use go_client.Operation.Key.{
  KeyOp, PlainKeyOp, GetResponse, GetWithVersionResponse, GetWithMetadataResponse, RemoveResponse,
}
use go_client.Operation.Bulk
use go_client.Operation.Service
use go_client.Hotrod.Execute.{
  Server, Call, returned, call_failed, call_panicked, and_then, mapped, execute, execute_asserted,
}
use go_client.Hotrod.Options.{PutConfig, PutOption, empty_put, configure, flag_force_return_value}

pub record RemoteCache : Type 0 where
  pub name : Bytes
  pub key_media_type : ℕ
  pub val_media_type : ℕ

-- Client.Cache.
unfoldable pub cache : Bytes → RemoteCache
cache name = record { name = name; key_media_type = 0; val_media_type = 0 }

unfoldable pub with_encoding : ℕ → RemoteCache → RemoteCache
with_encoding mt rc = record { name = rc.name; key_media_type = mt; val_media_type = mt }

unfoldable pub with_key_encoding : ℕ → RemoteCache → RemoteCache
with_key_encoding mt rc = record rc { key_media_type = mt }

unfoldable pub with_value_encoding : ℕ → RemoteCache → RemoteCache
with_value_encoding mt rc = record rc { val_media_type = mt }

-- The fields that Put, PutIfAbsent, Replace and their variants give to their operation.
unfoldable pub entry_op : RemoteCache → Bytes → Bytes → PutConfig → EntryOp
entry_op rc key value cfg = record {
  cache = rc.name;
  key = key;
  value = value;
  lifespan = cfg.lifespan;
  max_idle = cfg.max_idle;
  key_mt = rc.key_media_type;
  value_mt = rc.val_media_type;
  op_flags = cfg.flags;
}

unfoldable pub key_op : RemoteCache → Bytes → ℕ → KeyOp
key_op rc key flags = record {
  cache = rc.name;
  key = key;
  key_mt = rc.key_media_type;
  value_mt = rc.val_media_type;
  op_flags = flags;
}

-- The fields that Has and GetWithVersion give to theirs.
unfoldable pub plain_key_op : RemoteCache → Bytes → PlainKeyOp
plain_key_op rc key = record { cache = rc.name; key = key; op_flags = 0 }

-- `cfg.flags |= int32(FlagForceReturnValue)`
abbrev pub forced : PutConfig → PutConfig
forced cfg = record cfg { flags = bit_or cfg.flags flag_force_return_value }

abbrev pub previous : CasResponse → Option Bytes × Bool
previous r = (r.previous_value, r.success)

module _ (server : Server) (rc : RemoteCache) where
  -- putInternal.
  unfoldable pub put : Bytes → Bytes → List PutOption → Call (Unit {0})
  put key value opts =
      mapped (λ r. tt)
        (execute server (Entry.put (entry_op rc key value (configure opts empty_put))))

  -- A previous value that is empty is returned as nil.
  unfoldable pub get_and_put : Bytes → Bytes → List PutOption → Call (Option Bytes)
  get_and_put key value opts =
      mapped (λ prev. elim prev [ [] ↦ none | b ∷ s ↦ some (b ∷ s) ])
        (execute_asserted server
          (Entry.put (entry_op rc key value (forced (configure opts empty_put)))))

  -- getInternal, without options.
  unfoldable pub get : Bytes → Call (Option Bytes × Bool)
  get key = mapped (λ r. (r.value, r.found)) (execute server (Key.get (key_op rc key 0)))

  -- A response that is found has metadata; without them their reading would panic.
  unfoldable pub get_with_metadata : Bytes → Call (Option (Option Bytes × EntryMetadata))
  get_with_metadata key =
      and_then (execute server (Key.get_with_metadata (key_op rc key 0))) λ resp.
        if resp.found
        then elim resp.metadata [
          | none ↦ call_panicked
          | some md ↦ returned (some (resp.value, md))
        ]
        else returned none

  unfoldable pub get_with_version : Bytes → Call (Option (Option Bytes × ℕ))
  get_with_version key =
      mapped (λ resp. if resp.found then some (resp.value, resp.version) else none)
        (execute server (Key.get_with_version (plain_key_op rc key)))

  unfoldable pub replace_if_unmodified : Bytes → Bytes → ℕ → List PutOption → Call Bool
  replace_if_unmodified key value version opts =
      let cfg = configure opts empty_put in
      mapped (λ r. r.success)
        (execute server (
          Entry.replace_if_unmodified (record {
            cache = rc.name;
            key = key;
            value = value;
            version = version;
            lifespan = cfg.lifespan;
            max_idle = cfg.max_idle;
            op_flags = cfg.flags;
          })))

  unfoldable pub remove_if_unmodified : Bytes → ℕ → Call Bool
  remove_if_unmodified key version =
      mapped (λ r. r.success)
        (execute server (
          Entry.remove_if_unmodified
            (record { cache = rc.name; key = key; version = version; op_flags = 0 })))

  unfoldable pub remove : Bytes → List (ℕ → ℕ) → Call (Unit {0})
  remove key opts =
      mapped (λ r. tt) (execute server (Key.remove (key_op rc key (configure opts 0))))

  unfoldable pub get_and_remove : Bytes → List (ℕ → ℕ) → Call (Option Bytes × Bool)
  get_and_remove key opts =
      mapped (λ r. (r.previous_value, r.existed))
        (execute server
          (Key.remove (key_op rc key (bit_or (configure opts 0) flag_force_return_value))))

  unfoldable pub put_if_absent : Bytes → Bytes → List PutOption → Call Bool
  put_if_absent key value opts =
      mapped (λ r. r.success)
        (execute server (Entry.put_if_absent (entry_op rc key value (configure opts empty_put))))

  unfoldable pub put_if_absent_with_previous :
      Bytes → Bytes → List PutOption → Call (Option Bytes × Bool)
  put_if_absent_with_previous key value opts = mapped previous (
      execute server
        (Entry.put_if_absent (entry_op rc key value (forced (configure opts empty_put)))))

  unfoldable pub replace : Bytes → Bytes → List PutOption → Call Bool
  replace key value opts =
      mapped (λ r. r.success)
        (execute server (Entry.replace (entry_op rc key value (configure opts empty_put))))

  unfoldable pub replace_with_previous : Bytes → Bytes → List PutOption → Call (Option Bytes × Bool)
  replace_with_previous key value opts =
      mapped previous
        (execute server (Entry.replace (entry_op rc key value (forced (configure opts empty_put)))))

  unfoldable pub has : Bytes → Call Bool
  has key = execute server (Key.contains_key (plain_key_op rc key))

  unfoldable pub clear : Call (Unit {0})
  clear = execute server (Bulk.clear rc.name)

  unfoldable pub cache_stats : Call (List (Bytes × Bytes))
  cache_stats = execute server (Service.stats rc.name)

  unfoldable pub size : Call ℕ
  size = execute server (Bulk.size rc.name)
