-- ===== src/Hotrod/Bulk.antt =====
-- hotrod/hotrod.go: PutAll and GetAll, which group the keys by owner and send a request for each group. The
-- groups' goroutines end in any order: the order in which the map's groups stand here. `at` is the server that a
-- request to an address reaches; the empty address stands for Pool.Execute.
pub mod Groups
use go_client.Prelude.{
  List, [], ◌∷◌, ◌++◌, map, Option, none, some, find, store, bytes_discrete, is_empty,
  if◌then◌else◌,
}
use go_client.Io.{Bytes, Error}
use go_client.Hash.ConsistentHash.{ConsistentHash, primary_owner}
use go_client.Operation.Bulk
use go_client.Operation.Bulk.{BulkEntry}
use go_client.Hotrod.Execute.{Server, Call, returned, call_failed, call_panicked, execute}
use go_client.Hotrod.Options.{PutConfig, PutOption, empty_put, configure}
use go_client.Hotrod.Remote.{RemoteCache}

-- The address that a key is grouped under; `none` is the panic of PrimaryOwner.
unfoldable pub owner : Option ConsistentHash → Bytes → Option Bytes
owner none key = some []
owner (some ch) key = primary_owner ch key

module _ {E : Type 0} where
  abbrev pub or_none : Option (List E) → List E
  or_none none = []
  or_none (some es) = es

  -- `groups[addr] = append(groups[addr], e)`
  unfoldable pub add_to : Bytes → E → List (Bytes × List E) → List (Bytes × List E)
  add_to addr e groups =
      store bytes_discrete addr (or_none (find bytes_discrete addr groups) ++ e ∷ []) groups

module _ {E : Type 0} (key_of : E → Bytes) where
  unfoldable pub group_by :
      Option ConsistentHash → List E → List (Bytes × List E) → Option (List (Bytes × List E))
  group_by ch [] groups = some groups
  group_by ch (e ∷ es) groups = elim (owner ch (key_of e)) [
    | none ↦ none
    | some addr ↦ group_by ch es (add_to addr e groups)
  ]

module _ (at : Bytes → Server) (rc : RemoteCache) where
  -- The request of one group.
  unfoldable pub send_group : PutConfig → Bytes × List BulkEntry → Call (Unit {0})
  send_group cfg (addr, entries) = execute (at addr) (
      Bulk.put_all (record {
        cache = rc.name;
        entries = entries;
        lifespan = cfg.lifespan;
        max_idle = cfg.max_idle;
      }))

  -- Every group is sent; the first error that arrived is returned.
  unfoldable pub dispatch_put_all : PutConfig → List (Bytes × List BulkEntry) → Call (Unit {0})
  dispatch_put_all cfg [] = returned tt
  dispatch_put_all cfg (g ∷ groups) =
      let rest = dispatch_put_all cfg groups in
      elim (send_group cfg g) [
        | returned u ↦ rest
        | call_failed e ↦ elim rest [ call_panicked ↦ call_panicked | _ ↦ call_failed e ]
        | call_panicked ↦ call_panicked
      ]

  unfoldable pub put_all : Option ConsistentHash → List BulkEntry → List PutOption → Call (Unit {0})
  put_all ch [] opts = returned tt
  put_all ch (e ∷ entries) opts = elim (group_by (λ p. p.0) ch (e ∷ entries) []) [
    | none ↦ call_panicked
    | some groups ↦ dispatch_put_all (configure opts empty_put) groups
  ]

  unfoldable pub fetch_group : Bytes × List Bytes → Call (List BulkEntry)
  fetch_group (addr, keys) =
      execute (at addr) (Bulk.get_all (record { cache = rc.name; keys = keys }))

  -- entriesToMap, and the merging loop.
  unfoldable pub merge_entries : List BulkEntry → List BulkEntry → List BulkEntry
  merge_entries [] merged = merged
  merge_entries ((k, v) ∷ entries) merged = merge_entries entries (store bytes_discrete k v merged)

  unfoldable pub dispatch_get_all :
      List (Bytes × List Bytes) → List BulkEntry → Call (List BulkEntry)
  dispatch_get_all [] merged = returned merged
  dispatch_get_all (g ∷ groups) merged = elim (fetch_group g) [
    | returned entries ↦ dispatch_get_all groups (merge_entries entries merged)
    | call_failed e ↦ elim (dispatch_get_all groups merged) [
      | call_panicked ↦ call_panicked
      | _ ↦ call_failed e
    ]
    | call_panicked ↦ call_panicked
  ]

  unfoldable pub get_all : Option ConsistentHash → List Bytes → Call (List BulkEntry)
  get_all ch [] = returned []
  get_all ch (k ∷ keys) = elim (group_by (λ q. q) ch (k ∷ keys) []) [
    | none ↦ call_panicked
    | some groups ↦ dispatch_get_all groups []
  ]
