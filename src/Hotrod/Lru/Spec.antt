-- ===== src/Hotrod/Lru/Spec.antt =====
-- What the store of hotrod/lru.go promises: pairs of a key and a value, the one used last in front.
use go_client.Prelude.{
  ℕ, List, [], ◌∷◌, Option, none, some, leb, if◌then◌else◌, length, find, discard, bytes_discrete,
}
use go_client.Io.{Bytes}

abbrev pub Recent : Type 0
Recent = List (Bytes × Bytes)

unfoldable pub use_entry : Bytes → Recent → Option Bytes × Recent
use_entry k s = elim (find bytes_discrete k s) [
  | none ↦ (none, s)
  | some v ↦ (some v, (k, v) ∷ discard bytes_discrete k s)
]

unfoldable pub without_last : Recent → Recent
without_last [] = []
without_last (e ∷ []) = []
without_last (e ∷ f ∷ s) = e ∷ without_last (f ∷ s)

unfoldable pub put_entry : ℕ → Bytes → Bytes → Recent → Recent
put_entry max k v s = elim (find bytes_discrete k s) [
  | some w ↦ (k, v) ∷ discard bytes_discrete k s
  | none ↦ (k, v) ∷ (if leb max (length s) then without_last s else s)
]
