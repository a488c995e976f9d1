-- ===== src/Protostream/Wire/Ends.antt =====
-- internal/protostream/wrapped.go: how ScanFields ends on any bytes.
use go_client.Prelude.{ℕ, ◌+◌, ◌^◌, ◌≤◌, ◌<◌, ◌≡◌, some}
use go_client.Io.{Bytes}
use go_client.Protostream.Wire.{Result, ok, err, out_of_range, out_of_fuel, decode_uvarint, drop}

-- From `p` on stand the bytes `s`; somewhere in them stands a varint that, taken for a length, ends at a
-- position of 2^63 or more, which is no int.
abbrev pub IsOverlong : ℕ → Bytes → Type 0
IsOverlong p s =
    (k : ℕ) × ((len : ℕ) × ((n : ℕ) × ((decode_uvarint (drop k s) ≡ some (len, n))
          × (2 ^ 63 ≤ p + (k + n) + len))))

-- A round from `s` at `p` that has not run out of fuel: it panics only at such a varint; if it goes on, it is
-- further on by a byte or more in the same bytes.
abbrev Consumes : {S : Type 0} → ℕ → Bytes → Result (ℕ × Bytes × S) → Type 0
Consumes p s (ok (pos', s', st)) = (n : ℕ) × ((0 < n) × ((pos' ≡ p + n) × (s' ≡ drop n s)))
Consumes p s (err e) = Unit
Consumes p s out_of_range = IsOverlong p s
Consumes p s out_of_fuel = ⊥

-- How the loop ends.
abbrev pub IsEnded : {S : Type 0} → ℕ → Bytes → Result S → Type 0
IsEnded p s (ok st) = Unit
IsEnded p s (err e) = Unit
IsEnded p s out_of_range = IsOverlong p s
IsEnded p s out_of_fuel = ⊥
