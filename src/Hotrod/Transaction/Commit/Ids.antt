-- ===== src/Hotrod/Transaction/Commit/Ids.antt =====
-- generateXID of hotrod/transaction.go: the identifiers have 32 bytes, and tell transactions apart.
use go_client.Prelude.{
  ℕ, ◌+◌, ◌≡◌, ◌≢◌, refl, [], ◌∷◌, ◌++◌, append-nil, length, length-append, u64, IsU64, arith, sym,
  ap, ◌∙◌,
}
use go_client.Io.{Bytes, Outcome, done, wrote}
use go_client.Codec.Wire.{write_long, read_long}
use go_client.Codec.Wire.RoundTrip.{long-Encodes}
use go_client.Operation.Transaction.Server.{IsXid}
use go_client.Hotrod.Transaction.Commit.{big_endian64, xid_part, generate_xid, xid_of}

-- The rest of two lists behind beginnings of the same length.
same_rest : (a b x y : Bytes) → length a ≡ length b → a ++ x ≡ b ++ y → x ≡ y
same_rest [] [] x y n e = e
same_rest [] (c ∷ b) x y n e = absurd (omega arith)
same_rest (c ∷ a) [] x y n e = absurd (omega arith)
same_rest (c ∷ a) (d ∷ b) x y n e = same_rest a b x y (omega arith) cc

read_big_endian64 : (v : ℕ) → IsU64 v → read_long (big_endian64 v) ≡ done v []
unfolding write_long
read_big_endian64 v h =
    let e = long-Encodes v h in
    let written : wrote (big_endian64 v) ≡ wrote e.bytes = e.written in
    let bytes : big_endian64 v ≡ e.bytes = cc in
    ap read_long (bytes ∙ sym (append-nil e.bytes)) ∙ e.read_back []

big_endian64-injective : (v w : ℕ) → IsU64 v → IsU64 w → big_endian64 v ≡ big_endian64 w → v ≡ w
big_endian64-injective v w hv hw same =
    let dones : Path (Outcome ℕ) (done v []) (done w []) =
      sym (read_big_endian64 v hv) ∙ (ap read_long same ∙ read_big_endian64 w hw) in
    cc

length-xid_part :
    (random : Bytes) (now c : ℕ) → length random ≡ 16 → length (xid_part random now c) ≡ 32
unfolding xid_part
length-xid_part random now c h =
    omega (arith, length-append random (big_endian64 now ++ big_endian64 c))

xid_part-injective :
    (random random' : Bytes) (now now' c c' : ℕ)
    → length random ≡ 16
    → length random' ≡ 16
    → IsU64 c
    → IsU64 c'
    → xid_part random now c ≡ xid_part random' now' c'
    → c ≡ c'
unfolding xid_part
xid_part-injective random random' now now' c c' h h' hc hc' same =
    let stamps =
      same_rest random random' (big_endian64 now ++ big_endian64 c)
        (big_endian64 now' ++ big_endian64 c') (h ∙ sym h') same in
    big_endian64-injective c c' hc hc'
      (same_rest (big_endian64 now) (big_endian64 now') _ _ refl stamps)

-- With 16 random bytes each, whatever the bytes and the times are, the identifiers that are made at
-- different values of the counter differ, and so do the two of one transaction.
pub generate_xid-distinct :
    (r s r' s' : Bytes) (times times' : ℕ × ℕ) (c c' : ℕ)
    → length r ≡ 16
    → length s ≡ 16
    → length r' ≡ 16
    → IsU64 c
    → IsU64 c'
    → c ≢ c'
    → ((generate_xid (r, s) times c).0.0 ≢ (generate_xid (r', s') times' c').0.0)
      × ((generate_xid (r, s) times c).0.0 ≢ (generate_xid (r, s) times c).0.1)
unfolding generate_xid
generate_xid-distinct r s r' s' times times' c c' hr hs hr' hc hc' differ = (
  λ same. differ (
      omega (
        arith,
        xid_part-injective r r' times.0 times'.0 (u64 (c + 1)) (u64 (c' + 1)) hr hr' (omega arith)
            (omega arith) same,
      )),
  λ same. absurd (
      omega (
        arith,
        xid_part-injective r s times.0 times.1 (u64 (c + 1)) (u64 (u64 (c + 1) + 1)) hr hs
            (omega arith) (omega arith) same,
      )),
)

pub generate_xid-IsXid :
    (r s : Bytes) (times : ℕ × ℕ) (c : ℕ)
    → length r ≡ 16
    → length s ≡ 16
    → IsXid (xid_of (generate_xid (r, s) times c).0)
unfolding generate_xid xid_of
generate_xid-IsXid r s times c hr hs = record {
  format_id = omega arith;
  global_tx_id = omega (arith, length-xid_part r times.0 (u64 (c + 1)) hr);
  branch_qual = omega (arith, length-xid_part s times.1 (u64 (u64 (c + 1) + 1)) hs);
}
