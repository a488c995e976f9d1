-- ===== src/Operation/Counter/RoundTrip.antt =====
-- internal/operation/counter.go: a counter's configuration and event, written and read.
use go_client.Prelude.{
  ℕ, ◌≡◌, refl, Bool, true, false, not, bit_and, bit_or, ◌==◌, if◌then◌else◌, IsU32, IsU64, ap, ◌∙◌,
  Bool-cases, inl, inr,
}
use go_client.Io.{Bytes, done, Read}
use go_client.Io.Encodes.{Encodes, Encodes-bind, Encodes-map, Encodes-pure, >>=-eq-done, >>=-done}
use go_client.Codec.VarInt.RoundTrip.{vint-Encodes}
use go_client.Codec.Wire.{read_lp_bytes, read_lp_string, read_u1, read_long}
use go_client.Codec.Wire.RoundTrip.{u1-Encodes, long-Encodes}
use go_client.Operation.Counter.{
  counter_strong, counter_weak, storage_volatile, storage_persistent, CounterConfiguration,
  counter_flags, write_concurrency, write_bounds, write_counter_configuration, read_concurrency,
  read_bounds, decode_counter_configuration, CounterEvent, decode_counter_event_body, ignored,
  skip_counter_event_body,
}

abbrev is_weak : CounterConfiguration → Bool
is_weak cc = cc.counter_type == counter_weak

abbrev is_persistent : CounterConfiguration → Bool
is_persistent cc = cc.storage == storage_persistent

-- The configuration without what is not sent: the concurrency level of a strong counter, and the bounds of
-- one that has none.
unfoldable pub sent_configuration : CounterConfiguration → CounterConfiguration
sent_configuration cc = record {
  counter_type = if is_weak cc then counter_weak else counter_strong;
  bounded = cc.bounded;
  storage = if is_persistent cc then storage_persistent else storage_volatile;
  concurrency_level = if is_weak cc then cc.concurrency_level else 0;
  lower_bound = if cc.bounded then cc.lower_bound else 0;
  upper_bound = if cc.bounded then cc.upper_bound else 0;
  initial_value = cc.initial_value;
}

pub record IsCounterConfiguration (cc : CounterConfiguration) : Type 0 where
  pub concurrency_level : IsU32 cc.concurrency_level
  pub lower_bound : IsU64 cc.lower_bound
  pub upper_bound : IsU64 cc.upper_bound
  pub initial_value : IsU64 cc.initial_value

-- What the flags tell, of the three tests that they are made from.
abbrev flags_of : Bool → Bool → Bool → ℕ
flags_of weak bounded persistent =
    let f = if weak then bit_or 0 0x01 else 0 in
    let g = if bounded then bit_or f 0x02 else f in if persistent then bit_or g 0x04 else g

abbrev Tells : ℕ → Bool → Bool → Bool → Type 0
Tells flags weak bounded persistent =
    (not (bit_and flags 0x01 == 0) ≡ weak)
    × ((not (bit_and flags 0x02 == 0) ≡ bounded)
        × (((if bit_and flags 0x01 == 0 then counter_strong else counter_weak)
              ≡ (if weak then counter_weak else counter_strong))
            × ((if bit_and flags 0x04 == 0 then storage_volatile else storage_persistent)
                ≡ (if persistent then storage_persistent else storage_volatile))))

tell :
    (weak bounded persistent : Bool)
    → Tells (flags_of weak bounded persistent) weak bounded persistent
tell true true true = (refl, (refl, (refl, refl)))
tell true true false = (refl, (refl, (refl, refl)))
tell true false true = (refl, (refl, (refl, refl)))
tell true false false = (refl, (refl, (refl, refl)))
tell false true true = (refl, (refl, (refl, refl)))
tell false true false = (refl, (refl, (refl, refl)))
tell false false true = (refl, (refl, (refl, refl)))
tell false false false = (refl, (refl, (refl, refl)))

flags_tell :
    (cc : CounterConfiguration)
    → Tells (counter_flags cc) (is_weak cc) cc.bounded (is_persistent cc)
unfolding counter_flags
flags_tell cc = tell (is_weak cc) cc.bounded (is_persistent cc)

concurrency-Encodes :
    (cc : CounterConfiguration)
    → IsU32 cc.concurrency_level
    → Encodes
        (write_concurrency cc)
        (read_concurrency (is_weak cc))
        (if is_weak cc then cc.concurrency_level else 0)
unfolding write_concurrency read_concurrency
concurrency-Encodes cc h = elim (Bool-cases (is_weak cc)) [
  | inl weak ↦ rw weak (vint-Encodes cc.concurrency_level h)
  | inr strong ↦ rw strong (Encodes-pure 0)
]

bounds-Encodes :
    (cc : CounterConfiguration)
    → IsU64 cc.lower_bound
    → IsU64 cc.upper_bound
    → Encodes
        (write_bounds cc)
        (read_bounds cc.bounded)
        (if cc.bounded then cc.lower_bound else 0, if cc.bounded then cc.upper_bound else 0)
unfolding write_bounds read_bounds
bounds-Encodes cc hl hu = elim (Bool-cases cc.bounded) [
  | inl bounded ↦ rw bounded (
      Encodes-bind _ (long-Encodes cc.lower_bound hl)
        (Encodes-map _ (long-Encodes cc.upper_bound hu)))
  | inr free ↦ rw free (Encodes-pure (0, 0))
]

-- decodeCounterConfiguration reads back a configuration with fields in their ranges, without what is not
-- sent: the concurrency level of a strong counter, and the bounds of one that has none.
pub counter_configuration-Encodes :
    (cc : CounterConfiguration)
    → IsCounterConfiguration cc
    → Encodes (write_counter_configuration cc) decode_counter_configuration (sent_configuration cc)
unfolding write_counter_configuration decode_counter_configuration sent_configuration
counter_configuration-Encodes cc h =
    let (weak, (bounded, (kind, kept))) = flags_tell cc in
    Encodes-bind _ (u1-Encodes (counter_flags cc)) (
      rw (weak, bounded, kind, kept)
        (Encodes-bind _ (concurrency-Encodes cc h.concurrency_level) (
          Encodes-bind _ (bounds-Encodes cc h.lower_bound h.upper_bound)
            (Encodes-map _ (long-Encodes cc.initial_value h.initial_value)))))

ignored-done {ℓ} :
    {A : Type ℓ} (r : Read A) (s : Bytes) (a : A) (t : Bytes)
    → r s ≡ done a t
    → ignored r s ≡ done tt t
ignored-done r s a t h = rw (ignored, h) refl

-- SkipCounterEventBody takes from the input exactly what DecodeCounterEventBody takes, wherever that
-- succeeds.
pub skip_counter_event_body-decoded :
    (s : Bytes) (e : CounterEvent × Bytes) (s' : Bytes)
    → decode_counter_event_body s ≡ done e s'
    → skip_counter_event_body s ≡ done tt s'
unfolding decode_counter_event_body skip_counter_event_body
skip_counter_event_body-decoded s e s' h =
    let (name, (s1, (r1, h1))) = >>=-eq-done _ e s' read_lp_string s h in
    let (id, (s2, (r2, h2))) = >>=-eq-done _ e s' read_lp_bytes s1 h1 in
    let (flags, (s3, (r3, h3))) = >>=-eq-done _ e s' read_u1 s2 h2 in
    let (old, (s4, (r4, h4))) = >>=-eq-done _ e s' read_long s3 h3 in
    let (new, (s5, (r5, h5))) = >>=-eq-done _ e s' read_long s4 h4 in
    let rest : s5 ≡ s' = cc in
    >>=-done _ (ignored read_lp_string) s tt s1 (ignored-done read_lp_string s name s1 r1)
    ∙ (>>=-done _ (ignored read_lp_bytes) s1 tt s2 (ignored-done read_lp_bytes s1 id s2 r2)
        ∙ (>>=-done _ (ignored read_u1) s2 tt s3 (ignored-done read_u1 s2 flags s3 r3)
            ∙ (>>=-done _ (ignored read_long) s3 tt s4 (ignored-done read_long s3 old s4 r4)
                ∙ (ignored-done read_long s4 new s5 r5 ∙ ap (done tt) rest))))
