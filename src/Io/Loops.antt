-- ===== src/Io/Loops.antt =====
-- The counted loops of the codec: `for i := range n` over a reader, and `for _, x := range xs` over a
-- writer, each of which returns at the first error.
use go_client.Prelude.{ℕ, zero, suc, List, [], ◌∷◌}
use go_client.Io.Defs.{Read, ◌>>=◌, pure, Write, wrote, ◌>>◌}

-- `i` is the index of the next element.
unfoldable pub read_times {ℓ} : {A : Type ℓ} → ℕ → ℕ → (ℕ → Read A) → Read (List A)
read_times zero i r = pure []
read_times (suc n) i r = do a ← r i; rest ← read_times n (suc i) r; pure (a ∷ rest)

unfoldable pub write_each {ℓ} : {A : Type ℓ} → (A → Write) → List A → Write
write_each w [] = wrote []
write_each w (a ∷ rest) = do w a; write_each w rest
