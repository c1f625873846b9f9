-- ===== src/Fetch/Receive/Write.antt =====
-- librespot_src/audio/src/fetch/receive.rs: the write of received data into the file.
use neotune.Common.{
  ℕ, zero, suc, ◌+◌, ◌≤◌, ◌<◌, ◌≡◌, refl, ap, List, [], ◌∷◌, length, get_elem?, arith,
}
use neotune.Fetch.Receive.{write_at}

pub length-write_at :
    (offset : ℕ) (bs file : List ℕ)
    → offset + length bs ≤ length file
    → length (write_at offset bs file) ≡ length file
unfolding write_at
length-write_at offset [] file h = refl
length-write_at zero (b ∷ bs) [] h = absurd (omega arith)
length-write_at zero (b ∷ bs) (x ∷ file) h = ap suc (length-write_at zero bs file (omega arith))
length-write_at (suc offset) (b ∷ bs) [] h = absurd (omega arith)
length-write_at (suc offset) (b ∷ bs) (x ∷ file) h =
    ap suc (length-write_at offset (b ∷ bs) file (omega arith))

-- The bytes that are written, and those around them.
pub write_at-inside :
    (offset : ℕ) (bs file : List ℕ) (v i : ℕ)
    → v ≡ offset + i
    → i < length bs
    → get_elem? (write_at offset bs file) v ≡ get_elem? bs i
unfolding write_at
write_at-inside offset [] file v i e h = absurd (omega arith)
write_at-inside zero (b ∷ bs) [] zero zero e h = refl
write_at-inside zero (b ∷ bs) [] zero (suc i) e h = absurd (omega arith)
write_at-inside zero (b ∷ bs) [] (suc v) zero e h = absurd (omega arith)
write_at-inside zero (b ∷ bs) [] (suc v) (suc i) e h =
    write_at-inside zero bs [] v i (omega arith) (omega arith)
write_at-inside zero (b ∷ bs) (x ∷ file) zero zero e h = refl
write_at-inside zero (b ∷ bs) (x ∷ file) zero (suc i) e h = absurd (omega arith)
write_at-inside zero (b ∷ bs) (x ∷ file) (suc v) zero e h = absurd (omega arith)
write_at-inside zero (b ∷ bs) (x ∷ file) (suc v) (suc i) e h =
    write_at-inside zero bs file v i (omega arith) (omega arith)
write_at-inside (suc offset) (b ∷ bs) file zero i e h = absurd (omega arith)
write_at-inside (suc offset) (b ∷ bs) [] (suc v) i e h =
    write_at-inside offset (b ∷ bs) [] v i (omega arith) (omega arith)
write_at-inside (suc offset) (b ∷ bs) (x ∷ file) (suc v) i e h =
    write_at-inside offset (b ∷ bs) file v i (omega arith) (omega arith)

pub write_at-before :
    (offset : ℕ) (bs file : List ℕ) (i : ℕ)
    → i < offset
    → offset ≤ length file
    → get_elem? (write_at offset bs file) i ≡ get_elem? file i
unfolding write_at
write_at-before offset [] file i h k = refl
write_at-before zero (b ∷ bs) file i h k = absurd (omega arith)
write_at-before (suc offset) (b ∷ bs) [] i h k = absurd (omega arith)
write_at-before (suc offset) (b ∷ bs) (x ∷ file) zero h k = refl
write_at-before (suc offset) (b ∷ bs) (x ∷ file) (suc i) h k =
    write_at-before offset (b ∷ bs) file i (omega arith) (omega arith)

pub write_at-behind :
    (offset : ℕ) (bs file : List ℕ) (i : ℕ)
    → offset + length bs ≤ i
    → offset + length bs ≤ length file
    → get_elem? (write_at offset bs file) i ≡ get_elem? file i
unfolding write_at
write_at-behind offset [] file i h k = refl
write_at-behind zero (b ∷ bs) [] i h k = absurd (omega arith)
write_at-behind zero (b ∷ bs) (x ∷ file) zero h k = absurd (omega arith)
write_at-behind zero (b ∷ bs) (x ∷ file) (suc i) h k =
    write_at-behind zero bs file i (omega arith) (omega arith)
write_at-behind (suc offset) (b ∷ bs) [] i h k = absurd (omega arith)
write_at-behind (suc offset) (b ∷ bs) (x ∷ file) zero h k = absurd (omega arith)
write_at-behind (suc offset) (b ∷ bs) (x ∷ file) (suc i) h k =
    write_at-behind offset (b ∷ bs) file i (omega arith) (omega arith)
