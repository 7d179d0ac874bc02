-- ===== src/Db/Query/Destroy.antt =====
-- What the removal of captured data leaves.
use nanocap.Prelude.{ℕ, zero, suc, ◌+◌, ◌≡◌, refl, ap, true, List, [], ◌∷◌, ◌%◌, ==_iff}
use nanocap.Stream.{Bytes}
use nanocap.Db.{Db}
use nanocap.Db.Query.{destroy_capture_data, count_objects, count_packets_per_type}
use nanocap.Handler.Tcp.{PacketHandler, count_packet}

-- The objects of types whose count is zero.
abbrev pub no_counts : ℕ → ℕ → List (ℕ × ℕ)
no_counts i zero = []
no_counts i (suc n) = (0, i) ∷ no_counts (i + 1) n

count_objects-none : (i n : ℕ) → count_objects (λ t. 0) i n ≡ no_counts i n
unfolding count_objects
count_objects-none i zero = refl
count_objects-none i (suc n) = ap (λ xs. (0, i) ∷ xs) (count_objects-none (i + 1) n)

-- After the removal of the captured data the counts of all 32 types are zero, but if the maximum
-- size was reached it counts as reached still: with a device open, the packet that comes next
-- stops the capture if its number is a multiple of 10000.
pub destroy_capture_data-stops :
    (tables : List Bytes) (db : Db) (p : PacketHandler)
    → db.max_reached ≡ true
    → p.has_device ≡ true
    → (p.consumed + 1) % 10000 ≡ 0
    → (let db' = (destroy_capture_data tables db).1 in
        (count_packets_per_type db' ≡ no_counts 0 32)
        × ((count_packet db' p).capture_stopped ≡ true))
unfolding destroy_capture_data count_packets_per_type count_packet
destroy_capture_data-stops tables db p reached open_device due = (
  count_objects-none 0 32,
  rw ((==_iff ((p.consumed + 1) % 10000) 0).1 due, open_device, reached) refl,
)
