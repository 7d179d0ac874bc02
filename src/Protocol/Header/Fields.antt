-- ===== src/Protocol/Header/Fields.antt =====
-- What the masks and shifts of the header compute.
use nanocap.Prelude.{
  ℕ, ◌*◌, ◌/◌, ◌%◌, ◌^◌, ◌<◌, ◌≡◌, refl, Bool, true, ◌&&◌, ◌==◌, bit_and, passes, passes-true,
  arith,
}
use nanocap.Protocol.Header.{
  MessageHeader, response_flag, block_type_int, telemetry_size, extended_params_present,
  item_count_int, query_flag,
}

fits : ℕ → Bool
fits e =
    bit_and e 3840 / 2 ^ 8 == (e / 256) % 16
    && bit_and e 61440 / 2 ^ 12 == e / 4096
    && bit_and e 1 == e % 2
    && bit_and e 2 == 2 * ((e / 2) % 2)
    && bit_and e 2047 == e % 2048

fits_table : passes fits 65536 ≡ true
unfolding passes fits
fits_table = refl

-- For extensions of two bytes, the masks and shifts read their bits: the item count is the upper
-- four, the block type the four below, the telemetry size the lower eleven, the response flag is
-- the second bit in its place (0 or 2), and the query flag and the extended parameters flag are
-- both the lowest bit.
pub header_fields :
    (h : MessageHeader)
    → h.extensions < 2 ^ 16
    → (block_type_int h ≡ (h.extensions / 256) % 16)
      × (item_count_int h ≡ h.extensions / 4096)
      × (query_flag h ≡ h.extensions % 2)
      × (extended_params_present h ≡ h.extensions % 2)
      × (response_flag h ≡ 2 * ((h.extensions / 2) % 2))
      × (telemetry_size h ≡ h.extensions % 2048)
unfolding fits block_type_int item_count_int query_flag extended_params_present response_flag
    telemetry_size
header_fields h lt = let t = passes-true fits 65536 fits_table h.extensions lt in ground arith
