-- ===== src/SsTable/FooterBytes.antt =====
-- The reader finds the footer that was written.
use nexus_db_main.Common.{
  ℕ, ◌+◌, ◌-◌, ◌^◌, ◌<◌, ◌++◌, Bytes, some, true, ◌≡◌, refl, length, length-append, drop,
  drop-append, arith, lt→ltb, ltb-false,
}
use native.Mathlib.Nat.{mod-eq_of_lt}
use nexus_db_main.Encoding.{encode_u32_le, encode_u64_le, decode_u32_le, decode_u64_le}
use nexus_db_main.Encoding.RoundTrip.{decode_u32_le-encode_u32_le, decode_u64_le-encode_u64_le}
use nexus_db_main.SsTable.{seek, sstable_magic}
use nexus_db_main.SsTable.Writer.{footer_bytes}
use nexus_db_main.SsTable.Reader.{last_bytes, read_footer, validate}

pub seek-append : (n : ℕ) (xs ys : Bytes) → length xs ≡ n → n < 2 ^ 63 → seek n (xs ++ ys) ≡ some ys
unfolding seek
seek-append n xs ys e h = rw (lt→ltb n (2 ^ 63) h, ← e, drop-append xs ys)

less_footer : (n : ℕ) → n + 32 - 32 ≡ n
less_footer n = omega arith

module _ (a b c d e : ℕ) (ha : a < 2 ^ 64) (hb : b < 2 ^ 32) (hc : c < 2 ^ 64) (hd : d < 2 ^ 32)
    (he : e < 2 ^ 32) where
  length-footer_bytes : length (footer_bytes a b c d e) ≡ 32
  unfolding footer_bytes encode_u32_le encode_u64_le
  length-footer_bytes = refl

  last_bytes-footer :
      (front : Bytes) → last_bytes (front ++ footer_bytes a b c d e) ≡ some (footer_bytes a b c d e)
  unfolding last_bytes
  last_bytes-footer front = rw (
    length-append front (footer_bytes a b c d e),
    length-footer_bytes,
    ltb-false (length front + 32) 32 (omega arith),
    less_footer (length front),
    drop-append front (footer_bytes a b c d e),
  )

  bloom_offset_there : decode_u64_le (footer_bytes a b c d e) ≡ a
  unfolding footer_bytes
  bloom_offset_there = decode_u64_le-encode_u64_le a _ ha

  bloom_size_there : decode_u32_le (drop 8 (footer_bytes a b c d e)) ≡ b
  unfolding footer_bytes encode_u64_le
  bloom_size_there = decode_u32_le-encode_u32_le b _ hb

  index_offset_there : decode_u64_le (drop 12 (footer_bytes a b c d e)) ≡ c
  unfolding footer_bytes encode_u32_le encode_u64_le
  index_offset_there = (unfold encode_u64_le in decode_u64_le-encode_u64_le c _ hc)

  num_idx_there : decode_u32_le (drop 20 (footer_bytes a b c d e)) ≡ d
  unfolding footer_bytes encode_u32_le encode_u64_le
  num_idx_there =
      rw (mod-eq_of_lt {n = d} {m = 2 ^ 32} hd)
        (unfold encode_u32_le in decode_u32_le-encode_u32_le d _ hd)

  num_entries_there : decode_u32_le (drop 24 (footer_bytes a b c d e)) ≡ e
  unfolding footer_bytes encode_u32_le encode_u64_le
  num_entries_there =
      rw (mod-eq_of_lt {n = e} {m = 2 ^ 32} he)
        (unfold encode_u32_le in decode_u32_le-encode_u32_le e _ he)

  magic_there : decode_u32_le (drop 28 (footer_bytes a b c d e)) ≡ sstable_magic
  unfolding footer_bytes encode_u32_le encode_u64_le decode_u32_le
  magic_there = refl

  pub read_footer-footer :
      (front : Bytes)
      → read_footer (front ++ footer_bytes a b c d e)
        ≡ some (record {
          bloom_offset = a;
          bloom_size = b;
          index_offset = c;
          num_idx = d;
          num_entries = e;
        })
  unfolding read_footer
  read_footer-footer front = rw (
    last_bytes-footer front,
    magic_there,
    bloom_offset_there,
    bloom_size_there,
    index_offset_there,
    num_idx_there,
    num_entries_there,
  )

  pub validate-footer : (front : Bytes) → validate (front ++ footer_bytes a b c d e) ≡ true
  unfolding validate
  validate-footer front = rw (last_bytes-footer front, validate, magic_there) refl
