-- ===== src/Sdr/Frame.antt =====
-- `read_frame` of src/python/gizmo_sdr.py.
use gizmo.Prelude.{
  ℕ, zero, suc, ◌+◌, ◌*◌, ◌^◌, ◌<◌, ◌≡◌, refl, ap, [], ◌∷◌, map, length, length-take, ◌≤◌, take,
  arith,
}
use gizmo.Sdr.{Bytes, from_buffer, as_int32, word_bytes, int32_bytes, to_bytes, read_frame}

abbrev pub AreBytes : Bytes → Type 0
AreBytes [] = Unit {0}
AreBytes (b ∷ bytes) = (b < 256) × AreBytes bytes

int32_bytes-as_int32 : (w : ℕ) → w < 2 ^ 32 → int32_bytes (as_int32 w) ≡ word_bytes w
unfolding int32_bytes as_int32 word_bytes
int32_bytes-as_int32 w h = ground arith

word_bytes-from :
    (a b c d : ℕ)
    → a < 256
    → b < 256
    → c < 256
    → d < 256
    → word_bytes (a + 256 * b + 65536 * c + 16777216 * d) ≡ a ∷ b ∷ c ∷ d ∷ []
unfolding word_bytes
word_bytes-from a b c d ha hb hc hd = ground arith

round_trip :
    (n : ℕ) (bytes : Bytes)
    → AreBytes bytes
    → length bytes ≡ n * 4
    → to_bytes (map as_int32 (from_buffer bytes)) ≡ bytes
unfolding to_bytes from_buffer
round_trip zero [] v e = refl
round_trip zero (a ∷ bytes) v e = absurd (omega arith)
round_trip (suc n) [] v e = refl
round_trip (suc n) (a ∷ []) v e = absurd (omega arith)
round_trip (suc n) (a ∷ b ∷ []) v e = absurd (omega arith)
round_trip (suc n) (a ∷ b ∷ c ∷ []) v e = absurd (omega arith)
round_trip (suc n) (a ∷ b ∷ c ∷ d ∷ rest) v e =
    rw
      (
        int32_bytes-as_int32 (a + 256 * b + 65536 * c + 16777216 * d) (omega arith),
        word_bytes-from a b c d v.0 v.1.0 v.1.1.0 v.1.1.1.0,
      )
      (ap (λ t. a ∷ b ∷ c ∷ d ∷ t) (round_trip n rest v.1.1.1.1 (omega arith)))

take-AreBytes : (n : ℕ) (bytes : Bytes) → AreBytes bytes → AreBytes (take n bytes)
take-AreBytes zero bytes v = tt
take-AreBytes (suc n) [] v = tt
take-AreBytes (suc n) (b ∷ bytes) v = (v.0, take-AreBytes n bytes v.1)

-- For a memory of bytes that is long enough, a frame is the memory's first bytes, four for each
-- sample: the change of type to int32 keeps every byte.
pub read_frame_keeps_bytes :
    (sample_count : ℕ) (bram : Bytes)
    → AreBytes bram
    → sample_count * 4 ≤ length bram
    → read_frame sample_count bram ≡ take (sample_count * 4) bram
unfolding read_frame
read_frame_keeps_bytes sample_count bram v h =
    round_trip sample_count (take (sample_count * 4) bram) (take-AreBytes (sample_count * 4) bram v)
      (omega (arith, length-take (sample_count * 4) bram))
