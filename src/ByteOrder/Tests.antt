-- ===== src/ByteOrder/Tests.antt =====
-- The byte reversals at concrete inputs.
use strawberry_os.Prelude.{◌≡◌, [], ◌∷◌, arith}
use strawberry_os.ByteOrder.{reverse64}
use strawberry_os.ByteOrder.Bytes.{from_bytes, reverse64-from_bytes}

reverse64-from_bytes_example :
    (let x = from_bytes (1 ∷ 2 ∷ 3 ∷ 4 ∷ 5 ∷ 6 ∷ 7 ∷ 8 ∷ []) in
      (reverse64 x ≡ from_bytes (8 ∷ 7 ∷ 6 ∷ 5 ∷ 4 ∷ 3 ∷ 2 ∷ 1 ∷ []))
      × (reverse64 (reverse64 x) ≡ x))
reverse64-from_bytes_example = reverse64-from_bytes 1 2 3 4 5 6 7 8 (omega arith)
