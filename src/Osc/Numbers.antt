-- ===== src/Osc/Numbers.antt =====
-- `struct.pack(">i", ...)` and `struct.unpack_from(">i", ...)`: a big-endian two's complement number.
use oscmix_autostart.Base.{
  ℕ, ◌+◌, ◌-◌, ◌*◌, ◌/◌, ◌%◌, ◌<◌, ◌≡◌, refl, sym, ap, ◌∙◌, ltb, Option, none, some, List, [], ◌∷◌,
  ◌++◌, if◌then◌else◌, length, arith, Bool-cases, inl, inr,
}
use mathlib.Core.Option.{some-injective}
use oscmix_autostart.Base.Int.{ℤ, pos, negsuc}

unfoldable pub big_endian : ℕ → List ℕ
big_endian n = n / 16777216 ∷ n / 65536 % 256 ∷ n / 256 % 256 ∷ n % 256 ∷ []

-- `none` is the `struct.error` of a number outside of 32 bits.
unfoldable pub pack_int : ℤ → Option (List ℕ)
pack_int (pos n) = if ltb n 2147483648 then some (big_endian n) else none
pack_int (negsuc n) = if ltb n 2147483648 then some (big_endian (4294967295 - n)) else none

-- The first four bytes; `none` is the `struct.error` of fewer.
unfoldable pub four : List ℕ → Option (List ℕ)
four (a ∷ b ∷ c ∷ d ∷ bs) = some (a ∷ b ∷ c ∷ d ∷ [])
four bs = none

unfoldable pub signed : ℕ → ℤ
signed u = if ltb u 2147483648 then pos u else negsuc (4294967295 - u)

unfoldable pub unpack_int : List ℕ → Option ℤ
unpack_int (a ∷ b ∷ c ∷ d ∷ bs) = some (signed (a * 16777216 + b * 65536 + c * 256 + d))
unpack_int bs = none

digits :
    (n : ℕ)
    → n < 4294967296
    → n / 16777216 * 16777216 + n / 65536 % 256 * 65536 + n / 256 % 256 * 256 + n % 256 ≡ n
digits n h = omega arith

-- A number of 32 bits is read back from its four bytes, whatever follows them.
pub unpack_int-pack_int :
    (z : ℤ) (bytes rest : List ℕ)
    → pack_int z ≡ some bytes
    → (length bytes ≡ 4) × (unpack_int (bytes ++ rest) ≡ some z)
unfolding pack_int unpack_int big_endian signed
unpack_int-pack_int (pos n) bytes rest h = elim (Bool-cases (ltb n 2147483648)) [
  | inl t ↦
      let e : bytes ≡ big_endian n = sym (some-injective _ _ (rw (t, pack_int) at h)) in
      rw e (refl, ap (λ u. some (signed u)) (digits n (ground arith)) ∙ rw t)
  | inr f ↦ absurd (cc (rw (f, pack_int) at h))
]
unpack_int-pack_int (negsuc n) bytes rest h = elim (Bool-cases (ltb n 2147483648)) [
  | inl t ↦
      let e : bytes ≡ big_endian (4294967295 - n) =
        sym (some-injective _ _ (rw (t, pack_int) at h)) in
      rw e (refl, ap (λ u. some (signed u)) (digits (4294967295 - n) (ground arith)) ∙ ground arith)
  | inr f ↦ absurd (cc (rw (f, pack_int) at h))
]
