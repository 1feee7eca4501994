-- ===== src/Osc/Strings.antt =====
-- `_osc_string` and `_decode_string` of src/oscmix_desk/osc.py. Bytes are numbers below 256.
use oscmix_autostart.Base.{
  ℕ, zero, suc, ◌+◌, ◌-◌, ◌%◌, ◌≡◌, refl, sym, ap, ◌∙◌, ◌==◌, ltb, Option, none, some, List, [],
  ◌∷◌, ◌++◌, if◌then◌else◌, ◌>>=◌, length, length-append, arith, Bool-cases, inl, inr, >>=-eq-some,
}
use mathlib.Core.List.{append_assoc}
use mathlib.Core.Option.{some-injective}
use oscmix_autostart.Base.Text.{Text, Lacks, drop}

-- `b"\x00" * n`
unfoldable pub zeros : ℕ → List ℕ
zeros zero = []
zeros (suc n) = 0 ∷ zeros n

-- `-n % 4`
abbrev pub padding : ℕ → ℕ
padding n = (4 - n % 4) % 4

-- `str.encode("ascii")`; `none` is its `UnicodeEncodeError`.
unfoldable pub ascii : Text → Option (List ℕ)
ascii [] = some []
ascii (c ∷ s) = let rest = ascii s in if ltb c 128 then (rest >>= λ r. some (c ∷ r)) else none

unfoldable pub osc_string : Text → Option (List ℕ)
osc_string value = do
  encoded ← ascii value
  let raw = encoded ++ (0 ∷ [])
  some (raw ++ zeros (padding (length raw)))

-- What stands before the first NUL: `data[offset:data.index(b"\x00", offset)]`; `none` is the
-- `ValueError` of `index`.
unfoldable pub to_nul : List ℕ → Option (List ℕ)
to_nul [] = none
to_nul (b ∷ bs) = let rest = to_nul bs in if b == 0 then some [] else (rest >>= λ r. some (b ∷ r))

-- The text and the offset behind its padding.
unfoldable pub decode_string : List ℕ → ℕ → Option (Text × ℕ)
decode_string bytes offset = do
  raw ← to_nul (drop offset bytes)
  value ← ascii raw
  let end = offset + length raw + 1
  some (value, end + padding end)

ascii-eq : (s : Text) (bs : List ℕ) → ascii s ≡ some bs → s ≡ bs
unfolding ascii
ascii-eq [] bs h = ground (arith)
ascii-eq (c ∷ s) bs h = elim (Bool-cases (ltb c 128)) [
  | inl t ↦
      let (r, a, e) = >>=-eq-some (ascii s) _ (rw (t, ascii) at h) in
      ap (λ l. c ∷ l) (ascii-eq s r a) ∙ some-injective _ _ e
  | inr n ↦ absurd (cc (rw (n, ascii) at h))
]

to_nul-append : (s rest : List ℕ) → Lacks 0 s → to_nul (s ++ (0 ∷ rest)) ≡ some s
unfolding to_nul
to_nul-append [] rest h = refl
to_nul-append (c ∷ s) rest h = ground (arith, to_nul-append s rest h.1)

pub drop-append : (xs ys : List ℕ) → drop (length xs) (xs ++ ys) ≡ ys
unfolding drop
drop-append [] ys = refl
drop-append (x ∷ xs) ys = drop-append xs ys

length-zeros : (n : ℕ) → length (zeros n) ≡ n
unfolding zeros
length-zeros zero = refl
length-zeros (suc n) = ap suc (length-zeros n)

-- What an encoded string is.
osc_string-shape :
    (value : Text) (encoded : List ℕ)
    → osc_string value ≡ some encoded
    → (ascii value ≡ some value)
      × (encoded ≡ (value ++ (0 ∷ [])) ++ zeros (padding (length (value ++ (0 ∷ [])))))
unfolding osc_string
osc_string-shape value encoded h =
    let (raw, a, e) = >>=-eq-some (ascii value) _ h in
    let same : value ≡ raw = ascii-eq value raw a in
    (
      a ∙ ap some (sym same),
      sym (some-injective _ _ e)
          ∙ ap (λ r. (r ++ (0 ∷ [])) ++ zeros (padding (length (r ++ (0 ∷ []))))) (sym same),
    )

length-osc_string :
    (value : Text) (encoded : List ℕ)
    → osc_string value ≡ some encoded
    → length encoded ≡ length value + 1 + padding (length value + 1)
length-osc_string value encoded h =
    let (a, e) = osc_string-shape value encoded h in
    ap length e
    ∙ length-append (value ++ (0 ∷ [])) _
    ∙ rw (length-zeros (padding (length (value ++ (0 ∷ [])))), length-append value (0 ∷ []))

-- An encoded string fills whole groups of four bytes.
pub osc_string-aligned :
    (value : Text) (encoded : List ℕ) → osc_string value ≡ some encoded → length encoded % 4 ≡ 0
osc_string-aligned value encoded h = omega (arith, length-osc_string value encoded h)

-- A string without a NUL that is encoded at an aligned offset is read back from there, whatever
-- stands in front of it and behind it, and the offset goes behind its padding.
pub decode_string-osc_string :
    (before rest : List ℕ) (value : Text) (encoded : List ℕ)
    → length before % 4 ≡ 0
    → Lacks 0 value
    → osc_string value ≡ some encoded
    → decode_string (before ++ (encoded ++ rest)) (length before)
      ≡ some (value, length before + length encoded)
unfolding decode_string
decode_string-osc_string before rest value encoded aligned l h =
    let (a, e) = osc_string-shape value encoded h in
    let pad : List ℕ = zeros (padding (length (value ++ (0 ∷ [])))) in
    let body : encoded ++ rest ≡ value ++ (0 ∷ (pad ++ rest)) =
      ap (λ l. l ++ rest) e
      ∙ append_assoc (value ++ (0 ∷ [])) pad rest
      ∙ append_assoc value (0 ∷ []) (pad ++ rest) in
    let raw : to_nul (drop (length before) (before ++ (encoded ++ rest))) ≡ some value =
      ap to_nul (drop-append before (encoded ++ rest) ∙ body)
      ∙ to_nul-append value (pad ++ rest) l in
    let end : length before + length value + 1 + padding (length before + length value + 1)
        ≡ length before + length encoded =
      omega (arith, length-osc_string value encoded h) in
    rw (raw, a, end)
