-- ===== src/Osc/RoundTrip.antt =====
-- What `encode_osc` writes, `decode_osc` reads back.
use oscmix_autostart.Base.{
  ℕ, ◌+◌, ◌%◌, ◌≡◌, ◌≢◌, refl, sym, ap, ◌∙◌, subst, some, List, [], ◌∷◌, ◌++◌, >>=-eq-some, length,
  length-append, arith,
}
use mathlib.Core.List.{append_assoc}
use mathlib.Core.Option.{some-injective}
use oscmix_autostart.Base.Text.{Text, drop, starts_with, Lacks}
use oscmix_autostart.Base.Float.{Floating}
use oscmix_autostart.Config.Defs.{Value, float}
use oscmix_autostart.Config.Convert.{str_of}
use oscmix_autostart.Osc.Strings.{
  osc_string, decode_string, osc_string-aligned, decode_string-osc_string, drop-append,
}
use oscmix_autostart.Osc.Numbers.{four, unpack_int, unpack_int-pack_int}
use oscmix_autostart.Osc.Codec.{
  encode_arg, encode_args, encode_osc, decode_arg, decode_args, decode_osc, Carried, carried_float,
  carried_int, carried_text, AllCarried,
}

nothing_more : (n : ℕ) → 0 + n ≡ n
nothing_more n = omega arith

four-all : (bytes rest : List ℕ) → length bytes ≡ 4 → four (bytes ++ rest) ≡ some bytes
unfolding four
four-all (a ∷ b ∷ c ∷ d ∷ []) rest h = refl
four-all [] rest h = absurd (omega arith)
four-all (a ∷ []) rest h = absurd (omega arith)
four-all (a ∷ b ∷ []) rest h = absurd (omega arith)
four-all (a ∷ b ∷ c ∷ []) rest h = absurd (omega arith)
four-all (a ∷ b ∷ c ∷ d ∷ e ∷ bs) rest h = absurd (omega arith)

module _ {F : Type 0} ⦃fl : Floating F⦄ where
  -- One argument is read back from where it stands, and takes whole groups of four bytes.
  decode_arg-encode_arg :
      (before rest : List ℕ) (tag : ℕ) (v w : Value F) (chunk : List ℕ)
      → length before % 4 ≡ 0
      → Carried v w tag
      → encode_arg tag v ≡ some chunk
      → (length chunk % 4 ≡ 0)
        × (decode_arg tag (before ++ (chunk ++ rest)) (length before)
            ≡ some (w, length before + length chunk))
  unfolding encode_arg decode_arg
  decode_arg-encode_arg before rest tag v w chunk al (carried_float x bytes c p l u) h =
      let packed : fl.pack x ≡ some chunk = rw c at h in
      let same : bytes ≡ chunk = some-injective _ _ (sym p ∙ packed) in
      let l' : length chunk ≡ 4 = ap length (sym same) ∙ l in
      let here : four (drop (length before) (before ++ (chunk ++ rest))) ≡ some chunk =
        ap four (drop-append before (chunk ++ rest)) ∙ four-all chunk rest l' in
      let arrived : float (fl.unpack chunk) ≡ w = ap (λ bs. float (fl.unpack bs)) (sym same) ∙ u in
      (omega arith, rw (here, l') (ap (λ a. some (a, length before + 4)) arrived))
  decode_arg-encode_arg before rest tag v w chunk al (carried_int z i e) h =
      let (l', r) = unpack_int-pack_int z chunk rest (rw i at h) in
      let here : unpack_int (drop (length before) (before ++ (chunk ++ rest))) ≡ some z =
        ap unpack_int (drop-append before (chunk ++ rest)) ∙ r in
      (omega arith, rw (here, l') (ap (λ a. some (a, length before + 4)) e))
  decode_arg-encode_arg before rest tag v w chunk al (carried_text lacks e) h = (
    osc_string-aligned (str_of v) chunk h,
    rw (decode_string-osc_string before rest (str_of v) chunk al lacks h)
        (ap (λ a. some (a, length before + length chunk)) e),
  )

  decode_args-encode_args :
      (before : List ℕ) (tags : Text) (vs ws : List (Value F)) (chunk : List ℕ)
      → length before % 4 ≡ 0
      → AllCarried tags vs ws
      → encode_args tags vs ≡ some chunk
      → decode_args tags (before ++ chunk) (length before) ≡ some ws
  unfolding encode_args decode_args
  decode_args-encode_args before [] [] [] chunk al c h = refl
  decode_args-encode_args before [] (v ∷ vs) ws chunk al c h = absurd c
  decode_args-encode_args before [] [] (w ∷ ws) chunk al c h = absurd c
  decode_args-encode_args before (t ∷ ts) [] ws chunk al c h = absurd c
  decode_args-encode_args before (t ∷ ts) (v ∷ vs) [] chunk al c h = absurd c
  decode_args-encode_args before (t ∷ ts) (v ∷ vs) (w ∷ ws) chunk al c h =
      let (bytes, b, h') = >>=-eq-some (encode_arg t v) _ h in
      let (rest, r, last) = >>=-eq-some (encode_args ts vs) _ h' in
      let e : bytes ++ rest ≡ chunk = some-injective _ _ last in
      let (al', here) = decode_arg-encode_arg before rest t v w bytes al c.0 b in
      let len : length (before ++ bytes) ≡ length before + length bytes =
        length-append before bytes in
      let tail : decode_args ts ((before ++ bytes) ++ rest) (length (before ++ bytes)) ≡ some ws =
        decode_args-encode_args (before ++ bytes) ts vs ws rest (omega (arith, len)) c.1 r in
      let tail' : decode_args ts (before ++ (bytes ++ rest)) (length before + length bytes)
          ≡ some ws =
        subst (λ bs. decode_args ts bs (length before + length bytes) ≡ some ws)
          (append_assoc before bytes rest)
          (subst (λ (n : ℕ). decode_args ts ((before ++ bytes) ++ rest) n ≡ some ws) len tail) in
      subst (λ bs. decode_args (t ∷ ts) (before ++ bs) (length before) ≡ some (w ∷ ws)) e
        (rw (here, tail'))

  Carried-ne_zero : (tag : ℕ) (v w : Value F) → Carried v w tag → tag ≢ 0
  Carried-ne_zero tag v w (carried_float x bytes c p l u) = omega arith
  Carried-ne_zero tag v w (carried_int z i e) = omega arith
  Carried-ne_zero tag v w (carried_text lacks e) = omega arith

  AllCarried-Lacks : (tags : Text) (vs ws : List (Value F)) → AllCarried tags vs ws → Lacks 0 tags
  AllCarried-Lacks [] vs ws c = tt
  AllCarried-Lacks (t ∷ ts) [] ws c = absurd c
  AllCarried-Lacks (t ∷ ts) (v ∷ vs) [] c = absurd c
  AllCarried-Lacks (t ∷ ts) (v ∷ vs) (w ∷ ws) c =
      (Carried-ne_zero t v w c.0, AllCarried-Lacks ts vs ws c.1)

  -- A message whose path and texts have no NUL, where it can be encoded, is read back with its path,
  -- its tags, its integers and its texts as they were, converted as the tags ask, and each float as
  -- what unpacking its four packed bytes gives, which is it in single precision.
  pub decode_osc-encode_osc :
      (path tags : Text) (args arrived : List (Value F)) (bytes : List ℕ)
      → Lacks 0 path
      → AllCarried tags args arrived
      → encode_osc (path, tags, args) ≡ some bytes
      → decode_osc bytes ≡ some (path, tags, arrived)
  unfolding encode_osc decode_osc starts_with drop
  decode_osc-encode_osc path tags args arrived bytes l c h =
      let (p, ep, h1) = >>=-eq-some (osc_string path) _ h in
      let (t, et, h2) = >>=-eq-some (osc_string (b',' ∷ tags)) _ h1 in
      let (a, ea, h3) = >>=-eq-some (encode_args tags args) _ h2 in
      let e : p ++ (t ++ a) ≡ bytes = some-injective _ _ h3 in
      let al : length p % 4 ≡ 0 = osc_string-aligned path p ep in
      let at : length t % 4 ≡ 0 = osc_string-aligned (b',' ∷ tags) t et in
      let len : length (p ++ t) ≡ length p + length t = length-append p t in
      let first : decode_string (p ++ (t ++ a)) 0 ≡ some (path, length p) =
        decode_string-osc_string [] (t ++ a) path p refl l ep
        ∙ ap (λ (n : ℕ). some (path, n)) (nothing_more (length p)) in
      let second : decode_string (p ++ (t ++ a)) (length p)
          ≡ some (b',' ∷ tags, length p + length t) =
        decode_string-osc_string p a (b',' ∷ tags) t al
          ((λ q. omega arith), AllCarried-Lacks tags args arrived c) et in
      let third : decode_args tags (p ++ (t ++ a)) (length p + length t) ≡ some arrived =
        subst (λ bs. decode_args tags bs (length p + length t) ≡ some arrived) (append_assoc p t a)
          (subst (λ (n : ℕ). decode_args tags ((p ++ t) ++ a) n ≡ some arrived) len
            (decode_args-encode_args (p ++ t) tags args arrived a (omega (arith, len)) c ea)) in
      subst (λ bs. decode_osc bs ≡ some (path, tags, arrived)) e (rw (first, second, third))
