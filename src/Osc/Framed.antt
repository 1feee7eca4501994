-- ===== src/Osc/Framed.antt =====
-- That `iter_osc_messages` of src/oscmix_desk/osc.py and `Listener.messages` of
-- src/oscmix_desk/backend.py give the messages of a bundle.
use oscmix_autostart.Base.{
  ℕ, zero, suc, ◌<◌, ◌≤◌, ◌≡◌, refl, ap, ◌∙◌, subst, ◌==◌, ltb, true, false, ◌||◌, some, List, [],
  ◌∷◌, ◌++◌, length, length-append, All, arith,
}
use oscmix_autostart.Base.Text.{drop, starts_with, Lacks}
use oscmix_autostart.Base.Int.{pos}
use oscmix_autostart.Base.Float.{Floating}
use oscmix_autostart.Reconcile.Messages.{Message}
use oscmix_autostart.Osc.Strings.{drop-append}
use oscmix_autostart.Osc.Numbers.{big_endian, pack_int, unpack_int, unpack_int-pack_int}
use oscmix_autostart.Osc.Codec.{encode_osc, AllCarried}
use oscmix_autostart.Osc.RoundTrip.{decode_osc-encode_osc}
use oscmix_autostart.Osc.Bundle.{
  bundle_tag, take, frame_at, frame_of, joined, unwrap, iter_osc_messages, decoded, heard_messages,
}

-- The messages behind the header of a bundle, each behind its size.
abbrev pub framed : List (List ℕ) → List ℕ
framed [] = []
framed (m ∷ ms) = big_endian (length m) ++ (m ++ framed ms)

-- A message that a bundle can hold: it is not empty, no bundle itself, and its size has 31 bits.
abbrev pub Plain : List ℕ → Type 0
Plain m = (0 < length m) × (length m < 2147483648) × (starts_with bundle_tag m ≡ false)

take-append : (xs ys : List ℕ) → take (length xs) (xs ++ ys) ≡ xs
unfolding take
take-append [] ys = refl
take-append (x ∷ xs) ys = ap (λ l. x ∷ l) (take-append xs ys)

unpack_int-big_endian :
    (n : ℕ) (rest : List ℕ) → n < 2147483648 → unpack_int (big_endian n ++ rest) ≡ some (pos n)
unfolding pack_int
unpack_int-big_endian n rest h =
    let small : ltb n 2147483648 ≡ true = ground arith in
    (unpack_int-pack_int (pos n) (big_endian n) rest (rw small refl)).1

drop_size : (n : ℕ) (rest : List ℕ) → drop 4 (big_endian n ++ rest) ≡ rest
unfolding big_endian drop
drop_size n rest = refl

frame_of-framed :
    (m rest : List ℕ) → Plain m → frame_of (big_endian (length m) ++ (m ++ rest)) ≡ some (m, rest)
unfolding frame_of
frame_of-framed m rest p =
    let long : (length m == 0 || ltb (length (m ++ rest)) (length m)) ≡ false =
      ground (arith, length-append m rest) in
    ap (frame_at (drop 4 (big_endian (length m) ++ (m ++ rest))))
      (unpack_int-big_endian (length m) (m ++ rest) p.1)
    ∙ rw (drop_size (length m) (m ++ rest), long, take-append m rest, drop-append m rest) refl

unwrap-plain :
    (fuel : ℕ) (m : List ℕ)
    → 0 < fuel
    → starts_with bundle_tag m ≡ false
    → unwrap fuel false m ≡ some (m ∷ [])
unfolding unwrap
unwrap-plain zero m h p = ground arith
unwrap-plain (suc fuel) m h p = rw p refl

unwrap-framed :
    (fuel : ℕ) (ms : List (List ℕ))
    → length ms < fuel
    → All Plain ms
    → unwrap fuel true (framed ms) ≡ some ms
unfolding unwrap frame_of unpack_int
unwrap-framed zero ms h p = ground arith
unwrap-framed (suc fuel) [] h p = refl
unwrap-framed (suc fuel) (m ∷ ms) h p =
    ap (joined (unwrap fuel)) (frame_of-framed m (framed ms) p.0)
    ∙ rw (unwrap-plain fuel m (ground arith) p.0.2, unwrap-framed fuel ms (ground arith) p.1) refl

length-framed : (ms : List (List ℕ)) → length ms ≤ length (framed ms)
unfolding big_endian
length-framed [] = omega arith
length-framed (m ∷ ms) = ground (arith, length-append m (framed ms), length-framed ms)

-- A bundle: the header, the time tag and the messages.
abbrev pub bundle : List ℕ → List (List ℕ) → List ℕ
bundle time ms = bundle_tag ++ (time ++ framed ms)

drop_header : (time rest : List ℕ) → length time ≡ 8 → drop 16 (bundle_tag ++ (time ++ rest)) ≡ rest
unfolding drop
drop_header time rest h = subst (λ n. drop n (time ++ rest) ≡ rest) h (drop-append time rest)

-- A bundle of messages that are no bundles themselves gives these messages, in their order.
pub iter_osc_messages-bundle :
    (time : List ℕ) (ms : List (List ℕ))
    → length time ≡ 8
    → All Plain ms
    → iter_osc_messages (bundle time ms) ≡ some ms
unfolding iter_osc_messages unwrap starts_with
iter_osc_messages-bundle time ms h p =
    let enough = length-framed ms in
    ap (unwrap (length (bundle time ms)) true) (drop_header time (framed ms) h)
    ∙ unwrap-framed (length (bundle time ms)) ms (ground (arith, length-append time (framed ms))) p

module _ {F : Type 0} ⦃fl : Floating F⦄ where
  -- A message and its bytes.
  abbrev pub Encoded : Message F → List ℕ → Type 0
  Encoded m raw = (encode_osc m ≡ some raw) × Lacks 0 m.0 × AllCarried m.1 m.2 m.2 × Plain raw

  abbrev pub AllEncoded : List (Message F) → List (List ℕ) → Type 0
  AllEncoded [] [] = Unit
  AllEncoded (m ∷ ms) (raw ∷ raws) = Encoded m raw × AllEncoded ms raws
  AllEncoded ms raws = ⊥

  AllEncoded-Plain :
      (ms : List (Message F)) (raws : List (List ℕ)) → AllEncoded ms raws → All Plain raws
  AllEncoded-Plain [] [] h = tt
  AllEncoded-Plain (m ∷ ms) (raw ∷ raws) h = (h.0.3, AllEncoded-Plain ms raws h.1)
  AllEncoded-Plain [] (raw ∷ raws) h = elim h [ ]
  AllEncoded-Plain (m ∷ ms) [] h = elim h [ ]

  decoded-AllEncoded :
      (ms : List (Message F)) (raws : List (List ℕ)) → AllEncoded ms raws → decoded raws ≡ ms
  unfolding decoded
  decoded-AllEncoded [] [] h = refl
  decoded-AllEncoded ((path, tags, args) ∷ ms) (raw ∷ raws) h =
      rw
        (
          decode_osc-encode_osc path tags args args raw h.0.1 h.0.2 h.0.0,
          decoded-AllEncoded ms raws h.1,
        )
        refl
  decoded-AllEncoded [] (raw ∷ raws) h = elim h [ ]
  decoded-AllEncoded (m ∷ ms) [] h = elim h [ ]

  -- A listener hears a bundle of encoded messages as these messages, in their order, where each has a
  -- path without NUL, arguments that arrive under its tags as they are (a float is exact in single
  -- precision), and does not itself begin like a bundle.
  pub heard_messages-bundle :
      (time : List ℕ) (ms : List (Message F)) (raws : List (List ℕ))
      → length time ≡ 8
      → AllEncoded ms raws
      → heard_messages (bundle time raws) ≡ some ms
  unfolding heard_messages
  heard_messages-bundle time ms raws h e =
      rw
        (
          iter_osc_messages-bundle time raws h (AllEncoded-Plain ms raws e),
          decoded-AllEncoded ms raws e,
        )
        refl
