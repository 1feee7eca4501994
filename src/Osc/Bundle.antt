-- ===== src/Osc/Bundle.antt =====
-- `iter_osc_messages` of src/oscmix_desk/osc.py, and `Listener.messages` of
-- src/oscmix_desk/backend.py on the datagram that it received.
use oscmix_autostart.Base.{
  ℕ, zero, suc, ◌==◌, ltb, Bool, true, false, ◌||◌, Option, none, some, List, [], ◌∷◌, ◌++◌,
  if◌then◌else◌, ◌>>=◌, length,
}
use oscmix_autostart.Base.Text.{text, drop, starts_with}
use oscmix_autostart.Base.Int.{ℤ, pos, negsuc}
use oscmix_autostart.Base.Float.{Floating}
use oscmix_autostart.Reconcile.Messages.{Message}
use oscmix_autostart.Osc.Numbers.{unpack_int}
use oscmix_autostart.Osc.Codec.{decode_osc}

-- `b"#bundle\x00"`
abbrev pub bundle_tag : List ℕ
bundle_tag = text "#bundle" ++ (0 ∷ [])

-- `s[:n]`
unfoldable pub take : ℕ → List ℕ → List ℕ
take zero s = []
take (suc n) [] = []
take (suc n) (a ∷ s) = a ∷ take n s

-- What a size says of the bytes behind it: the frame and what follows, or `none` where the loop ends.
abbrev pub frame_at : List ℕ → Option ℤ → Option (List ℕ × List ℕ)
frame_at rest none = none
frame_at rest (some (negsuc n)) = none
frame_at rest (some (pos n)) =
    if n == 0 || ltb (length rest) n then none else some (take n rest, drop n rest)

unfoldable pub frame_of : List ℕ → Option (List ℕ × List ℕ)
frame_of rest = frame_at (drop 4 rest) (unpack_int rest)

-- A frame, which may be a bundle itself, and what follows it.
abbrev pub joined :
    (Bool → List ℕ → Option (List (List ℕ))) → Option (List ℕ × List ℕ) → Option (List (List ℕ))
joined go none = some []
joined go (some (frame, after)) = go false frame >>= λ ms. go true after >>= λ ns. some (ms ++ ns)

-- The messages of a datagram (`false`), or of what is left of a bundle behind its header (`true`); the
-- fuel bounds the rounds, and `none` is out of fuel.
unfoldable pub unwrap : ℕ → Bool → List ℕ → Option (List (List ℕ))
unwrap zero framed bytes = none
unwrap (suc fuel) false bytes =
    let inside = unwrap fuel true (drop 16 bytes) in
    if starts_with bundle_tag bytes then inside else some (bytes ∷ [])
unwrap (suc fuel) true bytes = joined (unwrap fuel) (frame_of bytes)

-- `iter_osc_messages`; a frame is shorter than its bundle, so this fuel is enough.
unfoldable pub iter_osc_messages : List ℕ → Option (List (List ℕ))
iter_osc_messages bytes = unwrap (suc (length bytes)) false bytes

module _ {F : Type 0} ⦃fl : Floating F⦄ where
  abbrev pub kept_message : Option (Message F) → List (Message F) → List (Message F)
  kept_message none ms = ms
  kept_message (some m) ms = m ∷ ms

  -- The messages that can be decoded; a malformed one is skipped.
  unfoldable pub decoded : List (List ℕ) → List (Message F)
  decoded [] = []
  decoded (raw ∷ raws) = kept_message (decode_osc raw) (decoded raws)

  -- `Listener.messages` of a datagram.
  unfoldable pub heard_messages : List ℕ → Option (List (Message F))
  heard_messages bytes = iter_osc_messages bytes >>= λ raws. some (decoded raws)
