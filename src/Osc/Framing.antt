-- ===== src/Osc/Framing.antt =====
-- That the framing of src/oscmix_desk/osc.py is read to its end.
use oscmix_autostart.Base.{
  ℕ, zero, suc, ◌<◌, ◌≤◌, ◌≡◌, refl, ◌==◌, ltb, Bool, true, false, ◌||◌, Option, none, some, List,
  [], ◌∷◌, ◌++◌, length, Bool-cases, inl, inr, arith,
}
use oscmix_autostart.Base.Text.{drop, starts_with}
use oscmix_autostart.Base.Int.{ℤ, pos, negsuc}
use oscmix_autostart.Osc.Numbers.{unpack_int}
use oscmix_autostart.Osc.Bundle.{
  bundle_tag, take, frame_at, frame_of, joined, unwrap, iter_osc_messages,
}

length-drop : (n : ℕ) (s : List ℕ) → length (drop n s) ≤ length s
unfolding drop
length-drop zero s = omega arith
length-drop (suc n) [] = omega arith
length-drop (suc n) (a ∷ s) = ground (arith, length-drop n s)

length-take : (n : ℕ) (s : List ℕ) → length (take n s) ≤ length s
unfolding take
length-take zero s = omega arith
length-take (suc n) [] = omega arith
length-take (suc n) (a ∷ s) = ground (arith, length-take n s)

-- A frame and what follows are shorter than the bytes with the size.
abbrev Shorter : ℕ → Option (List ℕ × List ℕ) → Type 0
Shorter n none = Unit
Shorter n (some f) = (length f.0 < n) × (length f.1 < n)

frame_at-Shorter :
    (n : ℕ) (rest : List ℕ) (size : Option ℤ) → length rest < n → Shorter n (frame_at rest size)
frame_at-Shorter n rest none h = tt
frame_at-Shorter n rest (some (negsuc k)) h = tt
frame_at-Shorter n rest (some (pos k)) h = elim (Bool-cases (k == 0 || ltb (length rest) k)) [
  | inl e ↦ rw e tt
  | inr e ↦
      let t = length-take k rest in let d = length-drop k rest in rw e (omega arith, omega arith)
]

frame_of-Shorter : (bytes : List ℕ) → Shorter (length bytes) (frame_of bytes)
unfolding frame_of unpack_int drop
frame_of-Shorter (a ∷ b ∷ c ∷ d ∷ bytes) =
    frame_at-Shorter (length (a ∷ b ∷ c ∷ d ∷ bytes)) bytes (unpack_int (a ∷ b ∷ c ∷ d ∷ bytes))
      (ground arith)
frame_of-Shorter [] = tt
frame_of-Shorter (a ∷ []) = tt
frame_of-Shorter (a ∷ b ∷ []) = tt
frame_of-Shorter (a ∷ b ∷ c ∷ []) = tt

-- The header of a bundle is taken off.
bundle_shorter :
    (bytes : List ℕ) → starts_with bundle_tag bytes ≡ true → length (drop 16 bytes) < length bytes
unfolding starts_with drop
bundle_shorter [] h = cc h
bundle_shorter (a ∷ bytes) h = ground (arith, length-drop 15 bytes)

-- The list of messages is there.
abbrev pub Read : Option (List (List ℕ)) → Type 0
Read m = (ms : List (List ℕ)) × (m ≡ some ms)

joined-Read :
    (n : ℕ) (go : Bool → List ℕ → Option (List (List ℕ))) (f : Option (List ℕ × List ℕ))
    → ((framed : Bool) (bytes : List ℕ) → length bytes < n → Read (go framed bytes))
    → Shorter n f
    → Read (joined go f)
joined-Read n go none h s = ([], refl)
joined-Read n go (some (frame, after)) h s =
    let (ms, e) = h false frame s.0 in
    let (ns, e') = h true after s.1 in (ms ++ ns, rw (e, e') refl)

weaken-Shorter : (m n : ℕ) (f : Option (List ℕ × List ℕ)) → m ≤ n → Shorter m f → Shorter n f
weaken-Shorter m n none h s = tt
weaken-Shorter m n (some f) h s = ground arith

unwrap-Read :
    (fuel : ℕ) (framed : Bool) (bytes : List ℕ)
    → length bytes < fuel
    → Read (unwrap fuel framed bytes)
unfolding unwrap
unwrap-Read zero framed bytes h = ground arith
unwrap-Read (suc fuel) false bytes h = elim (Bool-cases (starts_with bundle_tag bytes)) [
  | inl e ↦
      let s = bundle_shorter bytes e in rw e (unwrap-Read fuel true (drop 16 bytes) (omega arith))
  | inr e ↦ rw e (bytes ∷ [], refl)
]
unwrap-Read (suc fuel) true bytes h =
    joined-Read fuel (unwrap fuel) (frame_of bytes)
      (λ framed rest k. unwrap-Read fuel framed rest k)
      (weaken-Shorter (length bytes) fuel (frame_of bytes) (omega arith) (frame_of-Shorter bytes))

-- iter_osc_messages ends for every datagram, also for a broken or a nested bundle: the fuel is never
-- used up.
pub iter_osc_messages-Read : (bytes : List ℕ) → Read (iter_osc_messages bytes)
unfolding iter_osc_messages
iter_osc_messages-Read bytes = unwrap-Read (suc (length bytes)) false bytes (omega arith)
