-- ===== src/Reconcile/Shapes.antt =====
-- The links of a routing are registers of another shape than its mix writes: a link's path ends
-- with the last letter of "stereo", and no other path of a route does.
use oscmix_autostart.Base.{
  ℕ, ◌≡◌, refl, subst, ◌≢◌, Bool, true, false, Option, none, some, List, [], ◌∷◌, ◌++◌,
  if◌then◌else◌, All, All-extend_all, extend_all, arith,
}
use oscmix_autostart.Base.Text.{Text, text}
use oscmix_autostart.Base.Decimal.{show, IsDecimal, show-IsDecimal, show-ne-nil}
use oscmix_autostart.Base.Int.{pos, negate}
use mathlib.Core.Option.{some-injective}
use oscmix_autostart.Base.Float.{Floating}
use oscmix_autostart.Base.Equality.{text_eq}
use oscmix_autostart.Config.Defs.{Route, source}
use oscmix_autostart.Reconcile.Messages.{
  Message, stereo_path, mix_path, volume_path, links_of, link_messages, mix_of, mix_messages,
  volume_messages, mix_message, unlinked_level,
}
use oscmix_autostart.Reconcile.Entries.{path_of}

-- The last character of a text, which has one.
abbrev pub Ends : (ℕ → Type 0) → Text → Type 0
Ends P [] = ⊥
Ends P (c ∷ []) = P c
Ends P (c ∷ d ∷ s) = Ends P (d ∷ s)

Ends-append : (P : ℕ → Type 0) (s t : Text) → Ends P t → Ends P (s ++ t)
Ends-append P [] t h = h
Ends-append P (c ∷ []) [] h = absurd h
Ends-append P (c ∷ []) (d ∷ t) h = h
Ends-append P (c ∷ d ∷ s) t h = Ends-append P (d ∷ s) t h

Ends-of_All : (P Q : ℕ → Type 0) → ((c : ℕ) → P c → Q c) → (s : Text) → s ≢ [] → All P s → Ends Q s
Ends-of_All P Q f [] ne h = absurd (ne refl)
Ends-of_All P Q f (c ∷ []) ne h = f c h.0
Ends-of_All P Q f (c ∷ d ∷ s) ne h = Ends-of_All P Q f (d ∷ s) (λ e. cc e) h.1

abbrev pub IsLinkPath : Text → Type 0
IsLinkPath = Ends (λ c. c ≡ b'o')

abbrev pub IsMixPath : Text → Type 0
IsMixPath = Ends (λ c. c ≢ b'o')

pub link-ne-mix : (p q : Text) → IsLinkPath p → IsMixPath q → p ≢ q
link-ne-mix [] q h k e = h
link-ne-mix (c ∷ []) [] h k e = k
link-ne-mix (c ∷ []) (d ∷ []) h k e = ground arith
link-ne-mix (c ∷ []) (d ∷ d' ∷ q) h k e = ground arith
link-ne-mix (c ∷ c' ∷ p) [] h k e = k
link-ne-mix (c ∷ c' ∷ p) (d ∷ []) h k e = ground arith
link-ne-mix (c ∷ c' ∷ p) (d ∷ d' ∷ q) h k e = link-ne-mix (c' ∷ p) (d' ∷ q) h k (ground arith)

stereo_path-IsLinkPath : (kind : Text) (n : ℕ) → IsLinkPath (stereo_path kind n)
unfolding stereo_path
stereo_path-IsLinkPath kind n =
    Ends-append P (text "/") (kind ++ (text "/" ++ (show n ++ text "/stereo"))) (
      Ends-append P kind (text "/" ++ (show n ++ text "/stereo")) (
        Ends-append P (text "/") (show n ++ text "/stereo")
          (Ends-append P (show n) (text "/stereo") refl)))
  where
    P : ℕ → Type 0
    P c = c ≡ b'o'

show-IsMixPath : (n : ℕ) → IsMixPath (show n)
show-IsMixPath n =
    Ends-of_All IsDecimal _ (λ c d. omega arith) (show n) (show-ne-nil n) (show-IsDecimal n)

mix_path-IsMixPath : (out : ℕ) (kind : Text) (pb : ℕ) → IsMixPath (mix_path out kind pb)
unfolding mix_path
mix_path-IsMixPath out kind pb =
    Ends-append P (text "/mix/") (show out ++ (text "/" ++ (kind ++ (text "/" ++ show pb)))) (
      Ends-append P (show out) (text "/" ++ (kind ++ (text "/" ++ show pb))) (
        Ends-append P (text "/") (kind ++ (text "/" ++ show pb)) (
          Ends-append P kind (text "/" ++ show pb)
            (Ends-append P (text "/") (show pb) (show-IsMixPath pb)))))
  where
    P : ℕ → Type 0
    P c = c ≢ b'o'

volume_path-IsMixPath : (out : ℕ) → IsMixPath (volume_path out)
unfolding volume_path
volume_path-IsMixPath out =
    Ends-append P (text "/output/") (show out ++ text "/volume")
      (Ends-append P (show out) (text "/volume") (omega arith))
  where
    P : ℕ → Type 0
    P c = c ≢ b'o'

module _ {F : Type 0} where
  abbrev pub IsLink : Message F → Type 0
  IsLink m = IsLinkPath (path_of m)

  abbrev pub IsMix : Message F → Type 0
  IsMix m = IsMixPath (path_of m)

  links_of-IsLink :
      (kind : Text) (ss output : List ℕ) (stereo : Bool) (ms : List (Message F))
      → links_of kind ss output stereo ≡ some ms
      → All IsLink ms
  unfolding links_of
  links_of-IsLink kind [] (l ∷ r ∷ []) stereo ms e = absurd (cc e)
  links_of-IsLink kind (s ∷ ss) (l ∷ r ∷ []) stereo ms e =
      subst (All IsLink) (some-injective _ _ e)
        (stereo_path-IsLinkPath kind s, (stereo_path-IsLinkPath (text "output") l, tt))
  links_of-IsLink kind ss output stereo ms e = subst (All IsLink) (some-injective _ _ e) tt

  link_messages-IsLink :
      (r : Route F) (ms : List (Message F)) → link_messages r ≡ some ms → All IsLink ms
  unfolding link_messages
  link_messages-IsLink r ms e = links_of-IsLink (source r).0 (source r).1 r.output r.stereo ms e

module _ {F : Type 0} ⦃fl : Floating F⦄ where
  volume_messages-IsMix : (v : Option F) (outs : List ℕ) → All IsMix (volume_messages v outs)
  volume_messages-IsMix none outs = tt
  volume_messages-IsMix (some v) [] = tt
  volume_messages-IsMix (some v) (o ∷ outs) =
      (volume_path-IsMixPath o, volume_messages-IsMix (some v) outs)

  pair-IsMix :
      (kind : Text) (pb left right : ℕ) (r : Route F) (b : Bool)
      → All IsMix (
          (if b
            then mix_message left kind pb r.level (pos 0) ∷ []
            else mix_message left kind pb (unlinked_level r.level) (negate 100)
              ∷ mix_message right kind pb (unlinked_level r.level) (pos 100)
              ∷ [])
          ++ volume_messages r.volume (left ∷ right ∷ []))
  pair-IsMix kind pb left right r true =
      (mix_path-IsMixPath left kind pb, volume_messages-IsMix r.volume (left ∷ right ∷ []))
  pair-IsMix kind pb left right r false = (
    mix_path-IsMixPath left kind pb,
    (mix_path-IsMixPath right kind pb, volume_messages-IsMix r.volume (left ∷ right ∷ [])),
  )

  mix_of-IsMix :
      (kind : Text) (ss output : List ℕ) (r : Route F) (ms : List (Message F))
      → mix_of kind ss output r ≡ some ms
      → All IsMix ms
  unfolding mix_of
  mix_of-IsMix kind [] (left ∷ right ∷ []) r ms e = absurd (cc e)
  mix_of-IsMix kind (pb ∷ ss) (left ∷ right ∷ []) r ms e =
      subst (All IsMix) (some-injective _ _ e) (pair-IsMix kind pb left right r r.stereo)
  mix_of-IsMix kind (pb ∷ []) (out ∷ []) r ms e =
      subst (All IsMix) (some-injective _ _ e)
        (mix_path-IsMixPath out kind pb, volume_messages-IsMix r.volume (out ∷ []))
  mix_of-IsMix kind ss outs r ms e = absurd (cc e)

  mix_messages-IsMix :
      (r : Route F) (ms : List (Message F)) → mix_messages r ≡ some ms → All IsMix ms
  unfolding mix_messages
  mix_messages-IsMix r ms e = mix_of-IsMix (source r).0 (source r).1 r.output r ms e

  pub links-IsLink :
      (rs : List (Route F)) (ms : List (Message F))
      → extend_all link_messages rs ≡ some ms
      → All IsLink ms
  links-IsLink rs ms e = All-extend_all link_messages link_messages-IsLink rs ms e

  pub mixes-IsMix :
      (rs : List (Route F)) (ms : List (Message F))
      → extend_all mix_messages rs ≡ some ms
      → All IsMix ms
  mixes-IsMix rs ms e = All-extend_all mix_messages mix_messages-IsMix rs ms e
