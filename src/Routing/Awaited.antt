-- ===== src/Routing/Awaited.antt =====
-- The wait for the link echo waits for the values that the apply sends.
use oscmix_autostart.Base.{
  ◌≡◌, refl, sym, ap, ◌∙◌, subst, Bool, true, false, Option, none, some, List, [], ◌∷◌,
  if◌then◌else◌, extend_all, >>=-eq-some, Bool-cases, inl, inr,
}
use mathlib.Core.Option.{some-injective}
use oscmix_autostart.Base.Text.{Text, text, starts_with, same}
use oscmix_autostart.Base.Int.{ℤ}
use oscmix_autostart.Base.Float.{Floating}
use oscmix_autostart.Base.Dict.{Dict, get, put, get-put}
use oscmix_autostart.Base.Equality.{text_eq}
use oscmix_autostart.Config.Defs.{Route}
use oscmix_autostart.Reconcile.Messages.{Message, link_messages}
use oscmix_autostart.Reconcile.Desired.{Entry, entry, collect, phase_link}
use oscmix_autostart.Routing.Sequence.{first_int, note_links, output_link_state}

module _ {F : Type 0} ⦃fl : Floating F⦄ where
  -- The number that the entry of a register sends, if there is one.
  abbrev pub sent_value : Option (Entry F) → Option ℤ
  sent_value none = none
  sent_value (some e) = first_int e.args

  -- What is awaited for a register whose entry is known.
  abbrev pub awaited : Text → Option (Entry F) → Option ℤ
  awaited p e = if starts_with (text "/output/") p then sent_value e else none

  abbrev Agrees : Dict Text ℤ → Dict Text (Entry F) → Type 0
  Agrees state d = (p : Text) → get p state ≡ awaited p (get p d)

  note_output :
      (m : Message F) (z : ℤ) (state : Dict Text ℤ) (d : Dict Text (Entry F))
      → starts_with (text "/output/") m.0 ≡ true
      → first_int m.2 ≡ some z
      → Agrees state d
      → Agrees (put m.0 z state) (put m.0 (entry phase_link m) d)
  note_output m z state d o f h p = elim (Bool-cases (same m.0 p)) [
    | inl t ↦
        let here : m.0 ≡ p = (text_eq.eqb_iff m.0 p).0 t in
        let out : starts_with (text "/output/") p ≡ true =
          ap (starts_with (text "/output/")) (sym here) ∙ o in
        let known : get p (put m.0 z state) ≡ some z = get-put m.0 p z state ∙ rw t in
        let e : get p (put m.0 (entry phase_link m) d) ≡ some (entry phase_link m) =
          get-put m.0 p (entry phase_link m) d ∙ rw t in
        rw (known, e, out, f)
    | inr n ↦
        let known : get p (put m.0 z state) ≡ get p state = get-put m.0 p z state ∙ rw n in
        let e : get p (put m.0 (entry phase_link m) d) ≡ get p d =
          get-put m.0 p (entry phase_link m) d ∙ rw n in
        known ∙ h p ∙ sym (ap (awaited p) e)
  ]

  note_other :
      (m : Message F) (state : Dict Text ℤ) (d : Dict Text (Entry F))
      → starts_with (text "/output/") m.0 ≡ false
      → Agrees state d
      → Agrees state (put m.0 (entry phase_link m) d)
  note_other m state d o h p = elim (Bool-cases (same m.0 p)) [
    | inl t ↦
        let here : m.0 ≡ p = (text_eq.eqb_iff m.0 p).0 t in
        let out : starts_with (text "/output/") p ≡ false =
          ap (starts_with (text "/output/")) (sym here) ∙ o in
        h p ∙ rw out refl
    | inr n ↦
        let e : get p (put m.0 (entry phase_link m) d) ≡ get p d =
          get-put m.0 p (entry phase_link m) d ∙ rw n in
        h p ∙ sym (ap (awaited p) e)
  ]

  note_links-Agrees :
      (ms : List (Message F)) (state out : Dict Text ℤ) (d : Dict Text (Entry F))
      → note_links ms state ≡ some out
      → Agrees state d
      → Agrees out (collect phase_link ms d)
  unfolding note_links collect
  note_links-Agrees [] state out d e h = subst (λ s. Agrees s d) (some-injective _ _ e) h
  note_links-Agrees ((path, tags, args) ∷ ms) state out d e h =
      elim (Bool-cases (starts_with (text "/output/") path)) [
        | inl t ↦
            let (z, f, rest) = >>=-eq-some (first_int args) _ (rw (t, note_links) at e) in
            note_links-Agrees ms (put path z state) out _ rest
              (note_output (path, tags, args) z state d t f h)
        | inr n ↦
            note_links-Agrees ms state out _ (rw (n, note_links) at e)
              (note_other (path, tags, args) state d n h)
      ]

  -- What is awaited is, for each register below `/output/`, the number that its link entry sends, where
  -- a later route has the last word on both, and nothing for any other register.
  pub output_link_state-awaited :
      (routes : List (Route F)) (links : List (Message F)) (state : Dict Text ℤ)
      → extend_all link_messages routes ≡ some links
      → output_link_state routes ≡ some state
      → (p : Text) → get p state ≡ awaited p (get p (collect phase_link links []))
  unfolding output_link_state get
  output_link_state-awaited routes links state l s p =
      note_links-Agrees links [] state [] (rw (l, output_link_state) at s)
        (λ q. empty q (starts_with (text "/output/") q)) p
    where
      nothing : Option ℤ
      nothing = none

      empty : (q : Text) (b : Bool) → nothing ≡ (if b then nothing else nothing)
      empty q true = refl
      empty q false = refl
