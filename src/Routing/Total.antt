-- ===== src/Routing/Total.antt =====
-- An apply starts whenever `desired` does: what it needs besides raises nothing.
use oscmix_autostart.Base.{
  ◌≡◌, refl, subst, Bool, Option, none, some, List, [], ◌∷◌, if◌then◌else◌, All, All-extend_all, ℕ,
  Bool-cases, Option-cases, inl, inr,
}
use mathlib.Core.Option.{some-injective}
use oscmix_autostart.Base.Text.{Text, text, starts_with}
use oscmix_autostart.Base.Int.{ℤ, pos}
use oscmix_autostart.Base.Float.{Floating}
use oscmix_autostart.Base.Dict.{Dict, put}
use oscmix_autostart.Base.Equality.{text_eq}
use oscmix_autostart.Config.Defs.{Value, int, Route, Config, source}
use oscmix_autostart.Config.Convert.{int_of_value}
use oscmix_autostart.Reconcile.Messages.{Message, links_of, link_messages}
use oscmix_autostart.Reconcile.Desired.{Entry, desired}
use oscmix_autostart.Reconcile.Plan.{plan}
use oscmix_autostart.Reconcile.Phases.{Parts, desired-Parts}
use oscmix_autostart.Routing.Sequence.{first_int, note_links, output_link_state}
use oscmix_autostart.Routing.Apply.{Effect, apply_routing}

module _ {F : Type 0} where
  -- A message whose first argument is an int.
  abbrev HasInt : Message F → Type 0
  HasInt (path, tags, []) = ⊥
  HasInt (path, tags, v ∷ vs) = (z : ℤ) × (v ≡ int z)

  links_of-HasInt :
      (kind : Text) (ss output : List ℕ) (stereo : Bool) (ms : List (Message F))
      → links_of kind ss output stereo ≡ some ms
      → All HasInt ms
  unfolding links_of
  links_of-HasInt kind [] (left ∷ right ∷ []) stereo ms e = absurd (cc e)
  links_of-HasInt kind (s ∷ ss) (left ∷ right ∷ []) stereo ms e =
      subst (All HasInt) (some-injective _ _ e)
        ((pos 1, refl), ((pos (if stereo then 1 else 0), refl), tt))
  links_of-HasInt kind ss output stereo ms e = subst (All HasInt) (some-injective _ _ e) tt

  link_messages-HasInt :
      (r : Route F) (ms : List (Message F)) → link_messages r ≡ some ms → All HasInt ms
  unfolding link_messages
  link_messages-HasInt r ms e = links_of-HasInt (source r).0 (source r).1 r.output r.stereo ms e

module _ {F : Type 0} ⦃fl : Floating F⦄ where
  first_int-total :
      (v : Value F) (vs : List (Value F)) (z : ℤ) → v ≡ int z → first_int (v ∷ vs) ≡ some z
  unfolding first_int int_of_value
  first_int-total v vs z e = rw e

  note_links-total :
      (ms : List (Message F)) (state : Dict Text ℤ)
      → All HasInt ms
      → (out : Dict Text ℤ) × (note_links ms state ≡ some out)
  unfolding note_links
  note_links-total [] state h = (state, refl)
  note_links-total ((path, tags, []) ∷ ms) state h = absurd h.0
  note_links-total ((path, tags, v ∷ vs) ∷ ms) state h =
      elim (Bool-cases (starts_with (text "/output/") path)) [
        | inl t ↦
            let (z, e) = h.0 in
            let (out, o) = note_links-total ms (put path z state) h.1 in
            (out, rw (t, first_int-total v vs z e, o))
        | inr n ↦ let (out, o) = note_links-total ms state h.1 in (out, rw (n, o))
      ]

  output_link_state-total :
      (c : Config F) (es : List (Entry F))
      → desired c ≡ some es
      → (state : Dict Text ℤ) × (output_link_state c.routes ≡ some state)
  unfolding output_link_state
  output_link_state-total c es d =
      let p : Parts c es = desired-Parts c es d in
      let (state, s) =
        note_links-total p.links []
          (All-extend_all link_messages link_messages-HasInt c.routes p.links p.links_eq) in
      (state, rw (p.links_eq, s))

  -- Where `desired` raises nothing, an apply raises nothing before the wait for the link echo, so
  -- it has something to do whatever is left alone and whatever the listener hears.
  pub apply_routing-total :
      (c : Config F) (skip : List Text) (l : Option (List (List (Message F)))) (es : List (Entry F))
      → desired c ≡ some es
      → (fx : List (Effect F)) × (apply_routing c skip l ≡ some fx)
  unfolding apply_routing plan
  apply_routing-total c skip l es d =
      let (state, s) = output_link_state-total c es d in
      elim (Option-cases (apply_routing c skip l)) [
        | inl n ↦ absurd (none-ne-some (rw (d, s, apply_routing, plan) at n))
        | inr found ↦ found
      ]
    where
      none-ne-some : {fx : List (Effect F)} → some fx ≡ none → ⊥
      none-ne-some e = cc e
