-- ===== src/Config/Agreement.antt =====
-- What `_check_link_agreement` of src/oscmix_desk/config.py establishes.
use oscmix_autostart.Base.{
  ℕ, ◌==◌, ◌≡◌, refl, sym, ap, subst, ◌∙◌, Bool, true, false, not, Bool-cases, inl, inr, Option,
  none, some, List, [], ◌∷◌, ◌++◌, length, arith,
}
use mathlib.Core.Option.{some-injective}
use oscmix_autostart.Config.Defs.{Route}
use oscmix_autostart.Config.Parsed.{parsed, parsed-injective, guard-eq-parsed, >>=-eq-parsed}
use oscmix_autostart.Config.Checks.{
  same_channels, same_flag, seen_for, note_against, note_pair, agree_with,
}

same_channels_refl : (xs : List ℕ) → same_channels xs xs ≡ true
unfolding same_channels
same_channels_refl [] = refl
same_channels_refl (x ∷ xs) = ground (arith, same_channels_refl xs)

same_channels-eq : (xs ys : List ℕ) → same_channels xs ys ≡ true → xs ≡ ys
unfolding same_channels
same_channels-eq [] [] h = refl
same_channels-eq [] (y ∷ ys) h = cc
same_channels-eq (x ∷ xs) [] h = cc
same_channels-eq (x ∷ xs) (y ∷ ys) h = ground (arith, same_channels-eq xs ys)

same_flag-eq : (a b : Bool) → same_flag a b ≡ true → a ≡ b
same_flag-eq true b h = sym h
same_flag-eq false true h = cc
same_flag-eq false false h = refl

module _ {F : Type 0} where
  -- A pair that nobody drove yet is not one that a later route is compared with.
  seen_for-recorded :
      (seen : List (Route F)) (r : Route F) (pair : List ℕ) (previous : Route F)
      → seen_for r.output seen ≡ none
      → seen_for pair seen ≡ some previous
      → seen_for pair (r ∷ seen) ≡ some previous
  unfolding seen_for
  seen_for-recorded seen r pair previous h k = elim (Bool-cases (same_channels r.output pair)) [
    | inl e ↦ (let same : r.output ≡ pair = same_channels-eq _ _ e in cc)
    | inr e ↦ rw e k
  ]

  -- What is seen first stays so.
  note_against-keeps :
      (seen seen' : List (Route F)) (r : Route F) (first : Option (Route F)) (pair : List ℕ)
      (previous : Route F)
      → seen_for r.output seen ≡ first
      → note_against seen r first ≡ parsed seen'
      → seen_for pair seen ≡ some previous
      → seen_for pair seen' ≡ some previous
  note_against-keeps seen seen' r none pair previous h e k =
      subst (λ s. seen_for pair s ≡ some previous) (parsed-injective _ _ e)
        (seen_for-recorded seen r pair previous h k)
  note_against-keeps seen seen' r (some first) pair previous h e k =
      let (_, e') = guard-eq-parsed _ _ _ e in
      subst (λ s. seen_for pair s ≡ some previous) (parsed-injective _ _ e') k

  note_pair-keeps :
      (seen seen' : List (Route F)) (r : Route F) (pair : List ℕ) (previous : Route F)
      → note_pair seen r ≡ parsed seen'
      → seen_for pair seen ≡ some previous
      → seen_for pair seen' ≡ some previous
  unfolding note_pair
  note_pair-keeps seen seen' r pair previous e k = elim (Bool-cases (not (length r.output == 2))) [
    | inl t ↦
        let e' : parsed seen ≡ parsed seen' = cc in
        subst (λ s. seen_for pair s ≡ some previous) (parsed-injective _ _ e') k
    | inr t ↦
        note_against-keeps seen seen' r (seen_for r.output seen) pair previous refl (rw t at e) k
  ]

  note_against-agrees :
      (seen seen' : List (Route F)) (r : Route F) (first : Option (Route F))
      → seen_for r.output seen ≡ first
      → note_against seen r first ≡ parsed seen'
      → (previous : Route F) × (seen_for r.output seen' ≡ some previous)
        × (previous.stereo ≡ r.stereo)
  unfolding seen_for
  note_against-agrees seen seen' r none h e = (
    r,
    subst (λ s. seen_for r.output s ≡ some r) (parsed-injective _ _ e)
        (rw (same_channels_refl r.output)),
    refl,
  )
  note_against-agrees seen seen' r (some previous) h e =
      let (t, e') = guard-eq-parsed _ _ _ e in
      (
        previous,
        subst (λ s. seen_for r.output s ≡ some previous) (parsed-injective _ _ e') h,
        same_flag-eq previous.stereo r.stereo t,
      )

  note_pair-agrees :
      (seen seen' : List (Route F)) (r : Route F)
      → length r.output ≡ 2
      → note_pair seen r ≡ parsed seen'
      → (previous : Route F) × (seen_for r.output seen' ≡ some previous)
        × (previous.stereo ≡ r.stereo)
  unfolding note_pair
  note_pair-agrees seen seen' r two e =
      note_against-agrees seen seen' r (seen_for r.output seen) refl (rw two at e)

  agree_with-first :
      (middle after : List (Route F)) (seen : List (Route F)) (q previous : Route F)
      → agree_with seen (middle ++ (q ∷ after)) ≡ parsed tt
      → length q.output ≡ 2
      → seen_for q.output seen ≡ some previous
      → previous.stereo ≡ q.stereo
  unfolding agree_with
  agree_with-first [] after seen q previous e two k =
      let (seen', e', _) = >>=-eq-parsed (note_pair seen q) _ e in
      let (first, at, agrees) = note_pair-agrees seen seen' q two e' in
      let kept = note_pair-keeps seen seen' q q.output previous e' k in
      let same : previous ≡ first = some-injective _ _ (sym kept ∙ at) in
      ap (λ r. r.stereo) same ∙ agrees
  agree_with-first (r ∷ middle) after seen q previous e two k =
      let (seen', e', rest) = >>=-eq-parsed (note_pair seen r) _ e in
      agree_with-first middle after seen' q previous rest two
        (note_pair-keeps seen seen' r q.output previous e' k)

  pub agree_with_sound :
      (before middle after : List (Route F)) (seen : List (Route F)) (r q : Route F)
      → agree_with seen (before ++ (r ∷ (middle ++ (q ∷ after)))) ≡ parsed tt
      → length r.output ≡ 2
      → r.output ≡ q.output
      → r.stereo ≡ q.stereo
  unfolding agree_with
  agree_with_sound [] middle after seen r q e two same =
      let (seen', e', rest) = >>=-eq-parsed (note_pair seen r) _ e in
      let (first, at, agrees) = note_pair-agrees seen seen' r two e' in
      sym agrees
      ∙ agree_with-first middle after seen' q first rest (subst (λ o. length o ≡ 2) same two)
          (subst (λ o. seen_for o seen' ≡ some first) same at)
  agree_with_sound (h ∷ before) middle after seen r q e two same =
      let (seen', e', rest) = >>=-eq-parsed (note_pair seen h) _ e in
      agree_with_sound before middle after seen' r q rest two same
