-- ===== src/Config/Covered.antt =====
-- The options that `_check_options` of src/oscmix_desk/config.py lets through are known.
use oscmix_autostart.Base.{
  ◌≡◌, refl, Bool, true, Bool-cases, inl, inr, false, List, [], ◌∷◌, All, arith, if◌then◌else◌,
}
use oscmix_autostart.Base.Text.{Text, one_of, same, same_iff}
use oscmix_autostart.Base.Dict.{Dict, get, keys}
use oscmix_autostart.Base.Equality.{text_eq}
use oscmix_autostart.Config.Parsed.{Problem, parsed, refused, Defined}
use oscmix_autostart.Config.Document.{Section, check_options, has_unknown}

unrefused :
    (b : Bool) (p : Problem) → (if b then refused p else parsed tt) ≡ parsed (tt {0}) → b ≡ false
unrefused true p h = cc
unrefused false p h = refl

has_unknown-All :
    (ks known : List Text) → has_unknown ks known ≡ false → All (λ k. one_of k known ≡ true) ks
unfolding has_unknown
has_unknown-All [] known h = tt
has_unknown-All (k ∷ ks) known h = ground (arith, has_unknown-All ks known)

pub one_of-Defined :
    {V : Type 0} (k : Text) (d : Dict Text V) → one_of k (keys d) ≡ true → Defined (get k d)
unfolding one_of get
one_of-Defined k [] h = cc h
one_of-Defined k ((j, v) ∷ d) h = elim (Bool-cases (same j k)) [
  | inl e ↦ (v, rw e)
  | inr e ↦
      let rest : one_of k (keys d) ≡ true = ground (arith, same_iff k j, same_iff j k) in
      let (r, found) = one_of-Defined k d rest in (r, rw (e, found))
]

All-keys : {V : Type 0} (P : Text → Type 0) (d : Dict Text V) → All P (keys d) → All (λ o. P o.0) d
All-keys P [] h = tt
All-keys P ((k, v) ∷ d) h = (h.0, All-keys P d h.1)

-- Every option of the section is one of `known`.
pub check_options-All :
    (s : Section) (known : List Text)
    → check_options s known ≡ parsed tt
    → All (λ o. one_of o.0 known ≡ true) s.options
unfolding check_options
check_options-All s known h =
    All-keys (λ k. one_of k known ≡ true) s.options
      (has_unknown-All (keys s.options) known (unrefused (has_unknown (keys s.options) known) _ h))
