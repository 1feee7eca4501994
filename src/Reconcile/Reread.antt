-- ===== src/Reconcile/Reread.antt =====
-- That src/oscmix_desk/config.py reads back what a dump of src/oscmix_desk/reconcile.py writes.
use oscmix_autostart.Base.{
  ◌≡◌, refl, sym, ap, ◌∙◌, Bool, true, false, ◌&&◌, Option, none, some, if◌then◌else◌, arith,
}
use oscmix_autostart.Base.Text.{Text, strip, lower, same, one_of}
use oscmix_autostart.Base.Decimal.{show_ℤ}
use oscmix_autostart.Base.Int.{pos}
use oscmix_autostart.Base.Float.{Floating}
use oscmix_autostart.Registers.Defs.{Register, Domain, bool, enum, number}
use oscmix_autostart.Config.Defs.{Value, int, float, str, flag}
use oscmix_autostart.Config.Parsed.{parsed}
use oscmix_autostart.Config.Values.{
  parse_bool, parse_number, parse_domain, below, above, number_in, value_in,
}
use oscmix_autostart.Reconcile.Dump.{
  truth, truth_word, render_plain, render_value, unnameable, not_among, bool_in, enum_in,
}

parse_bool-truth_word :
    (b : Bool) (section option : Text) → parse_bool (truth_word b) section option ≡ parsed b
unfolding parse_bool one_of lower strip same
parse_bool-truth_word true section option = refl
parse_bool-truth_word false section option = refl

module _ {F : Type 0} ⦃fl : Floating F⦄ where
  -- `x` is within the bounds of the register, and the parser reads it from a text.
  abbrev Spells : Register F → Text → F → Value F → Type 0
  Spells r raw x w =
      (fl.parse raw ≡ some x) × (below x r.lo ≡ false) × (above x r.hi ≡ false) × (w ≡ float x)

  -- What the parser makes of a value's text, by the domain of its register: a Boolean is its truth, a
  -- name without outer blanks itself, an integer itself, and a float rounded to one digit. For numbers
  -- this takes of Python that `float` reads an integer's digits as that integer, and what "%.1f"
  -- prints as `round` to one digit.
  abbrev pub Rereads : Register F → Option Domain → Value F → Value F → Type 0
  Rereads r none v w = ⊥
  Rereads r (some bool) v w = w ≡ int (pos (if truth v then 1 else 0))
  Rereads r (some enum) (str s) w = (strip s ≡ s) × (w ≡ str s)
  Rereads r (some enum) v w = ⊥
  Rereads r (some number) (float x) w = Spells r (fl.fixed1 x) (fl.round1 x) w
  Rereads r (some number) (int z) w = Spells r (show_ℤ z) (fl.of_int z) w
  Rereads r (some number) v w = ⊥

  reread_number :
      (r : Register F) (raw : Text) (section option : Text) (x : F)
      → fl.parse raw ≡ some x
      → below x r.lo ≡ false
      → above x r.hi ≡ false
      → parse_number raw section option r ≡ parsed x
  unfolding parse_number
  reread_number r raw section option x e lo hi =
      ap (λ m. number_in m section option r) e ∙ rw (lo, hi) refl

  reread_domain :
      (r : Register F) (d : Option Domain) (v w : Value F) (section option : Text)
      → Rereads r d v w
      → (enum_in d && not_among v r.choices) ≡ false
      → value_in d (if bool_in d then truth_word (truth v) else render_plain v) section option r
        ≡ parsed w
  reread_domain r none v w section option h n = elim h [ ]
  reread_domain r (some bool) v w section option h n =
      rw (parse_bool-truth_word (truth v) section option) (ap parsed (sym h))
  reread_domain r (some enum) (str s) w section option h n =
      let known : one_of s r.choices ≡ true = ground arith in rw (h.0, known) (ap parsed (sym h.1))
  reread_domain r (some enum) (int z) w section option h n = elim h [ ]
  reread_domain r (some enum) (float z) w section option h n = elim h [ ]
  reread_domain r (some enum) (flag z) w section option h n = elim h [ ]
  reread_domain r (some number) (float x) w section option (e, lo, hi, same) n =
      rw (reread_number r (fl.fixed1 x) section option (fl.round1 x) e lo hi) (ap parsed (sym same))
  reread_domain r (some number) (int z) w section option (e, lo, hi, same) n =
      rw (reread_number r (show_ℤ z) section option (fl.of_int z) e lo hi) (ap parsed (sym same))
  reread_domain r (some number) (str s) w section option h n = elim h [ ]
  reread_domain r (some number) (flag b) w section option h n = elim h [ ]

  -- What a dump writes of a value that has a name, the parser reads back: a Boolean as its truth, a
  -- name without outer blanks as itself, and a number within the bounds of its register as itself if
  -- it is an integer and rounded to one digit if it is a float. It assumes of the number at hand that
  -- Python's `float` reads the digits of an integer as that integer, and "%.1f" as `round`.
  pub parse_domain-render_value :
      (r : Register F) (v w : Value F) (section option : Text)
      → Rereads r r.domain v w
      → unnameable r v ≡ false
      → parse_domain (render_value v (some r)) section option r ≡ parsed w
  unfolding parse_domain render_value unnameable
  parse_domain-render_value r v w section option h n =
      reread_domain r r.domain v w section option h n
