-- ===== src/Command/First.antt =====
-- What `_read_device` of src/oscmix_desk/cli.py keeps of what it hears.
use oscmix_autostart.Base.{
  ◌≡◌, refl, sym, ap, ◌∙◌, ℕ, ◌+◌, Bool, true, false, Option, none, some, List, [], ◌∷◌, ◌++◌,
  Option-cases, inl, inr, if◌then◌else◌,
}
use native.Mathlib.Omega.{arith}
use mathlib.Core.Option.{some-injective}
use oscmix_autostart.Base.Text.{Text}
use oscmix_autostart.Base.Dict.{get, put}
use oscmix_autostart.Base.Equality.{text_eq}
use oscmix_autostart.Config.Defs.{Value}
use oscmix_autostart.Reconcile.Messages.{Message}
use oscmix_autostart.Command.Read.{
  Observed, Pass, set_default, add_reports, read_rounds, if_any, read_device,
}

-- The first of two that is there.
abbrev or_else {ℓ} : {A : Type ℓ} → Option A → Option A → Option A
or_else none b = b
or_else (some a) b = some a

or_else_assoc {ℓ} :
    {A : Type ℓ} (a b c : Option A) → or_else (or_else a b) c ≡ or_else a (or_else b c)
or_else_assoc none b c = refl
or_else_assoc (some a) b c = refl

or_else_id {ℓ} : {A : Type ℓ} (a : Option A) → or_else a none ≡ a
or_else_id none = refl
or_else_id (some a) = refl

module _ {F : Type 0} where
  -- Reports in the order in which they were heard.
  abbrev rows : List (Message F) → Observed F
  rows [] = []
  rows ((path, tags, args) ∷ ms) = (path, args) ∷ rows ms

  abbrev pub reports : List (Pass F) → Observed F
  reports [] = []
  reports (r ∷ rs) = rows r.heard ++ reports rs

  get-append : (k : Text) (d e : Observed F) → get k (d ++ e) ≡ or_else (get k d) (get k e)
  unfolding get
  get-append k [] e = refl
  get-append k ((j, v) ∷ d) e = ground (arith, get-append k d e)

  get-put_new :
      (k path : Text) (args : List (Value F)) (d : Observed F)
      → get path d ≡ none
      → get k (put path args d) ≡ or_else (get k d) (get k ((path, args) ∷ []))
  unfolding get put
  get-put_new k path args [] h = refl
  get-put_new k path args ((j, v) ∷ d) h =
      ground (arith, h, text_eq.eqb_iff j path, get-put_new k path args d)

  get-held :
      (k path : Text) (args held : List (Value F)) (d : Observed F)
      → get path d ≡ some held
      → get k d ≡ or_else (get k d) (get k ((path, args) ∷ []))
  unfolding get
  get-held k path args held [] h = cc h
  get-held k path args held ((j, v) ∷ d) h = ground (
    arith,
    h,
    text_eq.eqb_iff j path,
    text_eq.eqb_iff path k,
    text_eq.eqb_iff j k,
    get-held k path args held d,
  )

  get-set_default :
      (k path : Text) (args : List (Value F)) (d : Observed F)
      → get k (set_default path args d) ≡ or_else (get k d) (get k ((path, args) ∷ []))
  unfolding set_default
  get-set_default k path args d = elim (Option-cases (get path d)) [
    | inl g ↦ rw (g, set_default) (get-put_new k path args d g)
    | inr (held, g) ↦ rw (g, set_default) (get-held k path args held d g)
  ]

  get-add_reports :
      (k : Text) (ms : List (Message F)) (d : Observed F)
      → get k (add_reports ms d) ≡ or_else (get k d) (get k (rows ms))
  unfolding add_reports get
  get-add_reports k [] d = sym (or_else_id (get k d))
  get-add_reports k ((path, tags, args) ∷ ms) d =
      get-add_reports k ms (set_default path args d)
      ∙ ap (λ x. or_else x (get k (rows ms))) (get-set_default k path args d)
      ∙ or_else_assoc (get k d) (get k ((path, args) ∷ [])) (get k (rows ms))
      ∙ ap (or_else (get k d)) (sym (get-append k ((path, args) ∷ []) (rows ms)))

  -- `found` holds, behind `seen`, the first reports of the passes that were made.
  record KeepsFirst (seen : Observed F) (rs : List (Pass F)) (found : Observed F) : Type 0 where
    made : List (Pass F)
    left : List (Pass F)
    all : made ++ left ≡ rs
    first : (k : Text) → get k found ≡ or_else (get k seen) (get k (reports made))

  none_made : (seen : Observed F) (rs : List (Pass F)) → KeepsFirst seen rs seen
  unfolding get
  none_made seen rs = record {
    made = [];
    left = rs;
    all = refl;
    first = λ k. sym (or_else_id (get k seen));
  }

  one_made :
      (r : Pass F) (seen : Observed F) (rs : List (Pass F)) (found : Observed F)
      → KeepsFirst (add_reports r.heard seen) rs found
      → KeepsFirst seen (r ∷ rs) found
  one_made r seen rs found c = record {
    made = r ∷ c.made;
    left = c.left;
    all = ap (λ l. r ∷ l) c.all;
    first = λ k.
        c.first k
        ∙ ap (λ x. or_else x (get k (reports c.made))) (get-add_reports k r.heard seen)
        ∙ or_else_assoc (get k seen) (get k (rows r.heard)) (get k (reports c.made))
        ∙ ap (or_else (get k seen)) (sym (get-append k (rows r.heard) (reports c.made)));
  }

  if-KeepsFirst :
      (b : Bool) (seen x y : Observed F) (rs : List (Pass F))
      → KeepsFirst seen rs x
      → KeepsFirst seen rs y
      → KeepsFirst seen rs (if b then x else y)
  if-KeepsFirst true seen x y rs p q = p
  if-KeepsFirst false seen x y rs p q = q

  read_rounds-KeepsFirst :
      (deadline quiet due : ℕ) (rs : List (Pass F)) (seen : Observed F)
      → KeepsFirst seen rs (read_rounds deadline quiet due rs seen)
  unfolding read_rounds
  read_rounds-KeepsFirst deadline quiet due [] seen = none_made seen []
  read_rounds-KeepsFirst deadline quiet due (r ∷ rs) seen =
      let more = add_reports r.heard seen in
      let further =
        λ (at : ℕ). one_made r seen rs _ (read_rounds-KeepsFirst deadline quiet at rs more) in
      if-KeepsFirst _ seen _ _ (r ∷ rs)
        (if-KeepsFirst _ seen _ _ (r ∷ rs) (further (r.after + quiet)) (
          if-KeepsFirst _ seen _ _ (r ∷ rs) (one_made r seen rs more (none_made more rs))
            (further due)))
        (none_made seen (r ∷ rs))

  if_any-eq : (o s : Observed F) → if_any o ≡ some s → o ≡ s
  if_any-eq [] s h = cc h
  if_any-eq (r ∷ o) s h = some-injective _ _ h

  -- A read of the device ends behind some of the passes, in order, and holds for each register the
  -- first report of it in them, and nothing for a register that they did not report.
  pub read_device-first :
      (busy : Bool) (deadline quiet : ℕ) (rounds : List (Pass F)) (seen : Observed F)
      → read_device busy deadline quiet rounds ≡ some seen
      → (made : List (Pass F)) × (left : List (Pass F)) × (made ++ left ≡ rounds)
        × ((k : Text) → get k seen ≡ get k (reports made))
  unfolding read_device get
  read_device-first true deadline quiet rounds seen h = cc h
  read_device-first false deadline quiet rounds seen h =
      let c = read_rounds-KeepsFirst deadline quiet deadline rounds [] in
      let same = if_any-eq (read_rounds deadline quiet deadline rounds []) seen h in
      (c.made, c.left, c.all, (λ k. ap (get k) (sym same) ∙ c.first k))
