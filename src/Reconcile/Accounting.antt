-- ===== src/Reconcile/Accounting.antt =====
-- What a plan accounts for: every entry, once, and each write for the reason that it states.
use oscmix_autostart.Base.{
  ◌≡◌, refl, sym, ap, ◌∙◌, subst, ◌≢◌, Bool, true, false, Option, none, some, List, [], ◌∷◌, ◌++◌,
  map, if◌then◌else◌, All, Option-cases, Bool-cases, inl, inr, >>=-eq-some,
}
use mathlib.Core.Bool.{false≢true}
use mathlib.Core.List.{Perm, perm_middle}
use mathlib.Core.List.Perm
use mathlib.Core.Option.{some-injective}
use oscmix_autostart.Base.Text.{Text}
use oscmix_autostart.Base.Float.{Floating}
use oscmix_autostart.Base.Dict.{Dict, get}
use oscmix_autostart.Base.Equality.{text_eq}
use oscmix_autostart.Base.Sort.{insert, sort, All-sort}
use oscmix_autostart.Registers.Defs.{Device}
use oscmix_autostart.Config.Defs.{Value}
use oscmix_autostart.Reconcile.Desired.{Entry}
use oscmix_autostart.Reconcile.Entries.{entry_path}
use oscmix_autostart.Reconcile.Compare.{matches}
use oscmix_autostart.Reconcile.Plan.{
  missing, mismatched, rewrite, unconditional, Write, Plan, write, class_of, is_reestablished,
  add_write, add_confirmed, add_unverifiable, plan_entry, plan_seen, by_phase, plan,
}

module _ {ℓ} {A : Type ℓ} (le : A → A → Bool) where
  insert-perm : (x : A) (ys : List A) → Perm (insert le x ys) (x ∷ ys)
  unfolding insert
  insert-perm x [] = Perm.refl (x ∷ [])
  insert-perm x (y ∷ ys) = elim (Bool-cases (le x y)) [
    | inl t ↦ rw t (Perm.refl (x ∷ y ∷ ys))
    | inr f ↦ rw f (Perm.trans (Perm.cons y (insert-perm x ys)) (Perm.swap x y ys))
  ]

  pub sort-perm : (xs : List A) → Perm (sort le xs) xs
  unfolding sort
  sort-perm [] = Perm.refl []
  sort-perm (x ∷ xs) = Perm.trans (insert-perm x (sort le xs)) (Perm.cons x (sort-perm xs))

module _ {F : Type 0} where
  abbrev pub write_path : Write F → Text
  write_path w = w.path

module _ {F : Type 0} ⦃fl : Floating F⦄ where
  module _ (seen : Dict Text (List (Value F))) (device : Option (Device F)) (tolerance : F) where
    -- What the reason of a write says of the register that it writes.
    abbrev pub Explained : Write F → Type 0
    Explained w = elim w.reason [
      | rewrite ↦ is_reestablished (class_of device w.path) ≡ true
      | missing ↦ (is_reestablished (class_of device w.path) ≡ false) × (get w.path seen ≡ none)
      | mismatched ↦
          (is_reestablished (class_of device w.path) ≡ false)
          × ((got : List (Value F)) × (get w.path seen ≡ some got)
              × (matches tolerance w.tags w.args got ≡ some false))
      | unconditional ↦ ⊥
    ]

    -- The four ways in which one entry goes into a plan.
    pub data Goes (e : Entry F) (rest p : Plan F) : Type 0 where
      rewritten :
          is_reestablished (class_of device e.path) ≡ true
          → add_write (write rewrite e) (add_unverifiable e.path rest) ≡ p
          → Goes e rest p
      absent :
          is_reestablished (class_of device e.path) ≡ false
          → get e.path seen ≡ none
          → add_write (write missing e) rest ≡ p
          → Goes e rest p
      satisfied :
          (got : List (Value F))
          → is_reestablished (class_of device e.path) ≡ false
          → get e.path seen ≡ some got
          → matches tolerance e.tags e.args got ≡ some true
          → add_confirmed e.path rest ≡ p
          → Goes e rest p
      differing :
          (got : List (Value F))
          → is_reestablished (class_of device e.path) ≡ false
          → get e.path seen ≡ some got
          → matches tolerance e.tags e.args got ≡ some false
          → add_write (write mismatched e) rest ≡ p
          → Goes e rest p

    Goes-seen :
        (e : Entry F) (rest p : Plan F) (got : List (Value F)) (same : Bool)
        → is_reestablished (class_of device e.path) ≡ false
        → get e.path seen ≡ some got
        → matches tolerance e.tags e.args got ≡ some same
        → (if same then add_confirmed e.path rest else add_write (write mismatched e) rest) ≡ p
        → Goes e rest p
    Goes-seen e rest p got true c g m h = satisfied got c g m h
    Goes-seen e rest p got false c g m h = differing got c g m h

    pub plan_entry-Goes :
        (e : Entry F) (rest p : Plan F)
        → plan_entry seen device tolerance e rest ≡ some p
        → Goes e rest p
    unfolding plan_entry
    plan_entry-Goes e rest p h = elim (Bool-cases (is_reestablished (class_of device e.path))) [
      | inl c ↦ rewritten c (some-injective _ _ (rw (c, plan_entry) at h))
      | inr c ↦ elim (Option-cases (get e.path seen)) [
        | inl g ↦ absent c g (some-injective _ _ (rw (c, g, plan_entry) at h))
        | inr (got, g) ↦
            let (same, m, last) =
              >>=-eq-some (matches tolerance e.tags e.args got) _ (rw (c, g, plan_entry) at h) in
            Goes-seen e rest p got same c g m (some-injective _ _ last)
      ]
    ]

    -- The paths that a plan accounts for.
    abbrev accounted : Plan F → List Text
    accounted p = map write_path p.writes ++ p.confirmed

    entry-perm :
        (e : Entry F) (rest p : Plan F)
        → Goes e rest p
        → Perm (accounted p) (e.path ∷ accounted rest)
    entry-perm e rest p (rewritten c h) =
        subst (λ q. Perm (accounted q) (e.path ∷ accounted rest)) h (Perm.refl _)
    entry-perm e rest p (absent c g h) =
        subst (λ q. Perm (accounted q) (e.path ∷ accounted rest)) h (Perm.refl _)
    entry-perm e rest p (satisfied got c g m h) =
        subst (λ q. Perm (accounted q) (e.path ∷ accounted rest)) h
          (perm_middle (map write_path rest.writes) rest.confirmed)
    entry-perm e rest p (differing got c g m h) =
        subst (λ q. Perm (accounted q) (e.path ∷ accounted rest)) h (Perm.refl _)

    entry-Explained :
        (e : Entry F) (rest p : Plan F)
        → Goes e rest p
        → All Explained rest.writes
        → All Explained p.writes
    entry-Explained e rest p (rewritten c h) a = subst (λ q. All Explained q.writes) h (c, a)
    entry-Explained e rest p (absent c g h) a = subst (λ q. All Explained q.writes) h ((c, g), a)
    entry-Explained e rest p (satisfied got c g m h) a = subst (λ q. All Explained q.writes) h a
    entry-Explained e rest p (differing got c g m h) a =
        subst (λ q. All Explained q.writes) h ((c, (got, g, m)), a)

    seen-perm :
        (es : List (Entry F)) (p : Plan F)
        → plan_seen seen device tolerance es ≡ some p
        → Perm (accounted p) (map entry_path es)
    unfolding plan_seen
    seen-perm [] p h = subst (λ q. Perm (accounted q) []) (some-injective _ _ h) (Perm.refl [])
    seen-perm (e ∷ es) p h =
        let (rest, r, last) = >>=-eq-some (plan_seen seen device tolerance es) _ h in
        Perm.trans (entry-perm e rest p (plan_entry-Goes e rest p last))
          (Perm.cons e.path (seen-perm es rest r))

    seen-Explained :
        (es : List (Entry F)) (p : Plan F)
        → plan_seen seen device tolerance es ≡ some p
        → All Explained p.writes
    unfolding plan_seen
    seen-Explained [] p h = subst (λ q. All Explained q.writes) (some-injective _ _ h) tt
    seen-Explained (e ∷ es) p h =
        let (rest, r, last) = >>=-eq-some (plan_seen seen device tolerance es) _ h in
        entry-Explained e rest p (plan_entry-Goes e rest p last) (seen-Explained es rest r)

    -- A plan against an observation accounts for every desired register exactly once, as a write
    -- or as confirmed.
    pub plan-perm :
        (es : List (Entry F)) (p : Plan F)
        → plan es (some seen) device tolerance ≡ some p
        → Perm (map write_path p.writes ++ p.confirmed) (map entry_path es)
    unfolding plan by_phase
    plan-perm es p h =
        let (q, r, last) = >>=-eq-some (plan_seen seen device tolerance es) _ h in
        subst (λ q'. Perm (accounted q') (map entry_path es)) (some-injective _ _ last)
          (Perm.trans (Perm.append_right q.confirmed (Perm.map write_path (sort-perm _ q.writes)))
            (seen-perm es q r))

    -- Every write of a plan against an observation has the reason that it states: a register that
    -- is re-established, one that was not observed, or one whose report does not match.
    pub plan-Explained :
        (es : List (Entry F)) (p : Plan F)
        → plan es (some seen) device tolerance ≡ some p
        → All Explained p.writes
    unfolding plan by_phase
    plan-Explained es p h =
        let (q, r, last) = >>=-eq-some (plan_seen seen device tolerance es) _ h in
        subst (λ q'. All Explained q'.writes) (some-injective _ _ last)
          (All-sort _ Explained q.writes (seen-Explained es q r))

    -- The device reports the register at its desired value.
    abbrev pub Settled : Entry F → Type 0
    Settled e =
        is_reestablished (class_of device e.path) ≡ false
        → (got : List (Value F)) × (get e.path seen ≡ some got)
          × (matches tolerance e.tags e.args got ≡ some true)

    abbrev IsRewrite : Write F → Type 0
    IsRewrite w = w.reason ≡ rewrite

    entry-Settled :
        (e : Entry F) (rest p : Plan F)
        → Goes e rest p
        → Settled e
        → All IsRewrite rest.writes
        → All IsRewrite p.writes
    entry-Settled e rest p (rewritten c h) s a = subst (λ q. All IsRewrite q.writes) h (refl, a)
    entry-Settled e rest p (absent c g h) s a =
        let (got, g', m) = s c in absurd (none-ne-some (sym g ∙ g'))
      where
        none-ne-some : {x : List (Value F)} → none ≢ some x
        none-ne-some q = cc q
    entry-Settled e rest p (satisfied got c g m h) s a = subst (λ q. All IsRewrite q.writes) h a
    entry-Settled e rest p (differing got c g m h) s a =
        let (got', g', m') = s c in
        let same_got : got ≡ got' = some-injective _ _ (sym g ∙ g') in
        let same_test : false ≡ true =
          some-injective _ _ (sym m ∙ ap (matches tolerance e.tags e.args) same_got ∙ m') in
        absurd (false≢true same_test)

    seen-Settled :
        (es : List (Entry F)) (p : Plan F)
        → All Settled es
        → plan_seen seen device tolerance es ≡ some p
        → All IsRewrite p.writes
    unfolding plan_seen
    seen-Settled [] p s h = subst (λ q. All IsRewrite q.writes) (some-injective _ _ h) tt
    seen-Settled (e ∷ es) p s h =
        let (rest, r, last) = >>=-eq-some (plan_seen seen device tolerance es) _ h in
        entry-Settled e rest p (plan_entry-Goes e rest p last) s.0 (seen-Settled es rest s.1 r)

    -- Where the device reports every desired register at its value, a plan writes nothing but the
    -- registers that are re-established on every apply.
    pub plan-Settled :
        (es : List (Entry F)) (p : Plan F)
        → All Settled es
        → plan es (some seen) device tolerance ≡ some p
        → All (λ w. w.reason ≡ rewrite) p.writes
    unfolding plan by_phase
    plan-Settled es p s h =
        let (q, r, last) = >>=-eq-some (plan_seen seen device tolerance es) _ h in
        subst (λ q'. All IsRewrite q'.writes) (some-injective _ _ last)
          (All-sort _ IsRewrite q.writes (seen-Settled es q s r))
