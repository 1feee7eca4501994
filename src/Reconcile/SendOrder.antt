-- ===== src/Reconcile/SendOrder.antt =====
-- `_send_order` gives the order in which the entries stand already: sorting by it moves nothing.
use oscmix_autostart.Base.{
  ℕ, suc, ◌+◌, ◌≡◌, refl, sym, ap, subst, ◌∙◌, ◌≢◌, leb, Bool, true, none, some, List, [], ◌∷◌,
  ◌++◌, map, All, length, arith, Option-cases, inl, inr,
}
use oscmix_autostart.Base.Text.{Text}
use oscmix_autostart.Base.Dict.{
  Dict, Distinct, keys, values, get, put, add_key, elem, elem-keys, keys-put,
}
use oscmix_autostart.Base.Equality.{text_eq}
use oscmix_autostart.Base.Sort.{insert, sort, set_of, add_all}
use oscmix_autostart.Reconcile.Messages.{Message}
use oscmix_autostart.Reconcile.Desired.{Entry, place, position, route_entries}
use oscmix_autostart.Reconcile.Entries.{
  path_of, entry_path, route_dict, keys-route_dict, paths-route_dict, set_of-Distinct,
}

module _ {ℓ} {A : Type ℓ} (le : A → A → Bool) where
  -- Each is at most the next.
  abbrev pub Ascending : List A → Type 0
  Ascending [] = Unit
  Ascending (x ∷ []) = Unit
  Ascending (x ∷ y ∷ ys) = (le x y ≡ true) × Ascending (y ∷ ys)

  pub sort-Ascending : (xs : List A) → Ascending xs → sort le xs ≡ xs
  unfolding sort
  sort-Ascending [] h = refl
  sort-Ascending (x ∷ []) h = refl
  sort-Ascending (x ∷ y ∷ ys) h = ap (insert le x) (sort-Ascending (y ∷ ys) h.1) ∙ rw (h.0)

-- The keys are numbered from `n` on, in their order.
abbrev Counts : ℕ → Dict Text ℕ → Type 0
Counts n [] = Unit
Counts n ((k, v) ∷ d) = (v ≡ n) × Counts (n + 1) d

add_key_old : (k : Text) (ks : List Text) → elem k ks ≡ true → add_key k ks ≡ ks
unfolding elem add_key
add_key_old k [] h = cc
add_key_old k (j ∷ ks) h = ground (arith, add_key_old k ks)

put-Counts :
    (n : ℕ) (k : Text) (d : Dict Text ℕ)
    → get k d ≡ none
    → Counts n d
    → Counts n (put k (n + length d) d)
unfolding get put
put-Counts n k [] h c = omega arith
put-Counts n k ((j, w) ∷ d) h c =
    ground (
      arith,
      put-Counts (n + 1) k d,
      ap (λ (m : ℕ). Counts (n + 1) (put k m d)) (step n (length d)),
    )
  where
    step : (a b : ℕ) → a + suc b ≡ a + 1 + b
    step a b = omega arith

length-put_new :
    (k : Text) (v : ℕ) (d : Dict Text ℕ) → get k d ≡ none → length (put k v d) ≡ length d + 1
unfolding get put
length-put_new k v [] h = omega arith
length-put_new k v ((j, w) ∷ d) h = ground (arith, length-put_new k v d)

elem_of_get : (k : Text) (d : Dict Text ℕ) (n : ℕ) → get k d ≡ some n → elem k (keys d) ≡ true
elem_of_get k d n h = elem-keys k d ∙ rw h

-- Looking up each pair of a dictionary in front of which `(j, w)` is put.
get_cons {ℓ} :
    {A : Type ℓ} (j : Text) (w : A) (d q : Dict Text A)
    → All (λ k. j ≢ k) (keys q)
    → All (λ p. get p.0 d ≡ some p.1) q
    → All (λ p. get p.0 ((j, w) ∷ d) ≡ some p.1) q
unfolding get
get_cons j w d [] fresh h = tt
get_cons j w d ((k, v) ∷ q) fresh h =
    ground (arith, text_eq.eqb_iff j k, get_cons j w d q fresh.1 h.1)

pub get_self {ℓ} :
    {A : Type ℓ} (d : Dict Text A) → Distinct (keys d) → All (λ p. get p.0 d ≡ some p.1) d
get_self [] h = tt
get_self ((k, v) ∷ d) h = (here, get_cons k v d d h.0 (get_self d h.1))
  where
    here : get k ((k, v) ∷ d) ≡ some v
    here = unfold get in ground (arith, text_eq.eqb_iff k k)

module _ {F : Type 0} where
  place_new :
      (m : Message F) (ms : List (Message F)) (d : Dict Text ℕ) (n : ℕ)
      → get (path_of m) d ≡ none
      → place (m ∷ ms) d n ≡ place ms (put (path_of m) n d) (n + 1)
  unfolding place
  place_new (p, t, a) ms d n h = ground arith

  place_old :
      (m : Message F) (ms : List (Message F)) (d : Dict Text ℕ) (n k : ℕ)
      → get (path_of m) d ≡ some k
      → place (m ∷ ms) d n ≡ place ms d n
  unfolding place
  place_old (p, t, a) ms d n k h = ground arith

  keys-place :
      (ms : List (Message F)) (d : Dict Text ℕ) (n : ℕ)
      → keys (place ms d n) ≡ add_all (keys d) (map path_of ms)
  unfolding add_all
  keys-place [] d n = unfold place in refl
  keys-place (m ∷ ms) d n = elim (Option-cases (get (path_of m) d)) [
    | inl new ↦
        ap keys (place_new m ms d n new)
        ∙ keys-place ms (put (path_of m) n d) (n + 1)
        ∙ ap (λ ks. add_all ks (map path_of ms)) (keys-put (path_of m) n d)
    | inr (k, old) ↦
        ap keys (place_old m ms d n k old)
        ∙ keys-place ms d n
        ∙ ap (λ ks. add_all ks (map path_of ms))
            (sym (add_key_old (path_of m) (keys d) (elem_of_get (path_of m) d k old)))
  ]

  place-Counts :
      (ms : List (Message F)) (d : Dict Text ℕ) (n : ℕ)
      → n ≡ length d
      → Counts 0 d
      → Counts 0 (place ms d n)
  place-Counts [] d n e c = unfold place in c
  place-Counts (m ∷ ms) d n e c = elim (Option-cases (get (path_of m) d)) [
    | inl new ↦ subst (Counts 0) (sym (place_new m ms d n new)) (
        place-Counts ms (put (path_of m) n d) (n + 1)
          (omega (arith, length-put_new (path_of m) n d new))
          (subst (λ (k : ℕ). Counts 0 (put (path_of m) k d)) (omega arith)
            (put-Counts 0 (path_of m) d new c)))
    | inr (k, old) ↦ subst (Counts 0) (sym (place_old m ms d n k old)) (place-Counts ms d n e c)
  ]

  Ascending-entries :
      (d q : Dict Text ℕ) (n : ℕ) (es : List (Entry F))
      → map entry_path es ≡ keys q
      → Counts n q
      → All (λ p. get p.0 d ≡ some p.1) q
      → Ascending (λ a b. leb (position d a) (position d b)) es
  Ascending-entries d q n [] e c g = tt
  Ascending-entries d q n (x ∷ []) e c g = tt
  Ascending-entries d [] n (x ∷ y ∷ es) e c g = absurd (ground arith)
  Ascending-entries d (a ∷ []) n (x ∷ y ∷ es) e c g = absurd (ground arith)
  Ascending-entries d ((j, v) ∷ (k, w) ∷ q) n (x ∷ y ∷ es) e c g =
      (ground arith, Ascending-entries d ((k, w) ∷ q) (n + 1) (y ∷ es) (ground arith) c.1 g.1)

  -- The sort of `desired` moves nothing: the entries of the routes are the values of the
  -- dictionary, in its order.
  pub route_entries_lem :
      (links mixes : List (Message F)) → route_entries links mixes ≡ values (route_dict links mixes)
  unfolding route_entries route_dict set_of add_all
  route_entries_lem links mixes = sort-Ascending _ _ (
      Ascending-entries (place (links ++ mixes) [] 0) (place (links ++ mixes) [] 0) 0 _
        (paths-route_dict links mixes
          ∙ keys-route_dict links mixes
          ∙ sym (keys-place (links ++ mixes) [] 0))
        (place-Counts (links ++ mixes) [] 0 refl tt)
        (get_self _ (
          subst Distinct (sym (keys-place (links ++ mixes) [] 0))
            (set_of-Distinct (map path_of (links ++ mixes))))))
