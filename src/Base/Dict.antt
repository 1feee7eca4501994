-- ===== src/Base/Dict.antt =====
-- Python's `dict` as an association list in insertion order.
use mathlib.Core.Path.{◌≡◌, refl}
use mathlib.Core.Logic.{◌≢◌}
use mathlib.Core.Bool.{Bool, true, false}
use mathlib.Core.List.{List, [], ◌∷◌}
use mathlib.Core.Option.{Option, none, some}
use native.Mathlib.Omega.{arith}
use oscmix_autostart.Base.Tests.{if◌then◌else◌}
use oscmix_autostart.Base.Lists.{All}
use oscmix_autostart.Base.Equality.{Eq}

abbrev pub Dict {ℓ κ} : Type ℓ → Type κ → Type (ℓ ⊔ κ)
Dict K V = List (K × V)

-- The members of a list are pairwise different.
abbrev pub Distinct {ℓ} : {K : Type ℓ} → List K → Type ℓ
Distinct [] = Unit
Distinct (k ∷ ks) = All (λ j. k ≢ j) ks × Distinct ks

module _ {ℓ κ} {K : Type ℓ} {V : Type κ} where
  abbrev pub keys : Dict K V → List K
  keys [] = []
  keys ((k, v) ∷ d) = k ∷ keys d

  abbrev pub values : Dict K V → List V
  values [] = []
  values ((k, v) ∷ d) = v ∷ values d

module _ {ℓ} {K : Type ℓ} ⦃e : Eq K⦄ where
  -- `k in ks`
  unfoldable pub elem : K → List K → Bool
  elem k [] = false
  elem k (j ∷ ks) = if e.eqb j k then true else elem k ks

  -- A key is added behind the others, unless it is there.
  unfoldable pub add_key : K → List K → List K
  add_key k [] = k ∷ []
  add_key k (j ∷ ks) = if e.eqb j k then j ∷ ks else j ∷ add_key k ks

  pub elem-add_key :
      (k j : K) (ks : List K) → elem j (add_key k ks) ≡ (if e.eqb k j then true else elem j ks)
  unfolding elem add_key
  elem-add_key k j [] = refl
  elem-add_key k j (i ∷ ks) =
      ground (arith, e.eqb_iff k j, e.eqb_iff i k, e.eqb_iff i j, elem-add_key k j ks)

  pub All-ne_of_elem : (k : K) (ks : List K) → elem k ks ≡ false → All (λ j. k ≢ j) ks
  unfolding elem
  All-ne_of_elem k [] h = tt
  All-ne_of_elem k (j ∷ ks) h = ground (arith, e.eqb_iff j k, All-ne_of_elem k ks)

  pub elem_of_All-ne : (k : K) (ks : List K) → All (λ j. k ≢ j) ks → elem k ks ≡ false
  unfolding elem
  elem_of_All-ne k [] h = refl
  elem_of_All-ne k (j ∷ ks) h = ground (arith, e.eqb_iff j k, elem_of_All-ne k ks h.1)

  pub add_key-Distinct : (k : K) (ks : List K) → Distinct ks → Distinct (add_key k ks)
  unfolding add_key
  add_key-Distinct k [] h = (tt, tt)
  add_key-Distinct k (j ∷ ks) h = ground (
    arith,
    e.eqb_iff j k,
    e.eqb_iff k j,
    All-ne_of_elem j (add_key k ks),
    elem-add_key k j ks,
    elem_of_All-ne j ks h.0,
    add_key-Distinct k ks h.1,
  )

module _ {ℓ κ} {K : Type ℓ} {V : Type κ} ⦃e : Eq K⦄ where
  -- `d.get(k)`
  unfoldable pub get : K → Dict K V → Option V
  get k [] = none
  get k ((j, v) ∷ d) = if e.eqb j k then some v else get k d

  -- `d[k] = v`: in place, or behind the others.
  unfoldable pub put : K → V → Dict K V → Dict K V
  put k v [] = (k, v) ∷ []
  put k v ((j, w) ∷ d) = if e.eqb j k then (j, v) ∷ d else (j, w) ∷ put k v d

  -- `del d[k]`, or `d.pop(k, None)`
  unfoldable pub remove : K → Dict K V → Dict K V
  remove k [] = []
  remove k ((j, v) ∷ d) = if e.eqb j k then d else (j, v) ∷ remove k d

  pub get-put :
      (k j : K) (v : V) (d : Dict K V) → get j (put k v d) ≡ (if e.eqb k j then some v else get j d)
  unfolding get put
  get-put k j v [] = refl
  get-put k j v ((i, w) ∷ d) =
      ground (arith, e.eqb_iff k j, e.eqb_iff i k, e.eqb_iff i j, get-put k j v d)

  pub keys-put : (k : K) (v : V) (d : Dict K V) → keys (put k v d) ≡ add_key k (keys d)
  unfolding put add_key
  keys-put k v [] = refl
  keys-put k v ((j, w) ∷ d) = ground (arith, keys-put k v d)

  pub elem-keys :
      (k : K) (d : Dict K V) → elem k (keys d) ≡ elim (get k d) [ none ↦ false | some _ ↦ true ]
  unfolding elem get
  elem-keys k [] = refl
  elem-keys k ((j, w) ∷ d) = ground (arith, elem-keys k d)

  pub get-remove :
      (k j : K) (d : Dict K V)
      → Distinct (keys d)
      → get j (remove k d) ≡ (if e.eqb k j then none else get j d)
  unfolding get remove
  get-remove k j [] h = ground arith
  get-remove k j ((i, w) ∷ d) h = ground (
    arith,
    e.eqb_iff k j,
    e.eqb_iff i k,
    e.eqb_iff i j,
    elem_of_All-ne i (keys d) h.0,
    elem-keys i d,
    get-remove k j d h.1,
  )

  All-keys-remove :
      (P : K → Type ℓ) (k : K) (d : Dict K V) → All P (keys d) → All P (keys (remove k d))
  unfolding remove
  All-keys-remove P k [] h = tt
  All-keys-remove P k ((j, w) ∷ d) h = ground (arith, All-keys-remove P k d h.1)

  pub remove-Distinct : (k : K) (d : Dict K V) → Distinct (keys d) → Distinct (keys (remove k d))
  unfolding remove
  remove-Distinct k [] h = tt
  remove-Distinct k ((j, w) ∷ d) h =
      ground (arith, All-keys-remove (λ i. j ≢ i) k d h.0, remove-Distinct k d h.1)
