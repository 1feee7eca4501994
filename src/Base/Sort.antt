-- ===== src/Base/Sort.antt =====
-- Python's `sorted`, which is stable, as insertion; sets are lists without repeats.
use mathlib.Core.Bool.{Bool, true, false}
use mathlib.Core.List.{List, [], ◌∷◌}
use native.Mathlib.Omega.{arith}
use oscmix_autostart.Base.Tests.{◌==◌, ltb, if◌then◌else◌}
use oscmix_autostart.Base.Lists.{All}
use oscmix_autostart.Base.Text.{Text}
use oscmix_autostart.Base.Equality.{Eq}
use oscmix_autostart.Base.Dict.{Distinct, add_key, add_key-Distinct}

-- `s <= t` of two texts.
unfoldable pub text_le : Text → Text → Bool
text_le [] t = true
text_le (a ∷ s) [] = false
text_le (a ∷ s) (b ∷ t) = let rest = text_le s t in if a == b then rest else ltb a b

module _ {ℓ} {A : Type ℓ} (le : A → A → Bool) where
  -- `x` goes before the first that it is not above.
  unfoldable pub insert : A → List A → List A
  insert x [] = x ∷ []
  insert x (y ∷ ys) = let rest = insert x ys in if le x y then x ∷ y ∷ ys else y ∷ rest

  unfoldable pub sort : List A → List A
  unfolding insert
  sort [] = []
  sort (x ∷ xs) = insert x (sort xs)

  pub All-insert {κ} : (P : A → Type κ) (x : A) (ys : List A) → P x → All P ys → All P (insert x ys)
  unfolding insert
  All-insert P x [] p q = (p, tt)
  All-insert P x (y ∷ ys) p q = ground (arith, All-insert P x ys p q.1)

  pub All-sort {κ} : (P : A → Type κ) (xs : List A) → All P xs → All P (sort xs)
  unfolding sort
  All-sort P [] h = tt
  All-sort P (x ∷ xs) h = All-insert P x (sort xs) h.0 (All-sort P xs h.1)

-- The members of a set, each once, in the order in which they were added first.
module _ {ℓ} {A : Type ℓ} ⦃e : Eq A⦄ where
  unfoldable pub add_all : List A → List A → List A
  unfolding add_key
  add_all seen [] = seen
  add_all seen (x ∷ xs) = add_all (add_key x seen) xs

  unfoldable pub set_of : List A → List A
  unfolding add_all
  set_of = add_all []

  pub add_all-Distinct : (seen xs : List A) → Distinct seen → Distinct (add_all seen xs)
  unfolding add_all
  add_all-Distinct seen [] h = h
  add_all-Distinct seen (x ∷ xs) h =
      add_all-Distinct (add_key x seen) xs (add_key-Distinct x seen h)
