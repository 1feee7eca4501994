-- ===== src/Base/Lists.antt =====
-- Lists measured by native numbers, predicates on their members, and loops that may raise.
use Prim.Native.Nat.{ℕ, suc, ◌+◌}
use mathlib.Core.Path.{◌≡◌, refl, subst}
use mathlib.Core.Logic.{inl, inr}
use mathlib.Core.Bool.{Bool, true, false, ◌||◌, ◌&&◌}
use mathlib.Core.List.{List, [], ◌∷◌, ◌++◌}
use mathlib.Core.Option.{Option, none, some}
use native.Mathlib.Omega.{arith}
use oscmix_autostart.Base.Tests.{◌>>=◌, >>=-eq-some, if◌then◌else◌, Bool-cases}

module _ {ℓ} {A : Type ℓ} where
  abbrev pub length : List A → ℕ
  length [] = 0
  length (x ∷ xs) = suc (length xs)

  pub length-append : (xs ys : List A) → length (xs ++ ys) ≡ length xs + length ys
  length-append [] ys = omega arith
  length-append (x ∷ xs) ys = omega (arith, length-append xs ys)

  abbrev pub All {κ} : (A → Type κ) → List A → Type κ
  All P [] = Unit {κ}
  All P (x ∷ xs) = P x × All P xs

  pub All-append {κ} : (P : A → Type κ) (xs ys : List A) → All P xs → All P ys → All P (xs ++ ys)
  All-append P [] ys p q = q
  All-append P (x ∷ xs) ys p q = (p.0, All-append P xs ys p.1 q)

  pub All-map_imp {κ μ} :
      {P : A → Type κ} {Q : A → Type μ}
      → ((a : A) → P a → Q a)
      → (xs : List A) → All P xs
      → All Q xs
  All-map_imp f [] p = tt
  All-map_imp f (x ∷ xs) p = (f x p.0, All-map_imp f xs p.1)

  -- Python's `any(p(x) for x in xs)` and `all(...)`.
  unfoldable pub any : (A → Bool) → List A → Bool
  any p [] = false
  any p (x ∷ xs) = p x || any p xs

  unfoldable pub all : (A → Bool) → List A → Bool
  all p [] = true
  all p (x ∷ xs) = p x && all p xs

  -- `[x for x in xs if p(x)]`
  unfoldable pub keep : (A → Bool) → List A → List A
  keep p [] = []
  keep p (x ∷ xs) = let rest = keep p xs in if p x then x ∷ rest else rest

  pub keep-append : (p : A → Bool) (xs ys : List A) → keep p (xs ++ ys) ≡ keep p xs ++ keep p ys
  unfolding keep
  keep-append p [] ys = refl
  keep-append p (x ∷ xs) ys = ground (arith, keep-append p xs ys)

  pub All-keep {κ} : (P : A → Type κ) (p : A → Bool) (xs : List A) → All P xs → All P (keep p xs)
  unfolding keep
  All-keep P p [] h = tt
  All-keep P p (x ∷ xs) h = ground (arith, All-keep P p xs h.1)

module _ {ℓ κ} {A : Type ℓ} {B : Type κ} where
  -- `for x in xs: out.append(f(x))`, where `f` may raise.
  unfoldable pub traverse : (A → Option B) → List A → Option (List B)
  traverse f [] = some []
  traverse f (x ∷ xs) = do y ← f x; ys ← traverse f xs; some (y ∷ ys)

  -- `for x in xs: out.extend(f(x))`, where `f` may raise.
  unfoldable pub extend_all : (A → Option (List B)) → List A → Option (List B)
  extend_all f [] = some []
  extend_all f (x ∷ xs) = do y ← f x; ys ← extend_all f xs; some (y ++ ys)

  pub All-extend_all {μ} :
      {P : B → Type μ} (f : A → Option (List B))
      → ((a : A) (bs : List B) → f a ≡ some bs → All P bs)
      → (xs : List A) (out : List B) → extend_all f xs ≡ some out
      → All P out
  unfolding extend_all
  All-extend_all f each [] out h = ground arith
  All-extend_all {P = P} f each (x ∷ xs) out h =
      let (y, fy, rest) = >>=-eq-some (f x) _ h in
      let (ys, fys, last) = >>=-eq-some (extend_all f xs) _ rest in
      let e : y ++ ys ≡ out = cc in
      rw (← e) (All-append P y ys (each x y fy) (All-extend_all f each xs ys fys))

  -- A loop whose body never raises on what it walks over does not raise.
  pub extend_all_total {μ} :
      {P : A → Type μ} (f : A → Option (List B))
      → ((a : A) → P a → (bs : List B) × (f a ≡ some bs))
      → (xs : List A) → All P xs
      → (out : List B) × (extend_all f xs ≡ some out)
  unfolding extend_all
  extend_all_total f each [] p = ([], refl)
  extend_all_total f each (x ∷ xs) p =
      let (y, fy) = each x p.0 in
      let (ys, fys) = extend_all_total f each xs p.1 in (y ++ ys, rw (fy, fys))

module _ {ℓ} {A : Type ℓ} where
  -- `for x in xs: if p(x): return x`, then `return None`.
  unfoldable pub find : (A → Bool) → List A → Option A
  find p [] = none
  find p (x ∷ xs) = let rest = find p xs in if p x then some x else rest

  pub find_sound : (p : A → Bool) (xs : List A) (x : A) → find p xs ≡ some x → p x ≡ true
  unfolding find
  find_sound p [] x h = ground arith
  find_sound p (y ∷ xs) x h = ground (arith, find_sound p xs x)

  pub All-find {κ} :
      (P : A → Type κ) (p : A → Bool) (xs : List A) (x : A) → All P xs → find p xs ≡ some x → P x
  unfolding find
  All-find P p [] x h e = cc e
  All-find P p (y ∷ xs) x h e = elim (Bool-cases (p y)) [
    | inl t ↦ let e' : y ≡ x = ground arith in subst P e' h.0
    | inr f ↦ All-find P p xs x h.1 (ground arith)
  ]
