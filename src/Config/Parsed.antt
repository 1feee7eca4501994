-- ===== src/Config/Parsed.antt =====
-- How a step of the parser of src/oscmix_desk/config.py ends: with a value, with a `ConfigError`, or
-- with an exception of another class, a traceback.
use oscmix_autostart.Base.{
  ◌≡◌, refl, ap, Bool, true, false, if◌then◌else◌, Option, some, List, [], ◌∷◌, ◌++◌, All,
  All-append, length, suc, subst,
}
use oscmix_autostart.Base.Text.{Text}

-- What the message of a `ConfigError` names; its wording is left out.
pub data Problem : Type 0 where
  -- `[section] option: ...`
  in_option : Text → Text → Problem
  -- `[section]: ...`
  in_section : Text → Problem
  -- `[route:a] and [route:b] ...`
  in_routes : Text → Text → Problem
  -- The file is not there, cannot be read, or is not in the format.
  in_file : Problem
  -- A name of a profile.
  in_name : Text → Problem

pub data Parsed {ℓ} (A : Type ℓ) : Type ℓ where
  parsed : A → Parsed A
  refused : Problem → Parsed A
  raised : Parsed A

pub parsed-injective {ℓ} : {A : Type ℓ} (a b : A) → parsed a ≡ parsed b → a ≡ b
parsed-injective a b e = cc e

infixl 5 ◌>>=◌
abbrev pub ◌>>=◌ {ℓ κ} : {A : Type ℓ} {B : Type κ} → Parsed A → (A → Parsed B) → Parsed B
parsed a >>= f = f a
refused p >>= f = refused p
raised >>= f = raised

-- The value is there.
abbrev pub Defined : {A : Type 0} → Option A → Type 0
Defined {A} m = (a : A) × (m ≡ some a)

-- Where a guarded step ends well, its guard held.
pub guard-eq-parsed {ℓ} :
    {A : Type ℓ} (b : Bool) (m : Parsed A) (p : Problem) {a : A}
    → (if b then m else refused p) ≡ parsed a
    → (b ≡ true) × (m ≡ parsed a)
guard-eq-parsed true m p h = (refl, h)
guard-eq-parsed false m p h = cc

-- The step did not end in a traceback.
unfoldable pub Settles {ℓ} : {A : Type ℓ} → Parsed A → Type 0
Settles (parsed a) = Unit
Settles (refused p) = Unit
Settles raised = ⊥

pub parsed-Settles {ℓ} : {A : Type ℓ} (a : A) → Settles (parsed a)
unfolding Settles
parsed-Settles a = tt

pub refused-Settles {ℓ} : (A : Type ℓ) (p : Problem) → Settles {A = A} (refused p)
unfolding Settles
refused-Settles A p = tt

-- What a step that ends well gives.
pub data Yields {ℓ κ} {A : Type ℓ} (P : A → Type κ) : Parsed A → Type (ℓ ⊔ κ) where
  gives : (a : A) → P a → Yields P (parsed a)
  refuses : (p : Problem) → Yields P (refused p)
  raises : Yields P raised

module _ {ℓ κ} {A : Type ℓ} (P : A → Type κ) where
  pub if-Yields :
      (b : Bool) (m n : Parsed A) → Yields P m → Yields P n → Yields P (if b then m else n)
  if-Yields true m n h k = h
  if-Yields false m n h k = k

  pub if-Yields-cases :
      (b : Bool) (m n : Parsed A)
      → (b ≡ true → Yields P m)
      → (b ≡ false → Yields P n)
      → Yields P (if b then m else n)
  if-Yields-cases true m n h k = h refl
  if-Yields-cases false m n h k = k refl

  yielded : (m : Parsed A) → Yields P m → (a : A) → m ≡ parsed a → P a
  yielded (parsed b) (gives c h) a e = subst P (parsed-injective c a e) h
  yielded (refused p) h a e = cc
  yielded raised h a e = cc

  pub Yields-at : (m : Parsed A) (a : A) → Yields P m → m ≡ parsed a → P a
  Yields-at m a h e = yielded m h a e

pub if-Settles {ℓ} :
    {A : Type ℓ} (b : Bool) (m n : Parsed A) → Settles m → Settles n → Settles (if b then m else n)
if-Settles true m n h k = h
if-Settles false m n h k = k

module _ {ℓ κ μ} {A : Type ℓ} {B : Type κ} (P : B → Type μ) where
  pub >>=-Yields :
      (m : Parsed A) (f : A → Parsed B)
      → ((a : A) → m ≡ parsed a → Yields P (f a))
      → Yields P (m >>= f)
  >>=-Yields (parsed a) f h = h a refl
  >>=-Yields (refused p) f h = refuses p
  >>=-Yields raised f h = raises

module _ {ℓ κ} {A : Type ℓ} {B : Type κ} where
  pub >>=-eq-parsed :
      (m : Parsed A) (f : A → Parsed B) {b : B}
      → (m >>= f) ≡ parsed b
      → (a : A) × (m ≡ parsed a) × (f a ≡ parsed b)
  >>=-eq-parsed (parsed a) f h = (a, refl, h)
  >>=-eq-parsed (refused p) f h = cc
  >>=-eq-parsed raised f h = cc

  pub >>=-Settles :
      (m : Parsed A) (f : A → Parsed B)
      → Settles m
      → ((a : A) → m ≡ parsed a → Settles (f a))
      → Settles (m >>= f)
  unfolding Settles
  >>=-Settles (parsed a) f s k = k a refl
  >>=-Settles (refused p) f s k = tt
  >>=-Settles raised f s k = s

pub All-Unit {ℓ} : {A : Type ℓ} (xs : List A) → All (λ x. Unit {0}) xs
All-Unit [] = tt
All-Unit (x ∷ xs) = (tt, All-Unit xs)

module _ {ℓ κ} {A : Type ℓ} {B : Type κ} where
  -- `for x in xs: out.append(f(x))`
  unfoldable pub each : (A → Parsed B) → List A → Parsed (List B)
  each f [] = parsed []
  each f (x ∷ xs) = do y ← f x; ys ← each f xs; parsed (y ∷ ys)

  -- `for x in xs: out.extend(f(x))`
  unfoldable pub extend : (A → Parsed (List B)) → List A → Parsed (List B)
  extend f [] = parsed []
  extend f (x ∷ xs) = do y ← f x; ys ← extend f xs; parsed (y ++ ys)

  pub each-Settles :
      (P : A → Type 0) (f : A → Parsed B)
      → ((a : A) → P a → Settles (f a))
      → (xs : List A) → All P xs
      → Settles (each f xs)
  unfolding each Settles
  each-Settles P f s [] h = tt
  each-Settles P f s (x ∷ xs) h =
      >>=-Settles (f x) _ (s x h.0)
        (λ y e. >>=-Settles (each f xs) _ (each-Settles P f s xs h.1) (λ ys e'. tt))

  -- What holds of each result, and how many there are.
  pub each-All {μ} :
      {P : B → Type μ} (f : A → Parsed B)
      → ((a : A) (b : B) → f a ≡ parsed b → P b)
      → (xs : List A) (ys : List B) → each f xs ≡ parsed ys
      → All P ys × (length ys ≡ length xs)
  unfolding each
  each-All {P} f h [] ys e =
      subst (λ zs. All P zs × (length zs ≡ 0)) (parsed-injective [] ys e) (tt, refl)
  each-All {P} f h (x ∷ xs) ys e =
      let (z, fz, e') = >>=-eq-parsed (f x) _ e in
      let (zs, fzs, last) = >>=-eq-parsed (each f xs) _ e' in
      let (a, l) = each-All f h xs zs fzs in
      subst (λ us. All P us × (length us ≡ suc (length xs))) (parsed-injective (z ∷ zs) ys last)
        ((h x z fz, a), ap suc l)

  pub extend-All {μ} :
      {P : B → Type μ} (f : A → Parsed (List B))
      → ((a : A) (bs : List B) → f a ≡ parsed bs → All P bs)
      → (xs : List A) (ys : List B) → extend f xs ≡ parsed ys
      → All P ys
  unfolding extend
  extend-All {P} f h [] ys e = subst (All P) (parsed-injective [] ys e) tt
  extend-All {P} f h (x ∷ xs) ys e =
      let (z, fz, e') = >>=-eq-parsed (f x) _ e in
      let (zs, fzs, last) = >>=-eq-parsed (extend f xs) _ e' in
      subst (All P) (parsed-injective (z ++ zs) ys last)
        (All-append P z zs (h x z fz) (extend-All f h xs zs fzs))

  pub extend-Settles :
      (P : A → Type 0) (f : A → Parsed (List B))
      → ((a : A) → P a → Settles (f a))
      → (xs : List A) → All P xs
      → Settles (extend f xs)
  unfolding extend Settles
  extend-Settles P f s [] h = tt
  extend-Settles P f s (x ∷ xs) h =
      >>=-Settles (f x) _ (s x h.0)
        (λ y e. >>=-Settles (extend f xs) _ (extend-Settles P f s xs h.1) (λ ys e'. tt))
