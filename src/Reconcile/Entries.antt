-- ===== src/Reconcile/Entries.antt =====
-- The entries of the routes as a dictionary: every path once, under its own path, the last
-- message of a path in the place of its first.
use oscmix_autostart.Base.{
  ℕ, ◌≡◌, refl, sym, ap, ◌∙◌, Option, some, List, [], ◌∷◌, ◌++◌, map, if◌then◌else◌, All, arith,
}
use oscmix_autostart.Base.Text.{Text}
use oscmix_autostart.Base.Dict.{Dict, Distinct, keys, values, get, put, add_key, get-put, keys-put}
use oscmix_autostart.Base.Equality.{text_eq}
use oscmix_autostart.Base.Sort.{set_of, add_all, add_all-Distinct}
use oscmix_autostart.Reconcile.Messages.{Message}
use oscmix_autostart.Reconcile.Desired.{Entry, entry, collect, phase_link, phase_mix}

module _ {F : Type 0} where
  abbrev pub path_of : Message F → Text
  path_of m = m.0

  abbrev pub entry_path : Entry F → Text
  entry_path e = e.path

  -- The last message of a path, over what was known of it before.
  unfoldable pub last_of : ℕ → Text → List (Message F) → Option (Entry F) → Option (Entry F)
  last_of phase p [] before = before
  last_of phase p (m ∷ ms) before =
      last_of phase p ms (if text_eq.eqb (path_of m) p then some (entry phase m) else before)

  pub get-collect :
      (phase : ℕ) (p : Text) (ms : List (Message F)) (d : Dict Text (Entry F))
      → get p (collect phase ms d) ≡ last_of phase p ms (get p d)
  unfolding collect last_of
  get-collect phase p [] d = refl
  get-collect phase p (m ∷ ms) d =
      get-collect phase p ms (put m.0 (entry phase m) d)
      ∙ ap (last_of phase p ms) (get-put m.0 p (entry phase m) d)

  pub keys-collect :
      (phase : ℕ) (ms : List (Message F)) (d : Dict Text (Entry F))
      → keys (collect phase ms d) ≡ add_all (keys d) (map path_of ms)
  unfolding collect add_all
  keys-collect phase [] d = refl
  keys-collect phase (m ∷ ms) d =
      keys-collect phase ms (put m.0 (entry phase m) d)
      ∙ ap (λ ks. add_all ks (map path_of ms)) (keys-put m.0 (entry phase m) d)

  -- Every entry stands under its own path.
  abbrev pub IsKeyed : Dict Text (Entry F) → Type 0
  IsKeyed = All (λ p. p.1.path ≡ p.0)

  put-IsKeyed :
      (k : Text) (e : Entry F) (d : Dict Text (Entry F))
      → e.path ≡ k
      → IsKeyed d
      → IsKeyed (put k e d)
  unfolding put
  put-IsKeyed k e [] h hd = (h, tt)
  put-IsKeyed k e ((j, w) ∷ d) h hd = ground (arith, text_eq.eqb_iff j k, put-IsKeyed k e d h hd.1)

  pub collect-IsKeyed :
      (phase : ℕ) (ms : List (Message F)) (d : Dict Text (Entry F))
      → IsKeyed d
      → IsKeyed (collect phase ms d)
  unfolding collect
  collect-IsKeyed phase [] d h = h
  collect-IsKeyed phase (m ∷ ms) d h =
      collect-IsKeyed phase ms (put m.0 (entry phase m) d)
        (put-IsKeyed m.0 (entry phase m) d refl h)

  map-values : (d : Dict Text (Entry F)) → IsKeyed d → map entry_path (values d) ≡ keys d
  map-values [] h = refl
  map-values ((k, e) ∷ d) h = cc (h.0, map-values d h.1)

  -- The registers of the routes in the order in which the dictionary holds them.
  unfoldable pub route_dict : List (Message F) → List (Message F) → Dict Text (Entry F)
  route_dict links mixes = collect phase_mix mixes (collect phase_link links [])

add_all-append : (seen xs ys : List Text) → add_all seen (xs ++ ys) ≡ add_all (add_all seen xs) ys
unfolding add_all
add_all-append seen [] ys = refl
add_all-append seen (x ∷ xs) ys = add_all-append (add_key x seen) xs ys

module _ {F : Type 0} where
  map-append_paths :
      (xs ys : List (Message F)) → map path_of (xs ++ ys) ≡ map path_of xs ++ map path_of ys
  map-append_paths [] ys = refl
  map-append_paths (x ∷ xs) ys = ap (λ l. path_of x ∷ l) (map-append_paths xs ys)

  -- The registers of the routes are the paths of the link messages and then of the mix messages,
  -- each once, where it was produced first.
  pub keys-route_dict :
      (links mixes : List (Message F))
      → keys (route_dict links mixes) ≡ set_of (map path_of (links ++ mixes))
  unfolding route_dict set_of
  keys-route_dict links mixes =
      keys-collect phase_mix mixes (collect phase_link links [])
      ∙ ap (λ ks. add_all ks (map path_of mixes)) (keys-collect phase_link links [])
      ∙ sym (add_all-append [] (map path_of links) (map path_of mixes))
      ∙ ap (add_all []) (sym (map-append_paths links mixes))

  pub paths-route_dict :
      (links mixes : List (Message F))
      → map entry_path (values (route_dict links mixes)) ≡ keys (route_dict links mixes)
  unfolding route_dict
  paths-route_dict links mixes = map-values (route_dict links mixes) (
      collect-IsKeyed phase_mix mixes (collect phase_link links [])
        (collect-IsKeyed phase_link links [] tt))

pub set_of-Distinct : (xs : List Text) → Distinct (set_of xs)
unfolding set_of
set_of-Distinct xs = add_all-Distinct [] xs tt
