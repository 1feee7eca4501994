-- ===== src/Reconcile/LastWrite.antt =====
-- Which messages of the routes the entries of `desired` of src/oscmix_desk/reconcile.py keep.
use oscmix_autostart.Base.{
  ◌≡◌, sym, ap, ◌∙◌, subst, none, some, List, [], ◌∷◌, ◌++◌, map, All, Option,
}
use oscmix_autostart.Base.Text.{Text}
use oscmix_autostart.Base.Dict.{Dict, Distinct, values, get, keys}
use oscmix_autostart.Base.Equality.{text_eq}
use oscmix_autostart.Base.Sort.{set_of}
use oscmix_autostart.Reconcile.Messages.{Message}
use oscmix_autostart.Reconcile.Desired.{Entry, collect, phase_link, phase_mix, route_entries}
use oscmix_autostart.Reconcile.Entries.{
  path_of, entry_path, last_of, get-collect, IsKeyed, collect-IsKeyed, route_dict, keys-route_dict,
  paths-route_dict, set_of-Distinct,
}
use oscmix_autostart.Reconcile.SendOrder.{get_self, route_entries_lem}

module _ {F : Type 0} where
  -- The last message for a path, a mix message before any link message, as an entry of its phase.
  abbrev pub last_message : List (Message F) → List (Message F) → Text → Option (Entry F)
  last_message links mixes p = last_of phase_mix p mixes (last_of phase_link p links none)

  get-route_dict :
      (links mixes : List (Message F)) (p : Text)
      → get p (route_dict links mixes) ≡ last_message links mixes p
  unfolding route_dict get
  get-route_dict links mixes p =
      get-collect phase_mix p mixes (collect phase_link links [])
      ∙ ap (last_of phase_mix p mixes) (get-collect phase_link p links [])

  route_dict-IsKeyed : (links mixes : List (Message F)) → IsKeyed (route_dict links mixes)
  unfolding route_dict
  route_dict-IsKeyed links mixes =
      collect-IsKeyed phase_mix mixes (collect phase_link links [])
        (collect-IsKeyed phase_link links [] tt)

  values-held :
      (d q : Dict Text (Entry F))
      → All (λ p. get p.0 d ≡ some p.1) q
      → IsKeyed q
      → All (λ e. get e.path d ≡ some e) (values q)
  values-held d [] h k = tt
  values-held d ((j, e) ∷ q) h k =
      (subst (λ p. get p d ≡ some e) (sym k.0) h.0, values-held d q h.1 k.1)

  held_last :
      (links mixes : List (Message F)) (es : List (Entry F))
      → All (λ e. get e.path (route_dict links mixes) ≡ some e) es
      → All (λ e. last_message links mixes e.path ≡ some e) es
  held_last links mixes [] h = tt
  held_last links mixes (e ∷ es) h =
      (sym (get-route_dict links mixes e.path) ∙ h.0, held_last links mixes es h.1)

  -- The entries of the routes name each path of their messages once, in the order in which the paths
  -- come up first, and each is the last message for its path, a mix message before any link message,
  -- with the phase of that message.
  pub route_entries-last_message :
      (links mixes : List (Message F))
      → (map entry_path (route_entries links mixes) ≡ set_of (map path_of (links ++ mixes)))
        × All (λ e. last_message links mixes e.path ≡ some e) (route_entries links mixes)
  route_entries-last_message links mixes =
      let d = route_dict links mixes in
      let distinct : Distinct (keys d) =
        subst Distinct (sym (keys-route_dict links mixes)) (set_of-Distinct _) in
      rw (route_entries_lem links mixes) (
        paths-route_dict links mixes ∙ keys-route_dict links mixes,
        held_last links mixes (values d)
            (values-held d d (get_self d distinct) (route_dict-IsKeyed links mixes)),
      )
