-- ===== src/Reconcile/Phases.antt =====
-- The parts of `desired`: first all links, then all mix writes, then channel and global state.
use oscmix_autostart.Base.{
  ℕ, ◌≡◌, refl, sym, ap, ◌∙◌, subst, ◌≢◌, some, List, [], ◌∷◌, ◌++◌, All, All-append, extend_all,
  arith, >>=-eq-some,
}
use mathlib.Core.List.{append_assoc}
use mathlib.Core.Option.{some-injective}
use oscmix_autostart.Base.Text.{Text}
use oscmix_autostart.Base.Float.{Floating}
use oscmix_autostart.Base.Dict.{Dict, keys, values, put}
use oscmix_autostart.Base.Equality.{text_eq}
use oscmix_autostart.Config.Defs.{Config}
use oscmix_autostart.Reconcile.Messages.{Message, link_messages, mix_messages}
use oscmix_autostart.Reconcile.Desired.{
  Entry, entry, collect, phase_link, phase_mix, phase_channel, channel_entries, global_entries,
  desired,
}
use oscmix_autostart.Reconcile.Entries.{path_of, route_dict}
use oscmix_autostart.Reconcile.SendOrder.{route_entries_lem}
use oscmix_autostart.Reconcile.Settings.{channel_entries-InLast, global_entries-InLast}
use oscmix_autostart.Reconcile.Shapes.{
  IsLink, IsMix, IsLinkPath, IsMixPath, link-ne-mix, links-IsLink, mixes-IsMix,
}

module _ {F : Type 0} where
  -- A key that the first dictionary lacks is put into the second.
  put-append :
      (k : Text) (v : Entry F) (d d' : Dict Text (Entry F))
      → All (λ j. k ≢ j) (keys d)
      → put k v (d ++ d') ≡ d ++ put k v d'
  unfolding put
  put-append k v [] d' h = refl
  put-append k v ((j, w) ∷ d) d' h = ground (arith, text_eq.eqb_iff j k, put-append k v d d' h.1)

  collect-append :
      (phase : ℕ) (ms : List (Message F)) (d d' : Dict Text (Entry F))
      → All (λ m. All (λ j. path_of m ≢ j) (keys d)) ms
      → collect phase ms (d ++ d') ≡ d ++ collect phase ms d'
  unfolding collect
  collect-append phase [] d d' h = refl
  collect-append phase (m ∷ ms) d d' h =
      ap (collect phase ms) (put-append m.0 (entry phase m) d d' h.0)
      ∙ collect-append phase ms d (put m.0 (entry phase m) d') h.1

  -- A property of the messages that are collected holds of the pairs of the dictionary.
  All-put :
      (P : Text × Entry F → Type 0) (k : Text) (v : Entry F) (d : Dict Text (Entry F))
      → ((j : Text) → j ≡ k → P (j, v))
      → All P d
      → All P (put k v d)
  unfolding put
  All-put P k v [] h a = (h k refl, tt)
  All-put P k v ((j, w) ∷ d) h a = ground (arith, text_eq.eqb_iff j k, h j, All-put P k v d h a.1)

  abbrev HasPhase : ℕ → Text × Entry F → Type 0
  HasPhase phase p = p.1.phase ≡ phase

  collect-HasPhase :
      (phase : ℕ) (ms : List (Message F)) (d : Dict Text (Entry F))
      → All (HasPhase phase) d
      → All (HasPhase phase) (collect phase ms d)
  unfolding collect
  collect-HasPhase phase [] d h = h
  collect-HasPhase phase (m ∷ ms) d h =
      collect-HasPhase phase ms (put m.0 (entry phase m) d)
        (All-put (HasPhase phase) m.0 (entry phase m) d (λ j e. refl) h)

  HasLinkKey : Text × Entry F → Type 0
  HasLinkKey p = IsLinkPath p.0

  collect-links :
      (ms : List (Message F)) (d : Dict Text (Entry F))
      → All IsLink ms
      → All HasLinkKey d
      → All HasLinkKey (collect phase_link ms d)
  unfolding collect HasLinkKey
  collect-links [] d a h = h
  collect-links (m ∷ ms) d a h =
      collect-links ms (put m.0 (entry phase_link m) d) a.1
        (All-put HasLinkKey m.0 (entry phase_link m) d (λ j e. subst IsLinkPath (sym e) a.0) h)

  apart_keys :
      (p : Text) (d : Dict Text (Entry F))
      → IsMixPath p
      → All HasLinkKey d
      → All (λ j. p ≢ j) (keys d)
  unfolding HasLinkKey
  apart_keys p [] h a = tt
  apart_keys p ((k, e) ∷ d) h a = ((λ q. link-ne-mix k p a.0 h (sym q)), apart_keys p d h a.1)

  apart :
      (ms : List (Message F)) (d : Dict Text (Entry F))
      → All IsMix ms
      → All HasLinkKey d
      → All (λ m. All (λ j. path_of m ≢ j) (keys d)) ms
  apart [] d a h = tt
  apart (m ∷ ms) d a h = (apart_keys (path_of m) d a.0 h, apart ms d a.1 h)

  pub values-append : (d d' : Dict Text (Entry F)) → values (d ++ d') ≡ values d ++ values d'
  values-append [] d' = refl
  values-append ((k, e) ∷ d) d' = ap (λ l. e ∷ l) (values-append d d')

  append-nil_dict : (d : Dict Text (Entry F)) → d ++ [] ≡ d
  append-nil_dict [] = refl
  append-nil_dict (p ∷ d) = ap (λ l. p ∷ l) (append-nil_dict d)

  -- The links of a routing and its mix writes share no register.
  pub route_dict_split :
      (links mixes : List (Message F))
      → All IsLink links
      → All IsMix mixes
      → route_dict links mixes ≡ collect phase_link links [] ++ collect phase_mix mixes []
  unfolding route_dict
  route_dict_split links mixes a b =
      ap (collect phase_mix mixes) (sym (append-nil_dict (collect phase_link links [])))
      ∙ collect-append phase_mix mixes (collect phase_link links []) []
          (apart mixes (collect phase_link links []) b (collect-links links [] a tt))

  All-values :
      (phase : ℕ) (d : Dict Text (Entry F))
      → All (HasPhase phase) d
      → All (λ e. e.phase ≡ phase) (values d)
  All-values phase [] h = tt
  All-values phase ((k, e) ∷ d) h = (h.0, All-values phase d h.1)

-- The entries of a state, split by phase.
pub record ByPhase {F : Type 0} (es : List (Entry F)) : Type 0 where
  pub links : List (Entry F)
  pub mix : List (Entry F)
  pub channel : List (Entry F)
  pub split : es ≡ links ++ (mix ++ channel)
  pub links_phase : All (λ (e : Entry F). e.phase ≡ phase_link) links
  pub mix_phase : All (λ (e : Entry F). e.phase ≡ phase_mix) mix
  pub channel_phase : All (λ (e : Entry F). e.phase ≡ phase_channel) channel

module _ {F : Type 0} ⦃fl : Floating F⦄ where
  -- What `desired` is made of, where it raises nothing.
  pub record Parts (c : Config F) (es : List (Entry F)) : Type 0 where
    pub links : List (Message F)
    pub mixes : List (Message F)
    pub channels : List (Entry F)
    pub globals : List (Entry F)
    pub links_eq : extend_all link_messages c.routes ≡ some links
    pub mixes_eq : extend_all mix_messages c.routes ≡ some mixes
    pub channels_eq : channel_entries c ≡ some channels
    pub globals_eq : global_entries c ≡ some globals
    pub entries_eq : es ≡ values (route_dict links mixes) ++ (channels ++ globals)

  pub desired-Parts : (c : Config F) (es : List (Entry F)) → desired c ≡ some es → Parts c es
  unfolding desired
  desired-Parts c es h =
      let (links, l, h1) = >>=-eq-some (extend_all link_messages c.routes) _ h in
      let (mixes, m, h2) = >>=-eq-some (extend_all mix_messages c.routes) _ h1 in
      let (channels, k, h3) = >>=-eq-some (channel_entries c) _ h2 in
      let (globals, g, h4) = >>=-eq-some (global_entries c) _ h3 in
      record {
        links = links;
        mixes = mixes;
        channels = channels;
        globals = globals;
        links_eq = l;
        mixes_eq = m;
        channels_eq = k;
        globals_eq = g;
        entries_eq =
            sym (some-injective _ _ h4)
            ∙ ap (λ l. l ++ (channels ++ globals)) (route_entries_lem links mixes);
      }

  -- The entries of a state, split at the barrier and behind the mix.
  pub desired-ByPhase : (c : Config F) (es : List (Entry F)) → desired c ≡ some es → ByPhase es
  desired-ByPhase c es h =
      let p : Parts c es = desired-Parts c es h in
      let ls : Dict Text (Entry F) = collect phase_link p.links [] in
      let ms : Dict Text (Entry F) = collect phase_mix p.mixes [] in
      record {
        links = values ls;
        mix = values ms;
        channel = p.channels ++ p.globals;
        split =
            p.entries_eq
            ∙ ap (λ d. values d ++ (p.channels ++ p.globals))
                (route_dict_split p.links p.mixes (links-IsLink c.routes p.links p.links_eq)
                  (mixes-IsMix c.routes p.mixes p.mixes_eq))
            ∙ ap (λ l. l ++ (p.channels ++ p.globals)) (values-append ls ms)
            ∙ append_assoc (values ls) (values ms) (p.channels ++ p.globals);
        links_phase = All-values phase_link ls (collect-HasPhase phase_link p.links [] tt);
        mix_phase = All-values phase_mix ms (collect-HasPhase phase_mix p.mixes [] tt);
        channel_phase =
            All-append _ p.channels p.globals (channel_entries-InLast c p.channels p.channels_eq)
              (global_entries-InLast c p.globals p.globals_eq);
      }
