-- ===== src/Reconcile/Order.antt =====
-- The order of the entries of a state: `plan` moves nothing when it sorts by phase.
use oscmix_autostart.Base.{
  ℕ, ◌≡◌, refl, sym, ap, ◌∙◌, subst, ◌≤◌, leb, ◌==◌, Bool, false, some, List, [], ◌∷◌, ◌++◌, All,
  All-append, All-map_imp, All-keep, keep, keep-append, arith,
}
use mathlib.Core.List.{append-nil}
use oscmix_autostart.Base.Float.{Floating}
use oscmix_autostart.Config.Defs.{Config}
use oscmix_autostart.Reconcile.Desired.{Entry, phase_link, phase_mix, phase_channel, desired}
use oscmix_autostart.Reconcile.SendOrder.{Ascending}
use oscmix_autostart.Reconcile.Phases.{ByPhase, desired-ByPhase}

module _ {F : Type 0} where
  abbrev pub phase_le : Entry F → Entry F → Bool
  phase_le a b = leb a.phase b.phase

  -- A run of one phase in front of entries of that phase or later ones.
  Ascending-run :
      (n : ℕ) (xs ys : List (Entry F))
      → All (λ (e : Entry F). e.phase ≡ n) xs
      → All (λ (e : Entry F). n ≤ e.phase) ys
      → Ascending phase_le ys
      → Ascending phase_le (xs ++ ys)
  Ascending-run n [] ys h k a = a
  Ascending-run n (x ∷ []) [] h k a = tt
  Ascending-run n (x ∷ []) (y ∷ ys) h k a = (ground arith, a)
  Ascending-run n (x ∷ x' ∷ xs) ys h k a = (ground arith, Ascending-run n (x' ∷ xs) ys h.1 k a)

  pub ByPhase-Ascending : (es : List (Entry F)) → ByPhase es → Ascending phase_le es
  ByPhase-Ascending es b =
      let last : Ascending phase_le (b.channel ++ []) =
        Ascending-run phase_channel b.channel [] b.channel_phase tt tt in
      let mix : Ascending phase_le (b.mix ++ b.channel) =
        Ascending-run phase_mix b.mix b.channel b.mix_phase
          (All-map_imp (λ e q. omega arith) b.channel b.channel_phase)
          (subst (Ascending phase_le) (append-nil b.channel) last) in
      subst (Ascending phase_le) (sym b.split) (
        Ascending-run phase_link b.links (b.mix ++ b.channel) b.links_phase
          (All-append _ b.mix b.channel (All-map_imp (λ e q. omega arith) b.mix b.mix_phase)
            (All-map_imp (λ e q. omega arith) b.channel b.channel_phase))
          mix)

  -- Leaving entries out keeps the parts.
  pub keep-ByPhase : (p : Entry F → Bool) (es : List (Entry F)) → ByPhase es → ByPhase (keep p es)
  keep-ByPhase p es b = record {
    links = keep p b.links;
    mix = keep p b.mix;
    channel = keep p b.channel;
    split =
        ap (keep p) b.split
        ∙ keep-append p b.links (b.mix ++ b.channel)
        ∙ ap (λ l. keep p b.links ++ l) (keep-append p b.mix b.channel);
    links_phase = All-keep _ p b.links b.links_phase;
    mix_phase = All-keep _ p b.mix b.mix_phase;
    channel_phase = All-keep _ p b.channel b.channel_phase;
  }

  abbrev pub of_phase : ℕ → List (Entry F) → List (Entry F)
  of_phase n = keep (λ e. e.phase == n)

  of_phase-All :
      (n : ℕ) (es : List (Entry F)) → All (λ (e : Entry F). e.phase ≡ n) es → of_phase n es ≡ es
  unfolding keep
  of_phase-All n [] h = refl
  of_phase-All n (e ∷ es) h = ground (arith, of_phase-All n es h.1)

  of_phase_none :
      (n m : ℕ) (es : List (Entry F))
      → (n == m) ≡ false
      → All (λ (e : Entry F). e.phase ≡ n) es
      → of_phase m es ≡ []
  unfolding keep
  of_phase_none n m [] d h = refl
  of_phase_none n m (e ∷ es) d h = ground (arith, of_phase_none n m es d h.1)

  of_phase_parts :
      (n : ℕ) (xs ys zs : List (Entry F))
      → of_phase n (xs ++ (ys ++ zs)) ≡ of_phase n xs ++ (of_phase n ys ++ of_phase n zs)
  of_phase_parts n xs ys zs =
      keep-append _ xs (ys ++ zs) ∙ ap (λ l. of_phase n xs ++ l) (keep-append _ ys zs)

  -- A state is its links, its mix writes and its settings, one after the other.
  pub of_phase-split :
      (es : List (Entry F))
      → ByPhase es
      → es ≡ of_phase phase_link es ++ (of_phase phase_mix es ++ of_phase phase_channel es)
  of_phase-split es b =
      b.split
      ∙ sym (
          cc (
            ap (of_phase phase_link) b.split,
            ap (of_phase phase_mix) b.split,
            ap (of_phase phase_channel) b.split,
            of_phase_parts phase_link b.links b.mix b.channel,
            of_phase_parts phase_mix b.links b.mix b.channel,
            of_phase_parts phase_channel b.links b.mix b.channel,
            of_phase-All phase_link b.links b.links_phase,
            of_phase-All phase_mix b.mix b.mix_phase,
            of_phase-All phase_channel b.channel b.channel_phase,
            of_phase_none phase_link phase_mix b.links refl b.links_phase,
            of_phase_none phase_link phase_channel b.links refl b.links_phase,
            of_phase_none phase_mix phase_link b.mix refl b.mix_phase,
            of_phase_none phase_mix phase_channel b.mix refl b.mix_phase,
            of_phase_none phase_channel phase_link b.channel refl b.channel_phase,
            of_phase_none phase_channel phase_mix b.channel refl b.channel_phase,
            append-nil b.links,
            append-nil b.mix,
          ))

module _ {F : Type 0} ⦃fl : Floating F⦄ where
  -- The entries of a config stand in the order in which they are sent: every link of every route,
  -- then every mix write, then channel and global state.
  pub desired-Ascending :
      (c : Config F) (es : List (Entry F)) → desired c ≡ some es → Ascending phase_le es
  desired-Ascending c es h = ByPhase-Ascending es (desired-ByPhase c es h)
