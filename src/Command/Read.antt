-- ===== src/Command/Read.antt =====
-- `_read_device` of src/oscmix_desk/cli.py: every register that the running backend reports.
use oscmix_autostart.Base.{
  ℕ, ◌+◌, ltb, Bool, true, false, not, ◌&&◌, ◌||◌, Option, none, some, List, [], ◌∷◌, if◌then◌else◌,
}
use oscmix_autostart.Base.Text.{Text}
use oscmix_autostart.Base.Dict.{Dict, get, put, elem, keys}
use oscmix_autostart.Base.Equality.{text_eq}
use oscmix_autostart.Config.Defs.{Value}
use oscmix_autostart.Reconcile.Messages.{Message}

abbrev pub Observed : Type 0 → Type 0
Observed F = Dict Text (List (Value F))

-- One pass of the loop: the clock at its head, what `messages` yields, and the clock behind it.
pub record Pass (F : Type 0) : Type 0 where
  pub before : ℕ
  pub heard : List (Message F)
  pub after : ℕ

module _ {F : Type 0} where
  -- `seen.setdefault(path, args)`
  unfoldable pub set_default : Text → List (Value F) → Observed F → Observed F
  set_default path args seen = elim (get path seen) [ none ↦ put path args seen | some held ↦ seen ]

  -- The reports of one pass, in front of those that later passes bring.
  unfoldable pub add_reports : List (Message F) → Observed F → Observed F
  add_reports [] seen = seen
  add_reports ((path, tags, args) ∷ ms) seen = add_reports ms (set_default path args seen)

  -- A pass brings a register that was not seen before.
  unfoldable pub is_fresh : List (Message F) → Observed F → Bool
  is_fresh [] seen = false
  is_fresh ((path, tags, args) ∷ ms) seen =
      not (elem path (keys seen)) || is_fresh ms (set_default path args seen)

  abbrev pub is_empty : Observed F → Bool
  is_empty [] = true
  is_empty (r ∷ seen) = false

  -- The loop, which ends at the deadline or where the dump has gone quiet.
  unfoldable pub read_rounds : ℕ → ℕ → ℕ → List (Pass F) → Observed F → Observed F
  read_rounds deadline quiet quiet_after [] seen = seen
  read_rounds deadline quiet quiet_after (r ∷ rs) seen =
      let more = add_reports r.heard seen in
      let on_fresh = read_rounds deadline quiet (r.after + quiet) rs more in
      let on_old = read_rounds deadline quiet quiet_after rs more in
      if ltb r.before deadline
      then (if is_fresh r.heard seen
          then on_fresh
          else (if not (is_empty more) && ltb quiet_after r.after then more else on_old))
      else seen

  -- An empty read is a failure.
  abbrev pub if_any : Observed F → Option (Observed F)
  if_any [] = none
  if_any (r ∷ seen) = some (r ∷ seen)

  -- `none` where the port is in use or nobody answers.
  unfoldable pub read_device : Bool → ℕ → ℕ → List (Pass F) → Option (Observed F)
  read_device busy deadline quiet rounds =
      if busy then none else if_any (read_rounds deadline quiet deadline rounds [])
