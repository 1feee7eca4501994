-- ===== src/Command/Diff.antt =====
-- `_diff` of src/oscmix_desk/cli.py: what an apply would write, and its exit code.
use oscmix_autostart.Base.{
  ℕ, ◌==◌, Bool, true, false, not, Option, none, some, List, [], ◌∷◌, ◌++◌, ◌>>=◌, keep, length,
}
use oscmix_autostart.Base.Text.{Text}
use oscmix_autostart.Base.Float.{Floating}
use oscmix_autostart.Base.Dict.{get}
use oscmix_autostart.Base.Equality.{text_eq}
use oscmix_autostart.Base.Sort.{sort, text_le}
use oscmix_autostart.Registers.Lookup.{device_for_name}
use oscmix_autostart.Config.Defs.{Value, Config}
use oscmix_autostart.Routing.Apply.{default_tolerance}
use oscmix_autostart.Reconcile.Desired.{desired}
use oscmix_autostart.Reconcile.Plan.{
  Reason, missing, mismatched, rewrite, unconditional, Write, Plan, plan,
}
use oscmix_autostart.Session.Run.{exit_ok, exit_failure}
use oscmix_autostart.Command.Read.{Observed}

-- `EXIT_DIFFERS` (src/oscmix_desk/constants.py)
abbrev pub exit_differs : ℕ
exit_differs = 3

abbrev pub is_rewrite : Reason → Bool
is_rewrite rewrite = true
is_rewrite missing = false
is_rewrite mismatched = false
is_rewrite unconditional = false

-- One printed line: the path, what the config says, what the device says, and why they differ.
pub record DiffLine (F : Type 0) : Type 0 where
  pub path : Text
  pub wants : List (Value F)
  pub holds : Option (List (Value F))
  pub reason : Reason

-- What is printed, with the exit code: the differing registers by phase, and how many more would be
-- rewritten.
pub record Diff (F : Type 0) : Type 0 where
  pub code : ℕ
  pub phases : List (ℕ × List (DiffLine F))
  pub rewritten : ℕ

module _ {F : Type 0} where
  -- `[w for w in result.writes if w.reason != REWRITE]`
  unfoldable pub differing_writes : List (Write F) → List (Write F)
  unfolding keep
  differing_writes = keep (λ w. not (is_rewrite w.reason))

  -- `EXIT_DIFFERS if differing else EXIT_OK`
  abbrev pub code_of : List (Write F) → ℕ
  code_of [] = exit_ok
  code_of (w ∷ ws) = exit_differs

  -- `_diff_line`, before it is put into columns.
  abbrev pub diff_line : Observed F → Write F → DiffLine F
  diff_line seen w = record {
    path = w.path;
    wants = w.args;
    holds = get w.path seen;
    reason = w.reason;
  }

  unfoldable pub diff_lines : Observed F → List (Write F) → List (DiffLine F)
  diff_lines seen [] = []
  diff_lines seen (w ∷ ws) = diff_line seen w ∷ diff_lines seen ws

  -- A phase without writes is not printed.
  abbrev pub headed : ℕ → List (DiffLine F) → List (ℕ × List (DiffLine F))
  headed n [] = []
  headed n (l ∷ ls) = (n, l ∷ ls) ∷ []

  unfoldable pub phase_of : Observed F → List (Write F) → ℕ → List (ℕ × List (DiffLine F))
  unfolding keep sort
  phase_of seen ws n =
      headed n (diff_lines seen (sort (λ a b. text_le a.path b.path) (keep (λ w. w.phase == n) ws)))

  abbrev pub diff_of : Observed F → Plan F → Diff F
  diff_of seen p =
      let ws = differing_writes p.writes in
      record {
        code = code_of ws;
        phases = phase_of seen ws 0 ++ phase_of seen ws 1 ++ phase_of seen ws 2;
        rewritten = length (keep (λ w. is_rewrite w.reason) p.writes);
      }

  abbrev pub nobody : Diff F
  nobody = record { code = exit_failure; phases = []; rewritten = 0 }

module _ {F : Type 0} ⦃fl : Floating F⦄ where
  -- `none` is an exception, of `desired` or of `matches`.
  unfoldable pub diff : Config F → Option (Observed F) → Option (Diff F)
  diff config none = some nobody
  diff config (some seen) = do
    entries ← desired config
    p ← plan entries (some seen) (device_for_name config.device_name) default_tolerance
    some (diff_of seen p)
