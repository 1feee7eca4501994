-- ===== src/Profiles/Promise.antt =====
-- The promises of `switch_profile` of src/oscmix_desk/profiles.py about a profile that is refused.
use oscmix_autostart.Base.{
  ◌≡◌, subst, Bool, true, false, Option, none, some, List, [], ◌∷◌, All, if◌then◌else◌,
}
use oscmix_autostart.Base.Text.{Text}
use oscmix_autostart.Base.Float.{Floating}
use oscmix_autostart.Registers.Defs.{Device}
use oscmix_autostart.Registers.Lookup.{device_for_name}
use oscmix_autostart.Config.Defs.{Config}
use oscmix_autostart.Config.Parsed.{
  Parsed, parsed, refused, raised, Settles, parsed-Settles, refused-Settles, >>=-Settles,
  if-Settles,
}
use oscmix_autostart.Config.Document.{File, unreadable, undecodable, malformed, sections}
use oscmix_autostart.Config.Settings.{nested_name}
use oscmix_autostart.Config.Load.{load_config}
use oscmix_autostart.Config.Errors.{Readable, parse_document-Settles}
use oscmix_autostart.Verify.Reported.{Expected, expected_registers}
use oscmix_autostart.Verify.Observe.{VerifyResult}
use oscmix_autostart.Verify.Session.{
  Environment, Session, Run, Step, on, off, then_do, lift, reapply,
}
use oscmix_autostart.Verify.Repair.{verify_routing, no_hook}
use oscmix_autostart.Profiles.Load.{
  Files, profile_path, inherit_from, with_main, load_file, load_profile,
}
use oscmix_autostart.Profiles.Switch.{
  State, applied_verified, applied_unverified, not_applied, Outcome, patient, short_outcome,
  outcome_of, check, unchecked, switch_to, switch_profile,
}

-- Something reached the device.
abbrev IsApplied : State → Type 0
IsApplied applied_verified = Unit
IsApplied applied_unverified = Unit
IsApplied not_applied = ⊥

applied_not_refused : (st : State) → IsApplied st → st ≡ not_applied → ⊥
applied_not_refused applied_verified a e = cc
applied_not_refused applied_unverified a e = cc
applied_not_refused not_applied a e = a

module _ {F : Type 0} where
  -- A run whose outcome says that the profile is applied.
  abbrev Applies : Run F Outcome → Type 0
  Applies (on o s) = IsApplied o.state
  Applies (off s) = Unit

  then-Applies :
      {A : Type 0} (m : Run F A) (f : A → Step F Outcome)
      → ((a : A) (s : Session F) → Applies (f a s))
      → Applies (then_do m f)
  then-Applies (on a s) f h = h a s
  then-Applies (off s) f h = tt

  short_outcome-IsApplied :
      (name : Text) (model : Option (Device F)) (ps : List Text)
      → IsApplied (short_outcome name model ps).state
  short_outcome-IsApplied name model [] = tt
  short_outcome-IsApplied name model (p ∷ ps) = tt

  outcome_of-IsApplied :
      (name : Text) (registers : Expected F) (model : Option (Device F)) (r : Option VerifyResult)
      → IsApplied (outcome_of name registers model r).state
  unfolding outcome_of
  outcome_of-IsApplied name registers model none = tt
  outcome_of-IsApplied name registers model (some r) = short_outcome-IsApplied name model _

module _ {F : Type 0} ⦃fl : Floating F⦄ where
  check-Applies :
      (env : Environment F) (name : Text) (c : Config F) (s : Session F)
      → Applies (check env name c s)
  unfolding check
  check-Applies env name c s = then-Applies (lift (expected_registers c) s) _ (λ registers s'.
      then-Applies
        (verify_routing (patient env) no_hook registers (device_for_name c.device_name) s') _
        (λ result s''. outcome_of-IsApplied name registers (device_for_name c.device_name) result))

  checked-Applies :
      (env : Environment F) (verify : Bool) (name : Text) (c : Config F) (s : Session F)
      → Applies ((if verify then check env name c else unchecked name c) s)
  checked-Applies env true name c s = check-Applies env name c s
  checked-Applies env false name c s =
      then-Applies (lift (expected_registers c) s) _ (λ registers s'. tt)

  switch_to-refused :
      (env : Environment F) (verify : Bool) (name : Text) (loaded : Parsed (Config F))
      (s s' : Session F) (o : Outcome)
      → switch_to env verify name loaded s ≡ on o s'
      → o.state ≡ not_applied
      → s' ≡ s
  switch_to-refused env verify name (refused p) s s' o h e = cc h
  switch_to-refused env verify name raised s s' o h e = cc h
  switch_to-refused env verify name (parsed c) s s' o h e =
      let applies : Applies (switch_to env verify name (parsed c) s) =
        then-Applies (reapply env c [] s) _ (λ a t. checked-Applies env verify name c t) in
      absurd (applied_not_refused o.state (subst Applies h applies) e)

  -- A switch whose outcome is REFUSED did nothing: nothing was written, asked or heard.
  pub switch_profile-refused :
      (env : Environment F) (verify : Bool) (name : Text) (files : Files) (s s' : Session F)
      (o : Outcome)
      → switch_profile env verify name files s ≡ on o s'
      → o.state ≡ not_applied
      → s' ≡ s
  unfolding switch_profile
  switch_profile-refused env verify name files s s' o h e =
      switch_to-refused env verify name (load_profile name files) s s' o h e

-- A file that is in UTF-8, and whose sections are readable; or none.
abbrev pub ReadableFile : Option File → Type 0
ReadableFile none = Unit
ReadableFile (some unreadable) = Unit
ReadableFile (some undecodable) = ⊥
ReadableFile (some malformed) = Unit
ReadableFile (some (sections document)) = All (λ s. Readable (nested_name s.name)) document

-- A file that can be read as text.
abbrev pub IsReread : File → Type 0
IsReread unreadable = ⊥
IsReread undecodable = ⊥
IsReread malformed = Unit
IsReread (sections document) = Unit

module _ (F : Type 0) ⦃fl : Floating F⦄ where
  load_config-Settles :
      (file : Option File) → ReadableFile file → Settles (load_config {F = F} file)
  unfolding load_config
  load_config-Settles none r = parsed-Settles _
  load_config-Settles (some unreadable) r = refused-Settles _ _
  load_config-Settles (some undecodable) r = elim r [ ]
  load_config-Settles (some malformed) r = refused-Settles _ _
  load_config-Settles (some (sections document)) r = parse_document-Settles F document r

  inherit_from-Settles :
      (again : File) (profile main : Config F)
      → IsReread again
      → Settles (inherit_from again profile main)
  inherit_from-Settles unreadable profile main a = elim a [ ]
  inherit_from-Settles undecodable profile main a = elim a [ ]
  inherit_from-Settles malformed profile main a = parsed-Settles _
  inherit_from-Settles (sections document) profile main a = parsed-Settles _

  with_main-Settles :
      (again : File) (profile : Config F) (main : Option File)
      → ReadableFile main
      → IsReread again
      → Settles (with_main again profile main)
  with_main-Settles again profile none r a = parsed-Settles _
  with_main-Settles again profile (some file) r a =
      >>=-Settles (load_config {F = F} (some file)) _ (load_config-Settles (some file) r)
        (λ main e. inherit_from-Settles again profile main a)

  load_file-Settles :
      (name : Text) (main : Option File) (again : File) (profile : Option File)
      → ReadableFile main
      → ReadableFile profile
      → IsReread again
      → Settles (load_file {F = F} name main again profile)
  load_file-Settles name main again none m p a = refused-Settles _ _
  load_file-Settles name main again (some file) m p a =
      >>=-Settles (load_config {F = F} (some file)) _ (load_config-Settles (some file) p)
        (λ profile e. with_main-Settles again profile main m a)

-- A profile's name is refused or accepted.
profile_path-Settles : (name : Text) (directory : Bool) → Settles (profile_path name directory)
unfolding profile_path
profile_path-Settles name directory =
    if-Settles _ _ _ (refused-Settles _ _)
      (if-Settles _ _ _ (parsed-Settles tt) (refused-Settles _ _))

-- A profile of any name is loaded or refused, and loading it ends in no other exception, where the
-- profile and the main config are in UTF-8 if they can be read, neither has a section of three parts
-- whose last is made of digits that int does not read, and reading the profile a second time succeeds.
pub load_profile-Settles :
    (F : Type 0) ⦃fl : Floating F⦄ (name : Text) (files : Files)
    → ReadableFile files.main
    → ReadableFile files.profile
    → IsReread files.again
    → Settles (load_profile {F = F} name files)
unfolding load_profile
load_profile-Settles F name files m p a =
    >>=-Settles (profile_path name files.directory) _ (profile_path-Settles name files.directory)
      (λ x e. load_file-Settles F name files.main files.again files.profile m p a)
