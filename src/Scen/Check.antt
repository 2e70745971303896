-- ===== src/Scen/Check.antt =====
-- `Validate` of scen/scenario.go.
use cloudlus.Base.{
  ℕ, Bool, true, false, ◌&&◌, ◌||◌, not, Option, none, some, List, [], ◌∷◌, String, ◌==◌,
  if◌then◌else◌, length,
}
use cloudlus.Base.Int.{ℤ, pos, leb_ℤ, eq_ℤ}
use cloudlus.Scen.Float.{Float}
use cloudlus.Scen.Model.{Facility, Build, Scenario, nperiods}
use text.Mathlib.Text.{◌==◌ as str_eq}

-- The errors of this package, by what their text is made of.
pub data Error : Type 0 where
  lengths_differ : ℕ → ℕ → Error
  bad_template : Error
  wrong_periods : ℕ → ℤ → Error
  no_frac_protos : String → Error
  no_reactor : Error
  unknown_start : String → Error
  unknown_build : String → Error
  wrong_vars : ℕ → Error
  missing_param : String → Error
  one_of_protos : Error
  failed_run : String → Error
  bad_name : String → Error
  unreadable : Error
  bad_json : Error
  bad_json_at : ℕ → ℕ → Error
  bad_infile : Error

-- What a call that may panic returns.
pub data Result (A : Type 0) : Type 0 where
  ok : A → Result A
  err : Error → Result A
  panic : Result A

infixl 5 ◌>>=◌
abbrev pub ◌>>=◌ : {A B : Type 0} → Result A → (A → Result B) → Result B
ok a >>= f = f a
err e >>= f = err e
panic >>= f = panic

module _ {W : Type 0} where
  -- `protos[name]`, which has the last facility of a name.
  unfoldable pub last_proto : String → List (Facility W) → Option (Facility W)
  last_proto p [] = none
  last_proto p (f ∷ fs) = elim (last_proto p fs) [
    | some g ↦ some g
    | none ↦ if str_eq f.proto p then some f else none
  ]

  -- The loop that gives each build its facility. It stops at the first build of an unknown
  -- prototype, whose name it returns; the builds before it have their facility then.
  unfoldable pub link : List (Facility W) → List (Build W) → List (Build W) × Option String
  unfolding last_proto
  link facs [] = ([], none)
  link facs (b ∷ bs) = elim (last_proto b.proto facs) [
    | none ↦ (b ∷ bs, some b.proto)
    | some f ↦ (let (bs', e) = link facs bs in (record b { fac = f } ∷ bs', e))
  ]

  module _ ⦃d : Float W⦄ where
    -- The first error of the loop over the facilities, and whether there is a reactor.
    unfoldable pub lacks_reference : Facility W → Bool
    lacks_reference f =
        d.eq f.cap d.nought && (length f.frac_of_protos == 0) && leb_ℤ (pos 0) f.build_after

    unfoldable pub check_facs : List (Facility W) → Bool → Result Bool
    unfolding lacks_reference
    check_facs [] have = ok have
    check_facs (f ∷ fs) have =
        let rest = check_facs fs (d.lt d.nought f.cap || have) in
        if lacks_reference f then err (no_frac_protos f.proto) else rest

    -- Parsing the template of a scenario file: whether it succeeds. It is done once.
    module _ (parses : String → String → Bool) where
      unfoldable pub load_tmpl : Scenario W → Scenario W × Bool
      load_tmpl s =
          if not s.tmpl && not (str_eq s.cyclus_tmpl "")
          then (record s { tmpl = parses s.file s.cyclus_tmpl }, parses s.file s.cyclus_tmpl)
          else (s, true)

      -- The part after the checks of the facilities.
      unfoldable pub link_builds : Scenario W → Scenario W × Result (Unit {0})
      unfolding link
      link_builds s =
          let (starts, e) = link s.facs s.start_builds in
          let s' = record s { start_builds = starts } in
          elim e [
            | some p ↦ (s', err (unknown_start p))
            | none ↦
                (let (bs, e') = link s.facs s.builds in
                  let s'' = record s' { builds = bs } in
                  elim e' [ some p ↦ (s'', err (unknown_build p)) | none ↦ (s'', ok tt) ])
          ]

      unfoldable pub check_parts : Scenario W → Scenario W × Result (Unit {0})
      unfolding check_facs link_builds
      check_parts s = elim (check_facs s.facs false) [
        | err e ↦ (s, err e)
        | panic ↦ (s, panic)
        | ok have ↦ if have then link_builds s else (s, err no_reactor)
      ]

      unfoldable pub check_periods : Scenario W → Scenario W × Result (Unit {0})
      unfolding check_parts nperiods
      check_periods s = elim (nperiods s) [
        | none ↦ (s, panic)
        | some np ↦
            if eq_ℤ np (pos (length s.min_power))
            then check_parts s
            else (s, err (wrong_periods (length s.min_power) np))
      ]

      -- `Validate`: the scenario that it leaves, and its error.
      unfoldable pub validate : Scenario W → Scenario W × Result (Unit {0})
      unfolding load_tmpl check_periods
      validate s =
          if not (length s.min_power == length s.max_power)
          then (s, err (lengths_differ (length s.max_power) (length s.min_power)))
          else (let (s', parsed) = load_tmpl s in
              if parsed then check_periods s' else (s', err bad_template))
