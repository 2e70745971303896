-- ===== src/Scen/Load.antt =====
-- Reading a scenario file, its input file for cyclus and its statistics, scen/scenario.go.
--
-- Reading a file, decoding JSON into the receiver and filling in a template are arguments.
use cloudlus.Base.{
  ℕ, suc, Bool, true, Option, none, some, List, [], ◌∷◌, String, get_or, if◌then◌else◌,
}
use cloudlus.Base.Int.{ℤ}
use cloudlus.Scen.Float.{Float}
use cloudlus.Scen.Model.{Scenario, period_times}
use cloudlus.Scen.Check.{
  Result, ok, err, panic, ◌>>=◌, unreadable, bad_json, bad_json_at, bad_infile, validate,
}
use cloudlus.Scen.Line.{find_line}
use cloudlus.Scen.Vars.{or_panic}
use cloudlus.Scen.Deploy.{Deploy, group, power_cap}
use cloudlus.Scen.Sched.{cap_built}
use text.Mathlib.Text.{◌==◌ as str_eq}

-- What `json.Unmarshal` leaves: the receiver, and no error, a syntax error with its offset, or
-- another error.
pub data Decoded (A : Type 0) : Type 0 where
  decoded : A → Decoded A
  syntax_error : A → ℕ → Decoded A
  decode_error : A → Decoded A

module _ {W : Type 0} ⦃d : Float W⦄ (parses : String → String → Bool) where
  -- The part after reading. The scenario that it leaves, and its error.
  unfoldable pub load_decoded :
      List ℕ → String → Decoded (Scenario W) → Scenario W × Result (Unit {0})
  unfolding find_line validate
  load_decoded bytes fname (decoded s) = validate parses (record s { file = fname })
  load_decoded bytes fname (decode_error s) = (s, err bad_json)
  load_decoded bytes fname (syntax_error s offset) = elim (find_line bytes offset) [
    | none ↦ (s, panic)
    | some (line, col) ↦ (s, err (bad_json_at line col))
  ]

  -- `Load` for a receiver that is not nil.
  unfoldable pub load :
      (String → Option (List ℕ))
      → (List ℕ → Scenario W → Decoded (Scenario W))
      → String
      → Scenario W
      → Scenario W × Result (Unit {0})
  unfolding load_decoded
  load read decode fname s = elim (read fname) [
    | none ↦ (s, err unreadable)
    | some bytes ↦ load_decoded bytes fname (decode bytes s)
  ]

  -- `GenCyclusInfile`: a template that does not parse is a panic.
  unfoldable pub with_handle : Scenario W → Scenario W
  with_handle s = if str_eq s.handle "" then record s { handle = "none" } else s

  unfoldable pub gen_cyclus_infile :
      (Scenario W → Option (List ℕ)) → Scenario W → Scenario W × Result (List ℕ)
  unfolding with_handle
  gen_cyclus_infile fill s =
      let s' = with_handle s in
      let made : Scenario W × Result (List ℕ) = (
        record s' { tmpl = true },
        elim (fill s') [ none ↦ err bad_infile | some bytes ↦ ok bytes ],
      ) in
      if s'.tmpl then made else if parses s'.file s'.cyclus_tmpl then made else (s', panic)

  -- A line of `PrintStats`: the time, the capacity that is built then, the power, and its limits.
  unfoldable pub stats_from :
      (Deploy W → Deploy W) → Scenario W → Deploy W → ℕ → List ℤ → Result (List (ℤ × W × W × W × W))
  unfolding power_cap cap_built
  stats_from order s m i [] = ok []
  stats_from order s m i (t ∷ ts) = elim (cap_built s t s.builds d.nought) [
    | err e ↦ err e
    | panic ↦ panic
    | ok built ↦ elim (stats_from order s m (suc i) ts) [
      | err e ↦ err e
      | panic ↦ panic
      | ok rows ↦ ok (
          (
            t,
            built,
            power_cap order t m,
            get_or d.nought s.min_power i,
            get_or d.nought s.max_power i,
          )
          ∷ rows)
    ]
  ]

  -- `PrintStats`: the program ends on an error.
  unfoldable pub print_stats :
      (Deploy W → Deploy W) → Scenario W → Scenario W × Result (List (ℤ × W × W × W × W))
  unfolding stats_from group period_times validate
  print_stats order s =
      let (s', v) = validate parses s in
      elim v [
        | err e ↦ (s', err e)
        | panic ↦ (s', panic)
        | ok u ↦ (
          s',
          (do ts ← or_panic (period_times s'); stats_from order s' (group s'.builds []) 0 ts),
        )
      ]
