-- ===== src/Tests/Remotes.antt =====
-- Results on remote simulations, with a server that runs each job.
use cloudlus.Base.{
  some_eq, ℕ, ◌≡◌, refl, sym, ap, ◌∙◌, Bool, true, false, Option, none, some, List, [], ◌∷◌,
  if◌then◌else◌, ◌==◌,
}
use cloudlus.Base.Int.{ℤ, pos}
use cloudlus.Job.{Job, File}
use cloudlus.Scen.Model.{Scenario}
use cloudlus.Runscen.{Calls, Waited, answered, refused, remote_timeout, remote_job}
use cloudlus.Runscen.Sent.{sent_job, Alike, remote_timeout_marked}
use mathlib.Core.Path.{subst}
use cloudlus.Tests.Plans.{whole, parses, plan}

-- A scenario in JSON is its mark here.
abbrev encode_mark : Scenario ℤ → Option (List ℕ)
encode_mark s = some ((if s.single_calc then 1 else 0) ∷ [])

abbrev read_number : List ℕ → Option ℤ
read_number [] = none
read_number (n ∷ ns) = some (pos n)

abbrev pub calls : Calls ℤ
calls = record {
  uid = 5;
  encode = encode_mark;
  read_file = λ p. some (60 ∷ []);
  arguments = none;
  run = λ j. answered (some j);
  stdout = none;
  stderr = none;
  outfile_data = λ j f. some (42 ∷ []);
  parse_float = read_number;
}

-- A server that refuses a job with an unmarked scenario.
abbrev is_mark : List File → Bool
is_mark (tmpl ∷ s ∷ fs) = elim s.contents [
  | [] ↦ false
  | n ∷ ns ↦ elim ns [ [] ↦ n == 1 | k ∷ ks ↦ false ]
]
is_mark _ = false

abbrev strict : Job → Waited
strict j = if is_mark j.infiles then answered (some j) else refused

calls-Alike : Alike calls (pos 60) strict
unfolding remote_job
calls-Alike s data' tmpl m e =
    subst
      (λ x.
        answered (some (sent_job calls (pos 60) s tmpl x))
        ≡ strict (sent_job calls (pos 60) s tmpl x))
      marked refl
  where
    marked : (1 ∷ []) ≡ data'
    marked =
        ap (λ b. (if b then 1 else 0) ∷ []) (sym m)
        ∙ some_eq ((if s.single_calc then 1 else 0) ∷ []) data' e

remote_timeout_marked_example :
    remote_timeout parses (record { single = none; multi = none }) calls true (pos 60) plan
    ≡ remote_timeout parses
        (record { single = none; multi = none })
        (record calls { run = strict })
        true
        (pos 60)
        plan
remote_timeout_marked_example =
    remote_timeout_marked parses (record { single = none; multi = none }) calls (pos 60) strict true
      plan calls-Alike
