-- ===== src/Cmd/Work.antt =====
-- `work` of cmd/cloudlus/main.go: the worker that its flags describe.
pub mod Allowed
use cloudlus.Base.{
  ◌≡◌, refl, ap, ◌∙◌, inl, inr, Bool, true, false, not, ◌&&◌, ◌||◌, ℕ, List, [], ◌∷◌, String, ◌==◌,
  if◌then◌else◌, All, arith, Bool-cases,
}
use cloudlus.Base.Words.{is_empty, split, trim_space}
use cloudlus.Base.Words.Laws.{has, lacks-split, lacks-trim_space, trim_space_idem}
use cloudlus.Time.{Duration}
use cloudlus.Job.{Job}
use cloudlus.Job.Execute.{execute}
use cloudlus.Job.Execute.Checks.{is_started, is_admitted}
use cloudlus.Worker.{Worker, Trip, prepare}
use cloudlus.Worker.Pushes.{dojob_whitelisted}

pub record WorkFlags : Type 0 where
  pub interval : Duration
  pub maxidle : Duration
  pub timeout : Duration
  pub whitelist : String

abbrev pub is_comma : ℕ → Bool
is_comma c = c == b','

-- The loop over the pieces of the flag.
unfoldable pub trimmed : List String → List String
unfolding trim_space is_empty
trimmed [] = []
trimmed (s ∷ ss) = if is_empty (trim_space s) then trimmed ss else trim_space s ∷ trimmed ss

unfoldable pub whitelist_of : String → List String
unfolding split trimmed
whitelist_of flag = trimmed (split is_comma flag)

-- The worker that `work` runs. Its address is that of the server; `Run` sets the rest.
unfoldable pub worker_of : WorkFlags → Worker
unfolding whitelist_of
worker_of f = record {
  id = 0;
  job_timeout = f.timeout;
  file_cache = [];
  wait = f.interval;
  whitelist = whitelist_of f.whitelist;
  lastjob = 0;
  max_idle = f.maxidle;
}

-- A name as it may stand in the list: not empty, with no space around it and no comma in it.
pub record IsName (s : String) : Type 0 where
  pub filled : is_empty s ≡ false
  pub tight : trim_space s ≡ s
  pub whole : has is_comma s ≡ false

trimmed-IsName : (ss : List String) → All (λ s. has is_comma s ≡ false) ss → All IsName (trimmed ss)
unfolding trimmed
trimmed-IsName [] h = tt
trimmed-IsName (s ∷ ss) h = elim (Bool-cases (is_empty (trim_space s))) [
  | inl e ↦ rw e (trimmed-IsName ss h.1)
  | inr e ↦ rw e (
    record { filled = e; tight = trim_space_idem s; whole = lacks-trim_space is_comma s h.0 },
    trimmed-IsName ss h.1,
  )
]

-- The entries of a list of commands that a worker is started with are names: none is empty, has a
-- space around it, or has a comma.
pub whitelist_of-IsName : (flag : String) → All IsName (whitelist_of flag)
unfolding whitelist_of
whitelist_of-IsName flag = trimmed-IsName (split is_comma flag) (lacks-split is_comma flag)
