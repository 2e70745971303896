-- ===== src/Cmd/Runs/Saved.antt =====
-- What `run` of cmd/cloudlus/main.go saves, whatever the order in which the calls return.
use cloudlus.Base.{
  ◌≡◌, refl, ap, ◌∙◌, Bool, true, false, Option, none, some, List, [], ◌∷◌, ◌++◌, if◌then◌else◌,
  arith,
}
use mathlib.Core.List.{append-nil, append_assoc}
use cloudlus.Job.{Job}
use cloudlus.Cmd.Runs.{
  Calls, Action, complain, save_result, save_outfiles, save_job, Turn, returns, receives, Waits,
  going, crashed, receive, receive_first, turn, run_turns, waiting,
}

-- The jobs that calls return, and whether none of these is an error.
unfoldable pub answers : List Turn → List Job
answers [] = []
answers (returns none ∷ ts) = answers ts
answers (returns (some j) ∷ ts) = j ∷ answers ts
answers (receives ∷ ts) = answers ts

unfoldable pub all_answered : List Turn → Bool
all_answered [] = true
all_answered (returns none ∷ ts) = false
all_answered (returns (some j) ∷ ts) = all_answered ts
all_answered (receives ∷ ts) = all_answered ts

-- What is done with each of some jobs.
unfoldable pub handled : Calls → Job → List Action
unfolding save_outfiles
handled c j =
    if c.writes_result j.id then save_result j.id ∷ save_outfiles c j.id else complain ∷ []

unfoldable pub all_handled : Calls → List Job → List Action
unfolding handled
all_handled c [] = []
all_handled c (j ∷ js) = handled c j ++ all_handled c js

-- The channel of a state that no error has reached.
unfoldable pub as_sent : List Job → List (Option Job)
as_sent [] = []
as_sent (j ∷ js) = some j ∷ as_sent js

as_sent-append : (js : List Job) (j : Job) → as_sent js ++ (some j ∷ []) ≡ as_sent (js ++ (j ∷ []))
unfolding as_sent
as_sent-append [] j = refl
as_sent-append (k ∷ js) j = ap (◌∷◌ (some k)) (as_sent-append js j)

abbrev pub with_jobs : List Job → List Action → Waits
with_jobs js acts = record { failed = false; channel = as_sent js; actions = acts }

save_job-handled : (c : Calls) (j : Job) → c.encodes j ≡ true → save_job c j ≡ some (handled c j)
unfolding save_job handled
save_job-handled c j e = rw e (ground arith)

run_turns_all :
    (c : Calls) (ts : List Turn) (js : List Job) (acts : List Action)
    → ((j : Job) → c.encodes j ≡ true)
    → all_answered ts ≡ true
    → (ks : List Job) × (bs : List Action) × (run_turns c ts (with_jobs js acts)
        ≡ going (with_jobs ks bs))
      × (bs ++ all_handled c ks ≡ acts ++ all_handled c (js ++ answers ts))
unfolding run_turns turn receive_first receive answers all_answered as_sent all_handled
run_turns_all c [] js acts e h = (js, acts, refl, rw append-nil refl)
run_turns_all c (returns none ∷ ts) js acts e h = absurd (ground arith)
run_turns_all c (returns (some j) ∷ ts) js acts e h =
    let (ks, bs, r, q) = run_turns_all c ts (js ++ (j ∷ [])) acts e h in
    (ks, bs, rw (as_sent-append js j) r, q ∙ rw append_assoc refl)
run_turns_all c (receives ∷ ts) [] acts e h = run_turns_all c ts [] acts e h
run_turns_all c (receives ∷ ts) (j ∷ js) acts e h =
    let (ks, bs, r, q) = run_turns_all c ts js (acts ++ handled c j) e h in
    (ks, bs, rw (run_turns, save_job-handled c j (e j)) r, q ∙ rw append_assoc refl)

-- If no call fails and every job can be encoded, `run` never panics and is not ended, in whatever
-- order the calls return and the loop receives. What it has done then, with what it does for the jobs
-- that wait in the channel, is what it does for each answered job, in the order of the answers.
pub run_saves :
    (c : Calls) (ts : List Turn)
    → ((j : Job) → c.encodes j ≡ true)
    → all_answered ts ≡ true
    → (ks : List Job) × (acts : List Action) × (run_turns c ts waiting ≡ going (with_jobs ks acts))
      × (acts ++ all_handled c ks ≡ all_handled c (answers ts))
unfolding as_sent
run_saves c ts e h = run_turns_all c ts [] [] e h

-- The error of the client is that of the call that returned last, and not that of the job that the
-- loop receives. While the channel is empty: if a call fails and another succeeds before the loop
-- receives, the loop panics at the nil job of the first; in the other order, the job of the first is
-- taken from the channel and neither saved nor printed.
pub run_mixed :
    (c : Calls) (w : Waits) (j : Job)
    → w.channel ≡ []
    → (run_turns c (returns none ∷ returns (some j) ∷ receives ∷ []) w ≡ crashed w.actions)
      × (run_turns c (returns (some j) ∷ returns none ∷ receives ∷ []) w
          ≡ going (record {
            failed = true;
            channel = none ∷ [];
            actions = w.actions ++ (complain ∷ []);
          }))
unfolding run_turns turn receive_first receive
run_mixed c w j h = (rw h refl, rw h refl)
