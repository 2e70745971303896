-- ===== src/Tests/Commands.antt =====
-- The programs of cmd/cloudlus and cmd/condorbots, and the sweep, at concrete inputs.
use cloudlus.Base.{
  ◌≡◌, ◌≢◌, refl, true, false, Option, none, some, List, [], ◌∷◌, ◌++◌, String, keep,
}
use cloudlus.Bytes.{Bytes}
use cloudlus.Job.{Job, new_job}
use cloudlus.Store.{saved}
use cloudlus.Cmd.Pack.{Formats, Entry, Disk, pack, unpack, found}
use cloudlus.Cmd.Pack.Files.{inputs_of, wanted_of, all_inputs, all_wanted, last_cmd, cmd_after}
use cloudlus.Cmd.Pack.RoundTrip.{unpack-pack}
use cloudlus.Cmd.Runs.{Calls, Action, Turn, returns, receives, going, run_turns, waiting}
use cloudlus.Cmd.Runs.Saved.{answers, all_answered, all_handled, with_jobs, run_saves}
use cloudlus.Sweep.{skip_sums, permute}
use cloudlus.Sweep.Product.{product, admits, permute-product}
use cloudlus.Tests.Samples.{echo}

-- A directory with a command, an input file and a directory.
abbrev command_file : Entry
command_file = record { name = "cmd.txt"; is_dir = false; contents = some (1 ∷ []) }

abbrev input_file : Entry
input_file = record { name = "input.xml"; is_dir = false; contents = some (60 ∷ 62 ∷ []) }

abbrev folder : Entry
folder = record { name = "old"; is_dir = true; contents = none }

abbrev lists : Bytes → Option (List String)
lists bytes = some ("cyclus" ∷ "input.xml" ∷ [])

-- JSON for one job.
abbrev formats : Formats
unfolding new_job cmd_after inputs_of wanted_of
formats = record {
  encode = λ j. some [];
  decode = λ b. some (
      saved (record (new_job 9) {
        cmd = "cyclus" ∷ "input.xml" ∷ [];
        infiles =
            record { name = "input.xml"; contents = 60 ∷ 62 ∷ []; size = 2; cache = false } ∷ [];
      }));
  decode_list = lists;
}

abbrev disk : Disk
disk = record { read = λ n. some []; mkdir = λ i. true; path = λ i n. n; writes = λ p. true }

not_the_input : ◌≢◌ {A = String} "old" "input.xml"
not_the_input q = cc

unpack-pack_example :
    let u = unpack formats disk ("job.json" ∷ []) (record { written = []; fatal = false }) in
    (u.fatal ≡ false) × (found "input.xml" u.written ≡ some (60 ∷ 62 ∷ []))
unfolding pack new_job all_inputs all_wanted last_cmd cmd_after inputs_of wanted_of
unpack-pack_example =
    unpack-pack formats disk 9 "job.json" [] (command_file ∷ []) (folder ∷ []) input_file
      (60 ∷ 62 ∷ []) (λ b q. refl) refl refl refl (λ p. refl) (record { read = refl; plain = refl })
      (not_the_input, tt)

-- All files can be written.
abbrev calls : Calls
calls = record {
  read_file = λ n. none;
  stdin = none;
  decode = λ b. none;
  encodes = λ j. true;
  dials = true;
  submits = λ j. true;
  retrieve = λ i. none;
  outfiles = λ i. some (i ∷ []);
  writes_result = λ i. true;
  creates_outdata = λ i. true;
  copies = λ b. true;
}

abbrev turns : List Turn
turns = returns (some (echo 1)) ∷ receives ∷ receives ∷ returns (some (echo 2)) ∷ []

run_saves_example :
    (ks : List Job) × (acts : List Action) × (run_turns calls turns waiting
      ≡ going (with_jobs ks acts))
    × (acts ++ all_handled calls ks ≡ all_handled calls (answers turns))
unfolding all_answered
run_saves_example = run_saves calls turns (λ j. refl) refl

permute-product_example :
    permute skip_sums (11 ∷ 2 ∷ []) ≡ some (keep (admits skip_sums 1 []) (product 11 (2 ∷ [])))
permute-product_example = permute-product skip_sums 11 (2 ∷ [])
