-- ===== src/Job/Size.antt =====
-- How `Size` of cloudlus/job.go grows as files are added.
use cloudlus.Base.{ℕ, ◌+◌, String, ◌≡◌, List, [], ◌∷◌, ◌++◌, length, arith}
use cloudlus.Job.{
  File, Job, add_infile, add_infile_cached, add_outfile, infile_bytes, outfile_bytes, size,
}

infile_bytes-append :
    (xs ys : List File) → infile_bytes (xs ++ ys) ≡ infile_bytes xs + infile_bytes ys
unfolding infile_bytes
infile_bytes-append [] ys = omega arith
infile_bytes-append (x ∷ xs) ys = omega (arith, infile_bytes-append xs ys)

outfile_bytes-append :
    (xs ys : List File) → outfile_bytes (xs ++ ys) ≡ outfile_bytes xs + outfile_bytes ys
unfolding outfile_bytes
outfile_bytes-append [] ys = omega arith
outfile_bytes-append (x ∷ xs) ys = omega (arith, outfile_bytes-append xs ys)

-- An input file, cached or not, adds its length to the size of a job. An output file adds nothing
-- until its size is known.
size_added :
    (j : Job) (fname : String) (contents : List ℕ)
    → (size (add_infile j fname contents) ≡ size j + length contents)
      × (size (add_infile_cached j fname contents) ≡ size j + length contents)
      × (size (add_outfile j fname) ≡ size j)
unfolding size add_infile add_infile_cached add_outfile
size_added j fname contents = (
  omega (arith, infile_bytes-append j.infiles _),
  omega (arith, infile_bytes-append j.infiles _),
  omega (arith, outfile_bytes-append j.outfiles _),
)
