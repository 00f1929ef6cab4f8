-- ===== src/ChildProcess/Tests.antt =====
-- The theorem on the destructor of net/child_process.cc, for a child that stops and then exits.
use astraea_open_source.Prelude.{◌≡◌, true, false, List, [], ◌∷◌, ◌⊎◌, some}
use astraea_open_source.ChildProcess.{started, Code, Turn, ended, waiting, destroy}
use astraea_open_source.ChildProcess.Ending.{reporting, has_end, destroy-ends}

abbrev turns : List Turn
turns =
    reporting 70 true
    ∷ record {
      resumes = true;
      signals = true;
      answer =
          some (record { si_pid = 70; is_sigchld = true; si_code = Code.exited; si_status = 0 });
    }
    ∷ []

destroy-ends_example :
    ((destroy (started 1 70) turns).1 ≡ ended)
    ⊎ (((destroy (started 1 70) turns).1 ≡ waiting) × (has_end 70 turns ≡ false))
destroy-ends_example = destroy-ends (started 1 70) turns
