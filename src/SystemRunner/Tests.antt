-- ===== src/SystemRunner/Tests.antt =====
-- The theorems on net/system_runner.cc, on a child that stops, goes on and exits with status 3, and on
-- one that writes two bytes to a standard error of one.
use astraea_open_source.Prelude.{ℕ, ◌<◌, ◌≡◌, ◌↔◌, List, [], ◌∷◌, true, false, some, refl, arith}
use astraea_open_source.Result.{ok, err, runtime_error}
use astraea_open_source.FileDescriptor.{FileDescriptor}
use astraea_open_source.ChildProcess.{Code, exited, stopped, continued, SigInfo}
use astraea_open_source.SystemRunner.{Calls, threw, run, ezexec, command_str, argv_str}
use astraea_open_source.SystemRunner.Output.{run-settled, until_end}
use astraea_open_source.SystemRunner.Deadlock.{
  State, start, Reach, IsStuck, stdout, stderr, count_stderr, Reach-IsStuck_iff,
}

abbrev stream_of : List (List ℕ) → FileDescriptor
stream_of segments = record { segments = segments; fails = false; eof = false; read_count = 0 }

abbrev report_of : Code → ℕ → SigInfo
report_of code status = record { si_pid = 7; is_sigchld = true; si_code = code; si_status = status }

abbrev calls : Calls
calls = record {
  stdout_opens = true;
  stderr_opens = true;
  forked = ok 7;
  stdout_closes = true;
  stderr_closes = true;
  stdout = stream_of ((104 ∷ 105 ∷ []) ∷ (33 ∷ []) ∷ []);
  stderr = stream_of [];
  answers = until_end (report_of stopped 19 ∷ report_of continued 18 ∷ []) (report_of exited 3) [];
}

run-settled_example : run ((108 ∷ 115 ∷ []) ∷ []) true true calls ≡ threw runtime_error
run-settled_example =
    run-settled (108 ∷ 115 ∷ []) [] true true calls 7
      (report_of stopped 19 ∷ report_of continued 18 ∷ []) (report_of exited 3) []
      (record {
        stdout_opens = refl;
        stderr_opens = refl;
        forked = refl;
        stdout_closes = refl;
        stderr_closes = refl;
        stdout_live = record {
          segments_ne = (omega arith, (omega arith, tt));
          before_eof = refl;
          no_failure = refl;
        };
        stderr_live = record { segments_ne = tt; before_eof = refl; no_failure = refl };
      })
      refl
      (
        record { same = refl; is_child = refl; is_kind = refl },
        (record { same = refl; is_child = refl; is_kind = refl }, tt),
      )
      (record { same = refl; is_child = refl; is_kind = refl })

Reach-IsStuck_iff_example :
    ((s : State) × Reach 1 (start (stderr ∷ stdout ∷ stderr ∷ [])) s × IsStuck 1 s)
    ↔ (1 < count_stderr (stderr ∷ stdout ∷ stderr ∷ []))
Reach-IsStuck_iff_example = Reach-IsStuck_iff 1 (stderr ∷ stdout ∷ stderr ∷ []) (omega arith)

-- A root that has an environment does not run a program, and a zero ends an argument.
ezexec_root : ezexec (108 ∷ []) ((108 ∷ []) ∷ []) [] true false true true ≡ err runtime_error
unfolding ezexec
ezexec_root = refl

ezexec_cuts :
    ezexec (108 ∷ []) ((108 ∷ 0 ∷ 115 ∷ []) ∷ []) [] false true false true
    ≡ ok (record {
      filename = 108 ∷ [];
      argv = (108 ∷ []) ∷ [];
      envp = some [];
      searches_path = true;
    })
unfolding ezexec
ezexec_cuts = refl

-- The two ways to print a command differ by the space at the end.
command_str_space : command_str ((108 ∷ []) ∷ (45 ∷ []) ∷ []) [] ≡ 108 ∷ 32 ∷ 45 ∷ 32 ∷ []
unfolding command_str
command_str_space = refl

argv_str_no_space : argv_str ((108 ∷ []) ∷ (45 ∷ []) ∷ []) ≡ 108 ∷ 32 ∷ 45 ∷ []
unfolding argv_str
argv_str_no_space = refl
