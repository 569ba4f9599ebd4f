-- ===== src/Signal/Info/Child.antt =====
-- The status of a child in src/signal.c, against what the system puts in `si_status`.
use lua_conmanorg.Signal.Info.{
  SigInfo, normal, terminated, wtermsig, wifexited, wexitstatus, wstopsig, wifstopped, wifsignaled,
  wcoredump, child_status,
}
use lua_conmanorg.Prelude.{ℕ, ◌<◌, ◌≡◌, false, some, List, arith}

-- For a child that ended, `si_status` is its exit code or the number of its signal, without the
-- shifts of wait(). So an exit code from 1 to 126 is reported as an end by the signal of that number,
-- as is an end by a signal, and only the exit code 0 is reported as an exit.
child_status_mixes :
    (strsignal : ℕ → List ℕ) (info : SigInfo)
    → let r = child_status strsignal info in
      (0 < info.si_status
        → info.si_status < 127
        → (r.status ≡ some (terminated false))
          × (r.rc ≡ some info.si_status)
          × (r.description ≡ some (strsignal info.si_status)))
      × (info.si_status ≡ 0 → (r.status ≡ some normal) × (r.rc ≡ some 0))
unfolding child_status wtermsig wifexited wexitstatus wstopsig wifstopped wifsignaled wcoredump
child_status_mixes strsignal info = (λ p q. ground arith, λ e. ground arith)
