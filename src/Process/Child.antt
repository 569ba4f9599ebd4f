-- ===== src/Process/Child.antt =====
-- The status that wait() gives, as src/process.c reports it.
use lua_conmanorg.Signal.Info.{
  Status, normal, stopped, terminated, wtermsig, wifexited, wexitstatus, wstopsig, wifstopped,
  wifsignaled, wcoredump,
}
use lua_conmanorg.Prelude.{
  ℕ, ◌+◌, ◌*◌, ◌<◌, ◌≡◌, refl, ◌==◌, Bool, true, false, if◌then◌else◌, List, Option, none, some,
  codes, arith,
}

-- The table, with `strsignal` as a parameter.
pub record ProcStatus : Type 0 where
  pub pid : ℕ
  pub rc : Option ℕ
  pub description : Option (List ℕ)
  pub status : Option Status

unfoldable pub proc_pushstatus : (ℕ → List ℕ) → ℕ → ℕ → ProcStatus
proc_pushstatus strsignal pid status =
    if wifexited status
    then record {
      pid = pid;
      rc = some (wexitstatus status);
      description = some (if wexitstatus status == 0 then codes "success" else codes "failure");
      status = some normal;
    }
    else if wifstopped status
    then record {
      pid = pid;
      rc = some (wstopsig status);
      description = some (strsignal (wstopsig status));
      status = some stopped;
    }
    else if wifsignaled status
    then record {
      pid = pid;
      rc = some (wtermsig status);
      description = some (strsignal (wtermsig status));
      status = some (terminated (wcoredump status));
    }
    else record { pid = pid; rc = none; description = none; status = none }

-- What waitpid() gives: an error number, no child yet, or a child and its status.
pub data Waited : Type 0 where
  failed : ℕ → Waited
  none_yet : Waited
  changed : ℕ → ℕ → Waited

unfoldable pub proclua_wait : (ℕ → List ℕ) → Waited → Option ProcStatus × ℕ
proclua_wait strsignal (failed errno) = (none, errno)
proclua_wait strsignal none_yet = (none, 0)
proclua_wait strsignal (changed pid status) = (some (proc_pushstatus strsignal pid status), 0)

-- How a child changed: it exited with a code, a signal ended it, with a core or without one, a signal
-- stopped it, or it goes on.
pub data Change : Type 0 where
  exited : ℕ → Change
  killed : ℕ → Bool → Change
  halted : ℕ → Change
  continued : Change

-- The number that the system makes of it.
unfoldable pub encoded_status : Change → ℕ
encoded_status (exited code) = code * 256
encoded_status (killed sig true) = sig + 128
encoded_status (killed sig false) = sig
encoded_status (halted sig) = sig * 256 + 127
encoded_status continued = 65535

abbrev pub InRange : Change → Type 0
InRange (exited code) = code < 256
InRange (killed sig core) = (0 < sig) × (sig < 65)
InRange (halted sig) = (0 < sig) × (sig < 65)
InRange continued = Unit {0}

unfoldable pub reported : Change → Option ℕ × Option Status
reported (exited code) = (some code, some normal)
reported (killed sig core) = (some sig, some (terminated core))
reported (halted sig) = (some sig, some stopped)
reported continued = (none, none)

-- The report of a child has the code or the signal, and the kind of change, that the system has put
-- into the status.
pushstatus-reported :
    (strsignal : ℕ → List ℕ) (pid : ℕ) (c : Change)
    → InRange c
    → let r = proc_pushstatus strsignal pid (encoded_status c) in
      (r.pid ≡ pid) × (r.rc ≡ (reported c).0) × (r.status ≡ (reported c).1)
unfolding proc_pushstatus encoded_status reported wtermsig wifexited wexitstatus wstopsig wifstopped
    wifsignaled wcoredump
pushstatus-reported strsignal pid (exited code) h = ground arith
pushstatus-reported strsignal pid (killed sig true) h = ground arith
pushstatus-reported strsignal pid (killed sig false) h = ground arith
pushstatus-reported strsignal pid (halted sig) h = ground arith
pushstatus-reported strsignal pid continued h = (refl, refl, refl)
