-- ===== src/Signal/Info.antt =====
-- What src/signal.c tells a handler of its signal, with the numbers of <signal.h> for Linux.
pub mod Child
use Prim.Native.Nat.{bit_and}
use lua_conmanorg.Bsearch.{Entry, row}
use lua_conmanorg.Prelude.{
  decimal, ℕ, zero, suc, ◌+◌, ◌/◌, ◌%◌, ltb, leb, ◌==◌, ◌&&◌, not, Bool, true, false, if◌then◌else◌,
  List, [], ◌∷◌, ◌++◌, Option, none, some, codes, ℤ, pos, negsuc,
}

-- `siginfo_t`.
pub record SigInfo : Type 0 where
  pub si_signo : ℕ
  pub si_errno : ℕ
  pub si_code : ℤ
  pub si_addr : ℕ
  pub si_band : ℤ
  pub si_pid : ℕ
  pub si_uid : ℕ
  pub si_status : ℕ

-- The cases of the switch on the signal, each with its codes.
abbrev ill_codes : List Entry
ill_codes =
    row "ILL_ILLOPC" 1
    ∷ row "ILL_ILLOPN" 2
    ∷ row "ILL_ILLADR" 3
    ∷ row "ILL_ILLTRP" 4
    ∷ row "ILL_PRVOPC" 5
    ∷ row "ILL_PRVREG" 6
    ∷ row "ILL_COPROC" 7
    ∷ row "ILL_BADSTK" 8
    ∷ []

abbrev fpe_codes : List Entry
fpe_codes =
    row "FPE_INTDIV" 1
    ∷ row "FPE_INTOVF" 2
    ∷ row "FPE_FLTDIV" 3
    ∷ row "FPE_FLTOVF" 4
    ∷ row "FPE_FLTUND" 5
    ∷ row "FPE_FLTRES" 6
    ∷ row "FPE_FLTINV" 7
    ∷ row "FPE_FLTSUB" 8
    ∷ []

abbrev segv_codes : List Entry
segv_codes = row "SEGV_MAPERR" 1 ∷ row "SEGV_ACCERR" 2 ∷ []

abbrev bus_codes : List Entry
bus_codes =
    row "BUS_ADRALN" 1
    ∷ row "BUS_ADRERR" 2
    ∷ row "BUS_OBJERR" 3
    ∷ row "BUS_MCEEFF_AO" 5
    ∷ row "BUS_MCEERR_AR" 4
    ∷ []

abbrev trap_codes : List Entry
trap_codes =
    row "TRAP_BRKPT" 1 ∷ row "TRAP_TRACE" 2 ∷ row "TRAP_BRANCH" 3 ∷ row "TRAP_HWBKPT" 4 ∷ []

abbrev chld_codes : List Entry
chld_codes =
    row "CLD_EXITED" 1
    ∷ row "CLD_KILLED" 2
    ∷ row "CLD_DUMPED" 3
    ∷ row "CLD_TRAPPED" 4
    ∷ row "CLD_STOPPED" 5
    ∷ row "CLD_CONTINUED" 6
    ∷ []

abbrev poll_codes : List Entry
poll_codes =
    row "POLL_IN" 1
    ∷ row "POLL_OUT" 2
    ∷ row "POLL_MSG" 3
    ∷ row "POLL_ERR" 4
    ∷ row "POLL_PRI" 5
    ∷ row "POLL_HUP" 6
    ∷ []

unfoldable pub codes_of : ℕ → List Entry
codes_of sig =
    if sig == 4
    then ill_codes
    else if sig == 8
    then fpe_codes
    else if sig == 11
    then segv_codes
    else if sig == 7
    then bus_codes
    else if sig == 5
    then trap_codes
    else if sig == 17
    then chld_codes
    else if sig == 29
    then poll_codes
    else []

-- The case of a code, if there is one.
unfoldable pub case_of : List Entry → ℕ → Option (List ℕ)
case_of [] code = none
case_of (e ∷ rest) code =
    let later = case_of rest code in if e.value == code then some e.text else later

-- The second switch, or what `%d` writes.
unfoldable pub si_code_text : ℤ → List ℕ
si_code_text (pos zero) = codes "SI_USER"
si_code_text (negsuc zero) = codes "SI_QUEUE"
si_code_text (negsuc (suc zero)) = codes "SI_TIMER"
si_code_text (negsuc (suc (suc (suc zero)))) = codes "SI_ASYNCIO"
si_code_text (negsuc (suc (suc zero))) = codes "SI_MESGQ"
si_code_text code = decimal code

unfoldable pub or_text : Option (List ℕ) → List ℕ → List ℕ
or_text none text = text
or_text (some s) text = s

unfoldable pub codetostr : ℕ → ℤ → List ℕ
codetostr sig (pos code) = or_text (case_of (codes_of sig) code) (si_code_text (pos code))
codetostr sig (negsuc code) = si_code_text (negsuc code)

-- The macros of <sys/wait.h>, for the 16 bits that they read.
unfoldable pub wtermsig : ℕ → ℕ
wtermsig status = status % 128

unfoldable pub wifexited : ℕ → Bool
wifexited status = wtermsig status == 0

unfoldable pub wexitstatus : ℕ → ℕ
wexitstatus status = status / 256 % 256

unfoldable pub wstopsig : ℕ → ℕ
wstopsig status = status / 256 % 256

unfoldable pub wifstopped : ℕ → Bool
wifstopped status = status % 256 == 127

unfoldable pub wifsignaled : ℕ → Bool
wifsignaled status = not (wtermsig status == 0) && not (wtermsig status == 127)

unfoldable pub wcoredump : ℕ → Bool
wcoredump status = not (status / 128 % 2 == 0)

-- The inner table of a child: `strsignal` is a parameter.
pub data Status : Type 0 where
  normal : Status
  stopped : Status
  terminated : Bool → Status

pub record ChildStatus : Type 0 where
  pub pid : ℕ
  pub uid : ℕ
  pub rc : Option ℕ
  pub description : Option (List ℕ)
  pub status : Option Status

unfoldable pub exit_text : ℕ → List ℕ
exit_text rc = (if rc == 0 then codes "success " else codes "failure ") ++ decimal (pos rc)

unfoldable pub child_status : (ℕ → List ℕ) → SigInfo → ChildStatus
child_status strsignal info =
    let status = info.si_status in
    let none_of_these : ChildStatus = record {
      pid = info.si_pid;
      uid = info.si_uid;
      rc = none;
      description = none;
      status = none;
    } in
    if wifexited status
    then record none_of_these {
      rc = some (wexitstatus status);
      description = some (exit_text (wexitstatus status));
      status = some normal;
    }
    else if wifstopped status
    then record none_of_these {
      rc = some (wstopsig status);
      description = some (strsignal (wstopsig status));
      status = some stopped;
    }
    else if wifsignaled status
    then record none_of_these {
      rc = some (wtermsig status);
      description = some (strsignal (wtermsig status));
      status = some (terminated (wcoredump status));
    }
    else none_of_these

-- The table that a handler gets: what it has besides the first three fields depends on the signal.
pub data Detail : Type 0 where
  addr : ℕ → Detail
  band : ℤ → Detail
  status : ChildStatus → Detail
  nothing : Detail

pub record InfoTable : Type 0 where
  pub signal : Option (List ℕ)
  pub errno : ℕ
  pub code : List ℕ
  pub detail : Detail

unfoldable pub detail_of : (ℕ → List ℕ) → SigInfo → Detail
detail_of strsignal info =
    let sig = info.si_signo in
    if sig == 7
    then addr info.si_addr
    else if sig == 4
    then addr info.si_addr
    else if sig == 8
    then addr info.si_addr
    else if sig == 11
    then addr info.si_addr
    else if sig == 29
    then band info.si_band
    else if sig == 17
    then status (child_status strsignal info)
    else nothing

unfoldable pub slua_pushinfo : (ℕ → List ℕ) → SigInfo → Option (List ℕ) → InfoTable
slua_pushinfo strsignal info name = record {
  signal = name;
  errno = info.si_errno;
  code = codetostr info.si_signo info.si_code;
  detail = detail_of strsignal info;
}
