-- ===== src/Handlers.antt =====
-- 08_Signals/sig.c: what a process does when a signal arrives, and how that is changed.
pub mod Changed
pub mod Lives
mod Tests
use linux_unix_development.Common.{
  ℕ, Bool, true, false, ◌||◌, ◌&&◌, not, Option, none, some, List, [], ◌∷◌, ◌++◌, ◌==◌,
  if◌then◌else◌,
}

-- sa_handler: SIG_DFL, SIG_IGN, or a function of the program, of which there is one, check_sig.
pub data Handler : Type 0 where
  sig_dfl sig_ign check_sig : Handler

-- struct sigaction; `restart` says whether sa_flags is SA_RESTART.
pub record Action : Type 0 where
  pub sa_handler : Handler
  pub sa_mask : ℕ → Bool
  pub restart : Bool

-- The actions of a process.
abbrev pub Actions : Type 0
Actions = ℕ → Action

abbrev pub replace : Actions → ℕ → Action → Actions
replace t nr a k = if k == nr then a else t k

abbrev pub sigemptyset : ℕ → Bool
sigemptyset k = false

abbrev pub sigaddset : (ℕ → Bool) → ℕ → ℕ → Bool
sigaddset m nr k = if k == nr then true else m k

abbrev pub sigdelset : (ℕ → Bool) → ℕ → ℕ → Bool
sigdelset m nr k = if k == nr then false else m k

abbrev pub sigint : ℕ
sigint = 2

abbrev pub sigabrt : ℕ
sigabrt = 6

abbrev pub sigfpe : ℕ
sigfpe = 8

abbrev pub sigalrm : ℕ
sigalrm = 14

-- The process: its actions and whether alarm was called, or its end.
pub data Life : Type 0 where
  alive : Actions → (alarmed : Bool) → Life
  killed : Life

-- `known` says for which signals sigaction works. `none` is SIG_ERR.
module _ (known : ℕ → Bool) where
  -- The old handler is returned.
  pub my_signal : ℕ → Handler → Actions → Option Handler × Actions
  my_signal nr h t =
      if known nr
      then (
        some (t nr).sa_handler,
        replace t nr (record { sa_handler = h; sa_mask = sigemptyset; restart = true }),
      )
      else (none, t)

  -- The new handler is returned.
  pub signal_add : ℕ → Handler → Actions → Option Handler × Actions
  signal_add nr h t =
      if known nr
      then (
        some h,
        replace t nr
            (record { sa_handler = h; sa_mask = sigaddset (t nr).sa_mask nr; restart = true }),
      )
      else (none, t)

  pub signal_del : ℕ → Actions → Option Handler × Actions
  signal_del nr t =
      if known nr
      then (
        some sig_dfl,
        replace t nr (record {
          sa_handler = sig_dfl;
          sa_mask = sigdelset (t nr).sa_mask nr;
          restart = true;
        }),
      )
      else (none, t)

  -- The line that is printed, if sigaction works: the number and the kind of the action.
  pub check_signal : ℕ → Actions → List (ℕ × Handler)
  check_signal nr t = if known nr then (nr, (t nr).sa_handler) ∷ [] else []

  -- The switch on the number that is typed.
  pub choice : (nr : ℕ) → Actions → Bool → Life
  choice nr t alarmed =
      if nr == 1
      then alive (signal_del sigint t).1 alarmed
      else if nr == 2
      then alive t alarmed
      else if nr == 3
      then alive t true
      else if nr == 4
      then killed
      else alive t alarmed

  -- The handler check_sig; `nr` is what scanf reads. SIGKILL ends the process.
  pub run_check_sig : (signr nr : ℕ) → Actions → Bool → Life
  run_check_sig signr nr t alarmed =
      if signr == sigint
      then choice nr t alarmed
      else if signr == sigalrm
      then killed
      else alive t alarmed

  -- A signal that arrives: by default SIGINT, SIGALRM, SIGABRT and SIGFPE end the process.
  pub deliver : (signr nr : ℕ) → Handler → Actions → Bool → Life
  deliver signr nr sig_dfl t alarmed = killed
  deliver signr nr sig_ign t alarmed = alive t alarmed
  deliver signr nr check_sig t alarmed = run_check_sig signr nr t alarmed

  -- The start of main.
  pub install : Actions → Actions
  install t =
      let t = (my_signal sigint check_sig t).1 in
      let t = (signal_add sigalrm check_sig t).1 in (signal_add sigabrt sig_ign t).1

  -- The lines that main prints.
  pub report : Actions → List (ℕ × Handler)
  report t =
      check_signal sigint t
      ++ (check_signal sigalrm t ++ (check_signal sigabrt t ++ check_signal sigfpe t))

  -- The loop of main, in which signals arrive, each with the number that is typed at it.
  pub arrive : List (ℕ × ℕ) → Life → Life
  arrive [] p = p
  arrive (e ∷ es) killed = killed
  arrive ((signr, nr) ∷ es) (alive t alarmed) =
      arrive es (deliver signr nr (t signr).sa_handler t alarmed)

  pub sig_main : Actions → List (ℕ × ℕ) → Life
  sig_main t es = arrive es (alive (install t) false)
