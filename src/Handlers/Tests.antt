-- ===== src/Handlers/Tests.antt =====
-- sig.c with signals in a few orders.
use linux_unix_development.Common.{ℕ, ◌≡◌, refl, inl, inr, Bool, true, false, List, [], ◌∷◌}
use linux_unix_development.Handlers.{
  sig_dfl, sig_ign, check_sig, Actions, sigemptyset, sigint, sigabrt, sigfpe, sigalrm, install,
  report, sig_main,
}
use linux_unix_development.Handlers.Changed.{report-install}
use linux_unix_development.Handlers.Lives.{is_alive, survives, sig_main-survives}

abbrev all_known : ℕ → Bool
all_known nr = true

abbrev defaults : Actions
defaults nr = record { sa_handler = sig_dfl; sa_mask = sigemptyset; restart = false }

report-install_example :
    report all_known (install all_known defaults)
    ≡ (sigint, check_sig) ∷ (sigalrm, check_sig) ∷ (sigabrt, sig_ign) ∷ (sigfpe, sig_dfl) ∷ []
report-install_example = report-install all_known defaults refl refl refl refl

-- SIGINT with 3, SIGABRT, SIGINT with 1, SIGINT.
abbrev arriving : List (ℕ × ℕ)
arriving = (2, 3) ∷ (6, 0) ∷ (2, 1) ∷ (2, 2) ∷ []

sig_main-survives_example :
    is_alive (sig_main all_known defaults arriving) ≡ survives false arriving
sig_main-survives_example =
    sig_main-survives all_known defaults arriving refl refl refl
      (inl refl, (inr (inr refl), (inl refl, (inl refl, tt))))
