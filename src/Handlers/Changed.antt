-- ===== src/Handlers/Changed.antt =====
-- The actions after the changes of sig.c.
use linux_unix_development.Common.{
  ℕ, ◌≡◌, ◌≢◌, refl, Bool, true, false, some, [], ◌∷◌, ◌==◌, ==_iff, arith,
}
use linux_unix_development.Handlers.{
  Handler, sig_dfl, sig_ign, check_sig, Actions, sigint, sigabrt, sigfpe, sigalrm, my_signal,
  signal_add, signal_del, check_signal, install, report,
}

-- After a handler was added for a signal and removed again the signal has its default action and
-- does not stand in its own mask, the mask is else the old one, no other signal is changed, and the
-- two calls returned the handler and the default.
pub signal_del-signal_add :
    (known : ℕ → Bool) (nr : ℕ) (h : Handler) (t : Actions)
    → known nr ≡ true
    → (u : Actions) × (v : Actions) × (signal_add known nr h t ≡ (some h, u))
      × (signal_del known nr u ≡ (some sig_dfl, v))
      × ((v nr).sa_handler ≡ sig_dfl)
      × ((v nr).sa_mask nr ≡ false)
      × ((k : ℕ) → k ≢ nr → ((v nr).sa_mask k ≡ (t nr).sa_mask k) × (v k ≡ t k))
unfolding signal_add signal_del
signal_del-signal_add known nr h t k = (
  (signal_add known nr h t).1,
  (signal_del known nr (signal_add known nr h t).1).1,
  rw k refl,
  rw k refl,
  rw (k, same) refl,
  rw (k, same, same) refl,
  λ j n. (rw (k, same, other j n) refl, rw (k, other j n) refl),
)
  where
    same : (nr == nr) ≡ true
    same = (==_iff nr nr).1 refl

    other : (j : ℕ) → j ≢ nr → (j == nr) ≡ false
    other j n = ground (arith, n)

-- Where sigaction works for the four signals, main prints that SIGINT and SIGALRM have a handler and
-- that SIGABRT is ignored, whatever was set before, and what was set before for SIGFPE.
pub report-install :
    (known : ℕ → Bool) (t : Actions)
    → known sigint ≡ true
    → known sigalrm ≡ true
    → known sigabrt ≡ true
    → known sigfpe ≡ true
    → report known (install known t)
      ≡ (sigint, check_sig)
        ∷ (sigalrm, check_sig)
        ∷ (sigabrt, sig_ign)
        ∷ (sigfpe, (t sigfpe).sa_handler)
        ∷ []
unfolding report install my_signal signal_add check_signal
report-install known t a b c d = rw (a, b, c, d, install) refl
