-- ===== src/Handlers/Lives.antt =====
-- How long the process of sig.c lives.
use linux_unix_development.Common.{
  ℕ, ◌≡◌, refl, ap, ◌⊎◌, inl, inr, Bool, true, false, not, ◌&&◌, ◌||◌, List, [], ◌∷◌, ◌==◌, ==_iff,
  Bool-cases, if◌then◌else◌,
}
use linux_unix_development.Handlers.{
  sig_dfl, sig_ign, check_sig, Actions, sigint, sigabrt, sigalrm, Life, alive, killed, my_signal,
  signal_add, signal_del, choice, run_check_sig, deliver, install, arrive, sig_main,
}

abbrev pub is_alive : Life → Bool
is_alive (alive t alarmed) = true
is_alive killed = false

-- What a user may expect: SIGALRM ends the process, and so does SIGINT where 4 is chosen or where the
-- choice before was 1.
abbrev pub survives : (removed : Bool) → List (ℕ × ℕ) → Bool
survives removed [] = true
survives removed ((signr, nr) ∷ es) =
    not (signr == sigalrm)
    && (not (signr == sigint && (removed || nr == 4))
        && survives (if signr == sigint then nr == 1 else removed) es)

-- Only the three signals arrive that main has set.
abbrev pub AllSet : List (ℕ × ℕ) → Type 0
AllSet [] = Unit
AllSet ((signr, nr) ∷ es) = ((signr ≡ sigint) ⊎ ((signr ≡ sigalrm) ⊎ (signr ≡ sigabrt))) × AllSet es

-- The actions of the three signals.
record Inv (removed : Bool) (t : Actions) : Type 0 where
  int : (t sigint).sa_handler ≡ (if removed then sig_dfl else check_sig)
  alrm : (t sigalrm).sa_handler ≡ check_sig
  abrt : (t sigabrt).sa_handler ≡ sig_ign

module _ (known : ℕ → Bool) (k_int : known sigint ≡ true) where
  arrive-killed : (es : List (ℕ × ℕ)) → is_alive (arrive known es killed) ≡ false
  unfolding arrive
  arrive-killed [] = refl
  arrive-killed (e ∷ es) = refl

  -- A choice keeps what is set for the signals, but for the choice of 1.
  choice-Inv :
      (nr : ℕ) (t : Actions) (alarmed : Bool)
      → Inv false t
      → (nr == 4) ≡ false
      → (u : Actions) × (b : Bool) × (choice known nr t alarmed ≡ alive u b) × Inv (nr == 1) u
  unfolding choice signal_del
  choice-Inv nr t alarmed i n = elim (Bool-cases (nr == 1)) [
    | inl e ↦ (
      (signal_del known sigint t).1,
      alarmed,
      rw e refl,
      rw e (record { int = rw k_int refl; alrm = rw k_int i.alrm; abrt = rw k_int i.abrt }),
    )
    | inr e ↦ elim (Bool-cases (nr == 2)) [
      | inl f ↦ (t, alarmed, rw (e, f) refl, rw e i)
      | inr f ↦ elim (Bool-cases (nr == 3)) [
        | inl g ↦ (t, true, rw (e, f, g) refl, rw e i)
        | inr g ↦ (t, alarmed, rw (e, f, g, n) refl, rw e i)
      ]
    ]
  ]

  choice-four :
      (nr : ℕ) (t : Actions) (alarmed : Bool)
      → (nr == 4) ≡ true
      → choice known nr t alarmed ≡ killed
  unfolding choice
  choice-four nr t alarmed e =
      ap (λ n. choice known n t alarmed) {x = nr} {y = 4} ((==_iff nr 4).0 e)

  arrive-survives :
      (es : List (ℕ × ℕ)) (removed : Bool) (t : Actions) (alarmed : Bool)
      → AllSet es
      → Inv removed t
      → is_alive (arrive known es (alive t alarmed)) ≡ survives removed es
  unfolding arrive deliver run_check_sig
  arrive-survives [] removed t alarmed h i = refl
  arrive-survives ((signr, nr) ∷ es) removed t alarmed (inr (inl e), h) i =
      rw (e, i.alrm) (arrive-killed es)
  arrive-survives ((signr, nr) ∷ es) removed t alarmed (inr (inr e), h) i =
      rw (e, i.abrt) (arrive-survives es removed t alarmed h i)
  arrive-survives ((signr, nr) ∷ es) true t alarmed (inl e, h) i = rw (e, i.int) (arrive-killed es)
  arrive-survives ((signr, nr) ∷ es) false t alarmed (inl e, h) i = elim (Bool-cases (nr == 4)) [
    | inl four ↦ rw (e, i.int, choice-four nr t alarmed four, four) (arrive-killed es)
    | inr other ↦
        let (u, b, c, j) = choice-Inv nr t alarmed i other in
        rw (e, i.int, other, c) (arrive-survives es (nr == 1) u b h j)
  ]

-- Where sigaction works for the signals, and whatever was set before: the process is alive after any
-- signals of the three, and any numbers typed, exactly if no SIGALRM was among them, 4 was not chosen
-- at a SIGINT, and no SIGINT came behind one at which 1 was chosen.
pub sig_main-survives :
    (known : ℕ → Bool) (t : Actions) (es : List (ℕ × ℕ))
    → known sigint ≡ true
    → known sigalrm ≡ true
    → known sigabrt ≡ true
    → AllSet es
    → is_alive (sig_main known t es) ≡ survives false es
unfolding sig_main install my_signal signal_add
sig_main-survives known t es a b c h =
    arrive-survives known a es false (install known t) false h (record {
      int = rw (a, b, c, install) refl;
      alrm = rw (a, b, c, install) refl;
      abrt = rw (a, b, c, install) refl;
    })
