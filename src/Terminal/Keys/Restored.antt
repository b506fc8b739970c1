-- ===== src/Terminal/Keys/Restored.antt =====
-- keystroke.c leaves the terminal as it found it.
use linux_unix_development.Common.{
  ℕ, ◌≡◌, refl, ◌⊎◌, inl, inr, Bool, true, false, Option, none, some, List, [], ◌∷◌, ◌++◌, ◌==◌,
  ==_iff, Bool-cases, ap,
}
use linux_unix_development.Terminal.Attributes.{Attributes}
use linux_unix_development.Terminal.Keys.{
  Line, State, single_keys, new_tty, restore_tty, Press, End, over, waits, before_buffer, shown,
  finish, press, keys_loop, after_new_tty, keystroke_main,
}

-- A read behind ESC fails.
abbrev pub FailsAt : Option ℕ → Option (List ℕ) → Type 0
FailsAt c more = (c ≡ some 27) × (more ≡ none)

abbrev pub Fails : List Press → Type 0
Fails [] = ⊥
Fails (k ∷ ks) = FailsAt k.c k.more ⊎ Fails ks

-- At the end the terminal has the attributes `a`; while the program waits it has those for single
-- keys; and it writes before the buffer only where `f` holds.
abbrev pub Leaves : Type 0 → Attributes → End → Type 0
Leaves f a (over code s) = s.tty ≡ a
Leaves f a (waits s) = s.tty ≡ single_keys a
Leaves f a before_buffer = f

Leaves-inr : (f g : Type 0) (a : Attributes) (e : End) → Leaves f a e → Leaves (g ⊎ f) a e
Leaves-inr f g a (over code s) h = h
Leaves-inr f g a (waits s) h = h
Leaves-inr f g a before_buffer h = inr h

module _ (a : Attributes) (f : Type 0) (next : State → End) where
  abbrev Continues : Type 0
  Continues = (t : State) → t.tty ≡ single_keys a → Leaves f a (next t)

  finish-Leaves :
      (g : Type 0) (c : ℕ) (lines : Option (List Line)) (s : State)
      → Continues
      → s.tty ≡ single_keys a
      → (lines ≡ none → g)
      → Leaves (g ⊎ f) a (finish true a next c lines s)
  unfolding finish restore_tty
  finish-Leaves g c none s h e k = inl (k refl)
  finish-Leaves g c (some lines) s h e k = elim (Bool-cases (c == b'q')) [
    | inl q ↦ rw q refl
    | inr q ↦
        let t : State = record s { out = s.out ++ lines } in
        rw q (Leaves-inr f g a (next t) (h t e))
  ]

  shown-none : (c : ℕ) (more : Option (List ℕ)) → shown c more ≡ none → FailsAt (some c) more
  unfolding shown
  shown-none c none h = elim (Bool-cases (c == 27)) [
    | inl e ↦ (ap (λ n. some n) ((==_iff c 27).0 e), refl)
    | inr e ↦ absurd (let h' = rw e at h in cc)
  ]
  shown-none c (some m) h = elim (Bool-cases (c == 27)) [
    | inl e ↦ absurd (let h' = rw e at h in cc)
    | inr e ↦ absurd (let h' = rw e at h in cc)
  ]

  press-Leaves :
      (c : Option ℕ) (more : Option (List ℕ)) (s : State)
      → Continues
      → s.tty ≡ single_keys a
      → Leaves (FailsAt c more ⊎ f) a (press true a next c more s)
  unfolding press restore_tty
  press-Leaves none more s h e = refl
  press-Leaves (some c) more s h e =
      finish-Leaves (FailsAt (some c) more) c (shown c more) s h e (shown-none c more)

keys_loop-Leaves :
    (a : Attributes) (ks : List Press) (s : State)
    → s.tty ≡ single_keys a
    → Leaves (Fails ks) a (keys_loop true a ks s)
unfolding keys_loop
keys_loop-Leaves a [] s e = e
keys_loop-Leaves a (k ∷ ks) s e =
    press-Leaves a (Fails ks) (keys_loop true a ks) k.c k.more s (keys_loop-Leaves a ks) e

-- Where the last tcsetattr works: whatever keys are pressed and whatever the other calls give, the
-- terminal has at the end of main, with either exit code, the attributes that it had at the start;
-- while main waits for a key, echo, lines and signals are off, VMIN is 1 and all else is as before; and main
-- writes before the start of its buffer only if a read behind ESC fails.
pub keystroke_main-restores :
    (gets sets : Bool) (ks : List Press) (s : State)
    → Leaves (Fails ks) s.tty (keystroke_main gets sets true ks s)
unfolding keystroke_main new_tty after_new_tty
keystroke_main-restores false sets ks s = refl
keystroke_main-restores true false ks s = refl
keystroke_main-restores true true ks s =
    keys_loop-Leaves s.tty ks (record s { tty = single_keys s.tty }) refl
