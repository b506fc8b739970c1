-- ===== src/Terminal/Getch/Quits.antt =====
-- my_getch.c ends at a 'q'.
use linux_unix_development.Common.{
  ℕ, zero, suc, ◌<◌, ◌≡◌, ◌≢◌, refl, ap, ◌∙◌, Bool, true, false, Option, some, List, [], ◌∷◌, ◌++◌,
  append_assoc, ◌==◌, ok, arith,
}
use linux_unix_development.Terminal.Attributes.{Attributes}
use linux_unix_development.Terminal.Getch.{State, Typed, getch, behind_getch, ended, getch_main}

-- A key for each call of getch, which is no 'q', and what was typed before the call.
abbrev pub NoQ : List (List ℕ × ℕ) → Type 0
NoQ [] = Unit
NoQ ((x, c) ∷ ks) = (c ≢ b'q') × NoQ ks

-- One key arrives while getch reads.
abbrev pub key_events : List (List ℕ × ℕ) → List Typed
key_events [] = []
key_events ((x, c) ∷ ks) = (x, c ∷ []) ∷ key_events ks

-- The lines for characters that are not 'q'.
abbrev pub others : List (List ℕ × ℕ) → List (Option ℕ × Bool)
others [] = []
others ((x, c) ∷ ks) = (some c, false) ∷ others ks

-- The state behind a key: no character is left.
abbrev at : Attributes → List (Option ℕ × Bool) → State
at a o = record { tty = a; queue = []; stdio = []; at_end = false; out = o }

getch-key :
    (size c : ℕ) (x q : List ℕ) (a : Attributes) (o : List (Option ℕ × Bool))
    → getch true true true
        (suc size)
        (x, c ∷ [])
        (record { tty = a; queue = q; stdio = []; at_end = false; out = o })
      ≡ ok (some c, at a o)
unfolding getch
getch-key zero c x q a o = refl
getch-key (suc size) c x q a o = refl

other : (c : ℕ) → c ≢ b'q' → (c == b'q') ≡ false
other c h = ground (arith, h)

quits :
    (size : ℕ) (a : Attributes) (q x : List ℕ) (ks : List (List ℕ × ℕ)) (more : List Typed)
    (o : List (Option ℕ × Bool))
    → NoQ ks
    → getch_main true true true
        (suc size)
        (key_events ks ++ ((x, b'q' ∷ []) ∷ more))
        (record { tty = a; queue = q; stdio = []; at_end = false; out = o })
      ≡ ok (ended (at a (o ++ (others ks ++ ((some b'q', true) ∷ [])))))
unfolding getch_main behind_getch
quits size a q x [] more o h = rw (getch-key size b'q' x q a o) refl
quits size a q x ((y, c) ∷ ks) more o h =
    rw (getch-key size c y q a o, other c h.0)
      (quits size a [] x ks more (o ++ ((some c, false) ∷ [])) h.1
        ∙ ap (λ z. ok (ended (at a z)))
            (append_assoc o ((some c, false) ∷ []) (others ks ++ ((some b'q', true) ∷ []))))

-- Where the calls on the terminal work, stdin has a buffer, which is empty at the start, and has not
-- ended: if while each getch reads one key arrives, and the first 'q' among them comes in the last of
-- these calls, then main prints each key before it as one that is no 'q', then the 'q', ends, and leaves
-- the terminal with the attributes that it had. Whatever is typed before raw sets the attributes in a
-- call, also a 'q', is lost.
pub getch_main-quits :
    (size : ℕ) (s : State) (ks : List (List ℕ × ℕ)) (x : List ℕ) (more : List Typed)
    → 0 < size
    → s.stdio ≡ []
    → s.at_end ≡ false
    → NoQ ks
    → getch_main true true true size (key_events ks ++ ((x, b'q' ∷ []) ∷ more)) s
      ≡ ok (
          ended (record {
            tty = s.tty;
            queue = [];
            stdio = [];
            at_end = false;
            out = s.out ++ (others ks ++ ((some b'q', true) ∷ []));
          }))
getch_main-quits zero s ks x more l b e h = absurd (omega arith)
getch_main-quits (suc size) s ks x more l b e h =
    ap
      (λ y.
        getch_main true true true (suc size) (key_events ks ++ ((x, b'q' ∷ []) ∷ more))
          (record { tty = s.tty; queue = s.queue; stdio = y; at_end = s.at_end; out = s.out }))
      b
    ∙ ap
        (λ z.
          getch_main true true true (suc size) (key_events ks ++ ((x, b'q' ∷ []) ∷ more))
            (record { tty = s.tty; queue = s.queue; stdio = []; at_end = z; out = s.out }))
        e
    ∙ quits size s.tty s.queue x ks more s.out h
