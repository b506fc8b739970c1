-- ===== src/Terminal/Windows/Buttons.antt =====
-- The windows of cur15.c: which there are, and that their buttons work.
use linux_unix_development.Common.{
  sym, ℕ, zero, suc, ◌+◌, ◌≡◌, refl, ap, subst, ◌∙◌, inl, inr, Bool, true, false, Option, none,
  some, List, [], ◌∷◌, Bool-cases, if◌then◌else◌, arith,
}
use linux_unix_development.Common.Bytes.{codes, str_eq}
use linux_unix_development.Terminal.Windows.{
  Size, minsize, maxsize, Window, State, create_new_window, label_small, label_large, open_small,
  open_large, on_m, on_s, toggle, End, over, waits, Key, click, another, goes_on, where_clicked,
  move_win_to, redraw, behind_click, on_key, windows_loop, windows_main, static,
}

abbrev blank : (zeilen spalten begin_y begin_x : ℕ) → Window
blank h w y x = record { zeilen = h; spalten = w; begin_y = y; begin_x = x; texts = [] }

-- The window for a size: a small one stands anywhere, a large one in the corner.
abbrev pub Shape : Size → Window → Type 0
Shape minsize w = w ≡ label_small (blank 10 40 w.begin_y w.begin_x)
Shape maxsize w = w ≡ label_large (blank 24 79 0 0)

-- The size after a number of switches.
unfoldable pub size_after : ℕ → Size
size_after zero = minsize
size_after (suc n) = toggle (size_after n)

-- After `n` clicks, of which `m` have left the size as it was: the window fits to the size, each click
-- has made a window, and the windows that were not deleted are that one and `m` more.
pub record Inv (n m : ℕ) (s : State) : Type 0 where
  pub shape : Shape s.size s.fenster
  pub made : s.made ≡ suc n
  pub left : s.made ≡ suc (s.deleted + m)
  pub switched : s.size ≡ size_after s.deleted

abbrev pub clicks : List Key → ℕ
clicks [] = 0
clicks (click y x ∷ ks) = suc (clicks ks)
clicks (another ∷ ks) = clicks ks

abbrev pub same_size : Size → Size → Bool
same_size minsize minsize = true
same_size minsize maxsize = false
same_size maxsize minsize = false
same_size maxsize maxsize = true

-- 1 where the size stays the same.
abbrev pub stays : State → State → ℕ
stays s t = if same_size s.size t.size then 1 else 0

-- A round with a click, and `next` for the rounds behind it.
abbrev pub counted : State → (next : State → ℕ) → End → ℕ
counted s next (over code) = 0
counted s next (waits t) = stays s t + next t

abbrev pub Holds : (State → Type 0) → End → Type 0
Holds p (over code) = code ≡ 1
Holds p (waits s) = p s

same-toggle : (z : Size) → same_size z (toggle z) ≡ false
same-toggle minsize = refl
same-toggle maxsize = refl

same_refl : (z : Size) → same_size z z ≡ true
same_refl minsize = refl
same_refl maxsize = refl

module _ (moves : Window → (y x : ℕ) → Bool) where
  -- How many clicks leave the size as it is.
  pub idle_clicks : List Key → State → ℕ
  idle_clicks [] s = 0
  idle_clicks (another ∷ ks) s = idle_clicks ks s
  idle_clicks (click y x ∷ ks) s = counted s (idle_clicks ks) (on_key moves (click y x) s)

  redraw-size : (z : Size) (s : State) → (redraw moves z s).size ≡ s.size
  unfolding redraw open_small open_large move_win_to create_new_window
  redraw-size maxsize s = refl
  redraw-size minsize s =
      elim (Bool-cases (moves (label_small (blank 10 40 5 15)) (s.y_click + 1) (s.x_click + 1))) [
        | inl k ↦ rw k refl
        | inr k ↦ rw k refl
      ]

  -- After where_clicked, when the window is not yet made again.
  redraw-Inv :
      (n m : ℕ) (size : Size) (s : State)
      → s.size ≡ size
      → s.made ≡ suc n
      → s.made ≡ s.deleted + m
      → size ≡ size_after s.deleted
      → Inv (suc n) m (redraw moves size s)
  unfolding redraw open_small open_large move_win_to create_new_window
  redraw-Inv n m maxsize s e a l w = record {
    shape = rw e refl;
    made = ap suc a;
    left = ap suc l;
    switched = e ∙ w;
  }
  redraw-Inv n m minsize s e a l w =
      elim (Bool-cases (moves (label_small (blank 10 40 5 15)) (s.y_click + 1) (s.x_click + 1))) [
        | inl k ↦
            rw k (record { shape = rw e refl; made = ap suc a; left = ap suc l; switched = e ∙ w })
        | inr k ↦
            rw k (record { shape = rw e refl; made = ap suc a; left = ap suc l; switched = e ∙ w })
      ]

  redraw-stays :
      (n m d : ℕ) (s t : State)
      → (if same_size s.size t.size then 1 else 0) ≡ d
      → Inv (suc n) (m + d) (redraw moves t.size t)
      → Inv (suc n) (m + stays s (redraw moves t.size t)) (redraw moves t.size t)
  redraw-stays n m d s t e =
      let same : stays s (redraw moves t.size t) ≡ d =
        ap (λ z. if same_size s.size z then 1 else 0) (redraw-size t.size t) ∙ e in
      subst (λ c. Inv (suc n) (m + c) (redraw moves t.size t)) (sym same)

  click-Inv :
      (n m y x : ℕ) (s : State)
      → Inv n m s
      → Holds (λ t. Inv (suc n) (m + stays s t) t) (on_key moves (click y x) s)
  unfolding on_key behind_click where_clicked size_after
  click-Inv n m y x s i = elim (Bool-cases (on_s y x s.fenster)) [
    | inl a ↦ rw a refl
    | inr a ↦ elim (Bool-cases (on_m y x s.fenster)) [
      | inl b ↦
          rw (a, b)
            (redraw-stays n m 0 s _ (rw (same-toggle s.size) refl) (
              redraw-Inv n (m + 0) (toggle s.size) _ refl i.made (omega (arith, i.left))
                (ap toggle i.switched)))
      | inr b ↦
          rw (a, b)
            (redraw-stays n m 1 s _ (rw (same_refl s.size) refl)
              (redraw-Inv n (m + 1) s.size _ refl i.made (omega (arith, i.left)) i.switched))
    ]
  ]

  -- The rounds behind a click.
  further :
      (n m k : ℕ) (s : State) (count : State → ℕ) (next : State → End) (e : End)
      → Holds (λ t. Inv (suc n) (m + stays s t) t) e
      → ((m : ℕ) (t : State) → Inv (suc n) m t → Holds (Inv (suc n + k) (m + count t)) (next t))
      → Holds (Inv (n + suc k) (m + counted s count e)) (goes_on next e)
  further n m k s count next (over code) h f = h
  further n m k s count next (waits t) h f =
      let a : suc n + k ≡ n + suc k = omega arith in
      let b : m + stays s t + count t ≡ m + (stays s t + count t) = omega arith in
      subst (λ v. Holds (Inv (n + suc k) v) (next t)) b
        (subst (λ u. Holds (Inv u (m + stays s t + count t)) (next t)) a (f (m + stays s t) t h))

  windows_loop-Inv :
      (n m : ℕ) (ks : List Key) (s : State)
      → Inv n m s
      → Holds (Inv (n + clicks ks) (m + idle_clicks ks s)) (windows_loop moves ks s)
  unfolding windows_loop on_key idle_clicks
  windows_loop-Inv n m [] s i =
      let a : n ≡ n + 0 = omega arith in
      let b : m ≡ m + 0 = omega arith in subst (λ v. Inv (n + 0) v s) b (subst (λ u. Inv u m s) a i)
  windows_loop-Inv n m (another ∷ ks) s i = windows_loop-Inv n m ks s i
  windows_loop-Inv n m (click y x ∷ ks) s i =
      further n m (clicks ks) s (idle_clicks ks) (windows_loop moves ks)
        (on_key moves (click y x) s) (click-Inv n m y x s i)
        λ m t j. windows_loop-Inv (suc n) m ks t j

  -- Whatever keys are pressed and whether or not windows can be moved: while the program waits, its
  -- window is a small one with the small labels, or the large one in the corner, as `size` says; `size`
  -- has been toggled once for each window that was deleted; each click has made a window; and the windows
  -- that were not deleted are the one that is shown and one more for each click after which the size was
  -- the same as before. If the program ends, it is with exit code 1.
  pub windows_main-Inv :
      (ks : List Key)
      → Holds (Inv (clicks ks) (idle_clicks ks (open_small static))) (windows_main moves ks)
  unfolding windows_main open_small create_new_window size_after
  windows_main-Inv ks =
      let a : 0 + clicks ks ≡ clicks ks = omega arith in
      let c = idle_clicks ks (open_small static) in
      let b : 0 + c ≡ c = omega arith in
      subst (λ v. Holds (Inv (clicks ks) v) (windows_main moves ks)) b
        (subst (λ u. Holds (Inv u (0 + c)) (windows_main moves ks)) a
          (windows_loop-Inv 0 0 ks (open_small static)
            (record { shape = refl; made = refl; left = refl; switched = refl })))

-- Where a text is printed in a window.
pub place_of : List ℕ → List (ℕ × ℕ × List ℕ) → Option (ℕ × ℕ)
place_of text [] = none
place_of text ((y, x, t) ∷ more) =
    let later = place_of text more in if str_eq t text then some (y, x) else later

-- The click on the text at (y, x) of the window.
abbrev pub click_on : Window → (y x : ℕ) → Key
click_on w y x = click (w.begin_y + y) (w.begin_x + x)

module _ (moves : Window → (y x : ℕ) → Bool) where
  abbrev pub Closes : Window → State → Type 0
  Closes w s =
      (y : ℕ) × (x : ℕ) × (place_of (codes "S") w.texts ≡ some (y, x))
      × (on_key moves (click_on w y x) s ≡ over 1)

  abbrev pub Switches : Window → State → Type 0
  Switches w s =
      (y : ℕ) × (x : ℕ) × (place_of (codes "M") w.texts ≡ some (y, x))
      × (t : State) × (on_key moves (click_on w y x) s ≡ waits t)
      × (t.size ≡ toggle s.size)
