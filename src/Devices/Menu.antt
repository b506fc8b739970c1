-- ===== src/Devices/Menu.antt =====
-- The menu ends.
use linux_unix_development.Common.{
  ℕ, zero, suc, ◌+◌, ◌-◌, ◌≡◌, refl, inl, inr, Bool, true, false, Bool-cases, Option-cases, List,
  [], ◌∷◌, ◌++◌, ◌==◌, if◌then◌else◌, Outcome, exit, Guarded, Guarded-bind,
}
use linux_unix_development.Devices.{
  Drive, full, eject, State, open_tray, read_entry, content_loop, content_cdrom, play_cdrom, choose,
  menu_loop,
}

module _ (d : Drive) where
  abbrev pub Any : {A : Type 0} → A → Type 0
  Any a = Unit

  if-Guarded :
      (b : Bool) (x y : Outcome (State d))
      → Guarded Any x
      → Guarded Any y
      → Guarded Any (if b then x else y)
  if-Guarded true x y h k = h
  if-Guarded false x y h k = k

  read_entry-Guarded : (dev : d.Dev) (t : ℕ) → Guarded Any (read_entry d dev t)
  unfolding read_entry
  read_entry-Guarded dev t = elim (Option-cases (d.entry dev t)) [
    | inl e ↦ simp e tt
    | inr (x, e) ↦ simp e tt
  ]

  open_tray-Guarded : (s : State d) → Guarded Any (open_tray d s)
  unfolding open_tray
  open_tray-Guarded s = if-Guarded (d.command eject s.dev).0 _ (exit 1) tt tt

  play_cdrom-Guarded : (flag : ℕ) (s : State d) → Guarded Any (play_cdrom d flag s)
  unfolding play_cdrom
  play_cdrom-Guarded flag s = Guarded-bind Any Any _ _ (read_entry-Guarded s.dev _) λ first _.
      Guarded-bind Any Any _ _ (read_entry-Guarded s.dev _)
        λ last _. if-Guarded (d.play s.dev first.addr last.addr).0 _ (exit 1) tt tt

  content_loop-Guarded : (n track : ℕ) (s : State d) → Guarded Any (content_loop d n track s)
  unfolding content_loop
  content_loop-Guarded zero track s = tt
  content_loop-Guarded (suc n) track s =
      Guarded-bind Any Any _ _ (read_entry-Guarded s.dev track)
        λ e _. content_loop-Guarded n (track + 1) _

  content_cdrom-Guarded : (s : State d) → Guarded Any (content_cdrom d s)
  unfolding content_cdrom
  content_cdrom-Guarded s = elim (Option-cases (d.header s.dev)) [
    | inl e ↦ simp e tt
    | inr ((trk0, trk1), e) ↦ simp e (content_loop-Guarded (trk1 + 1 - trk0) trk0 _)
  ]

  choose-Guarded : (select track : ℕ) (s : State d) → Guarded Any (choose d select track s)
  unfolding choose
  choose-Guarded select track s = if-Guarded (select == 1) _ _ (open_tray-Guarded s) (
      if-Guarded (select == 2) _ _ tt (
        if-Guarded (select == 3) _ _ tt (
          if-Guarded (select == 4) _ _ (play_cdrom-Guarded full s) (
            if-Guarded (select == 5) _ _ (play_cdrom-Guarded track s) (
              if-Guarded (select == 6) _ _ tt (
                if-Guarded (select == 7) _ _ tt (
                  if-Guarded (select == 8) _ _ tt (
                    if-Guarded (select == 9) _ _ tt (
                      if-Guarded (select == 10) _ _ (content_cdrom-Guarded s)
                        (if-Guarded (select == 11) _ _ tt tt))))))))))

  -- The program has left its loop.
  abbrev HasLeft : Bool × State d → Type 0
  HasLeft (left, s) = left ≡ true

  -- Whatever is chosen before, and whatever the drive answers: once 11 is chosen the program has left
  -- its loop, or it ended before that.
  menu_loop-HasLeft :
      (is : List (ℕ × ℕ)) (track : ℕ) (s : State d)
      → Guarded HasLeft (menu_loop d (is ++ ((11, track) ∷ [])) s)
  unfolding menu_loop
  menu_loop-HasLeft [] track s =
      Guarded-bind Any HasLeft (choose d 11 track s) _ (choose-Guarded 11 track s) λ t _. refl
  menu_loop-HasLeft ((select, x) ∷ is) track s =
      Guarded-bind Any HasLeft (choose d select x s) _ (choose-Guarded select x s) λ t _.
        elim (Bool-cases (select == 11)) [
          | inl e ↦ rw e refl
          | inr e ↦ rw e (menu_loop-HasLeft is track t)
        ]
