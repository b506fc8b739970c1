-- ===== src/Terminal/Ship/Course.antt =====
-- Where the ship of cur10.c and cur11.c can be.
use linux_unix_development.Common.{
  ℕ, zero, suc, ◌+◌, ◌%◌, ◌≤◌, ◌≡◌, refl, ap, inl, inr, List, [], ◌∷◌, ◌++◌, length, length-append,
  ltb, Bool-cases, arith,
}
use linux_unix_development.Terminal.Ship.{
  Key, quit, left, right, none_of_these, State, move, draw_stars, fly, ship_loop, ship_main,
}

-- Every number of a list is at most a bound.
pub Within : ℕ → List ℕ → Type 0
Within b [] = Unit
Within b (x ∷ xs) = (x ≤ b) × Within b xs

Within-snoc : (b : ℕ) (xs : List ℕ) (x : ℕ) → Within b xs → x ≤ b → Within b (xs ++ (x ∷ []))
unfolding Within
Within-snoc b [] x h l = (l, tt)
Within-snoc b (y ∷ xs) x h l = (h.0, Within-snoc b xs x h.1 l)

-- After `n` rounds.
pub record OnScreen (n : ℕ) (s : State) : Type 0 where
  pub now : s.x ≤ 80
  pub course : Within 80 s.ship
  pub rounds : length s.ship ≡ n
  pub columns : Within 78 s.stars
  pub five : length s.stars ≡ n + n + n + n + n

move-bound : (c : Key) (x : ℕ) → x ≤ 80 → move c x ≤ 80
unfolding move
move-bound quit x h = h
move-bound none_of_these x h = h
move-bound left x h = elim (Bool-cases (ltb x 1)) [
  | inl e ↦ rw e (omega arith)
  | inr e ↦ rw e (omega (arith, h))
]
move-bound right x h = elim (Bool-cases (ltb 79 x)) [
  | inl e ↦ rw e (omega arith)
  | inr e ↦ rw e (ground (arith, h))
]

module _ (rand : ℕ → ℕ) where
  record Drawn (i : ℕ) (s t : State) : Type 0 where
    x : t.x ≡ s.x
    ship : t.ship ≡ s.ship
    stars : Within 78 t.stars
    more : length t.stars ≡ length s.stars + i

  draw_stars-Drawn : (i : ℕ) (s : State) → Within 78 s.stars → Drawn i s (draw_stars rand i s)
  unfolding draw_stars
  draw_stars-Drawn zero s h = record { x = refl; ship = refl; stars = h; more = omega arith }
  draw_stars-Drawn (suc i) s h =
      let c = rand s.calls % 79 in
      let d =
        draw_stars-Drawn i (record s { stars = s.stars ++ (c ∷ []); calls = suc s.calls })
          (Within-snoc 78 s.stars c h (omega arith)) in
      record {
        x = d.x;
        ship = d.ship;
        stars = d.stars;
        more = omega (arith, d.more, length-append s.stars (c ∷ []));
      }

  fly-OnScreen : (n : ℕ) (c : Key) (s : State) → OnScreen n s → OnScreen (suc n) (fly rand c s)
  unfolding fly
  fly-OnScreen n c s h =
      let d = draw_stars-Drawn 5 s h.columns in
      let t = draw_stars rand 5 s in
      let new = move-bound c t.x (omega (arith, d.x, h.now)) in
      record {
        now = new;
        course = rw (d.ship) (Within-snoc 80 s.ship (move c t.x) h.course new);
        rounds = omega (arith, ap length d.ship, h.rounds, length-append t.ship (move c t.x ∷ []));
        columns = d.stars;
        five = omega (arith, d.more, h.five);
      }

  ship_loop-OnScreen :
      (ks : List Key) (n : ℕ) (s : State)
      → OnScreen n s
      → (m : ℕ) × OnScreen m (ship_loop rand ks s).0
  unfolding ship_loop
  ship_loop-OnScreen [] n s h = (n, h)
  ship_loop-OnScreen (quit ∷ ks) n s h = (suc n, fly-OnScreen n quit s h)
  ship_loop-OnScreen (left ∷ ks) n s h =
      ship_loop-OnScreen ks (suc n) (fly rand left s) (fly-OnScreen n left s h)
  ship_loop-OnScreen (right ∷ ks) n s h =
      ship_loop-OnScreen ks (suc n) (fly rand right s) (fly-OnScreen n right s h)
  ship_loop-OnScreen (none_of_these ∷ ks) n s h =
      ship_loop-OnScreen ks (suc n) (fly rand none_of_these s) (fly-OnScreen n none_of_these s h)

  -- Whatever keys come and whatever rand gives, and after any number of rounds: the ship is and was drawn at
  -- columns from 0 to 80 only, once in each round, and five stars in each round at columns from 0 to 78.
  pub ship_main-OnScreen : (ks : List Key) → (n : ℕ) × OnScreen n (ship_main rand ks).0
  unfolding ship_main Within
  ship_main-OnScreen ks =
      ship_loop-OnScreen ks 0 _
        (record { now = omega arith; course = tt; rounds = refl; columns = tt; five = omega arith })
