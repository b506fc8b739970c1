-- ===== src/Terminal/Ship.antt =====
-- 13_Terminal/cur10.c and 13_Terminal/cur11.c: a ship that the arrow keys move over stars. The two programs
-- differ in their colours only; of the screen the columns of the stars and of the ship are kept.
pub mod Course
use linux_unix_development.Common.{
  ℕ, zero, suc, ◌+◌, ◌-◌, ◌%◌, Bool, true, false, List, [], ◌∷◌, ◌++◌, ltb, if◌then◌else◌,
}

-- A key that getch gives: 'q', an arrow, or anything else, also no key within the time of halfdelay.
pub data Key : Type 0 where
  quit left right none_of_these : Key

-- The position, where the ship and the stars were drawn, and how often rand was called.
pub record State : Type 0 where
  pub x : ℕ
  pub ship : List ℕ
  pub stars : List ℕ
  pub calls : ℕ

-- The switch.
pub move : Key → ℕ → ℕ
move left x = if ltb x 1 then 79 else x - 1
move right x = if ltb 79 x then 1 else suc x
move quit x = x
move none_of_these x = x

-- What rand gives at each call.
module _ (rand : ℕ → ℕ) where
  -- The loop that draws stars; `i` are left.
  pub draw_stars : (i : ℕ) → State → State
  draw_stars zero s = s
  draw_stars (suc i) s =
      draw_stars i (record s { stars = s.stars ++ ((rand s.calls % 79) ∷ []); calls = suc s.calls })

  -- The body of the loop; the ship is drawn at its new position.
  pub fly : Key → State → State
  fly c s =
      let t = draw_stars 5 s in record t { x = move c t.x; ship = t.ship ++ (move c t.x ∷ []) }

  -- The loop: the state, and whether the program has ended.
  pub ship_loop : List Key → State → State × Bool
  ship_loop [] s = (s, false)
  ship_loop (quit ∷ ks) s = (fly quit s, true)
  ship_loop (left ∷ ks) s = ship_loop ks (fly left s)
  ship_loop (right ∷ ks) s = ship_loop ks (fly right s)
  ship_loop (none_of_these ∷ ks) s = ship_loop ks (fly none_of_these s)

  pub ship_main : List Key → State × Bool
  ship_main ks = ship_loop ks (record { x = 40; ship = []; stars = []; calls = 0 })
