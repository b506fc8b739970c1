-- ===== src/Terminal/Tests.antt =====
-- A terminal whose speeds are 9600, with the speeds themselves as constants.
use linux_unix_development.Common.{ℕ, ◌≡◌, refl, sym, inl, inr, true, some, ok, ap, arith}
use linux_unix_development.Terminal.Speed.{values, baudrate_wert, Tty}
use linux_unix_development.Terminal.Speed.Lookup.{Listed, IsSpeed, Unlisted, baudrate_wert-Listed}
use linux_unix_development.Terminal.Speed.Set.{IsTty, Works}

abbrev speed : ℕ → ℕ
speed i = i

speed-IsSpeed : IsSpeed speed
speed-IsSpeed i j e = e

usual-Listed : Listed 9600 values
unfolding values
usual-Listed =
    inr (inr (inr (inr (inr (inr (inr (inr (inr (inr (inr (inr (inr (inl refl)))))))))))))

baudrate_wert-Listed_example : baudrate_wert speed (speed 9600) ≡ ok 9600
baudrate_wert-Listed_example = baudrate_wert-Listed speed 9600 speed-IsSpeed usual-Listed

unlisted : Unlisted speed 7 values
unfolding values
unlisted = omega arith

abbrev tty : Tty
tty = record {
  Dev = ℕ × ℕ;
  Attr = ℕ × ℕ;
  open_path = some (9600, 9600);
  isatty = λ d. true;
  tcgetattr = λ d. some d;
  tcsetattr = λ d a. some a;
  ispeed = λ a. a.0;
  ospeed = λ a. a.1;
  cfsetispeed = λ a s. some (s, a.1);
  cfsetospeed = λ a s. some (a.0, s);
}

some-inj : {A : Type 0} {a b : A} → some a ≡ some b → a ≡ b
some-inj e = cc

tty-IsTty : IsTty tty
tty-IsTty = record {
  input = λ a b s e. ap (λ x. x.0) (some-inj (sym e));
  output = λ a b s e. (ap (λ x. x.1) (some-inj (sym e)), ap (λ x. x.0) (some-inj (sym e)));
  given = λ d e a h. ap (λ x. some x) (some-inj (sym h));
}

abbrev tty_works : Works tty speed
tty_works = record {
  dev = (9600, 9600);
  attr = (9600, 9600);
  input = 9600;
  output = 9600;
  opens = refl;
  is_tty = refl;
  has_attr = refl;
  input_listed = (refl, usual-Listed);
  output_listed = (refl, usual-Listed);
  sets_input = λ a. ((115200, a.1), refl);
  sets_output = λ a. ((a.0, 115200), refl);
  sets = λ d a. (a, refl);
}
