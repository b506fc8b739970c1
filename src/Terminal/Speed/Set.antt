-- ===== src/Terminal/Speed/Set.antt =====
-- setbaud.c on a terminal whose calls succeed.
use linux_unix_development.Common.{ℕ, ◌≡◌, refl, ap, ◌∙◌, inl, inr, true, some, ok}
use linux_unix_development.Terminal.Speed.{
  values, baudrate_wert, Tty, speeds, attributes, setbaud_main,
}
use linux_unix_development.Terminal.Speed.Lookup.{Listed, IsSpeed, baudrate_wert-Listed}

-- Documented behaviour: a speed that is set is the one that is read, the other is kept, and a
-- terminal has the attributes that it was given.
pub record IsTty (t : Tty) : Type 0 where
  pub input : (a b : t.Attr) (s : ℕ) → t.cfsetispeed a s ≡ some b → t.ispeed b ≡ s
  pub output :
      (a b : t.Attr) (s : ℕ)
      → t.cfsetospeed a s ≡ some b
      → (t.ospeed b ≡ s) × (t.ispeed b ≡ t.ispeed a)
  pub given : (d e : t.Dev) (a : t.Attr) → t.tcsetattr d a ≡ some e → t.tcgetattr e ≡ some a

-- A terminal that can be opened and set, with speeds that the table lists.
pub record Works (t : Tty) (speed : ℕ → ℕ) : Type 0 where
  pub dev : t.Dev
  pub attr : t.Attr
  pub input : ℕ
  pub output : ℕ
  pub opens : t.open_path ≡ some dev
  pub is_tty : t.isatty dev ≡ true
  pub has_attr : t.tcgetattr dev ≡ some attr
  pub input_listed : (t.ispeed attr ≡ speed input) × Listed input values
  pub output_listed : (t.ospeed attr ≡ speed output) × Listed output values
  pub sets_input : (a : t.Attr) → (b : t.Attr) × (t.cfsetispeed a (speed 115200) ≡ some b)
  pub sets_output : (a : t.Attr) → (b : t.Attr) × (t.cfsetospeed a (speed 115200) ≡ some b)
  pub sets : (d : t.Dev) (a : t.Attr) → (e : t.Dev) × (t.tcsetattr d a ≡ some e)

fastest-Listed : Listed 115200 values
unfolding values
fastest-Listed = inr (
    inr (
      inr (
        inr (
          inr (inr (inr (inr (inr (inr (inr (inr (inr (inr (inr (inr (inr (inl refl)))))))))))))))))

module _ (t : Tty) (speed : ℕ → ℕ) (h : IsSpeed speed) where
  speeds-Listed :
      (a : t.Attr) (i o : ℕ)
      → (t.ispeed a ≡ speed i) × Listed i values
      → (t.ospeed a ≡ speed o) × Listed o values
      → speeds t speed a ≡ ok (i, o)
  unfolding speeds
  speeds-Listed a i o x y = rw (
    ap (baudrate_wert speed) x.0 ∙ baudrate_wert-Listed speed i h x.1,
    ap (baudrate_wert speed) y.0 ∙ baudrate_wert-Listed speed o h y.1,
  )

  -- With one argument, a terminal on which all calls succeed and whose speeds the table lists, setbaud
  -- shows these speeds and then 115200 for both, and leaves the terminal with both set.
  pub setbaud_main-works :
      IsTty t
      → (k : Works t speed)
      → (d : t.Dev) × (a : t.Attr) × (setbaud_main t speed 2
          ≡ ok ((k.input, k.output), (115200, 115200), d))
        × (t.tcgetattr d ≡ some a)
        × (t.ispeed a ≡ speed 115200)
        × (t.ospeed a ≡ speed 115200)
  unfolding setbaud_main attributes speeds
  setbaud_main-works l k =
      let (b, eb) = k.sets_input k.attr in
      let (c, ec) = k.sets_output b in
      let (d, ed) = k.sets k.dev c in
      let given = l.given k.dev d c ed in
      let (out, kept) = l.output b c (speed 115200) ec in
      let inp = kept ∙ l.input k.attr b (speed 115200) eb in
      let first = speeds-Listed k.attr k.input k.output k.input_listed k.output_listed in
      let second = speeds-Listed c 115200 115200 (inp, fastest-Listed) (out, fastest-Listed) in
      (d, c, rw (k.opens, k.is_tty, k.has_attr, first, eb, ec, ed, given, second), given, inp, out)
