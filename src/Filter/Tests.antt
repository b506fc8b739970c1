-- ===== src/Filter/Tests.antt =====
-- The filter on small texts.
use linux_unix_development.Common.{ℕ, ◌≡◌, refl, ap, inl, inr, false, List, ok, arith}
use linux_unix_development.Common.Bytes.{codes}
use linux_unix_development.Filter.{
  filterwords, tokens_from, strstr, mask, put_word, put_words, output, filter_main,
}
use linux_unix_development.Filter.Occurrence.{Occurs, strstr_iff}
use linux_unix_development.Filter.Clean.{OneOf, filter_main-clean}
use linux_unix_development.Filter.Unchanged.{IsHarmless}

crosses : output (codes "mein wort") ≡ codes "xxx wort "
unfolding output put_words put_word tokens_from mask strstr
crosses = refl

filter_main-clean_example :
    (out : List ℕ) × (filter_main 14 (codes "oder aberein\n") ≡ ok out)
    × ((w : List ℕ) → OneOf w filterwords → Occurs w out → ⊥)
filter_main-clean_example = filter_main-clean (codes "oder aberein\n")

absent : (p w : List ℕ) → strstr p w ≡ false → Occurs w p → ⊥
absent p w e o = let found = (strstr_iff p w).1 o in cc

wort-free : (w : List ℕ) → OneOf w filterwords → Occurs w (codes "wort") → ⊥
unfolding strstr
wort-free w (inl e) o = absent (codes "wort") w (ap (strstr (codes "wort")) e) o
wort-free w (inr (inl e)) o = absent (codes "wort") w (ap (strstr (codes "wort")) e) o
wort-free w (inr (inr (inl e))) o = absent (codes "wort") w (ap (strstr (codes "wort")) e) o
wort-free w (inr (inr (inr (inl e)))) o = absent (codes "wort") w (ap (strstr (codes "wort")) e) o
wort-free w (inr (inr (inr (inr e)))) o = absurd e

wort-IsHarmless : IsHarmless (codes "wort")
wort-IsHarmless = record {
  first = b'w';
  others = codes "ort";
  shape = refl;
  spaceless = omega arith;
  free = wort-free;
}
