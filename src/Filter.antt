-- ===== src/Filter.antt =====
-- 09_IPC/filter.c: every word of stdin that holds one of the filter words is replaced by crosses.
pub mod Occurrence
pub mod Clean
pub mod Unchanged
mod Tests
use linux_unix_development.Common.{
  ℕ, zero, suc, Bool, true, false, ◌&&◌, ◌||◌, List, [], ◌∷◌, ◌++◌, ◌==◌, if◌then◌else◌, length,
  replicate, Outcome, ok, out_of_fuel, ◌>>=◌,
}
use linux_unix_development.Common.Bytes.{codes, c_string}
use linux_unix_development.Common.Strings.{line}

-- filterwords, up to the NULL behind the last.
abbrev pub filterwords : List (List ℕ)
filterwords = codes "undo" ∷ codes "oder" ∷ codes "aber" ∷ codes "ein" ∷ []

-- The words that strtok gives, where `word` is the one that is read.
pub tokens_from : (word : List ℕ) → List ℕ → List (List ℕ)
tokens_from [] [] = []
tokens_from (w ∷ ws) [] = (w ∷ ws) ∷ []
tokens_from [] (c ∷ cs) = tokens_from (if c == 32 then [] else c ∷ []) cs
tokens_from (w ∷ ws) (c ∷ cs) =
    let more = tokens_from ((w ∷ ws) ++ (c ∷ [])) cs in
    let next = (w ∷ ws) ∷ tokens_from [] cs in if c == 32 then next else more

abbrev pub is_prefix : List ℕ → List ℕ → Bool
is_prefix [] p = true
is_prefix (a ∷ f) [] = false
is_prefix (a ∷ f) (c ∷ p) = a == c && is_prefix f p

-- strstr(p, f) != NULL
pub strstr : List ℕ → List ℕ → Bool
strstr [] f = is_prefix f []
strstr (c ∷ p) f = is_prefix f (c ∷ p) || strstr p f

-- The inner loop over the filter words: what is printed, and `merker`. `tmp` has 20 bytes, and no
-- filter word is that long.
pub mask : (p : List ℕ) → List (List ℕ) → List ℕ × Bool
mask p [] = ([], false)
mask p (f ∷ fs) =
    let (out, merker) = mask p fs in
    if strstr p f then (replicate (length f) b'x' ++ (32 ∷ out), true) else (out, merker)

-- The round for one word.
pub put_word : List ℕ → List ℕ
put_word p = let (out, merker) = mask p filterwords in if merker then out else p ++ (32 ∷ [])

pub put_words : List (List ℕ) → List ℕ
put_words [] = []
put_words (p ∷ ps) = put_word p ++ put_words ps

-- output, on the string in `puffer`.
pub output : List ℕ → List ℕ
output puffer = put_words (tokens_from [] puffer)

-- main: what is printed. One unit of fuel for each byte is enough.
pub filter_main : ℕ → List ℕ → Outcome (List ℕ)
filter_main zero input = out_of_fuel
filter_main (suc fuel) [] = ok []
filter_main (suc fuel) (c ∷ cs) =
    let (x, rest) = line 254 (c ∷ cs) in
    filter_main fuel rest >>= λ more. ok (output (c_string x) ++ more)
