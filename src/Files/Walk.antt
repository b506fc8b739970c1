-- ===== src/Files/Walk.antt =====
-- 02_Files/ftwalk.c: a directory as a tree.
pub mod Depth
pub mod Tree
use linux_unix_development.Common.{
  ℕ, zero, suc, ◌-◌, Bool, true, false, Option, none, some, List, [], ◌∷◌, ◌++◌, ◌==◌,
  if◌then◌else◌, length, replicate, read_out_of_bounds, Outcome, ok, fault, out_of_fuel, ◌>>=◌,
}
use linux_unix_development.Common.Bytes.{codes}

-- strchr on a string, here without its NUL: from the first such byte on.
pub strchr : List ℕ → ℕ → Option (List ℕ)
strchr [] c = none
strchr (d ∷ cs) c = let later = strchr cs c in if d == c then some (d ∷ cs) else later

-- A round of dir_deep behind strchr; `next` is the rest of the loop.
abbrev pub deep_round : (next : List ℕ → ℕ → Outcome ℕ) → ℕ → Option (List ℕ) → Outcome ℕ
deep_round next deep none = ok deep
deep_round next deep (some []) = ok deep
deep_round next deep (some (c ∷ ptr)) = next ptr (suc deep)

-- The loop of dir_deep. A round passes at least one byte.
pub deep_loop : (fuel : ℕ) → (ptr : List ℕ) → (deep : ℕ) → Outcome ℕ
deep_loop zero ptr deep = out_of_fuel
deep_loop (suc fuel) ptr deep = deep_round (deep_loop fuel) deep (strchr ptr b'/')

pub dir_deep : List ℕ → Outcome ℕ
dir_deep pfad = deep_loop (suc (length pfad)) pfad 0

-- What ftw says of an entry.
pub data Flag : Type 0 where
  ftw_f ftw_d ftw_dnr ftw_other : Flag

pub ending : Flag → List ℕ
ending ftw_f = codes "]\n"
ending ftw_d = codes "/]\n"
ending ftw_dnr = codes "/-]\n"
ending ftw_other = codes "???]\n"

-- The static variables of fn, and what is printed.
pub record State : Type 0 where
  pub first : Bool
  pub deep : ℕ
  pub out : List ℕ

-- printf("%2s|", pfadname)
pub bar : List ℕ → List ℕ
bar pfad = replicate (2 - length pfad) 32 ++ (pfad ++ codes "|")

-- The loop that prints them.
pub bars : ℕ → List ℕ → List ℕ
bars zero pfad = []
bars (suc n) pfad = bar pfad ++ bars n pfad

-- strchr(pfadname, '/') + 1, which is no string where there is no '/'.
pub behind_slash : Option (List ℕ) → Outcome (List ℕ)
behind_slash none = fault read_out_of_bounds
behind_slash (some []) = fault read_out_of_bounds
behind_slash (some (c ∷ cs)) = ok cs

-- fn; it always returns 0. The first path is the root of the tree. The difference of the depths is a number
-- with sign in the source; below 0 the loop ends at once, as for 0.
pub fn : List ℕ × Flag → State → Outcome State
fn (pfad, flag) s = if s.first then at_root else below
  where
    at_root : Outcome State
    at_root = dir_deep pfad >>= λ deep.
        ok (record {
          first = false;
          deep = deep;
          out = s.out ++ (codes "[" ++ (pfad ++ ending flag));
        })

    below : Outcome State
    below = dir_deep pfad >>= λ d. behind_slash (strchr pfad b'/') >>= λ name. ok (record s {
      out = s.out ++ (bars (d - s.deep) pfad ++ (codes "---[" ++ (name ++ ending flag)));
    })

-- ftw on the entries that it finds.
pub ftw : List (List ℕ × Flag) → State → Outcome State
ftw [] s = ok s
ftw (e ∷ es) s = fn e s >>= ftw es

-- main: what is printed. `tree` is what ftw finds for a path, and whether it returns 0.
pub ftw_main :
    (tree : List ℕ → List (List ℕ × Flag) × Bool) → (argv : List (List ℕ)) → Outcome (List ℕ)
ftw_main tree argv = walked (tree (root argv))
  where
    root : List (List ℕ) → List ℕ
    root [] = codes "."
    root (name ∷ []) = codes "."
    root (name ∷ path ∷ more) = path

    walked : List (List ℕ × Flag) × Bool → Outcome (List ℕ)
    walked (entries, works) = ftw entries (record { first = true; deep = 0; out = [] }) >>= λ s.
        ok (if works then s.out else s.out ++ codes "Fehler bei ftw() ...!\n")
