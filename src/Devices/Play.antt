-- ===== src/Devices/Play.antt =====
-- Playing tracks of a disc.
use linux_unix_development.Common.{
  ℕ, ◌+◌, ◌≤◌, ◌<◌, ◌≡◌, true, false, none, some, ◌==◌, Outcome, ok, exit, arith,
}
use linux_unix_development.Devices.{Msf, Entry, leadout, full, Drive, State, read_entry, play_cdrom}

-- A disc with the tracks 1 to `n` and a lead-out; other tracks are refused.
pub record IsDisc (d : Drive) (dev : d.Dev) (n : ℕ) (toc : ℕ → Entry) : Type 0 where
  pub tracks : (t : ℕ) → 1 ≤ t → t ≤ n → d.entry dev t ≡ some (toc t)
  pub lead : d.entry dev leadout ≡ some (toc leadout)
  pub others : (t : ℕ) → n < t → t < leadout → d.entry dev t ≡ none

-- A drive that plays from one address to another.
abbrev pub Played : (d : Drive) (s : State d) → Msf → Msf → Outcome (State d) → Type 0
Played d s from to o = o ≡ ok (record s { dev = (d.play s.dev from to).1 })

-- On a disc with the tracks 1 to n, where the drive plays what it is told: the whole disc is played
-- from the start of track 1 to the lead-out, and a track `t` before the last from its start to that
-- of the next one. The last track does not play by itself: the program asks for a track behind it
-- and ends.
pub play_cdrom-IsDisc :
    (d : Drive) (s : State d) (n t : ℕ) (toc : ℕ → Entry)
    → IsDisc d s.dev n toc
    → n < 169
    → 1 ≤ t
    → t < n
    → ((from to : Msf) → (d.play s.dev from to).0 ≡ true)
    → Played d s (toc 1).addr (toc leadout).addr (play_cdrom d full s)
      × Played d s (toc t).addr (toc (t + 1)).addr (play_cdrom d t s)
      × (play_cdrom d n s ≡ exit 1)
unfolding play_cdrom read_entry
play_cdrom-IsDisc d s n t toc i q a b works = (
  rw (i.tracks 1 (omega arith) (omega arith), i.lead, works (toc 1).addr (toc leadout).addr),
  rw (
    (let z : (t == full) ≡ false = ground arith in z),
    i.tracks t a (omega arith),
    i.tracks (t + 1) (omega arith) (omega arith),
    works (toc t).addr (toc (t + 1)).addr,
  ),
  rw (
    (let z : (n == full) ≡ false = ground arith in z),
    i.tracks n (omega arith) (omega arith),
    i.others (n + 1) (omega arith) (omega arith),
  ),
)
