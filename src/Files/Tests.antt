-- ===== src/Files/Tests.antt =====
-- A copied file and a file printed from its end.
use linux_unix_development.Common.{
  ℕ, List, Option, length, Bool, true, ◌∷◌, ◌⊎◌, ◌≡◌, refl, none, some, [], take, ok, arith, ◌==◌,
  if◌then◌else◌, false,
}
use linux_unix_development.Common.Bytes.{codes}
use linux_unix_development.System.Writer.{Delivered}
use linux_unix_development.System.Chunked.{chunked, received, chunked-IsWriter, chunked-IsReliable}
use linux_unix_development.System.Plain.{threes, threes-IsReader, threes-NeverFails}
use linux_unix_development.Files.Backward.{bwread, no_message}
use linux_unix_development.Files.Backward.Reversed.{
  ended, has_newline, drop_newline, bwread-reverse,
}
use linux_unix_development.Files.Copy.{write2, Copied, copied, copy_main}
use linux_unix_development.Files.Copy.Content.{write2-Delivered, copy_main-content}
use linux_unix_development.Files.Dup
use linux_unix_development.Files.Dup.Shared.{Ready, Leaves, dup_fd_main-Leaves}
use linux_unix_development.Files.Dup.{put_bytes}
use linux_unix_development.Files.Trash
use linux_unix_development.Files.Trash.Complete.{Steps, Ended, Reach-complete}
use linux_unix_development.Files.Walk
use linux_unix_development.Files.Walk.Tree.{below}

write2-Delivered_example :
    Delivered chunked received [] (take 4 (codes "hello")) (write2 chunked [] (codes "hello") 4)
write2-Delivered_example = write2-Delivered chunked-IsWriter [] (codes "hello") 4 (omega arith)

copy_main-content_example :
    (v : Copied threes chunked) × (copy_main threes chunked 9 3 (some (codes "hello")) (some [])
      ≡ ok (copied v))
    × (v.target ≡ codes "hello")
copy_main-content_example =
    copy_main-content threes-IsReader chunked-IsWriter chunked-IsReliable threes-NeverFails 9 3
      (codes "hello") [] (omega arith) (omega arith)

-- file1 is longer than what main writes, file2 is new.
abbrev before : Dup.State
before = record {
  fds = λ fd. if fd == 1 then some Dup.stdout else (if fd == 2 then some Dup.stderr else none);
  bytes = λ f. if f == Dup.file1 then codes "was here before, with more" else [];
  offset = λ f. 0;
}

-- stderr is the same open file as stdout.
abbrev on_terminal : Dup.State
on_terminal = record before {
  fds = λ fd. if fd == 1 then some Dup.stdout else (if fd == 2 then some Dup.stdout else none);
}

on_terminal-Ready : Ready true 3 4 on_terminal
on_terminal-Ready = record {
  out = refl;
  err = refl;
  fd1_new = (omega arith, omega arith);
  fd2_new = (omega arith, omega arith);
  apart = omega arith;
}

-- A disk with room.
abbrev takes_all : ℕ → List ℕ → Option ℕ
takes_all f x = some (length x)

dup_fd_main-Leaves_example :
    ((Dup.dup_fd_main takes_all (some 3) (some 4) (some 3) on_terminal).0 ≡ 0)
    × Leaves true on_terminal (Dup.dup_fd_main takes_all (some 3) (some 4) (some 3) on_terminal).1
dup_fd_main-Leaves_example =
    dup_fd_main-Leaves takes_all (λ f x. refl) true 3 4 3 on_terminal on_terminal-Ready

abbrev tree : List ℕ → List (List ℕ × Walk.Flag) × Bool
tree root = (
  (root, Walk.ftw_d) ∷ below root ((codes "a", Walk.ftw_d) ∷ (codes "a/b", Walk.ftw_f) ∷ []),
  true,
)

-- The parent has written once, the child not yet.
abbrev once : Trash.State
once = record Trash.start {
  parent = Trash.looping (Trash.at_out 9);
  file = put_bytes 0 (b'x' ∷ []) [];
  offset = 1;
}

once-Reach : Trash.Reach once
unfolding Trash.parent_step Trash.loop_step
once-Reach = Trash.parent Trash.begin refl

Reach-complete_example :
    Steps (Trash.parent_step once) ⊎ (Steps (Trash.child_step once) ⊎ Ended once)
Reach-complete_example = Reach-complete once once-Reach

bwread-reverse_example :
    bwread (codes "ab\nc\n") (λ p. false)
    ≡ (ended (has_newline (codes "\nc\nba")) (drop_newline (codes "\nc\nba")), no_message)
bwread-reverse_example = bwread-reverse (λ p. false) (λ p. refl) (codes "ab\nc\n") (omega arith)
