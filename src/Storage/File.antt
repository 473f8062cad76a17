-- ===== src/Storage/File.antt =====
-- include/streamforge/FileHandle.hpp: an open file is the list of its bytes. The operating system
-- decides what becomes of a write: all of it, or a failure that leaves some first bytes behind.
-- Opening and truncating a file are taken to succeed.
use stream_forge.Base.{
  ℕ, ◌+◌, ◌≤◌, ◌<◌, ◌≡◌, Bool, true, false, List, ◌++◌, Option, none, some, arith, ltb,
  if◌then◌else◌, length, take, drop, drop-length_append, length-append,
}

pub data WriteOutcome : Type 0 where
  written : WriteOutcome
  failed : ℕ → WriteOutcome

-- The file after a write at its end, and whether every byte was written.
abbrev pub write : List ℕ → List ℕ → WriteOutcome → List ℕ × Bool
write file bytes written = (file ++ bytes, true)
write file bytes (failed n) = (file ++ take n bytes, false)

-- A read succeeds if all the bytes asked for are there.
unfoldable pub read_at : List ℕ → ℕ → ℕ → Option (List ℕ)
read_at file i n = if ltb (length file) (i + n) then none else some (take n (drop i file))

unfoldable pub truncate : List ℕ → ℕ → List ℕ
truncate file n = take n file

-- Behind what comes before it, a piece is read from its own start.
pub read_at-append :
    (front back : List ℕ) (n : ℕ)
    → n ≤ length back
    → read_at (front ++ back) (length front) n ≡ some (take n back)
unfolding read_at
read_at-append front back n h =
    rw (drop-length_append front back) (ground (arith, length-append front back))

pub read_at-past : (file : List ℕ) (i n : ℕ) → length file < i + n → read_at file i n ≡ none
unfolding read_at
read_at-past file i n h = ground arith
