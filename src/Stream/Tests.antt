-- ===== src/Stream/Tests.antt =====
-- A reader over a source of a few bytes, which gives two at a time and then an error, and a writer.
use go_netx.Base.{
  ℕ, ◌≡◌, refl, sym, min, false, List, [], ◌∷◌, ◌++◌, none, some, Ends, arith, length, take, drop,
  replicate, length-replicate, ltb, ltb→lt, length-take, if◌then◌else◌, if-cases, Option, true, ap,
  take_of_length-le,
}
use go_netx.Base.Int.{pos}
use go_netx.Limit.Budget.{Budget}
use go_netx.Limit.Budget.Safe.{Inv}
use go_netx.Buf.{Pool}
use go_netx.Buf.Owned.{IsValid, Holds}
use go_netx.Stream.Writer.{Writer, flush}
use go_netx.Stream.Writer.Flushed.{IsQueued, IsSink, Flushed, flush_lem, join}
use go_netx.Stream.Reader.{Reader, Got, gives, from_source, buffered, peek, ensure}
use go_netx.Stream.Reader.Window.{IsWindow, Owes}
use go_netx.Stream.Reader.Growth.{Moved, ensure_lem}
use go_netx.Stream.Reader.Rounds.{IsLog}
use go_netx.Stream.Reader.Fill.{Sound}
use go_netx.Stream.Reader.Peek.{Peeked, peek_lem}
use go_netx.Stream.Reader.Session.{Call, peeks, fills, discards, reads, session, session_lem}

-- What is left to give, and what was given.
abbrev Script : Type 0
Script = List ℕ × List ℕ

-- As much as there is room for, and an error when there is no more.
abbrev read : ℕ → Script → Script × Got ℕ
read room (bytes, log) =
    let chunk = take (min 2 room) bytes in
    (
      (drop (min 2 room) bytes, log ++ chunk),
      gives chunk (if ltb 0 (length bytes) then none else some (from_source 1)),
    )

abbrev given : Script → List ℕ
given s = s.1

script-IsLog : IsLog read given
script-IsLog = record {
  law = λ room s.
      let chunk = take (min 2 room) s.0 in
      if-cases (λ c. s.1 ++ chunk ≡ s.1 ++ c) (ltb room (length chunk))
        (λ f. absurd (omega (arith, ltb→lt room (length chunk) f, length-take (min 2 room) s.0)))
        (λ f. refl);
}

abbrev kilobyte : Budget
kilobyte = record { max = pos 1024; used = pos 512; held = 512 }

kilobyte-Inv : Inv kilobyte
kilobyte-Inv = record {
  positive = omega arith;
  in_range = (omega arith, omega arith);
  exact = refl;
  fits = omega arith;
}

abbrev pool : Pool
pool = record { debug = true; budget = some kilobyte; outstanding = pos 3 }

abbrev zeros : ℕ → List ℕ
zeros n = replicate n 0

zeros_sized : (n : ℕ) → length (zeros n) ≡ n
zeros_sized n = length-replicate n 0

-- Four idle bytes, the last two of which are buffered.
abbrev reader : Reader ℕ
reader = record {
  idle = 1 ∷ 2 ∷ 3 ∷ 4 ∷ [];
  big = none;
  r = 2;
  w = 4;
  last = 2;
  err = none;
  max_size = 256;
  done = false;
}

abbrev script : Script
script = (5 ∷ 6 ∷ 7 ∷ [], 1 ∷ 2 ∷ 3 ∷ 4 ∷ [])

reader-IsWindow : IsWindow reader
reader-IsWindow = record {
  ordered = omega arith;
  inside = omega arith;
  bounded = omega arith;
  idle_fits = omega arith;
}

reader-Owes : Owes {A = ℕ} 512 none pool
reader-Owes = record { valid = kilobyte-Inv; holds = refl; live = tt }

reader-Sound : Sound given 512 (1 ∷ 2 ∷ []) reader pool script
unfolding buffered
reader-Sound = record { window = reader-IsWindow; owes = reader-Owes; stream = refl }

ensure_lem_example : Ends (Moved 512 9 reader) (ensure zeros 9 reader pool)
ensure_lem_example = ensure_lem zeros zeros_sized 512 9 reader pool reader-IsWindow refl reader-Owes

peek_lem_example :
    Ends
      (Peeked given 512 zeros zeros_sized read script-IsLog (1 ∷ 2 ∷ []) 5 reader)
      (peek read zeros (pos 5) reader pool script)
peek_lem_example =
    peek_lem given 512 zeros zeros_sized read script-IsLog (1 ∷ 2 ∷ []) 5 reader pool script
      reader-Sound refl

abbrev some_calls : List Call
some_calls = peeks (pos 5) ∷ discards (pos 3) ∷ fills ∷ reads 8 ∷ []

session_lem_example :
    (left : List ℕ) × Ends
      (λ end. IsValid end.0.budget × Holds 512 end.0.budget × (given end.1 ≡ end.2 ++ left))
      (session read zeros 0 (pos 4) (pos 256) some_calls pool (5 ∷ 6 ∷ 7 ∷ [], []))
session_lem_example =
    session_lem given 512 read script-IsLog zeros zeros_sized 0 4 256 some_calls pool
      (5 ∷ 6 ∷ 7 ∷ [], []) (omega arith) kilobyte-Inv refl refl

-- A destination that takes everything, and keeps it.
abbrev write_all : List ℕ → List ℕ → List ℕ × ℕ × Option ℕ
write_all v s = (s ++ v, length v, none)

abbrev write_each : List (List ℕ) → List ℕ → List ℕ × ℕ × Option ℕ
write_each vs s = (s ++ join vs, length (join vs), none)

whole_text : (s t : List ℕ) → s ++ t ≡ s ++ take (length t) t
whole_text s t = ap (λ l. s ++ l) (sym (take_of_length-le (length t) t (omega arith)))

all-IsSink : IsSink write_all write_each (λ s. s)
all-IsSink = record {
  writes = λ v s. (whole_text s v, refl);
  writes_buffers = λ vs s. (whole_text s (join vs), refl);
}

-- A buffer of four units with two bytes, and two shared bytes after it.
abbrev filled_writer : Writer ℕ
filled_writer = record {
  held = record { bytes = 1 ∷ 2 ∷ []; cap = 4; class = none; live = true } ∷ [];
  vec = (1 ∷ 2 ∷ []) ∷ (8 ∷ 9 ∷ []) ∷ [];
  size = 4;
}

filled_writer-IsQueued : IsQueued 508 (1 ∷ 2 ∷ 8 ∷ 9 ∷ []) filled_writer pool
filled_writer-IsQueued = record {
  valid = kilobyte-Inv;
  holds = refl;
  live = (refl, tt);
  queued = refl;
  counted = refl;
  covered = tt;
}

flush_lem_example :
    Ends
      (Flushed write_all write_each (λ s. s) 508 (1 ∷ 2 ∷ 8 ∷ 9 ∷ []) [])
      (flush write_all write_each filled_writer pool [])
flush_lem_example =
    flush_lem write_all write_each (λ s. s) all-IsSink 508 (1 ∷ 2 ∷ 8 ∷ 9 ∷ []) filled_writer pool
      [] filled_writer-IsQueued
