-- ===== src/Stream/Reader.antt =====
-- stream/reader.go: a buffer that grows from the idle buffer to buffers of the pool and shrinks back.
-- The source is `read room s`: what the io.Reader's Read does with `room` bytes of space in the state s. What a source
-- leaves in the space beyond the count that it returns is not kept: no method shows it.
pub mod Window
pub mod Growth
pub mod Rounds
pub mod Fill
pub mod Peek
pub mod Whole
pub mod Session
use go_netx.Base.{
  ℕ, zero, suc, ◌+◌, ◌-◌, ◌*◌, ◌^◌, ◌≤◌, ◌<◌, ◌≡◌, min, max, Bool, true, false, not, ◌&&◌, ◌||◌,
  List, [], ◌∷◌, Option, none, some, Outcome, returns, panics, runs_on, and_then, length, replicate,
  take, ltb, leb, ◌==◌, if◌then◌else◌, overwrite, slice,
}
use go_netx.Base.Int.{ℤ, pos, negsuc, pos_part, ltb_ℤ, leb_ℤ}
use go_netx.Buf.{Buf, Pool, capacity, large, get, release_buf}

-- `from_source` is an error of the source, whichever it is.
pub data Error : Type 0 where
  too_large no_buffer released negative_count no_progress invalid_count : Error
  from_source : ℕ → Error

-- What a Read returns: so many bytes and an error or nil, or a negative count.
pub data Got (A : Type 0) : Type 0 where
  gives : List A → Option Error → Got A
  negative : Got A

-- `data` is not a field: it is the idle buffer, the grown one, or nil after Release.
pub record Reader (A : Type 0) : Type 0 where
  pub idle : List A
  pub big : Option (Buf A)
  pub r : ℕ
  pub w : ℕ
  pub last : ℕ
  pub err : Option Error
  pub max_size : ℕ
  pub done : Bool

-- A count of zero stands for its default.
abbrev pub or_default : ℤ → ℕ → ℤ
or_default (pos zero) d = pos d
or_default (pos (suc n)) d = pos (suc n)
or_default (negsuc n) d = negsuc n

module _ {A : Type 0} where
  -- `NewReader` of a pool that is not nil, with the zero byte.
  unfoldable pub new_reader : A → ℤ → ℤ → Outcome (Reader A)
  new_reader zero_byte idle_size max_option =
      let idle = or_default idle_size 512 in
      let limit = or_default max_option large in
      if ltb_ℤ idle (pos 0) || ltb_ℤ limit idle
      then panics
      else returns (record {
        idle = replicate (pos_part idle) zero_byte;
        big = none;
        r = 0;
        w = 0;
        last = 0;
        err = none;
        max_size = pos_part limit;
        done = false;
      })

  abbrev pub store : List A → Option (Buf A) → List A
  store idle none = idle
  store idle (some b) = b.bytes

  abbrev pub data_of : Reader A → List A
  data_of x = if x.done then [] else store x.idle x.big

  unfoldable pub buffered : Reader A → List A
  buffered x = slice x.r x.w (data_of x)

  -- `Len`
  abbrev pub len : Reader A → ℕ
  len x = x.w - x.r

  -- A copy into `data`, at an index, which writes the idle buffer or the grown one.
  abbrev pub write_idle : ℕ → List A → Option (Buf A) → List A → List A
  write_idle i xs none idle = overwrite idle i xs
  write_idle i xs (some b) idle = idle

  abbrev pub write_big : ℕ → List A → Option (Buf A) → Option (Buf A)
  write_big i xs none = none
  write_big i xs (some b) = some (record b { bytes = overwrite b.bytes i xs })

  abbrev pub write_at : ℕ → List A → Reader A → Reader A
  write_at i xs x = record x { idle = write_idle i xs x.big x.idle; big = write_big i xs x.big }

  -- The Release of a buffer that may be nil, and the pool after it.
  abbrev pub release_big : Option (Buf A) → Pool → Outcome Pool
  release_big none p = returns p
  release_big (some b) p = and_then (release_buf b p) (λ done. returns done.0)

  -- `grow`, with the new buffer: the buffered data moves, and the old buffer goes back.
  unfoldable pub move_to : Buf A → Reader A → Pool → Outcome (Reader A × Pool × Option Error)
  unfolding buffered
  move_to b x p = and_then (release_big x.big p) (λ p'. returns (
    record x {
      big = some (record b { bytes = overwrite b.bytes 0 (buffered x) });
      r = 0;
      w = min (length b.bytes) (length (buffered x));
    },
    p',
    none,
  ))

  -- `copy(r.data, r.data[r.r:r.w])`
  unfoldable pub compact : Reader A → Reader A
  unfolding buffered
  compact x = record (write_at 0 (buffered x) x) {
    r = 0;
    w = min (length (data_of x)) (length (buffered x));
  }

  -- `r.data[r.r:r.r+n]`, which panics for a negative n and beyond the end.
  abbrev pub show : ℤ → Reader A → Outcome (List A)
  show (negsuc n) x = panics
  show (pos n) x =
      if leb (x.r + n) (length (data_of x))
      then returns (slice x.r (x.r + n) (data_of x))
      else panics

  module _ (memory : ℕ → List A) where
    unfoldable pub grow : ℕ → Reader A → Pool → Outcome (Reader A × Pool × Option Error)
    unfolding move_to get
    grow need x p =
        let have = length (data_of x) in
        let size = min (capacity (max need (have + 1))) x.max_size in
        if leb size have
        then returns (x, p, some too_large)
        else and_then (get memory (pos size) p) (λ got. elim got.1 [
          | none ↦ returns (x, got.0, some no_buffer)
          | some b ↦ move_to b x got.0
        ])

    unfoldable pub ensure : ℕ → Reader A → Pool → Outcome (Reader A × Pool × Option Error)
    unfolding grow compact
    ensure n x p =
        let have = length (data_of x) in
        if ltb x.max_size n
        then returns (x, p, some too_large)
        else if ltb have n
        then grow n x p
        else if ltb x.w have && leb n (have - x.r)
        then returns (x, p, none)
        else if ltb 0 x.r
        then (let x' = compact x in
            if ltb x'.w have then returns (x', p, none) else grow (have + 1) x' p)
        else grow (have + 1) x p

  -- `n == 0 && err == nil`
  abbrev pub is_nothing : Got A → Bool
  is_nothing (gives [] none) = true
  is_nothing (gives [] (some e)) = false
  is_nothing (gives (x ∷ xs) e) = false
  is_nothing negative = false

  -- `r.w += n; r.last = n`, and an error that is kept: it is returned now or with the next call.
  abbrev pub accept : List A → Option Error → Reader A → Reader A × Option Error
  accept chunk none x =
      (record (write_at x.w chunk x) { w = x.w + length chunk; last = length chunk }, none)
  accept chunk (some e) x = (
    record (write_at x.w chunk x) { w = x.w + length chunk; last = length chunk; err = some e },
    if ltb 0 (length chunk) then none else some e,
  )

  -- What readOnce does with what the source returned.
  unfoldable pub take_in : Got A → Reader A → Reader A × Option Error
  take_in negative x = (record x { err = some invalid_count }, some invalid_count)
  take_in (gives chunk e) x =
      if ltb (length (data_of x) - x.w) (length chunk)
      then (record x { err = some invalid_count }, some invalid_count)
      else accept chunk e x

  -- Discard of k bytes that are buffered.
  abbrev pub drop_front : ℕ → Reader A → Pool → Outcome (Reader A × Pool × ℕ)
  drop_front k x p =
      if x.r + k == x.w
      then (if leb x.last (length x.idle)
          then and_then (release_big x.big p)
              (λ p'. returns (record x { big = none; r = 0; w = 0 }, p', k))
          else returns (record x { r = 0; w = 0 }, p, k))
      else returns (record x { r = x.r + k }, p, k)

  unfoldable pub discard : ℤ → Reader A → Pool → Outcome (Reader A × Pool × ℕ)
  discard n x p =
      if leb_ℤ n (pos 0) then returns (x, p, 0) else drop_front (min (pos_part n) (len x)) x p

  -- Release.
  unfoldable pub release_reader : Reader A → Pool → Outcome (Reader A × Pool)
  release_reader x p =
      if x.done
      then returns (x, p)
      else and_then (release_big x.big p)
          (λ p'. returns (record x { done = true; big = none; r = 0; w = 0 }, p'))

-- maxEmptyReads
abbrev pub max_empty_reads : ℕ
max_empty_reads = 100

module _ {A S : Type 0} (read : ℕ → S → S × Got A) where
  -- The loop of readOnce: none when every round returned nothing.
  unfoldable pub read_rounds : ℕ → ℕ → S → S × Option (Got A)
  read_rounds zero room s = (s, none)
  read_rounds (suc rounds) room s =
      let (s', got) = read room s in
      let rest = read_rounds rounds room s' in if is_nothing got then rest else (s', some got)

  -- The rest of readOnce.
  unfoldable pub conclude : Reader A → S → Option (Got A) → Reader A × S × Option Error
  unfolding take_in
  conclude x s none = (x, s, some no_progress)
  conclude x s (some got) = let (x', e) = take_in got x in (x', s, e)

  unfoldable pub read_once : Reader A → S → Reader A × S × Option Error
  unfolding read_rounds conclude
  read_once x s = elim x.err [
    | some e ↦ (x, s, some e)
    | none ↦
        let (s', got) = read_rounds max_empty_reads (length (data_of x) - x.w) s in
        conclude x s' got
  ]

  module _ (memory : ℕ → List A) where
    -- One turn of Peek's loop: an error if it returns here.
    unfoldable pub peek_turn :
        ℕ → Reader A → Pool → S → Outcome (Reader A × Pool × S × Option Error)
    unfolding ensure read_once
    peek_turn n x p s = and_then (ensure memory n x p) (λ made. elim made.2 [
      | some e ↦ returns (made.0, made.1, s, some e)
      | none ↦
          let (x', s', e) = read_once made.0 s in
          returns (x', made.1, s', if leb n (len x') then none else e)
    ])

    -- Peek's loop, on fuel.
    unfoldable pub peek_loop :
        ℕ → ℕ → Reader A → Pool → S → Outcome (Reader A × Pool × S × Option Error)
    unfolding peek_turn
    peek_loop zero n x p s = if ltb (len x) n then runs_on else returns (x, p, s, none)
    peek_loop (suc fuel) n x p s =
        if ltb (len x) n
        then and_then (peek_turn n x p s) (λ turn. elim turn.3 [
          | some e ↦ returns (turn.0, turn.1, turn.2, some e)
          | none ↦ peek_loop fuel n turn.0 turn.1 turn.2
        ])
        else returns (x, p, s, none)

    -- Peek, with the bytes that it shows.
    unfoldable pub peek :
        ℤ → Reader A → Pool → S → Outcome (Reader A × Pool × S × List A × Option Error)
    unfolding peek_loop buffered
    peek n x p s =
        if x.done
        then returns (x, p, s, [], some released)
        else if ltb_ℤ n (pos 0)
        then returns (x, p, s, [], some negative_count)
        else if ltb x.max_size (pos_part n)
        then returns (x, p, s, buffered x, some too_large)
        else and_then (peek_loop (pos_part n) (pos_part n) x p s) (λ end. elim end.3 [
          | some e ↦ returns (end.0, end.1, end.2, buffered end.0, some e)
          | none ↦ and_then (show n end.0) (λ shown. returns (end.0, end.1, end.2, shown, none))
        ])

    unfoldable pub fill : Reader A → Pool → S → Outcome (Reader A × Pool × S × Option Error)
    unfolding ensure read_once
    fill x p s =
        if x.done
        then returns (x, p, s, some released)
        else and_then (ensure memory (len x + 1) x p) (λ made. elim made.2 [
          | some e ↦ returns (made.0, made.1, s, some e)
          | none ↦ let (x', s', e) = read_once made.0 s in returns (x', made.1, s', e)
        ])

  -- Read, into a slice of `room` bytes.
  unfoldable pub read_bytes :
      ℕ → Reader A → Pool → S → Outcome (Reader A × Pool × S × List A × Option Error)
  unfolding read_once discard buffered
  read_bytes room x p s =
      if x.done
      then returns (x, p, s, [], some released)
      else if room == 0
      then returns (x, p, s, [], none)
      else (let (x', s', e) = if len x == 0 then read_once x s else (x, s, none) in
          let stops = if len x' == 0 then e else none in
          elim stops [
            | some error ↦ returns (x', p, s', [], some error)
            | none ↦
                let chunk = take room (buffered x') in
                and_then (discard (pos (length chunk)) x' p)
                  (λ end. returns (end.0, end.1, s', chunk, none))
          ])
