-- ===== src/Stream/Reader/Window.antt =====
-- The buffered window of a reader while its buffer moves: ensure, grow and compact keep the bytes.
use go_netx.Base.{
  ℕ, ◌+◌, ◌-◌, ◌≤◌, ◌<◌, ◌≡◌, refl, ap, ◌∙◌, Bool, true, false, List, [], Option, none, some, arith,
  length, if◌then◌else◌, overwrite, slice, length-overwrite, length-slice, slice-copy,
}
use go_netx.Buf.{Buf, Pool}
use go_netx.Buf.Owned.{IsValid, Holds}
use go_netx.Stream.Reader.{
  Reader, store, data_of, buffered, len, write_idle, write_big, write_at, compact,
}

module _ {A : Type 0} where
  -- The window lies in the buffer, which is no larger than the reader's maximum.
  pub record IsWindow (x : Reader A) : Type 0 where
    pub ordered : x.r ≤ x.w
    pub inside : x.w ≤ length (data_of x)
    pub bounded : length (data_of x) ≤ x.max_size
    pub idle_fits : length x.idle ≤ x.max_size

  abbrev pub cap_of : Option (Buf A) → ℕ
  cap_of none = 0
  cap_of (some b) = b.cap

  abbrev pub IsLive : Option (Buf A) → Type 0
  IsLive none = Unit
  IsLive (some b) = b.live ≡ true

  -- The reader's buffer is its own, and the budget counts it on top of what others hold.
  pub record Owes (others : ℕ) (big : Option (Buf A)) (p : Pool) : Type 0 where
    pub valid : IsValid p.budget
    pub holds : Holds (others + cap_of big) p.budget
    pub live : IsLive big

  -- What no move of the buffer changes.
  pub record Kept (x x' : Reader A) : Type 0 where
    pub bytes : buffered x' ≡ buffered x
    pub last : x'.last ≡ x.last
    pub err : x'.err ≡ x.err
    pub max_size : x'.max_size ≡ x.max_size
    pub done : x'.done ≡ x.done

  -- Space to read into, and to hold n bytes.
  abbrev pub Room : ℕ → Reader A → Type 0
  Room n x = (x.w < length (data_of x)) × (n ≤ length (data_of x) - x.r)

  pub store-write :
      (i : ℕ) (xs idle : List A) (o : Option (Buf A))
      → store (write_idle i xs o idle) (write_big i xs o) ≡ overwrite (store idle o) i xs
  store-write i xs idle none = refl
  store-write i xs idle (some b) = refl

  pub data_of-write_at :
      (i : ℕ) (xs : List A) (x : Reader A) → data_of (write_at i xs x) ≡ overwrite (data_of x) i xs
  data_of-write_at i xs x = go x.done
    where
      go :
          (d : Bool)
          → (if d then [] else store (write_idle i xs x.big x.idle) (write_big i xs x.big))
            ≡ overwrite (if d then [] else store x.idle x.big) i xs
      go true = refl
      go false = store-write i xs x.idle x.big

  pub length-write_idle :
      (i : ℕ) (xs : List A) (o : Option (Buf A)) (idle : List A)
      → length (write_idle i xs o idle) ≡ length idle
  length-write_idle i xs none idle = length-overwrite idle i xs
  length-write_idle i xs (some b) idle = refl

  -- What a write changes of the buffer that the reader owes: neither its capacity nor that it is live.
  pub Owes-write_at :
      (others i : ℕ) (xs : List A) (o : Option (Buf A)) (p : Pool)
      → Owes others o p
      → Owes others (write_big i xs o) p
  Owes-write_at others i xs none p w = w
  Owes-write_at others i xs (some b) p w = record {
    valid = w.valid;
    holds = w.holds;
    live = w.live;
  }

  pub length-buffered : (x : Reader A) → IsWindow x → length (buffered x) ≡ len x
  unfolding buffered
  length-buffered x v = length-slice (data_of x) x.r x.w v.ordered v.inside

  -- The copy to the front keeps the window's bytes.
  pub compact_lem :
      (x : Reader A)
      → IsWindow x
      → IsWindow (compact x)
        × Kept x (compact x)
        × ((compact x).r ≡ 0)
        × ((compact x).w ≡ len x)
        × (length (data_of (compact x)) ≡ length (data_of x))
  unfolding compact buffered
  compact_lem x v =
      let bytes = slice x.r x.w (data_of x) in
      let count = length-buffered x v in
      let same_data : data_of (compact x) ≡ overwrite (data_of x) 0 bytes =
        data_of-write_at 0 bytes x in
      let same_size = ap length same_data ∙ length-overwrite (data_of x) 0 bytes in
      (
        record {
          ordered = omega arith;
          inside = omega (arith, same_size, count);
          bounded = omega (arith, same_size, v.bounded);
          idle_fits = omega (arith, length-write_idle 0 bytes x.big x.idle, v.idle_fits);
        },
        record {
          bytes =
              ap (slice 0 (compact x).w) same_data
              ∙ slice-copy (data_of x) bytes (omega (arith, count, v.inside));
          last = refl;
          err = refl;
          max_size = refl;
          done = refl;
        },
        refl,
        omega (arith, count, v.inside),
        same_size,
      )

  pub data_of_open : (x : Reader A) → x.done ≡ false → data_of x ≡ store x.idle x.big
  data_of_open x o = ap (λ d. if d then [] else store x.idle x.big) o

  pub Kept-refl : (x : Reader A) → Kept x x
  Kept-refl x = record { bytes = refl; last = refl; err = refl; max_size = refl; done = refl }
