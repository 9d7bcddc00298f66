-- ===== src/Stream/Reader/Rounds.antt =====
-- readOnce: what the source returned is at the end of the window, whatever the source.
use go_netx.Base.{
  ℕ, zero, suc, ◌+◌, ◌-◌, ◌≤◌, ◌<◌, ◌≡◌, refl, sym, ap, ◌∙◌, true, false, List, [], ◌∷◌, ◌++◌,
  append-nil, Option, none, some, arith, if-cases, if-cases₂, true≢false, length, ltb, ltb→lt,
  ltb-false, if◌then◌else◌, slice, length-overwrite, slice-overwrite,
}
use go_netx.Buf.{Pool}
use go_netx.Stream.Reader.{
  Reader, Error, Got, gives, negative, invalid_count, no_progress, data_of, buffered, len, write_at,
  is_nothing, accept, take_in, max_empty_reads, read_rounds, conclude, read_once,
}
use go_netx.Stream.Reader.Window.{
  IsWindow, Owes, length-write_idle, data_of-write_at, Owes-write_at,
}

-- More is buffered, where there is no error.
abbrev pub Grows : ℕ → ℕ → Option Error → Type 0
Grows before after none = before < after
Grows before after (some e) = Unit

module _ {A : Type 0} where
  -- The bytes of a Read that readOnce accepts.
  abbrev pub received : ℕ → Got A → List A
  received room negative = []
  received room (gives chunk e) = if ltb room (length chunk) then [] else chunk

  -- The window after a read that appended a chunk.
  pub record Advanced (chunk : List A) (x x' : Reader A) (e : Option Error) : Type 0 where
    pub window : IsWindow x'
    pub owes : (others : ℕ) (p : Pool) → Owes others x.big p → Owes others x'.big p
    pub bytes : buffered x' ≡ buffered x ++ chunk
    pub max_size : x'.max_size ≡ x.max_size
    pub done : x'.done ≡ x.done
    pub grows : Grows (len x) (len x') e

  unread :
      (x : Reader A) (error : Option Error) (e : Error)
      → IsWindow x
      → Advanced [] x (record x { err = error }) (some e)
  unfolding buffered
  unread x error e v = record {
    window = record {
      ordered = v.ordered;
      inside = v.inside;
      bounded = v.bounded;
      idle_fits = v.idle_fits;
    };
    owes = λ others p w. w;
    bytes = sym (append-nil _);
    max_size = refl;
    done = refl;
    grows = tt;
  }

  appended :
      (chunk : List A) (x : Reader A) (error : Option Error) (e : Option Error)
      → IsWindow x
      → length chunk ≤ length (data_of x) - x.w
      → Grows 0 (length chunk) e
      → Advanced chunk x
          (record (write_at x.w chunk x) {
            w = x.w + length chunk;
            last = length chunk;
            err = error;
          })
          e
  unfolding buffered
  appended chunk x error e v l g =
      let same = data_of-write_at x.w chunk x in
      let size = ap length same ∙ length-overwrite (data_of x) x.w chunk in
      record {
        window = record {
          ordered = omega (arith, v.ordered);
          inside = omega (arith, size, v.inside);
          bounded = omega (arith, size, v.bounded);
          idle_fits = omega (arith, length-write_idle x.w chunk x.big x.idle, v.idle_fits);
        };
        owes = λ others p w. Owes-write_at others x.w chunk x.big p w;
        bytes =
            ap (slice x.r (x.w + length chunk)) same
            ∙ slice-overwrite (data_of x) x.r x.w chunk v.ordered (omega (arith, v.inside));
        max_size = refl;
        done = refl;
        grows = longer e g;
      }
    where
      longer :
          (e : Option Error)
          → Grows 0 (length chunk) e
          → Grows (x.w - x.r) (x.w + length chunk - x.r) e
      longer none g = omega (arith, v.ordered)
      longer (some e) g = tt

  longer : (chunk : List A) → is_nothing (gives chunk none) ≡ false → 0 < length chunk
  longer [] k = absurd (true≢false k)
  longer (y ∷ ys) k = omega arith

  accepted :
      (chunk : List A) (e : Option Error) (x : Reader A)
      → IsWindow x
      → is_nothing (gives chunk e) ≡ false
      → length chunk ≤ length (data_of x) - x.w
      → let (x', e') = accept chunk e x in Advanced chunk x x' e'
  accepted chunk none x v k l = appended chunk x x.err none v l (longer chunk k)
  accepted chunk (some e) x v k l =
      if-cases (λ e'. Advanced chunk x (accept chunk (some e) x).0 e') (ltb 0 (length chunk))
        (λ f. appended chunk x (some e) none v l (ltb→lt 0 (length chunk) f))
        (λ f. appended chunk x (some e) (some e) v l tt)

  -- Whatever the source returned, readOnce appends the bytes that it accepts, and nothing else.
  pub take_in_lem :
      (g : Got A) (x : Reader A)
      → IsWindow x
      → is_nothing g ≡ false
      → let (x', e) = take_in g x in Advanced (received (length (data_of x) - x.w) g) x x' e
  unfolding take_in
  take_in_lem negative x v k = unread x (some invalid_count) invalid_count v
  take_in_lem (gives chunk e) x v k =
      if-cases₂ {B = Reader A × Option Error} (λ c r. Advanced c x r.0 r.1)
        (ltb (length (data_of x) - x.w) (length chunk))
        (λ f. unread x (some invalid_count) invalid_count v)
        (λ f. accepted chunk e x v k (ltb-false (length (data_of x) - x.w) (length chunk) f))

  nothing_read : (x : Reader A) (e : Error) → IsWindow x → Advanced [] x x (some e)
  nothing_read x e v = unread x x.err e v

module _ {A S : Type 0} (read : ℕ → S → S × Got A) where
  -- A log of the source: the bytes of all Reads so far, as far as a reader accepts them.
  pub record IsLog (given : S → List A) : Type 0 where
    pub law :
        (room : ℕ) (s : S) → let (s', got) = read room s in given s' ≡ given s ++ received room got

  abbrev received_opt : ℕ → Option (Got A) → List A
  received_opt room none = []
  received_opt room (some got) = received room got

  abbrev IsSomething : Option (Got A) → Type 0
  IsSomething none = Unit
  IsSomething (some got) = is_nothing got ≡ false

  received_nothing : (room : ℕ) (got : Got A) → is_nothing got ≡ true → received room got ≡ []
  received_nothing room negative k = refl
  received_nothing room (gives [] none) k =
      if-cases (λ c. c ≡ []) (ltb room 0) (λ f. refl) (λ f. refl)
  received_nothing room (gives [] (some e)) k = absurd (true≢false (sym k))
  received_nothing room (gives (y ∷ ys) e) k = absurd (true≢false (sym k))

  -- The rounds end with something, or with nothing logged.
  read_rounds_lem :
      (given : S → List A) (log : IsLog given) (rounds room : ℕ) (s : S)
      → let (s', got) = read_rounds read rounds room s in
        (given s' ≡ given s ++ received_opt room got) × IsSomething got
  unfolding read_rounds
  read_rounds_lem given log zero room s = (sym (append-nil (given s)), tt)
  read_rounds_lem given log (suc rounds) room s =
      let (s', got) = read room s in
      let rest = read_rounds_lem given log rounds room s' in
      let first = log.law room s in
      if-cases {A = S × Option (Got A)}
        (λ r. (given r.0 ≡ given s ++ received_opt room r.1) × IsSomething r.1) (is_nothing got)
        (λ f.
          let none_new =
            first ∙ ap (λ c. given s ++ c) (received_nothing room got f) ∙ append-nil (given s) in
          (
            rest.0 ∙ ap (λ g. g ++ received_opt room (read_rounds read rounds room s').1) none_new,
            rest.1,
          ))
        (λ f. (first, f))

  -- readOnce appends to the window what the source's log gained.
  pub record ReadOn (given : S → List A) (x : Reader A) (s : S) (end : Reader A × S × Option Error)
      : Type 0 where
    pub chunk : List A
    pub logged : given end.1 ≡ given s ++ chunk
    pub advanced : Advanced chunk x end.0 end.2

  conclude_lem :
      (given : S → List A) (x : Reader A) (s s' : S) (got : Option (Got A))
      → IsWindow x
      → given s' ≡ given s ++ received_opt (length (data_of x) - x.w) got
      → IsSomething got
      → ReadOn given x s (conclude read x s' got)
  unfolding conclude
  conclude_lem given x s s' none v logged k = record {
    chunk = [];
    logged = logged;
    advanced = nothing_read x no_progress v;
  }
  conclude_lem given x s s' (some got) v logged k = record {
    chunk = received (length (data_of x) - x.w) got;
    logged = logged;
    advanced = take_in_lem got x v k;
  }

  pub read_once_lem :
      (given : S → List A) (log : IsLog given) (x : Reader A) (s : S)
      → IsWindow x
      → ReadOn given x s (read_once read x s)
  unfolding read_once
  read_once_lem given log x s v = go x.err
    where
      go :
          (err : Option Error)
          → ReadOn given x s (elim err [
            | some e ↦ (x, s, some e)
            | none ↦
                let (s', got) = read_rounds read max_empty_reads (length (data_of x) - x.w) s in
                conclude read x s' got
          ])
      go (some e) = record {
        chunk = [];
        logged = sym (append-nil (given s));
        advanced = nothing_read x e v;
      }
      go none =
          let (s', got) = read_rounds read max_empty_reads (length (data_of x) - x.w) s in
          let rounds = read_rounds_lem given log max_empty_reads (length (data_of x) - x.w) s in
          conclude_lem given x s s' got v rounds.0 rounds.1
