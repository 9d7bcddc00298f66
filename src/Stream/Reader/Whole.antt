-- ===== src/Stream/Reader/Whole.antt =====
-- A reader from NewReader to Release: what it hands out is what the source gave, and its buffers go back.
use go_netx.Base.{
  ℕ, ◌+◌, ◌≤◌, ◌≡◌, refl, sym, subst, ap, ◌∙◌, min, true, false, List, [], ◌++◌, append-nil,
  append_assoc, Option, none, some, returns, and_then, Ends, Ends-if, Ends-and_then, arith,
  if-cases, length, take, drop, leb, ◌==◌, ==_iff, if◌then◌else◌, slice, slice-drop, slice_empty,
  take-append-drop_taken, length-take,
}
use go_netx.Base.Int.{ℤ, pos, negsuc, pos_part, leb_ℤ}
use go_netx.Buf.{Pool}
use go_netx.Stream.Reader.{
  Reader, Error, Got, data_of, buffered, len, drop_front, discard, read_bytes, read_once,
}
use go_netx.Stream.Reader.Window.{IsWindow, Owes, length-buffered, data_of_open}
use go_netx.Stream.Reader.Growth.{release_big-Owes}
use go_netx.Stream.Reader.Rounds.{IsLog, read_once_lem}
use go_netx.Stream.Reader.Fill.{Sound}

module _ {A : Type 0} where
  -- The window after k bytes of it are consumed.
  pub record Consumed (others k : ℕ) (x : Reader A) (end : Reader A × Pool × ℕ) : Type 0 where
    pub window : IsWindow end.0
    pub owes : Owes others end.0.big end.1
    pub count : end.2 ≡ k
    pub left : buffered end.0 ≡ drop k (buffered x)
    pub max_size : end.0.max_size ≡ x.max_size
    pub done : end.0.done ≡ x.done

  drop_front_lem :
      (others k : ℕ) (x : Reader A) (p : Pool)
      → IsWindow x
      → x.done ≡ false
      → Owes others x.big p
      → k ≤ len x
      → Ends (Consumed others k x) (drop_front k x p)
  unfolding buffered
  drop_front_lem others k x p v o w l =
      let P = Consumed others k x in
      let rest = slice-drop (data_of x) x.r x.w k (omega (arith, v.ordered)) v.inside in
      Ends-if P (x.r + k == x.w)
        (λ f.
          let gone = ap (λ i. slice i x.w (data_of x)) ((==_iff (x.r + k) x.w).0 f) in
          let nothing_left = sym (slice_empty (data_of x) x.w) ∙ sym gone ∙ rest in
          Ends-if P (leb x.last (length x.idle))
            (λ g.
              let (p', e, paid) = release_big-Owes others x.big p w in
              let x' = record x { big = none; r = 0; w = 0 } in
              (
                (x', p', k),
                ap (λ r. and_then r (λ pool. returns (x', pool, k))) e,
                record {
                  window = record {
                    ordered = omega arith;
                    inside = omega arith;
                    bounded = omega (arith, ap length (data_of_open x' o), v.idle_fits);
                    idle_fits = v.idle_fits;
                  };
                  owes = paid;
                  count = refl;
                  left = nothing_left;
                  max_size = refl;
                  done = refl;
                },
              ))
            (λ g. (
              (record x { r = 0; w = 0 }, p, k),
              refl,
              record {
                window = record {
                  ordered = omega arith;
                  inside = omega arith;
                  bounded = v.bounded;
                  idle_fits = v.idle_fits;
                };
                owes = w;
                count = refl;
                left = nothing_left;
                max_size = refl;
                done = refl;
              },
            )))
        (λ f. (
          (record x { r = x.r + k }, p, k),
          refl,
          record {
            window = record {
              ordered = omega (arith, v.ordered);
              inside = v.inside;
              bounded = v.bounded;
              idle_fits = v.idle_fits;
            };
            owes = w;
            count = refl;
            left = rest;
            max_size = refl;
            done = refl;
          },
        ))

  -- Discard does not panic. It drops n bytes from the front of the window, or as many as there are, and returns
  -- their count; a count below one drops nothing.
  pub discard_lem :
      (others : ℕ) (n : ℤ) (x : Reader A) (p : Pool)
      → IsWindow x
      → x.done ≡ false
      → Owes others x.big p
      → Ends (Consumed others (min (pos_part n) (length (buffered x))) x) (discard n x p)
  unfolding discard
  discard_lem others n x p v o w =
      let count = length-buffered x v in
      let P = Consumed others (min (pos_part n) (length (buffered x))) x in
      Ends-if P (leb_ℤ n (pos 0))
        (λ f.
          let zero_eq : 0 ≡ min (pos_part n) (length (buffered x)) =
            not_positive n (length (buffered x)) f in
          (
            (x, p, 0),
            refl,
            record {
              window = v;
              owes = w;
              count = zero_eq;
              left = ap (λ k. drop k (buffered x)) zero_eq;
              max_size = refl;
              done = refl;
            },
          ))
        (λ f.
          subst (λ k. Ends (Consumed others k x) (drop_front (min (pos_part n) (len x)) x p))
            (ap (min (pos_part n)) (sym count))
            (drop_front_lem others (min (pos_part n) (len x)) x p v o w (omega arith)))
    where
      not_positive : (n : ℤ) (m : ℕ) → leb_ℤ n (pos 0) ≡ true → 0 ≡ min (pos_part n) m
      not_positive (pos n) m f = ground arith
      not_positive (negsuc n) m f = omega arith

module _ {A S : Type 0} (given : S → List A) (others : ℕ) (read : ℕ → S → S × Got A)
    (log : IsLog read given) where
  -- After Read: the bytes that it handed out are consumed, and they fit.
  pub record ReadInto (out : List A) (room : ℕ) (x : Reader A)
      (end : Reader A × Pool × S × List A × Option Error) : Type 0 where
    pub sound : Sound given others (out ++ end.3) end.0 end.1 end.2
    pub fits : length end.3 ≤ room
    pub done : end.0.done ≡ x.done

  nothing_out :
      (out : List A) (room : ℕ) (x x' : Reader A) (p : Pool) (s : S) (e : Option Error)
      → Sound given others out x' p s
      → x'.done ≡ x.done
      → ReadInto out room x (x', p, s, [], e)
  nothing_out out room x x' p s e sound d = record {
    sound = record {
      window = sound.window;
      owes = sound.owes;
      stream = sound.stream ∙ ap (λ o. o ++ buffered x') (sym (append-nil out));
    };
    fits = omega arith;
    done = d;
  }

  Sound-read_once :
      (out : List A) (x : Reader A) (p : Pool) (s : S)
      → Sound given others out x p s
      → let (x', s', e) = read_once read x s in Sound given others out x' p s' × (x'.done ≡ x.done)
  Sound-read_once out x p s sound =
      let on = read_once_lem read given log x s sound.window in
      let a = on.advanced in
      (
        record {
          window = a.window;
          owes = a.owes others p sound.owes;
          stream =
              on.logged
              ∙ ap (λ g. g ++ on.chunk) sound.stream
              ∙ append_assoc out (buffered x) on.chunk
              ∙ ap (λ b. out ++ b) (sym a.bytes);
        },
        a.done,
      )

  -- The bytes at the front of the window go out.
  hand_out :
      (out : List A) (room : ℕ) (x x' : Reader A) (p : Pool) (s : S)
      → Sound given others out x' p s
      → x'.done ≡ false
      → x'.done ≡ x.done
      → let chunk = take room (buffered x') in
        Ends (ReadInto out room x) (
          and_then
            (discard (pos (length chunk)) x' p)
            (λ end. returns (end.0, end.1, s, chunk, none)))
  hand_out out room x x' p s sound o d =
      let chunk = take room (buffered x') in
      let k = min (length chunk) (length (buffered x')) in
      Ends-and_then (Consumed others k x') (ReadInto out room x) (discard (pos (length chunk)) x' p)
        _ (discard_lem others (pos (length chunk)) x' p sound.window o sound.owes)
        (λ end c. (
          _,
          refl,
          record {
            sound = record {
              window = c.window;
              owes = c.owes;
              stream =
                  sound.stream
                  ∙ ap (λ b. out ++ b) (sym (take-append-drop_taken room (buffered x')))
                  ∙ sym (append_assoc out chunk (drop (length chunk) (buffered x')))
                  ∙ ap (λ b. (out ++ chunk) ++ b)
                      (ap (λ i. drop i (buffered x'))
                          (omega (arith, length-take room (buffered x')))
                        ∙ sym c.left);
            };
            fits = omega (arith, length-take room (buffered x'));
            done = c.done ∙ d;
          },
        ))

  -- Read of an open reader ends without a panic, and the bytes that it hands out, at most as many as there is room
  -- for, are the next ones of the source.
  pub read_bytes_lem :
      (out : List A) (room : ℕ) (x : Reader A) (p : Pool) (s : S)
      → Sound given others out x p s
      → x.done ≡ false
      → Ends (ReadInto out room x) (read_bytes read room x p s)
  unfolding read_bytes
  read_bytes_lem out room x p s sound o =
      let P = ReadInto out room x in
      Ends-if P x.done (λ f. (_, refl, nothing_out out room x x p s _ sound refl))
        (λ f.
          Ends-if P (room == 0) (λ g. (_, refl, nothing_out out room x x p s _ sound refl))
            (λ g.
              let (x', s', e) = if len x == 0 then read_once read x s else (x, s, none) in
              let first : Sound given others out x' p s' × (x'.done ≡ x.done) =
                if-cases {A = Reader A × S × Option Error}
                  (λ r. Sound given others out r.0 p r.1 × (r.0.done ≡ x.done)) (len x == 0)
                  (λ h. Sound-read_once out x p s sound) (λ h. (sound, refl)) in
              go x' s' first.0 first.1 (if len x' == 0 then e else none)))
    where
      go :
          (x' : Reader A) (s' : S)
          → Sound given others out x' p s'
          → x'.done ≡ x.done
          → (stops : Option Error)
          → Ends (ReadInto out room x) (elim stops [
            | some error ↦ returns (x', p, s', [], some error)
            | none ↦
                let chunk = take room (buffered x') in
                and_then
                  (discard (pos (length chunk)) x' p)
                  (λ end. returns (end.0, end.1, s', chunk, none))
          ])
      go x' s' sound' d (some e) = (_, refl, nothing_out out room x x' p s' _ sound' d)
      go x' s' sound' d none = hand_out out room x x' p s' sound' (d ∙ o) d
