-- ===== src/Socket/Frame.antt =====
-- What the calls that set options leave alone, and what holds where they give no error.
use go_netx.Base.{ℕ, ◌≡◌, arith, Bool, true, not, ◌&&◌, Option, none, some, ◌==◌, if-cases}
use go_netx.Base.Int.{ℤ, pos, ltb_ℤ}
use go_netx.Socket.{
  Options, Errno, Sockopts, Result, BufferKind, sol_socket, ipproto_tcp, so_reuse_port,
  tcp_fast_open_opt, recv_buffer_kind, send_buffer_kind, fast_open_result, and_next, result_of,
  fast_result, with_size, read_buffer, ensure_buffer, ensure_wanted, apply_buffers, reuse,
  open_fast, apply_options,
}

module _ {K : Type 0} where
  -- Where there is no error.
  abbrev pub OnNone : (K → Type 0) → Result K → Type 0
  OnNone P (s, none) = P s
  OnNone P (s, some e) = Unit

  pub OnNone-none : (P : K → Type 0) (r : Result K) → OnNone P r → r.1 ≡ none → P r.0
  OnNone-none P (s, none) h e = h
  OnNone-none P (s, some x) h e = absurd (ground arith)

  pub OnNone-and_next :
      (P Q : K → Type 0) (r : Result K) (f : K → Result K)
      → OnNone P r
      → ((s : K) → P s → OnNone Q (f s))
      → OnNone Q (and_next r f)
  OnNone-and_next P Q (s, none) f h next = next s h
  OnNone-and_next P Q (s, some e) f h next = tt

  -- Whether or not there is an error.
  pub OnNone-all : (P : K → Type 0) (r : Result K) → P r.0 → OnNone P r
  OnNone-all P (s, none) h = h
  OnNone-all P (s, some e) h = tt

  pub OnNone-pair :
      (P Q : K → Type 0) (r : Result K) → P r.0 → OnNone Q r → OnNone (λ s. P s × Q s) r
  OnNone-pair P Q (s, none) h k = (h, k)
  OnNone-pair P Q (s, some e) h k = tt

  pub and_next-Inv :
      (Inv : K → Type 0) (r : Result K) (f : K → Result K)
      → Inv r.0
      → ((s : K) → Inv s → Inv (f s).0)
      → Inv (and_next r f).0
  and_next-Inv Inv (s, none) f h next = next s h
  and_next-Inv Inv (s, some e) f h next = h

  result_of-Inv : (Inv : K → Type 0) (r : K × Option Errno) → Inv r.0 → Inv (result_of r).0
  result_of-Inv Inv (s, none) h = h
  result_of-Inv Inv (s, some e) h = h

  fast_result-Inv : (Inv : K → Type 0) (r : K × Option Errno) → Inv r.0 → Inv (fast_result r).0
  fast_result-Inv Inv (s, e) h = result_of-Inv Inv (s, fast_open_result e) h

  with_size-Inv :
      (Inv : K → Type 0) (r : ℤ × Option Errno) (s : K) (f : ℤ → Result K)
      → Inv s
      → ((v : ℤ) → Inv (f v).0)
      → Inv (with_size r s f).0
  with_size-Inv Inv (v, none) s f h next = next v
  with_size-Inv Inv (v, some e) s f h next = h

module _ {K : Type 0} (ops : Sockopts K) (Inv : K → Type 0) where
  -- The option can be set, to any value, without harm.
  abbrev pub Keeps : ℕ → ℕ → Type 0
  Keeps level opt = (v : ℤ) (s : K) → Inv s → Inv (ops.set level opt v s).0

  pub ensure_buffer-Inv :
      (k : BufferKind) (requested : ℤ) (doubled : Bool) (s : K)
      → Keeps sol_socket k.opt
      → Keeps sol_socket k.force
      → Inv s
      → Inv (ensure_buffer ops k requested doubled s).0
  unfolding ensure_buffer
  ensure_buffer-Inv k requested doubled s opt force h =
      and_next-Inv Inv (result_of (ops.set sol_socket k.opt requested s)) _
        (result_of-Inv Inv (ops.set sol_socket k.opt requested s) (opt requested s h))
        (λ s' h'. with_size-Inv Inv (read_buffer ops k doubled s') s' _ h' (λ actual.
          if-cases (λ (r : Result K). Inv r.0) (ltb_ℤ actual requested && not (k.force == 0))
            (λ _.
              let forced = (ops.set sol_socket k.force requested s').0 in
              with_size-Inv Inv (read_buffer ops k doubled forced) forced _ (force requested s' h')
                (λ _. force requested s' h'))
            (λ _. h')))

  pub ensure_wanted-Inv :
      (k : BufferKind) (size : ℤ) (s : K)
      → Keeps sol_socket k.opt
      → Keeps sol_socket k.force
      → Inv s
      → Inv (ensure_wanted ops k size s).0
  ensure_wanted-Inv k size s opt force h =
      if-cases (λ (r : Result K). Inv r.0) (ltb_ℤ (pos 0) size)
        (λ _. ensure_buffer-Inv k size true s opt force h) (λ _. h)

  pub open_fast-Inv :
      (o : Options) (s : K)
      → (o.fast_open.enabled ≡ true → Keeps ipproto_tcp tcp_fast_open_opt)
      → Inv s
      → Inv (open_fast ops o s).0
  open_fast-Inv o s fast h =
      if-cases (λ (r : Result K). Inv r.0) (not o.fast_open.enabled) (λ _. h)
        (λ e.
          fast_result-Inv Inv (ops.set ipproto_tcp tcp_fast_open_opt _ s)
            (fast (ground arith) _ s h))

  pub apply_options-Inv :
      (o : Options) (s : K)
      → Keeps sol_socket so_reuse_port
      → (o.fast_open.enabled ≡ true → Keeps ipproto_tcp tcp_fast_open_opt)
      → Inv s
      → Inv (apply_options ops o s).0
  unfolding apply_options
  apply_options-Inv o s port fast h =
      and_next-Inv Inv (reuse ops o s) (open_fast ops o)
        (if-cases (λ (r : Result K). Inv r.0) o.reuse_port
          (λ _. result_of-Inv Inv (ops.set sol_socket so_reuse_port (pos 1) s) (port (pos 1) s h))
          (λ _. h))
        (λ s' h'. open_fast-Inv o s' fast h')

  -- The options of the buffers and of the port.
  pub record KeepsSized : Type 0 where
    pub recv : Keeps sol_socket recv_buffer_kind.opt
    pub recv_force : Keeps sol_socket recv_buffer_kind.force
    pub send : Keeps sol_socket send_buffer_kind.opt
    pub send_force : Keeps sol_socket send_buffer_kind.force
    pub port : Keeps sol_socket so_reuse_port

  pub apply_buffers-Inv : (o : Options) (s : K) → KeepsSized → Inv s → Inv (apply_buffers ops o s).0
  unfolding apply_buffers
  apply_buffers-Inv o s keeps h =
      and_next-Inv Inv (ensure_wanted ops recv_buffer_kind o.recv_buffer s) _
        (ensure_wanted-Inv recv_buffer_kind o.recv_buffer s keeps.recv keeps.recv_force h)
        (λ s' h'.
          ensure_wanted-Inv send_buffer_kind o.send_buffer s' keeps.send keeps.send_force h')
