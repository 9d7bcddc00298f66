-- ===== src/Socket/Refused.antt =====
-- Options that are refused never reach the socket.
use go_netx.Base.{
  ℕ, ◌≡◌, refl, Bool, true, false, not, true≢false, ◌&&◌, Option, none, some, if◌then◌else◌,
  if-cases,
}
use go_netx.Base.Int.{ℤ, pos, ltb_ℤ}
use go_netx.Socket.{
  Options, Network, Error, Errno, sys, short, refused, unsupported, nil_connection, tcp_fast_open,
  dialed_connections, Sockopts, Result, BufferKind, and_next, result_of, fast_result,
  fast_open_result, ensure_wanted, recv_buffer_kind, send_buffer_kind, apply_buffers, reuse,
  open_fast, apply_options, check_network, is_zero_options, control, sol_socket, so_reuse_port,
}
use go_netx.Socket.Granted.{IsEnsured, ensure_buffer_lem}

module _ {K : Type 0} where
  -- The error is not that an option is unsupported.
  abbrev pub IsOfCalls : Result K → Type 0
  IsOfCalls (s, some (unsupported f p)) = true ≡ false
  IsOfCalls (s, e) = Unit

  and_next-IsOfCalls :
      (r : Result K) (f : K → Result K)
      → IsOfCalls r
      → ((s : K) → IsOfCalls (f s))
      → IsOfCalls (and_next r f)
  and_next-IsOfCalls (s, none) f h next = next s
  and_next-IsOfCalls (s, some e) f h next = h

  result_of-IsOfCalls : (r : K × Option Errno) → IsOfCalls (result_of r)
  result_of-IsOfCalls (s, none) = tt
  result_of-IsOfCalls (s, some e) = tt

  -- An unsupported option leaves the socket as it was.
  abbrev pub IsUntouched : K → Result K → Type 0
  IsUntouched s (s', some (unsupported f p)) = s' ≡ s
  IsUntouched s (s', e) = Unit

  IsOfCalls-IsUntouched : (s : K) (r : Result K) → IsOfCalls r → IsUntouched s r
  IsOfCalls-IsUntouched s (s', none) h = tt
  IsOfCalls-IsUntouched s (s', some (unsupported f p)) h = absurd (true≢false h)
  IsOfCalls-IsUntouched s (s', some nil_connection) h = tt
  IsOfCalls-IsUntouched s (s', some (short n a b)) h = tt
  IsOfCalls-IsUntouched s (s', some (sys e)) h = tt
  IsOfCalls-IsUntouched s (s', some (refused e)) h = tt

module _ {K : Type 0} (ops : Sockopts K) where
  ensured-IsOfCalls :
      (k : BufferKind) (requested : ℤ) (r : Result K)
      → IsEnsured ops k requested true r
      → IsOfCalls r
  ensured-IsOfCalls k requested (s, none) h = tt
  ensured-IsOfCalls k requested (s, some (unsupported f p)) h = h
  ensured-IsOfCalls k requested (s, some nil_connection) h = tt
  ensured-IsOfCalls k requested (s, some (short n a b)) h = tt
  ensured-IsOfCalls k requested (s, some (sys e)) h = tt
  ensured-IsOfCalls k requested (s, some (refused e)) h = tt

  ensure_wanted-IsOfCalls :
      (k : BufferKind) (size : ℤ) (s : K) → IsOfCalls (ensure_wanted ops k size s)
  ensure_wanted-IsOfCalls k size s =
      if-cases IsOfCalls (ltb_ℤ (pos 0) size)
        (λ _. ensured-IsOfCalls k size _ (ensure_buffer_lem ops k size true s)) (λ _. tt)

  reuse-IsOfCalls : (o : Options) (s : K) → IsOfCalls (reuse ops o s)
  reuse-IsOfCalls o s =
      if-cases IsOfCalls o.reuse_port
        (λ _. result_of-IsOfCalls (ops.set sol_socket so_reuse_port (pos 1) s)) (λ _. tt)

  fast_result-IsOfCalls : (r : K × Option Errno) → IsOfCalls (fast_result r)
  fast_result-IsOfCalls (s, e) = result_of-IsOfCalls (s, fast_open_result e)

  open_fast-IsOfCalls : (o : Options) (s : K) → IsOfCalls (open_fast ops o s)
  open_fast-IsOfCalls o s =
      if-cases IsOfCalls (not o.fast_open.enabled) (λ _. tt) (λ _. fast_result-IsOfCalls _)

  apply-IsOfCalls :
      (o : Options) (s : K) → IsOfCalls (and_next (apply_buffers ops o s) (apply_options ops o))
  unfolding apply_buffers apply_options
  apply-IsOfCalls o s =
      and_next-IsOfCalls (apply_buffers ops o s) (apply_options ops o)
        (and_next-IsOfCalls (ensure_wanted ops recv_buffer_kind o.recv_buffer s) _
          (ensure_wanted-IsOfCalls recv_buffer_kind o.recv_buffer s)
          (ensure_wanted-IsOfCalls send_buffer_kind o.send_buffer))
        (λ s'. and_next-IsOfCalls (reuse ops o s') _ (reuse-IsOfCalls o s') (open_fast-IsOfCalls o))

  -- An option that is unsupported never reaches the socket: where the Control function of a listener or a dialer
  -- fails so, with any options and on any network, it has set nothing.
  pub control-IsUntouched :
      (o : Options) (outbound : Bool) (n : Network) (raw : Option ℕ) (s : K)
      → IsUntouched s (control ops o outbound n raw s)
  unfolding control
  control-IsUntouched o outbound n raw s = checked (check_network n o)
    where
      run :
          (e : Option ℕ)
          → IsUntouched s (elim e as (λ _. Result K) [
            | some e ↦ (s, some (refused e))
            | none ↦ and_next (apply_buffers ops o s) (apply_options ops o)
          ])
      run none = IsOfCalls-IsUntouched s _ (apply-IsOfCalls o s)
      run (some e) = tt

      early : (e : Error) → IsUntouched s (s, some e)
      early nil_connection = tt
      early (unsupported f p) = refl
      early (short n a b) = tt
      early (sys e) = tt
      early (refused e) = tt

      checked :
          (c : Option Error)
          → IsUntouched s (elim c as (λ _. Result K) [
            | some e ↦ (s, some e)
            | none ↦
                if outbound && o.fast_open.enabled
                then (s, some (unsupported tcp_fast_open dialed_connections))
                else if is_zero_options o
                then (s, none)
                else elim raw [
                  | some e ↦ (s, some (refused e))
                  | none ↦ and_next (apply_buffers ops o s) (apply_options ops o)
                ]
          ])
      checked (some e) = early e
      checked none =
          if-cases (IsUntouched s) (outbound && o.fast_open.enabled) (λ _. refl)
            (λ _. if-cases (IsUntouched s) (is_zero_options o) (λ _. tt) (λ _. run raw))
