-- ===== src/Socket/Outbound.antt =====
-- What a dial does to its socket: Fast Open is never set.
use go_netx.Base.{ℕ, ◌≡◌, arith, true, false, ◌&&◌, Option, none, some, if◌then◌else◌, if-cases}
use go_netx.Socket.{
  Options, Network, Error, refused, unsupported, tcp_fast_open, dialed_connections, Sockopts,
  Result, and_next, apply_buffers, apply_options, check_network, is_zero_options, control,
}
use go_netx.Socket.Frame.{KeepsSized, apply_buffers-Inv, apply_options-Inv, and_next-Inv}
use go_netx.Socket.Config.{Dialer, hook, dialer}

module _ {K : Type 0} (ops : Sockopts K) (Inv : K → Type 0) where
  control-Inv :
      (o : Options) (n : Network) (raw : Option ℕ) (s : K)
      → KeepsSized ops Inv
      → Inv s
      → Inv (control ops o true n raw s).0
  unfolding control
  control-Inv o n raw s keeps h = checked (check_network n o)
    where
      run :
          o.fast_open.enabled ≡ false
          → (e : Option ℕ)
          → let r : Result K = elim e as (λ _. Result K) [
            | some e ↦ (s, some (refused e))
            | none ↦ and_next (apply_buffers ops o s) (apply_options ops o)
          ] in
            Inv r.0
      run off none =
          and_next-Inv Inv (apply_buffers ops o s) (apply_options ops o)
            (apply_buffers-Inv ops Inv o s keeps h)
            (λ s' h'. apply_options-Inv ops Inv o s' keeps.port (λ on. absurd (ground arith)) h')
      run off (some e) = h

      checked :
          (c : Option Error)
          → let r : Result K = elim c as (λ _. Result K) [
            | some e ↦ (s, some e)
            | none ↦
                if true && o.fast_open.enabled
                then (s, some (unsupported tcp_fast_open dialed_connections))
                else if is_zero_options o
                then (s, none)
                else elim raw [
                  | some e ↦ (s, some (refused e))
                  | none ↦ and_next (apply_buffers ops o s) (apply_options ops o)
                ]
          ] in
            Inv r.0
      checked (some e) = h
      checked none =
          if-cases (λ (r : Result K). Inv r.0) o.fast_open.enabled (λ _. h)
            (λ off.
              if-cases (λ (r : Result K). Inv r.0) (is_zero_options o) (λ _. h) (λ _. run off raw))

  -- Nothing that a dial does can touch TCP Fast Open: whatever holds of the socket, and stays true when the sizes of
  -- its buffers or the reuse of its port are set, also stays true through the hook of a Dialer, with any options
  -- and on any network, provided the hooks of the dialer that it was made from keep it true.
  pub dialer-Inv :
      (base : Dialer K) (o : Options) (n : Network) (address : ℕ) (raw : Option ℕ) (s : K)
      → KeepsSized ops Inv
      → ((s : K) → Inv s → Inv (hook ops base n address raw s).0)
      → Inv s
      → Inv (hook ops (dialer ops base o) n address raw s).0
  unfolding dialer
  dialer-Inv base o n address raw s keeps user h =
      and_next-Inv Inv (hook ops base n address raw s) (control ops o true n raw) (user s h)
        (λ s' h'. control-Inv o n raw s' keeps h')
