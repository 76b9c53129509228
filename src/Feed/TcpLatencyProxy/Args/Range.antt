-- ===== src/Feed/TcpLatencyProxy/Args/Range.antt =====
-- The configuration that the proxy runs with.
use chrono_trade.Common.{
  ℕ, ◌^◌, ◌≤◌, ◌≡◌, ◌⊎◌, ap, Bool, true, false, ◌||◌, Option, none, some, List, arith,
  if◌then◌else◌, if_elim,
}
use mathlib.Core.Path.{subst}
use chrono_trade.Common.Int.{ℤ, pos, ◌≤ℤ◌}
use chrono_trade.Common.Float.{Float, IsOrdered, ◌≼◌}
use chrono_trade.Feed.TcpLatencyProxy.Buffer.{buffer_size-IsLargest}
use chrono_trade.Feed.TcpLatencyProxy.Args.{
  ProxyConfig, DirectionFlags, max_ℤ, min_ℤ, clamp, checked, parse_loop, parse_args, default_config,
  parse_direction, bad_port, validated, configure,
}

abbrev pub Between : ℕ → ℤ → ℕ → Type 0
Between a z b = (pos a ≤ℤ z) × (z ≤ℤ pos b)

abbrev pub AtLeast : ℕ → ℤ → Type 0
AtLeast a z = pos a ≤ℤ z

-- Values that lie where the rest of the proxy expects them.
pub record IsClamped {W : Type 0} ⦃f : Float W⦄ (c : ProxyConfig W) : Type 0 where
  pub drop_rate : (f.lit 0 0 ≼ c.drop_rate) × (c.drop_rate ≼ f.lit 1 0)
  pub dup_rate : (f.lit 0 0 ≼ c.dup_rate) × (c.dup_rate ≼ f.lit 1 0)
  pub jitter_ms : AtLeast 0 c.jitter_ms
  pub latency_ms : AtLeast 0 c.latency_ms
  pub bandwidth_kbps : Between 0 c.bandwidth_kbps 1_000_000
  pub socket_timeout_sec : Between 1 c.socket_timeout_sec 300
  pub idle_timeout_sec : Between 10 c.idle_timeout_sec 3600
  pub burst_seconds : Between 1 c.burst_seconds 10
  pub max_latency_ms : Between 100 c.max_latency_ms 60_000
  pub max_connections : Between 1 c.max_connections 100_000
  pub buffer_bytes :
      (1024 ≤ c.buffer_bytes) × (c.buffer_bytes ≤ 2 ^ 20) × ((k : ℕ) × (c.buffer_bytes ≡ 2 ^ k))

-- A configuration to run with.
pub record IsInRange {W : Type 0} ⦃f : Float W⦄ (c : ProxyConfig W) (d : DirectionFlags)
    : Type 0 where
  pub values : IsClamped c
  pub listen_port : Between 1 c.listen_port 65_535
  pub upstream_port : Between 1 c.upstream_port 65_535
  pub some_direction : (d.up ≡ true) ⊎ (d.down ≡ true)

clamped : (a b : ℕ) (z : ℤ) → a ≤ b → Between a (max_ℤ (pos a) (min_ℤ (pos b) z)) b
clamped a b z h = ground arith

at_least : (a : ℕ) (z : ℤ) → AtLeast a (max_ℤ (pos a) z)
at_least a z = ground arith

good_port : (z : ℤ) → bad_port z ≡ false → Between 1 z 65_535
good_port z h = ground arith

one_direction :
    (text : List ℕ) (d : DirectionFlags)
    → parse_direction text ≡ some d
    → (d.up ≡ true) ⊎ (d.down ≡ true)
one_direction text d h = ground arith

module _ {W : Type 0} ⦃f : Float W⦄ (o : IsOrdered W) where
  open o use {le_refl, lt_le, lit_le, lit_nonneg, lit_finite}

  unit_rate :
      (x : W)
      → let low = if f.lt x (f.lit 1 0) then x else f.lit 1 0 in
        let r = if f.lt (f.lit 0 0) low then low else f.lit 0 0 in (f.lit 0 0 ≼ r) × (r ≼ f.lit 1 0)
  unit_rate x =
      let zero_finite = lit_finite 0 0 (omega arith) in
      let one_finite = lit_finite 1 0 (omega arith) in
      let low : W = if f.lt x (f.lit 1 0) then x else f.lit 1 0 in
      let below : low ≼ f.lit 1 0 =
        if_elim (λ r. r ≼ f.lit 1 0) (f.lt x (f.lit 1 0)) (λ e. lt_le x (f.lit 1 0) e)
          (λ _. le_refl (f.lit 1 0) one_finite) in
      if_elim (λ r. (f.lit 0 0 ≼ r) × (r ≼ f.lit 1 0)) (f.lt (f.lit 0 0) low)
        (λ e. (lt_le (f.lit 0 0) low e, below))
        (λ _. (le_refl (f.lit 0 0) zero_finite, lit_le 0 0 1 0 (omega arith)))

  clamp-IsClamped : (b : ProxyConfig W) → IsClamped (clamp b)
  clamp-IsClamped b =
      let ((k, e, _, _), size_ge, size_le) = buffer_size-IsLargest b.buffer_bytes in
      record {
        drop_rate = unit_rate b.drop_rate;
        dup_rate = unit_rate b.dup_rate;
        jitter_ms = at_least 0 b.jitter_ms;
        latency_ms = at_least 0 b.latency_ms;
        bandwidth_kbps = clamped 0 1_000_000 b.bandwidth_kbps (omega arith);
        socket_timeout_sec = clamped 1 300 b.socket_timeout_sec (omega arith);
        idle_timeout_sec = clamped 10 3600 b.idle_timeout_sec (omega arith);
        burst_seconds = clamped 1 10 b.burst_seconds (omega arith);
        max_latency_ms = clamped 100 60_000 b.max_latency_ms (omega arith);
        max_connections = clamped 1 100_000 b.max_connections (omega arith);
        buffer_bytes = (size_ge, size_le, (k, e));
      }

module _ {W : Type 0} ⦃f : Float W⦄ where
  validated_lem :
      (c b : ProxyConfig W) (d : DirectionFlags)
      → validated b ≡ some (c, d)
      → ((bad_port b.listen_port || bad_port b.upstream_port) ≡ false)
        × (parse_direction b.direction ≡ some d)
        × (b ≡ c)
  validated_lem c b d e = ground arith

  checked_lem : (is_ipv4 : List ℕ → Bool) (b c : ProxyConfig W) → checked is_ipv4 b ≡ some c → b ≡ c
  checked_lem is_ipv4 b c e = ground arith

  parse_args_clamps :
      (strtod : List ℕ → W × List ℕ) (is_ipv4 : List ℕ → Bool) (args : List (List ℕ))
      (cfg c : ProxyConfig W)
      → parse_args strtod is_ipv4 args cfg ≡ some c
      → (b : ProxyConfig W) × (clamp b ≡ c)
  unfolding parse_args
  parse_args_clamps strtod is_ipv4 args cfg c = clamps (parse_loop strtod none args cfg)
    where
      clamps :
          (o : Option (ProxyConfig W))
          → (elim o as (λ _. Option (ProxyConfig W)) [
            | none ↦ none
            | some b ↦ checked is_ipv4 (clamp b)
          ])
            ≡ some c
          → (b : ProxyConfig W) × (clamp b ≡ c)
      clamps none e = absurd (ground arith)
      clamps (some b) e = (b, checked_lem is_ipv4 (clamp b) c e)

  configure_lem :
      (strtod : List ℕ → W × List ℕ) (is_ipv4 : List ℕ → Bool) (args : List (List ℕ))
      (c : ProxyConfig W) (d : DirectionFlags)
      → configure strtod is_ipv4 args ≡ some (c, d)
      → (parse_args strtod is_ipv4 args default_config ≡ some c) × (validated c ≡ some (c, d))
  unfolding configure
  configure_lem strtod is_ipv4 args c d = goes (parse_args strtod is_ipv4 args default_config)
    where
      goes :
          (o : Option (ProxyConfig W))
          → (elim o as (λ _. Option (ProxyConfig W × DirectionFlags)) [
            | none ↦ none
            | some b ↦ validated b
          ])
            ≡ some (c, d)
          → (o ≡ some c) × (validated c ≡ some (c, d))
      goes none e = absurd (ground arith)
      goes (some b) e =
          let (_, _, same) = validated_lem c b d e in
          (ap some same, subst (λ x. validated x ≡ some (c, d)) same e)

  -- If the proxy accepts its arguments, whatever they are, every value of its configuration is in its
  -- range, a rate that is no number included, the buffer's size is a power of two, the ports are
  -- ports, and at least one direction is on.
  pub configure-IsInRange :
      (o : IsOrdered W) (strtod : List ℕ → W × List ℕ) (is_ipv4 : List ℕ → Bool)
      (args : List (List ℕ)) (c : ProxyConfig W) (d : DirectionFlags)
      → configure strtod is_ipv4 args ≡ some (c, d)
      → IsInRange c d
  configure-IsInRange o strtod is_ipv4 args c d e =
      let (parsed, valid) = configure_lem strtod is_ipv4 args c d e in
      let (b, same) = parse_args_clamps strtod is_ipv4 args default_config c parsed in
      let (ports, direction, _) = validated_lem c c d valid in
      record {
        values = subst (λ x. IsClamped x) same (clamp-IsClamped o b);
        listen_port = good_port c.listen_port (ground (arith, ports));
        upstream_port = good_port c.upstream_port (ground (arith, ports));
        some_direction = one_direction c.direction d direction;
      }
