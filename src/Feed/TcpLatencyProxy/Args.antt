-- ===== src/Feed/TcpLatencyProxy/Args.antt =====
-- feed/TCPLatencyProxy.cpp, `parse_args` with its conversions and clamps, `parse_direction`, and the
-- checks of `main`. The arguments are those behind argv[0]. `strtod` is `std::strtod`, the value and
-- the bytes behind it, and `is_ipv4` says whether `inet_pton` reads a text. The messages are left out.
pub mod Range
use chrono_trade.Common.{
  ℕ, zero, suc, ◌+◌, ◌-◌, ◌^◌, ◌%◌, Bool, true, false, not, ◌&&◌, ◌||◌, Option, none, some, List,
  [], ◌∷◌, ◌==◌, ltb, if◌then◌else◌,
}
use chrono_trade.Common.Int.{ℤ, pos, negsuc, ltb_ℤ, leb_ℤ}
use chrono_trade.Common.Float.{Float}
use chrono_trade.Feed.Text.{bytes, strtol}
use chrono_trade.Feed.TcpLatencyProxy.Buffer.{buffer_size}

pub record ProxyConfig (W : Type 0) : Type 0 where
  pub listen_host : List ℕ
  pub listen_port : ℤ
  pub upstream_host : List ℕ
  pub upstream_port : ℤ
  pub latency_ms : ℤ
  pub jitter_ms : ℤ
  pub drop_rate : W
  pub dup_rate : W
  pub bandwidth_kbps : ℤ
  pub buffer_bytes : ℕ
  pub direction : List ℕ
  pub max_connections : ℤ
  pub half_close : Bool
  pub enable_burst : Bool
  pub burst_seconds : ℤ
  pub http_friendly_errors : Bool
  pub rst_on_upstream_connect_fail : Bool
  pub rst_on_midstream_errors : Bool
  pub socket_timeout_sec : ℤ
  pub idle_timeout_sec : ℤ
  pub verbose : Bool
  pub v6_only : Bool
  pub seed : ℕ
  pub max_latency_ms : ℤ

-- `static_cast<int>` of a long, and `static_cast<uint32_t>` of an int.
abbrev pub to_uint32 : ℤ → ℕ
to_uint32 (pos n) = n % 2 ^ 32
to_uint32 (negsuc n) = 2 ^ 32 - 1 - n % 2 ^ 32

abbrev pub to_int : ℤ → ℤ
to_int z = let n = to_uint32 z in if ltb n (2 ^ 31) then pos n else negsuc (2 ^ 32 - 1 - n)

abbrev is_empty : List ℕ → Bool
is_empty [] = true
is_empty (c ∷ cs) = false

abbrev pub parse_int : List ℕ → Option ℤ
parse_int s =
    let (v, end) = strtol s in if is_empty s || not (is_empty end) then none else some (to_int v)

abbrev size_of : ℤ → Option ℕ
size_of (pos n) = some n
size_of (negsuc n) = none

abbrev pub parse_size : List ℕ → Option ℕ
parse_size s =
    let (v, end) = strtol s in if is_empty s || not (is_empty end) then none else size_of v

abbrev pub same_text : List ℕ → List ℕ → Bool
same_text [] [] = true
same_text [] (d ∷ ds) = false
same_text (c ∷ cs) [] = false
same_text (c ∷ cs) (d ∷ ds) = c == d && same_text cs ds

-- `std::max(a, b)` and `std::min(a, b)` of ints.
abbrev pub max_ℤ : ℤ → ℤ → ℤ
max_ℤ a b = if ltb_ℤ a b then b else a

abbrev pub min_ℤ : ℤ → ℤ → ℤ
min_ℤ a b = if ltb_ℤ b a then b else a

-- What an argument is: a switch, a name with a value behind it, which may be refused, or unknown.
pub data Known (C : Type 0) : Type 0 where
  switch : (C → C) → Known C
  takes : (List ℕ → C → Option C) → Known C
  unknown : Known C

abbrev pub or_else : {C : Type 0} → Bool → Known C → Known C → Known C
or_else b known rest = if b then known else rest

abbrev pub int_value : {C : Type 0} → (ℤ → C → C) → Known C
int_value set = takes (λ s c. elim (parse_int s) [ none ↦ none | some v ↦ some (set v c) ])

abbrev pub size_value : {C : Type 0} → (ℕ → C → C) → Known C
size_value set = takes (λ s c. elim (parse_size s) [ none ↦ none | some v ↦ some (set v c) ])

abbrev pub text_value : {C : Type 0} → (List ℕ → C → C) → Known C
text_value set = takes (λ s c. some (set s c))

module _ {W : Type 0} (strtod : List ℕ → W × List ℕ) where
  abbrev pub parse_double : List ℕ → Option W
  parse_double s =
      let (v, end) = strtod s in if is_empty s || not (is_empty end) then none else some v

  abbrev double_value : {C : Type 0} → (W → C → C) → Known C
  double_value set = takes (λ s c. elim (parse_double s) [ none ↦ none | some v ↦ some (set v c) ])

  -- The chain of tests of an argument.
  unfoldable pub known : List ℕ → Known (ProxyConfig W)
  known a =
      or_else (same_text a (bytes "--listen-host"))
        (text_value (λ v c. record c { listen_host = v }))
        (or_else (same_text a (bytes "--listen-port"))
          (int_value (λ v c. record c { listen_port = v }))
          (or_else (same_text a (bytes "--upstream-host"))
            (text_value (λ v c. record c { upstream_host = v }))
            (or_else (same_text a (bytes "--upstream-port"))
              (int_value (λ v c. record c { upstream_port = v }))
              (or_else (same_text a (bytes "--latency-ms"))
                (int_value (λ v c. record c { latency_ms = v }))
                (or_else (same_text a (bytes "--jitter-ms"))
                  (int_value (λ v c. record c { jitter_ms = v }))
                  (or_else (same_text a (bytes "--drop-rate"))
                    (double_value (λ v c. record c { drop_rate = v }))
                    (or_else (same_text a (bytes "--dup-rate"))
                      (double_value (λ v c. record c { dup_rate = v }))
                      (or_else (same_text a (bytes "--bandwidth-kbps"))
                        (int_value (λ v c. record c { bandwidth_kbps = v }))
                        (or_else (same_text a (bytes "--buffer-bytes"))
                          (size_value (λ v c. record c { buffer_bytes = v }))
                          (or_else (same_text a (bytes "--direction"))
                            (text_value (λ v c. record c { direction = v }))
                            (or_else (same_text a (bytes "--max-connections"))
                              (int_value (λ v c. record c { max_connections = v }))
                              (or_else (same_text a (bytes "--no-half-close"))
                                (switch (λ c. record c { half_close = false }))
                                (or_else (same_text a (bytes "--half-close"))
                                  (switch (λ c. record c { half_close = true }))
                                  (or_else (same_text a (bytes "--burst-seconds"))
                                    (int_value (λ v c. record c { burst_seconds = v }))
                                    (or_else (same_text a (bytes "--enable-burst"))
                                      (switch (λ c. record c { enable_burst = true }))
                                      (or_else (same_text a (bytes "--max-latency-ms"))
                                        (int_value (λ v c. record c { max_latency_ms = v }))
                                        (or_else (same_text a (bytes "--http-friendly-errors"))
                                          (switch (λ c. record c { http_friendly_errors = true }))
                                          (or_else
                                            (same_text a (bytes "--rst-on-upstream-connect-fail"))
                                            (switch (λ c. record c {
                                              rst_on_upstream_connect_fail = true;
                                            }))
                                            (or_else
                                              (same_text a (bytes "--rst-on-midstream-errors"))
                                              (switch
                                                (λ c. record c { rst_on_midstream_errors = true }))
                                              (or_else (same_text a (bytes "--socket-timeout-sec"))
                                                (int_value
                                                  (λ v c. record c { socket_timeout_sec = v }))
                                                (or_else (same_text a (bytes "--idle-timeout-sec"))
                                                  (int_value
                                                    (λ v c. record c { idle_timeout_sec = v }))
                                                  (or_else (same_text a (bytes "--v6-only"))
                                                    (switch (λ c. record c { v6_only = true }))
                                                    (or_else
                                                      (same_text a (bytes "--verbose")
                                                        || same_text a (bytes "-v"))
                                                      (switch (λ c. record c { verbose = true }))
                                                      (or_else (same_text a (bytes "--seed"))
                                                        (int_value
                                                          (λ v c. record c { seed = to_uint32 v }))
                                                        unknown))))))))))))))))))))))))

  -- The loop over the arguments. `behind` is the argument in front, if it takes a value.
  unfoldable pub parse_loop :
      Option (List ℕ → ProxyConfig W → Option (ProxyConfig W))
      → List (List ℕ)
      → ProxyConfig W
      → Option (ProxyConfig W)
  unfolding known
  parse_loop none [] cfg = some cfg
  parse_loop (some use_value) [] cfg = none
  parse_loop none (a ∷ args) cfg = elim (known a) [
    | switch set ↦ parse_loop none args (set cfg)
    | takes use_value ↦ parse_loop (some use_value) args cfg
    | unknown ↦ none
  ]
  parse_loop (some use_value) (a ∷ args) cfg = elim (use_value a cfg) [
    | none ↦ none
    | some c ↦ parse_loop none args c
  ]

module _ {W : Type 0} ⦃f : Float W⦄ where
  -- `std::max(0.0, std::min(1.0, x))`
  abbrev clamp_rate : W → W
  clamp_rate x =
      let low = if f.lt x (f.lit 1 0) then x else f.lit 1 0 in
      if f.lt (f.lit 0 0) low then low else f.lit 0 0

  abbrev pub clamp : ProxyConfig W → ProxyConfig W
  clamp c = record c {
    drop_rate = clamp_rate c.drop_rate;
    dup_rate = clamp_rate c.dup_rate;
    jitter_ms = max_ℤ (pos 0) c.jitter_ms;
    latency_ms = max_ℤ (pos 0) c.latency_ms;
    bandwidth_kbps = max_ℤ (pos 0) (min_ℤ (pos 1_000_000) c.bandwidth_kbps);
    socket_timeout_sec = max_ℤ (pos 1) (min_ℤ (pos 300) c.socket_timeout_sec);
    idle_timeout_sec = max_ℤ (pos 10) (min_ℤ (pos 3600) c.idle_timeout_sec);
    burst_seconds = max_ℤ (pos 1) (min_ℤ (pos 10) c.burst_seconds);
    max_latency_ms = max_ℤ (pos 100) (min_ℤ (pos 60_000) c.max_latency_ms);
    max_connections = max_ℤ (pos 1) (min_ℤ (pos 100_000) c.max_connections);
    buffer_bytes = buffer_size c.buffer_bytes;
  }

module _ {W : Type 0} (is_ipv4 : List ℕ → Bool) where
  abbrev pub checked : ProxyConfig W → Option (ProxyConfig W)
  checked c = if c.v6_only && is_ipv4 c.listen_host then none else some c

module _ {W : Type 0} (strtod : List ℕ → W × List ℕ) ⦃f : Float W⦄ (is_ipv4 : List ℕ → Bool) where
  unfoldable pub parse_args : List (List ℕ) → ProxyConfig W → Option (ProxyConfig W)
  unfolding parse_loop
  parse_args args cfg = elim (parse_loop strtod none args cfg) [
    | none ↦ none
    | some c ↦ checked is_ipv4 (clamp c)
  ]

pub record DirectionFlags : Type 0 where
  pub up : Bool
  pub down : Bool

abbrev both_disabled : DirectionFlags → Bool
both_disabled d = not d.up && not d.down

-- `parse_direction` behind its chain of tests.
abbrev usable : DirectionFlags → Option DirectionFlags
usable d = if both_disabled d then none else some d

-- `none` where it throws.
abbrev pub parse_direction : List ℕ → Option DirectionFlags
parse_direction d =
    if same_text d (bytes "up")
    then usable (record { up = true; down = false })
    else if same_text d (bytes "down")
    then usable (record { up = false; down = true })
    else if same_text d (bytes "both")
    then usable (record { up = true; down = true })
    else none

-- `port <= 0 || port > 65535`
abbrev pub bad_port : ℤ → Bool
bad_port port = leb_ℤ port (pos 0) || ltb_ℤ (pos 65_535) port

module _ {W : Type 0} where
  -- The checks of `main` before it listens; `none` where it returns 1.
  abbrev pub validated : ProxyConfig W → Option (ProxyConfig W × DirectionFlags)
  validated c =
      if bad_port c.listen_port || bad_port c.upstream_port
      then none
      else (elim (parse_direction c.direction) [ none ↦ none | some d ↦ some (c, d) ])

  -- The initial values of `ProxyConfig`.
  abbrev pub default_config : ⦃f : Float W⦄ → ProxyConfig W
  default_config ⦃f⦄ = record {
    listen_host = bytes "127.0.0.1";
    listen_port = pos 7001;
    upstream_host = bytes "127.0.0.1";
    upstream_port = pos 7002;
    latency_ms = pos 0;
    jitter_ms = pos 0;
    drop_rate = f.lit 0 0;
    dup_rate = f.lit 0 0;
    bandwidth_kbps = pos 0;
    buffer_bytes = 4096;
    direction = bytes "both";
    max_connections = pos 128;
    half_close = true;
    enable_burst = false;
    burst_seconds = pos 2;
    http_friendly_errors = false;
    rst_on_upstream_connect_fail = false;
    rst_on_midstream_errors = false;
    socket_timeout_sec = pos 10;
    idle_timeout_sec = pos 300;
    verbose = false;
    v6_only = false;
    seed = 0;
    max_latency_ms = pos 2000;
  }

  -- `main` up to the listening socket.
  unfoldable pub configure :
      (List ℕ → W × List ℕ)
      → ⦃f : Float W⦄ → (List ℕ → Bool)
      → List (List ℕ)
      → Option (ProxyConfig W × DirectionFlags)
  unfolding parse_args
  configure strtod ⦃f⦄ is_ipv4 args = elim (parse_args strtod is_ipv4 args default_config) [
    | none ↦ none
    | some c ↦ validated c
  ]
