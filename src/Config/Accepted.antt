-- ===== src/Config/Accepted.antt =====
-- internal/config/config.go: which files `Load` accepts.
use vlf_proto.Base.{
  zero, suc, true, false, not, ◌||◌, [], ◌∷◌, ◌==◌, Option, none, some, ok, ◌≡◌, ◌≢◌, ◌↔◌, refl,
  sym, ap, ◌∙◌, arith,
}
use vlf_proto.Base.Ints.{ℤ, pos, negsuc, is_zero, is_negative, is_below, is_at_most_zero}
use vlf_proto.Base.Assoc.{Map}
use vlf_proto.Wire.{Bytes}
use vlf_proto.Config.{
  Config, ConfigError, default_config, or_number, or_secrets, limits_defaults, apply_defaults,
  secret_count, validate, checked, load,
}

-- A number that a default stands in for when it is zero.
abbrev pub NotNegative : ℤ → Type 0
NotNegative n = is_negative n ≡ false

-- What the decoded file may say: nothing, or something of use.
pub record IsAcceptable (c : Config) : Type 0 where
  pub secrets : c.client_secrets ≢ some []
  pub payload : is_zero c.max_dgram_payload || not (is_below c.max_dgram_payload 256) ≡ true
  pub recv_window : NotNegative c.limits.max_recv_window_bytes
  pub send_window : NotNegative c.limits.relay_send_window_bytes
  pub workers : NotNegative c.limits.session_datagram_workers
  pub queue : NotNegative c.limits.session_datagram_queue
  pub relay_idle : NotNegative c.timeouts.relay_idle
  pub session_idle : NotNegative c.timeouts.session_idle
  pub dial_timeout : NotNegative c.timeouts.dial_timeout
  pub clock_skew : NotNegative c.auth.clock_skew
  pub replay_ttl : NotNegative c.auth.replay_ttl

is_at_most_zero-or_number :
    (n def : ℤ) → is_at_most_zero def ≡ false → is_at_most_zero (or_number n def) ≡ is_negative n
unfolding or_number is_zero is_below is_negative
is_at_most_zero-or_number (pos zero) def h = h
is_at_most_zero-or_number (pos (suc m)) def h = ground arith
is_at_most_zero-or_number (negsuc m) def h = refl

is_below-or_number :
    (n def : ℤ)
    → is_below def 256 ≡ false
    → not (is_below (or_number n def) 256) ≡ (is_zero n || not (is_below n 256))
unfolding or_number is_zero is_below
is_below-or_number (pos zero) def h = rw h refl
is_below-or_number (pos (suc m)) def h = refl
is_below-or_number (negsuc m) def h = refl

-- No check of `Validate` fails.
abbrev Passes : Config → Type 0
Passes c =
    ((secret_count c.client_secrets == 0) ≡ false)
    × (is_below c.max_dgram_payload 256 ≡ false)
    × (is_at_most_zero c.limits.max_recv_window_bytes ≡ false)
    × (is_at_most_zero c.limits.relay_send_window_bytes ≡ false)
    × (is_at_most_zero c.limits.session_datagram_workers ≡ false)
    × (is_at_most_zero c.limits.session_datagram_queue ≡ false)
    × (is_at_most_zero c.timeouts.relay_idle ≡ false)
    × (is_at_most_zero c.timeouts.session_idle ≡ false)
    × (is_at_most_zero c.timeouts.dial_timeout ≡ false)
    × (is_at_most_zero c.auth.clock_skew ≡ false)
    × (is_at_most_zero c.auth.replay_ttl ≡ false)

validate-Passes : (c : Config) → validate c ≡ none → Passes c
unfolding validate
validate-Passes c h = ground (arith, h)

validate-none : (c : Config) → Passes c → validate c ≡ none
unfolding validate
validate-none c p = ground (arith, p)

secret_count-or_secrets :
    (x : Option (Map Bytes Bytes))
    → ((secret_count (or_secrets x default_config.client_secrets) == 0) ≡ false) ↔ (x ≢ some [])
unfolding secret_count or_secrets default_config
secret_count-or_secrets none = (λ e. λ f. absurd (cc), λ g. refl)
secret_count-or_secrets (some []) = (λ e. absurd (cc), λ g. absurd (g refl))
secret_count-or_secrets (some (p ∷ ps)) = (λ e f. absurd (ground (arith, f)), λ g. ground arith)

-- A number passes with its default exactly when it is not negative.
abbrev Defaulted : ℤ → ℤ → Type 0
Defaulted n def = (is_at_most_zero (or_number n def) ≡ false) ↔ NotNegative n

number_passes : (n def : ℤ) → is_at_most_zero def ≡ false → Defaulted n def
number_passes n def h =
    let same = is_at_most_zero-or_number n def h in (λ p. sym same ∙ p, λ p. same ∙ p)

payload_passes :
    (n : ℤ)
    → (is_below (or_number n default_config.max_dgram_payload) 256 ≡ false)
      ↔ (is_zero n || not (is_below n 256) ≡ true)
unfolding default_config is_below
payload_passes n =
    let same = is_below-or_number n (pos 1200) refl in
    (λ p. sym same ∙ ap not p, λ p. ground (arith, same, p))

apply_defaults-Passes : (c : Config) → Passes (apply_defaults c) ↔ IsAcceptable c
unfolding apply_defaults limits_defaults default_config is_below
apply_defaults-Passes c =
    let secrets = secret_count-or_secrets c.client_secrets in
    let payload = payload_passes c.max_dgram_payload in
    let recv_window =
      number_passes c.limits.max_recv_window_bytes default_config.limits.max_recv_window_bytes
        refl in
    let send_window =
      number_passes c.limits.relay_send_window_bytes default_config.limits.relay_send_window_bytes
        refl in
    let workers =
      number_passes c.limits.session_datagram_workers default_config.limits.session_datagram_workers
        refl in
    let queue =
      number_passes c.limits.session_datagram_queue default_config.limits.session_datagram_queue
        refl in
    let relay_idle = number_passes c.timeouts.relay_idle default_config.timeouts.relay_idle refl in
    let session_idle =
      number_passes c.timeouts.session_idle default_config.timeouts.session_idle refl in
    let dial_timeout =
      number_passes c.timeouts.dial_timeout default_config.timeouts.dial_timeout refl in
    let clock_skew = number_passes c.auth.clock_skew default_config.auth.clock_skew refl in
    let replay_ttl = number_passes c.auth.replay_ttl default_config.auth.replay_ttl refl in
    (
      λ p. record {
        secrets = secrets.0 p.0;
        payload = payload.0 p.1;
        recv_window = recv_window.0 p.2;
        send_window = send_window.0 p.3;
        workers = workers.0 p.4;
        queue = queue.0 p.5;
        relay_idle = relay_idle.0 p.6;
        session_idle = session_idle.0 p.7;
        dial_timeout = dial_timeout.0 p.8;
        clock_skew = clock_skew.0 p.9;
        replay_ttl = replay_ttl.0 p.10;
      },
      λ a. (
        secrets.1 a.secrets,
        payload.1 a.payload,
        recv_window.1 a.recv_window,
        send_window.1 a.send_window,
        workers.1 a.workers,
        queue.1 a.queue,
        relay_idle.1 a.relay_idle,
        session_idle.1 a.session_idle,
        dial_timeout.1 a.dial_timeout,
        clock_skew.1 a.clock_skew,
        replay_ttl.1 a.replay_ttl,
      ),
    )

checked-ok :
    (c : Config) (reason : Option ConfigError) → (checked c reason ≡ ok c) ↔ (reason ≡ none)
unfolding checked
checked-ok c none = (λ e. refl, λ e. refl)
checked-ok c (some reason) = (λ e. absurd cc, λ e. absurd cc)

-- `Load` of a file whose YAML decodes gives the decoded configuration with its defaults exactly when
-- the decoded configuration has no empty map of secrets, has no negative number among those that
-- `Validate` tests, and has a `max_dgram_payload` of zero or of 256 at least.
pub load_iff_IsAcceptable :
    (unmarshal : Bytes → Config → Option Config) (raw : Bytes) (c : Config)
    → unmarshal raw default_config ≡ some c
    → (load unmarshal (some raw) ≡ ok (apply_defaults c)) ↔ IsAcceptable c
unfolding load
load_iff_IsAcceptable unmarshal raw c decoded =
    let done = apply_defaults c in
    let ends = checked-ok done (validate done) in
    let fields = apply_defaults-Passes c in
    rw (decoded, load)
      (
        λ e. fields.0 (validate-Passes done (ends.0 e)),
        λ acceptable. ends.1 (validate-none done (fields.1 acceptable)),
      )
